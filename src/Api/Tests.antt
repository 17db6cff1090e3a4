-- ===== src/Api/Tests.antt =====
-- Runs of api/openai_compat.py.
use silicon_valet.Prelude.{◌≡◌, refl, true, false, codes}
use silicon_valet.Risk.Engine.{ok}
use silicon_valet.Api.Approval.{http_approval}

http_denies : (http_approval true (codes "rm -rf /") (codes "red") (codes "why") tt).0 ≡ ok false
unfolding http_approval
http_denies = refl

http_opted_in : (http_approval true (codes "cp a b") (codes "yellow") (codes "why") tt).0 ≡ ok true
unfolding http_approval
http_opted_in = refl
