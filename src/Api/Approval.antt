-- ===== src/Api/Approval.antt =====
-- api/openai_compat.py: the answer to a question about a command, over HTTP.
use silicon_valet.Prelude.{Bool, true, false, ◌&&◌, codes, text_eq, if◌then◌else◌}
use silicon_valet.Risk.Engine.{ok, Callback}

-- `_make_http_approval_callback`
unfoldable pub http_approval : {W : Type 0} → Bool → Callback W
http_approval allow_yellow command tier explanation w =
    if text_eq tier (codes "green")
    then (ok true, w)
    else if text_eq tier (codes "yellow") && allow_yellow
    then (ok true, w)
    else (ok false, w)
