-- ===== src/Config/Token.antt =====
-- The access token over restarts, and what a blank token file does.
use silicon_valet.Prelude.{◌≡◌, refl, true, Option, none, some, List, [], Text, strip}
use silicon_valet.Config.{ValetConfig, ensure_auth_token}
use silicon_valet.Server.Auth.{check_auth, admits}

-- Two starts without a configured token use the same token: the second finds in the file what the
-- first has read or written there, if the first one's write, where it makes one, leaves its secret
-- in the file, and the secret has no white space at its ends. Whatever secret the second would make.
pub ensure_auth_token_again :
    (secret secret' : Text) (write write' : Text → Option Text) (c : ValetConfig)
    (file : Option Text)
    → c.auth_token ≡ []
    → write secret ≡ some secret
    → strip secret ≡ secret
    → let (first, file') = ensure_auth_token secret write c file in
      (ensure_auth_token secret' write' c file').0.auth_token ≡ first.auth_token
unfolding ensure_auth_token
ensure_auth_token_again secret secret' write write' c none e h s = rw (e, h, s) refl
ensure_auth_token_again secret secret' write write' c (some text) e h s = rw (e) refl

blank_token :
    (secret : Text) (write : Text → Option Text) (c : ValetConfig) (text : Text)
    → c.auth_token ≡ []
    → strip text ≡ []
    → (ensure_auth_token secret write c (some text)).0.auth_token ≡ []
unfolding ensure_auth_token
blank_token secret write c text e h = rw (e, h) refl

-- With no configured token and a token file that is blank, the token is empty and both servers let
-- every client in, with whatever header and query.
pub ensure_auth_token_blank :
    (secret : Text) (write : Text → Option Text) (c : ValetConfig) (text : Text)
    (authorization : Option Text) (header : Text) (query : List Text)
    → c.auth_token ≡ []
    → strip text ≡ []
    → let token = (ensure_auth_token secret write c (some text)).0.auth_token in
      (check_auth token authorization ≡ true) × (admits token header query ≡ true)
unfolding check_auth admits
ensure_auth_token_blank secret write c text none header query e h =
    rw (blank_token secret write c text e h) (refl, refl)
ensure_auth_token_blank secret write c text (some a) header query e h =
    rw (blank_token secret write c text e h) (refl, refl)
