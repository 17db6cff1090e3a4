-- ===== src/Server/Auth.antt =====
-- api/openai_compat.py and server/ws_server.py: who may connect.
pub mod Same
use silicon_valet.Prelude.{
  Bool, true, false, not, ◌&&◌, Option, none, some, List, [], ◌∷◌, Text, codes, text_eq,
  if◌then◌else◌, lower, strip, is_empty, starts_with, partition,
}

-- `check_auth` of the HTTP server; false is a response 401
unfoldable pub check_auth : Text → Option Text → Bool
unfolding lower strip partition
check_auth expected none = is_empty expected
check_auth expected (some authorization) =
    if is_empty expected
    then true
    else if is_empty authorization
    then false
    else let (scheme, token) = partition b' ' authorization in
      text_eq (lower scheme) (codes "bearer") && text_eq (strip token) expected

-- the token of a header of the WebSocket handshake, "" if it holds none
unfoldable pub header_token : Text → Text
unfolding lower strip starts_with partition
header_token header =
    if starts_with (lower header) (codes "bearer ") then strip (partition b' ' header).1 else []

-- `(q.get("token") or [""])[0]`
unfoldable pub query_token : List Text → Text
query_token [] = []
query_token (t ∷ ts) = t

-- The test at the head of the WebSocket `handler`, on the header ("" if absent) and the values of
-- `token` in the query (none at all if it cannot be parsed); false closes the connection.
unfoldable pub admits : Text → Text → List Text → Bool
unfolding header_token query_token
admits expected header query =
    if is_empty expected
    then true
    else let token = header_token header in
      text_eq (if is_empty token then query_token query else token) expected
