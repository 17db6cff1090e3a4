-- ===== src/Server/Protocol/RoundTrip.antt =====
-- A message that is sent is received as it was.
use silicon_valet.Prelude.{◌≡◌, ◌≢◌, refl, ◌∙◌, ap, some, Text, codes}
use silicon_valet.Json.{Json, null, object, field, str, no_fields, one_line, bool, num, array}
use silicon_valet.Json.Lookup.{find_field}
use silicon_valet.Json.RoundTrip.{loads-dumps, one_line-IsBlank}
use silicon_valet.Server.Protocol.{
  MessageType, Message, user_input, token_stream, stream_end, risk_prompt, risk_response,
  session_status, command_output, failure, type_value, type_of, stamped, to_json, from_json,
  message_of, of_value,
}

type_of-type_value : (kind : MessageType) → type_of (str (type_value kind)) ≡ some kind
unfolding type_of type_value
type_of-type_value user_input = refl
type_of-type_value token_stream = refl
type_of-type_value stream_end = refl
type_of-type_value risk_prompt = refl
type_of-type_value risk_response = refl
type_of-type_value session_status = refl
type_of-type_value command_output = refl
type_of-type_value failure = refl

stamped_set : (now : Text) (t : Json) → t ≢ null → stamped now t ≡ t
unfolding stamped
stamped_set now null h = absurd (h refl)
stamped_set now (bool b) h = refl
stamped_set now (num n) h = refl
stamped_set now (str s) h = refl
stamped_set now (array xs) h = refl
stamped_set now (object fs) h = refl

message_of-fields :
    (now : Text) (m : Message)
    → m.timestamp ≢ null
    → message_of now (
        field
          (codes "type")
          (str (type_value m.kind))
          (field (codes "payload") m.payload (field (codes "timestamp") m.timestamp no_fields)))
      ≡ some m
unfolding message_of find_field
message_of-fields now m h = rw (type_of-type_value m.kind, stamped_set now m.timestamp h) refl

-- A message whose timestamp is set, as the constructor always sets it, is read back from its JSON
-- text as it was, at any later time, whatever its type, payload and texts are.
pub from_json-to_json :
    (now : Text) (m : Message) → m.timestamp ≢ null → from_json now (to_json m) ≡ some m
unfolding from_json to_json
from_json-to_json now m h =
    ap (of_value now) (loads-dumps one_line one_line-IsBlank _) ∙ message_of-fields now m h
