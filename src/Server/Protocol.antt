-- ===== src/Server/Protocol.antt =====
-- server/protocol.py: messages and their JSON.
pub mod RoundTrip
use silicon_valet.Prelude.{
  ℕ, Bool, true, false, Option, none, some, List, [], ◌∷◌, String, Text, codes, text_eq,
  if◌then◌else◌,
}
use silicon_valet.Prelude.Int.{ℤ}
use silicon_valet.Json.{
  Json, Fields, null, bool, num, str, array, object, no_fields, field, one_line, dumps, loads,
}
use silicon_valet.Json.Lookup.{find_field}

pub data MessageType : Type 0 where
  user_input : MessageType
  token_stream : MessageType
  stream_end : MessageType
  risk_prompt : MessageType
  risk_response : MessageType
  session_status : MessageType
  command_output : MessageType
  failure : MessageType

unfoldable pub type_value : MessageType → Text
type_value user_input = codes "user_input"
type_value token_stream = codes "token_stream"
type_value stream_end = codes "stream_end"
type_value risk_prompt = codes "risk_prompt"
type_value risk_response = codes "risk_response"
type_value session_status = codes "session_status"
type_value command_output = codes "command_output"
type_value failure = codes "error"

-- `MessageType(value)`; none is a ValueError
unfoldable pub type_of : Json → Option MessageType
type_of (str s) =
    if text_eq s (codes "user_input")
    then some user_input
    else if text_eq s (codes "token_stream")
    then some token_stream
    else if text_eq s (codes "stream_end")
    then some stream_end
    else if text_eq s (codes "risk_prompt")
    then some risk_prompt
    else if text_eq s (codes "risk_response")
    then some risk_response
    else if text_eq s (codes "session_status")
    then some session_status
    else if text_eq s (codes "command_output")
    then some command_output
    else if text_eq s (codes "error")
    then some failure
    else none
type_of _ = none

pub record Message : Type 0 where
  pub kind : MessageType
  pub payload : Json
  pub timestamp : Json

-- `__post_init__`: a timestamp that is None becomes the present time
unfoldable pub stamped : Text → Json → Json
stamped now null = str now
stamped now (bool b) = bool b
stamped now (num n) = num n
stamped now (str s) = str s
stamped now (array xs) = array xs
stamped now (object fs) = object fs

unfoldable pub to_json : Message → Text
to_json m = dumps one_line (
    object (
      field (codes "type") (str (type_value m.kind))
        (field (codes "payload") m.payload (field (codes "timestamp") m.timestamp no_fields))))

abbrev pub or_json : Option Json → Json → Json
or_json none d = d
or_json (some v) d = v

-- `MessageType(data["type"])`
abbrev pub typed : Option Json → Option MessageType
typed none = none
typed (some t) = type_of t

abbrev pub with_kind : Text → Fields → Option MessageType → Option Message
with_kind now dict none = none
with_kind now dict (some kind) = some (record {
  kind = kind;
  payload = or_json (find_field (codes "payload") dict) (object no_fields);
  timestamp = stamped now (or_json (find_field (codes "timestamp") dict) null);
})

-- the message of a dict that was read; none is a KeyError or a ValueError
unfoldable pub message_of : Text → Fields → Option Message
unfolding stamped type_of
message_of now dict = with_kind now dict (typed (find_field (codes "type") dict))

abbrev pub of_value : Text → Option Json → Option Message
of_value now (some (object dict)) = message_of now dict
of_value now _ = none

-- `Message.from_json` at the time `now`; none is an exception
unfoldable pub from_json : Text → Text → Option Message
from_json now raw = of_value now (loads raw)

abbrev message : Text → MessageType → Fields → Message
message now kind payload = record { kind = kind; payload = object payload; timestamp = str now }

abbrev pub token : Text → Text → Message
token now text = message now token_stream (field (codes "text") (str text) no_fields)

abbrev pub end_of_stream : Text → Message
end_of_stream now = message now stream_end no_fields

abbrev pub prompt : Text → Text → Text → Text → Message
prompt now command tier explanation = message now risk_prompt (
    field (codes "command") (str command)
      (field (codes "tier") (str tier) (field (codes "explanation") (str explanation) no_fields)))

abbrev pub response : Text → Bool → Message
response now approved =
    message now risk_response (field (codes "approved") (bool approved) no_fields)

abbrev pub output : Text → Text → Text → ℤ → Message
output now command text return_code = message now command_output (
    field (codes "command") (str command)
      (field (codes "output") (str text) (field (codes "return_code") (num return_code) no_fields)))

abbrev pub error : Text → Text → Message
error now text = message now failure (field (codes "message") (str text) no_fields)
