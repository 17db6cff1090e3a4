-- ===== src/Server/Tests.antt =====
-- Messages, tokens and sessions, run.
use silicon_valet.Prelude.{
  ◌≡◌, refl, true, false, none, some, List, [], ◌∷◌, ◌++◌, Text, codes, is_space, is_empty,
  if◌then◌else◌, text_eq,
}
use silicon_valet.Json.{str, object, field, no_fields}
use silicon_valet.Server.Protocol.{Message, to_json, from_json, token, end_of_stream, user_input}
use silicon_valet.Server.Protocol.RoundTrip.{from_json-to_json}
use silicon_valet.Server.Auth.{check_auth, header_token, query_token, admits}
use silicon_valet.Server.Auth.Same.{admits-check_auth}
use silicon_valet.Orchestrator.Router.{opens_route}
use silicon_valet.Orchestrator.Planner.{
  Turn, turn, marked, direct_messages, PlannerAgent, ensure_agent, reply_by, run_planner,
}
use silicon_valet.Server.Session.{Reply, Agents, sent, handle_user_input, converse}
use silicon_valet.Server.Session.History.{UserOnly, converse-UserOnly, handle_user_input-twice}

abbrev hello : Message
hello = token (codes "t1") (codes "say \"hi\"\n")

from_json-to_json_example : from_json (codes "t2") (to_json hello) ≡ some hello
from_json-to_json_example = from_json-to_json (codes "t2") hello (λ h. cc)

admits_header : admits (codes "s3") (codes "Bearer s3") [] ≡ true
unfolding admits is_space
admits_header = refl

admits_query : admits (codes "s3") [] (codes "s3" ∷ []) ≡ true
unfolding admits
admits_query = refl

admits-check_auth_example :
    (is_empty (header_token (codes "Bearer s3")) ≡ false
      → admits (codes "s3") (codes "Bearer s3") []
        ≡ check_auth (codes "s3") (some (codes "Bearer s3")))
    × (is_empty (header_token (codes "Bearer s3")) ≡ true
        → (admits (codes "s3") (codes "Bearer s3") []
            ≡ (if is_empty (codes "s3") then true else text_eq (query_token []) (codes "s3")))
          × (check_auth (codes "s3") (some (codes "Bearer s3")) ≡ is_empty (codes "s3")))
admits-check_auth_example = admits-check_auth (codes "s3") (codes "Bearer s3") []

-- Agents that answer each request with the contents they were sent.
abbrev echo : List Turn → Reply
echo [] = record { tokens = []; failed = none }
echo (t ∷ ts) = record { tokens = t.content ∷ (echo ts).tokens; failed = none }

-- Without the agent library.
abbrev direct : PlannerAgent Reply
direct = record {
  importable = false;
  system_prompt = λ message. codes "be brief on " ++ message;
  run_assistant = λ made_with turns. echo [];
  run_model = echo;
}

abbrev agents : Agents
agents = record {
  plan = λ text history. (run_planner direct none text history).0;
  generate = λ text. echo (turn (codes "user") text ∷ []);
  command = λ text history. (some (codes "ok"), []);
  now = codes "t1";
}

abbrev says : Text → Message
says text = record {
  kind = user_input;
  payload = object (field (codes "text") (str text) no_fields);
  timestamp = str (codes "t0");
}

-- The request holds the user's text twice.
replied :
    (handle_user_input agents (codes "hello") []).0
    ≡ token (codes "t1") (codes "be brief on hello")
      ∷ token (codes "t1") (codes "hello")
      ∷ token (codes "t1") (codes "hello")
      ∷ end_of_stream (codes "t1")
      ∷ []
unfolding handle_user_input run_planner ensure_agent reply_by direct_messages opens_route
replied = refl

converse-UserOnly_example :
    UserOnly
      (converse agents
        (codes "fault")
        (says (codes "hello") ∷ says (codes "write a script") ∷ [])
        []).1
converse-UserOnly_example =
    converse-UserOnly agents (codes "fault") (λ text history h. tt)
      (says (codes "hello") ∷ says (codes "write a script") ∷ []) [] tt

handle_user_input-twice_example : handle_user_input agents (codes "hello") [] ≡ (
  sent (codes "t1") (
      echo (
        turn (codes "system") (codes "be brief on hello")
        ∷ ([]
            ++ (turn (codes "user") (codes "hello")
                ∷ turn (codes "user") (marked (codes "hello"))
                ∷ [])))),
  [] ++ turn (codes "user") (codes "hello") ∷ [],
)
unfolding opens_route
handle_user_input-twice_example =
    handle_user_input-twice agents direct none (codes "hello") [] refl (λ h. refl)
