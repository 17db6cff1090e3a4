-- ===== src/Server/Session.antt =====
-- server/session.py: one connection's messages. What the client is sent is a list of messages; the
-- agents' replies are parameters, over the conversation that they are given.
pub mod History
use silicon_valet.Prelude.{
  ℕ, ltb, Bool, true, false, Option, none, some, List, [], ◌∷◌, ◌++◌, Text, codes, text_eq,
  if◌then◌else◌, strip, is_empty, starts_with, map, keep, length,
}
use silicon_valet.Json.{Json, Fields, null, bool, num, str, array, object}
use silicon_valet.Json.Lookup.{find_field}
use silicon_valet.Orchestrator.Router.{AgentType, planner, coder, route}
use silicon_valet.Orchestrator.Planner.{Turn, turn}
use silicon_valet.Server.Protocol.{
  MessageType, Message, user_input, token_stream, stream_end, risk_prompt, risk_response,
  session_status, command_output, failure, token, end_of_stream, error,
}

-- The tokens of an agent, and the text of the exception that ended it, if one did.
pub record Reply : Type 0 where
  pub tokens : List Text
  pub failed : Option Text

-- The agents, and the slash commands, which may clear the history.
pub record Agents : Type 0 where
  pub plan : Text → List Turn → Reply
  pub generate : Text → Reply
  pub command : Text → List Turn → Option Text × List Turn
  pub now : Text

abbrev pub ending : Text → Option Text → Message
ending now none = end_of_stream now
ending now (some e) = error now e

unfoldable pub sent : Text → Reply → List Message
sent now r = map (token now) r.tokens ++ ending now r.failed ∷ []

-- the agent's reply; the history already holds the text
unfoldable pub reply_to : Agents → AgentType → Text → List Turn → Reply
reply_to agents coder text history = agents.generate text
reply_to agents planner text history = agents.plan text history

-- `_handle_user_input`: the messages to the client, and the history
unfoldable pub handle_user_input : Agents → Text → List Turn → List Message × List Turn
unfolding sent reply_to route
handle_user_input agents text history =
    let history' = history ++ turn (codes "user") text ∷ [] in
    (sent agents.now (reply_to agents (route text) text history'), history')

-- the answer of a command; an empty text sends nothing
unfoldable pub command_reply : Text → Option Text → List Message
command_reply now none = []
command_reply now (some text) =
    if is_empty text then [] else token now text ∷ end_of_stream now ∷ []

-- `_handle_command`
unfoldable pub run_command : Agents → Text → List Turn → List Message × List Turn
unfolding command_reply
run_command agents text history =
    let (answer, history') = agents.command text history in
    (command_reply agents.now answer, history')

abbrev pub text_of : Option Json → Option Text
text_of none = some []
text_of (some (str s)) = some s
text_of (some _) = none

-- `message.payload.get("text", "").strip()`; none is an AttributeError
unfoldable pub input_text : Json → Option Text
unfolding find_field strip
input_text (object fields) = elim (text_of (find_field (codes "text") fields)) [
  | none ↦ none
  | some s ↦ some (strip s)
]
input_text _ = none

-- the branches on the text
unfoldable pub handle_text : Agents → Text → List Turn → List Message × List Turn
unfolding handle_user_input run_command
handle_text agents text history =
    if is_empty text
    then ([], history)
    else if starts_with text (codes "/")
    then run_command agents text history
    else handle_user_input agents text history

-- A user's input, with the handler's own `except`, whose text is left open.
unfoldable pub handle_input : Agents → Text → Option Text → List Turn → List Message × List Turn
unfolding handle_text
handle_input agents report none history = (error agents.now report ∷ [], history)
handle_input agents report (some text) history = handle_text agents text history

-- `handle_message` under the handler's loop, but for the answers to questions about commands.
-- `report` is the text of an exception.
unfoldable pub handle_message : Agents → Text → Message → List Turn → List Message × List Turn
unfolding handle_input input_text
handle_message agents report m history = elim (m.kind) [
  | user_input ↦ handle_input agents report (input_text m.payload) history
  | _ ↦ ([], history)
]

-- A whole connection: the messages in the order of their arrival.
unfoldable pub converse : Agents → Text → List Message → List Turn → List Message × List Turn
unfolding handle_message
converse agents report [] history = ([], history)
converse agents report (m ∷ ms) history =
    let (out, history') = handle_message agents report m history in
    let (outs, history'') = converse agents report ms history' in (out ++ outs, history'')

-- What `end_session` stores of a session with more than two entries.
pub record Episode : Type 0 where
  pub session_id : Text
  pub problem_description : Text
  pub messages : ℕ

unfoldable pub user_texts : List Turn → List Text
user_texts [] = []
user_texts (t ∷ ts) =
    let rest = user_texts ts in if text_eq t.role (codes "user") then t.content ∷ rest else rest

abbrev first_or_unknown : List Text → Text
first_or_unknown [] = codes "Unknown"
first_or_unknown (t ∷ ts) = t

unfoldable pub end_session : Text → List Turn → Option Episode
unfolding user_texts
end_session session_id history =
    if ltb 2 (length history)
    then some (record {
      session_id = session_id;
      problem_description = first_or_unknown (user_texts history);
      messages = length history;
    })
    else none
