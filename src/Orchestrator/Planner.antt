-- ===== src/Orchestrator/Planner.antt =====
-- orchestrator/planner.py and orchestrator/coder.py: what the models are sent, and how their answer
-- is passed on. The models themselves are outside: their answer is the list of its lines.
pub mod Stream
use silicon_valet.Prelude.{
  ℕ, zero, suc, Bool, true, false, not, ◌&&◌, Option, none, some, List, [], ◌∷◌, ◌++◌, Text, codes,
  if◌then◌else◌, contains, starts_with, drop, strip, nonempty, is_empty, length,
}
use silicon_valet.Prelude.Int.{is_zero}
use silicon_valet.Json.{
  Json, Items, Fields, null, bool, num, str, array, object, no_items, item, no_fields, field, loads,
}
use silicon_valet.Json.Lookup.{find_field}
use silicon_valet.Orchestrator.Router.{needs_thinking}

-- An entry of a conversation.
pub record Turn : Type 0 where
  pub role : Text
  pub content : Text

abbrev pub turn : Text → Text → Turn
turn role content = record { role = role; content = content }

-- the message with the mark for long thinking
unfoldable pub marked : Text → Text
unfolding needs_thinking
marked message = if needs_thinking message then codes "/think " ++ message else message

-- what `run` sends by way of the agent library, and directly
unfoldable pub agent_messages : Text → List Turn → List Turn
unfolding marked
agent_messages message history = history ++ turn (codes "user") (marked message) ∷ []

unfoldable pub direct_messages : Text → Text → List Turn → List Turn
unfolding marked
direct_messages system_prompt message history =
    turn (codes "system") system_prompt ∷ (history ++ turn (codes "user") (marked message) ∷ [])

-- What a planner works with: whether the agent library can be imported, the system prompt that it
-- builds from a message, as the memory stands, and the replies of an assistant that was made with a
-- system prompt and of the model that is called directly.
pub record PlannerAgent {ℓ} (A : Type ℓ) : Type ℓ where
  pub importable : Bool
  pub system_prompt : Text → Text
  pub run_assistant : Text → List Turn → A
  pub run_model : List Turn → A

-- `_ensure_agent`, where there is no assistant yet; `_agent` is kept as the system prompt that it
-- was made with
unfoldable pub ensure_agent : Bool → Text → Option Text → Option Text
ensure_agent importable system_prompt (some made_with) = some made_with
ensure_agent importable system_prompt none = if importable then some system_prompt else none

-- the two ways to a reply
unfoldable pub reply_by {ℓ} : {A : Type ℓ} → PlannerAgent A → Option Text → Text → List Turn → A
unfolding agent_messages direct_messages
reply_by p (some made_with) message history =
    p.run_assistant made_with (agent_messages message history)
reply_by p none message history =
    p.run_model (direct_messages (p.system_prompt message) message history)

-- `run`: the reply, and `_agent` for the next message
unfoldable pub run_planner {ℓ} :
    {A : Type ℓ} → PlannerAgent A → Option Text → Text → List Turn → A × Option Text
unfolding ensure_agent reply_by
run_planner p agent message history =
    let agent' = ensure_agent p.importable (p.system_prompt message) agent in
    (reply_by p agent' message history, agent')

abbrev pub open_tag : Text
open_tag = codes "<think>"

abbrev pub close_tag : Text
close_tag = codes "</think>"

-- the text behind the first `part`
unfoldable pub behind : Text → Text → Option Text
unfolding starts_with
behind part [] = none
behind part (c ∷ cs) =
    let later = behind part cs in
    if starts_with (c ∷ cs) part then some (drop (length part) (c ∷ cs)) else later

-- the text behind a block that begins here
unfoldable pub block : Text → Option Text
unfolding behind starts_with
block s = if starts_with s open_tag then behind close_tag (drop (length open_tag) s) else none

-- with fuel, of which a text needs no more than its length
unfoldable pub remove_from : ℕ → Text → Text
unfolding block
remove_from zero s = s
remove_from (suc fuel) [] = []
remove_from (suc fuel) (c ∷ cs) = elim (block (c ∷ cs)) [
  | none ↦ c ∷ remove_from fuel cs
  | some rest ↦ remove_from fuel rest
]

-- `re.sub(r"<think>.*?</think>", "", s, flags=re.DOTALL)`
unfoldable pub remove_blocks : Text → Text
unfolding remove_from
remove_blocks s = remove_from (length s) s

-- `_strip_thinking`
unfoldable pub strip_thinking : Text → Text
unfolding remove_blocks strip
strip_thinking content = strip (remove_blocks content)

-- What a line of the answer says: nothing, the end, a piece of text, or a fault, for which the
-- source raises an exception. The model servers write texts: a content that is a number or an
-- object, which the coder would pass on as it is, is a fault here.
pub data Line : Type 0 where
  blank : Line
  done : Line
  token : Text → Line
  -- a content that is no text and counts as false, such as null
  no_text : Line
  broken : Line

unfoldable pub truthy : Json → Bool
truthy null = false
truthy (bool b) = b
truthy (num n) = not (is_zero n)
truthy (str s) = nonempty s
truthy (array no_items) = false
truthy (array (item v vs)) = true
truthy (object no_fields) = false
truthy (object (field k v fs)) = true

abbrev or_default : Option Json → Json → Json
or_default none d = d
or_default (some v) d = v

abbrev text_token : Json → Line
text_token (str s) = token s
text_token v = if truthy v then broken else no_text

-- `.get("content", "")` of the message
unfoldable pub content_of : Json → Line
content_of (object fields) = text_token (or_default (find_field (codes "content") fields) (str []))
content_of _ = broken

unfoldable pub line_of_object : Fields → Line
unfolding truthy content_of
line_of_object fields =
    if truthy (or_default (find_field (codes "done") fields) null)
    then done
    else content_of (or_default (find_field (codes "message") fields) (object no_fields))

abbrev line_of_value : Option Json → Line
line_of_value (some (object fields)) = line_of_object fields
line_of_value _ = broken

unfoldable pub line_of : Text → Line
unfolding line_of_object strip
line_of s = if is_empty (strip s) then blank else line_of_value (loads s)

-- the text that may be passed on, and the new buffer
unfoldable pub released : Text → List Text × Text
released buffer = if nonempty buffer then (buffer ∷ [], []) else ([], buffer)

-- One more piece of text for the buffer: what is passed on, and what is held back.
unfoldable pub feed : Text → Text → List Text × Text
unfolding released remove_blocks contains
feed buffer piece =
    let held = buffer ++ piece in
    if contains held open_tag && not (contains held close_tag)
    then ([], held)
    else released (if contains held close_tag then remove_blocks held else held)

-- `_run_ollama_direct` on the lines of the answer; `report` is the text for an exception
unfoldable pub stream : Text → Text → List Text → List Text
unfolding line_of feed
stream report buffer [] = []
stream report buffer (l ∷ ls) = elim (line_of l) [
  | blank ↦ stream report buffer ls
  | done ↦ []
  | token t ↦ (feed buffer t).0 ++ stream report (feed buffer t).1 ls
  | no_text ↦ report ∷ []
  | broken ↦ report ∷ []
]

-- The coder: its messages hold no history, and its tokens are passed on as they come.
unfoldable pub coder_messages : Text → Text → List Turn
coder_messages system_prompt message =
    turn (codes "system") system_prompt ∷ turn (codes "user") message ∷ []

unfoldable pub analyze_prompt : Text → Text → Text
analyze_prompt code question =
    codes "Here is the code to analyze:\n\n```\n" ++ (code ++ (codes "\n```\n\n" ++ question))

unfoldable pub coder_stream : Text → List Text → List Text
unfolding line_of
coder_stream report [] = []
coder_stream report (l ∷ ls) = elim (line_of l) [
  | blank ↦ coder_stream report ls
  | done ↦ []
  | token t ↦ if nonempty t then t ∷ coder_stream report ls else coder_stream report ls
  | no_text ↦ coder_stream report ls
  | broken ↦ report ∷ []
]
