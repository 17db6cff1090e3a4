-- ===== src/Server/Session/History.antt =====
-- What a session's history holds, and what the planner's model is sent.
use silicon_valet.Prelude.{
  ◌≡◌, refl, inl, inr, Bool-cases, Option, none, some, List, [], ◌∷◌, ◌++◌, Text, codes, All,
  if_cases, if◌then◌else◌, is_empty, starts_with, append_assoc,
}
use silicon_valet.Orchestrator.Router.{planner, route}
use silicon_valet.Orchestrator.Planner.{
  Turn, turn, marked, agent_messages, direct_messages, PlannerAgent, ensure_agent, reply_by,
  run_planner,
}
use silicon_valet.Server.Protocol.{
  MessageType, Message, user_input, token_stream, stream_end, risk_prompt, risk_response,
  session_status, command_output, failure,
}
use silicon_valet.Server.Session.{
  Reply, Agents, sent, reply_to, handle_user_input, run_command, handle_text, input_text,
  handle_input, handle_message, converse,
}

-- Every entry is the user's.
abbrev pub UserOnly : List Turn → Type 0
UserOnly history = All (λ t. t.role ≡ codes "user") history

UserOnly-append :
    (history : List Turn) (text : Text)
    → UserOnly history
    → UserOnly (history ++ turn (codes "user") text ∷ [])
UserOnly-append [] text h = (refl, tt)
UserOnly-append (t ∷ ts) text (h, hs) = (h, UserOnly-append ts text hs)

module _ (agents : Agents) (report : Text)
    (commands : (text : Text) (history : List Turn)
      → UserOnly history
      → UserOnly (agents.command text history).1) where
  handle_text-UserOnly :
      (text : Text) (history : List Turn)
      → UserOnly history
      → UserOnly (handle_text agents text history).1
  unfolding handle_text handle_user_input run_command
  handle_text-UserOnly text history h =
      if_cases (λ (x : List Message × List Turn). UserOnly x.1) (is_empty text) ([], history)
        (if starts_with text (codes "/")
          then run_command agents text history
          else handle_user_input agents text history)
        (λ e. h)
        (λ e.
          if_cases (λ (x : List Message × List Turn). UserOnly x.1) (starts_with text (codes "/"))
            (run_command agents text history) (handle_user_input agents text history)
            (λ c. commands text history h) (λ c. UserOnly-append history text h))

  handle_input-UserOnly :
      (o : Option Text) (history : List Turn)
      → UserOnly history
      → UserOnly (handle_input agents report o history).1
  unfolding handle_input
  handle_input-UserOnly none history h = h
  handle_input-UserOnly (some text) history h = handle_text-UserOnly text history h

  kind-UserOnly :
      (kind : MessageType) (m : Message) (history : List Turn)
      → m.kind ≡ kind
      → UserOnly history
      → UserOnly (handle_message agents report m history).1
  unfolding handle_message
  kind-UserOnly user_input m history e h =
      rw (handle_message, e) (handle_input-UserOnly (input_text m.payload) history h)
  kind-UserOnly token_stream m history e h = rw (handle_message, e) h
  kind-UserOnly stream_end m history e h = rw (handle_message, e) h
  kind-UserOnly risk_prompt m history e h = rw (handle_message, e) h
  kind-UserOnly risk_response m history e h = rw (handle_message, e) h
  kind-UserOnly session_status m history e h = rw (handle_message, e) h
  kind-UserOnly command_output m history e h = rw (handle_message, e) h
  kind-UserOnly failure m history e h = rw (handle_message, e) h

  -- Where the slash commands add no entries of another role, a session whose history holds the
  -- user's entries only has such a history after any messages of the client: no reply of an agent
  -- is ever kept.
  pub converse-UserOnly :
      (ms : List Message) (history : List Turn)
      → UserOnly history
      → UserOnly (converse agents report ms history).1
  unfolding converse
  converse-UserOnly [] history h = h
  converse-UserOnly (m ∷ ms) history h =
      converse-UserOnly ms (handle_message agents report m history).1
        (kind-UserOnly m.kind m history refl h)

-- The reply to a text that the history already ends with.
planned_reply :
    (p : PlannerAgent Reply) (agent : Option Text) (text : Text) (history : List Turn)
    → let turns = history ++ (turn (codes "user") text ∷ turn (codes "user") (marked text) ∷ []) in
      let direct = p.run_model (turn (codes "system") (p.system_prompt text) ∷ turns) in
      let made = p.run_assistant (p.system_prompt text) turns in
      (run_planner p agent text (history ++ turn (codes "user") text ∷ [])).0 ≡ (elim agent [
        | none ↦ if p.importable then made else direct
        | some made_with ↦ p.run_assistant made_with turns
      ])
unfolding run_planner ensure_agent reply_by agent_messages direct_messages
planned_reply p none text history =
    let first = turn (codes "user") text ∷ [] in
    let last = turn (codes "user") (marked text) ∷ [] in
    elim (Bool-cases p.importable) [
      | inl e ↦ rw (e, append_assoc history first last) refl
      | inr e ↦ rw (e, append_assoc history first last) refl
    ]
planned_reply p (some made_with) text history =
    let first = turn (codes "user") text ∷ [] in
    let last = turn (codes "user") (marked text) ∷ [] in rw (append_assoc history first last) refl

-- A text that goes to the planner is in the request that is answered twice: as the last entry of
-- the history, and behind it, with the mark for thinking where it has one. This holds of an assistant
-- that exists, of one that is made for this text, and of the model that is called where the agent
-- library is missing, behind the system prompt for this text; whatever is replied to a request.
pub handle_user_input-twice :
    (agents : Agents) (p : PlannerAgent Reply) (agent : Option Text) (text : Text)
    (history : List Turn)
    → route text ≡ planner
    → ((h : List Turn) → agents.plan text h ≡ (run_planner p agent text h).0)
    → let turns = history ++ (turn (codes "user") text ∷ turn (codes "user") (marked text) ∷ []) in
      let direct = p.run_model (turn (codes "system") (p.system_prompt text) ∷ turns) in
      let made = p.run_assistant (p.system_prompt text) turns in
      handle_user_input agents text history ≡ (
        sent agents.now (elim agent [
          | none ↦ if p.importable then made else direct
          | some made_with ↦ p.run_assistant made_with turns
        ]),
        history ++ turn (codes "user") text ∷ [],
      )
unfolding handle_user_input reply_to
handle_user_input-twice agents p agent text history r plan =
    let first = turn (codes "user") text ∷ [] in
    rw (r, plan (history ++ first), planned_reply p agent text history) refl
