-- ===== src/Orchestrator/Tests.antt =====
-- Routes, streams and briefs.
use silicon_valet.Prelude.{◌≡◌, refl, true, some, List, [], ◌∷◌, ◌++◌, Text, codes, is_space}
use silicon_valet.Json
use silicon_valet.Json.{Json, null, str, array, no_items, item, loads, skip, chars, natural}
use silicon_valet.Json.Lookup.{find_field}
use silicon_valet.Risk.Engine.{ok}
use silicon_valet.Orchestrator.Router.{planner, coder, route, needs_thinking, opens_route}
use silicon_valet.Orchestrator.Planner.{strip_thinking, stream, coder_stream}
use silicon_valet.Orchestrator.Planner.Stream.{stream-coder_stream}
use silicon_valet.Orchestrator.Handoff.{MissionBrief, Disk, write_brief, read_brief}
use silicon_valet.Orchestrator.Handoff.Kept.{read_brief-write_brief}

to_coder : route (codes "Write me a backup Script") ≡ coder
unfolding opens_route
to_coder = refl

to_planner : route (codes "restart nginx") ≡ planner
unfolding opens_route
to_planner = refl

thinks : needs_thinking (codes "Why is nginx slow?") ≡ true
unfolding opens_route
thinks = refl

thought : strip_thinking (codes "<think>a\nb</think> Done. <think>") ≡ codes "Done. <think>"
unfolding strip_thinking is_space
thought = refl

abbrev line : Text → Text
line content = codes "{\"message\": {\"content\": \"" ++ (content ++ codes "\"}}")

abbrev answer : List Text
answer =
    line (codes "It is ")
    ∷ []
    ∷ line (codes "up.")
    ∷ codes "{\"done\": true}"
    ∷ line (codes "x")
    ∷ []

unfoldable opens_stream : Unit {0}
unfolding stream coder_stream loads Json.value Json.expect skip chars find_field is_space
opens_stream = tt

streamed : stream (codes "fault") [] answer ≡ codes "It is " ∷ codes "up." ∷ []
unfolding opens_stream
streamed = refl

-- A block that is cut off takes the rest of the answer with it.
cut_off : stream (codes "fault") [] (line (codes "<think>hm") ∷ line (codes " so: up.") ∷ []) ≡ []
unfolding opens_stream
cut_off = refl

-- A tag that comes in two pieces is passed on, with all that it should hide.
split_tag :
    stream (codes "fault") [] (line (codes "<th") ∷ line (codes "ink>hm</think>") ∷ [])
    ≡ codes "<th" ∷ codes "ink>hm</think>" ∷ []
unfolding opens_stream
split_tag = refl

stream-coder_stream_example : stream (codes "fault") [] answer ≡ coder_stream (codes "fault") answer
unfolding opens_stream
stream-coder_stream_example =
    stream-coder_stream (codes "fault") answer
      ((refl, refl), (tt, ((refl, refl), (tt, ((refl, refl), tt)))))

abbrev brief : MissionBrief
brief = record {
  task_id = str (codes "ab12");
  objective = str (codes "find the leak");
  completed_steps = array (item (str (codes "looked")) no_items);
  discoveries = array no_items;
  next_step = str (codes "look again");
  ruled_out = array no_items;
  dna_context_ids = array no_items;
  timestamp = str (codes "t1");
}

-- One file, whatever its name.
abbrev one_file : Disk Text
one_file = record {
  exists = λ name w. ok true;
  write_text = λ name content w. (ok tt, content);
  read_text = λ name w. ok w;
}

abbrev format : Json → Text
format (str s) = s
format _ = codes "other"

read_brief-write_brief_example :
    read_brief one_file
      (codes "x")
      (codes "t2")
      (λ v. codes "fault")
      (codes "ab12")
      (write_brief one_file format brief []).1
    ≡ ok (some brief)
unfolding write_brief
read_brief-write_brief_example =
    read_brief-write_brief one_file format (codes "x") (codes "t2") (λ v. codes "fault") brief []
      (λ v written. (refl, refl)) refl
