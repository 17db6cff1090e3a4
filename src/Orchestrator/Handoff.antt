-- ===== src/Orchestrator/Handoff.antt =====
-- orchestrator/handoff.py: mission briefs. The file system is a parameter over a world; a brief
-- read from a file has whatever JSON values stand there, as in the source.
pub mod Kept
use silicon_valet.Prelude.{
  Bool, true, false, Option, none, some, List, [], ◌∷◌, ◌++◌, Text, codes, text_eq, if◌then◌else◌,
}
use silicon_valet.Json.{
  Json, Fields, object, no_fields, field, array, no_items, str, indented, dumps, loads,
}
use silicon_valet.Json.Lookup.{find_field}
use silicon_valet.Risk.Engine.{Result, ok, raised}

pub record MissionBrief : Type 0 where
  pub task_id : Json
  pub objective : Json
  pub completed_steps : Json
  pub discoveries : Json
  pub next_step : Json
  pub ruled_out : Json
  pub dna_context_ids : Json
  pub timestamp : Json

-- `to_dict`
unfoldable pub to_dict : MissionBrief → Fields
to_dict b = field (codes "task_id") b.task_id (
    field (codes "objective") b.objective (
      field (codes "completed_steps") b.completed_steps (
        field (codes "discoveries") b.discoveries (
          field (codes "next_step") b.next_step (
            field (codes "ruled_out") b.ruled_out (
              field (codes "dna_context_ids") b.dna_context_ids
                (field (codes "timestamp") b.timestamp no_fields)))))))

abbrev or_default : Option Json → Json → Json
or_default none d = d
or_default (some v) d = v

-- `from_dict`: other keys are passed over, and a missing one has its default, for which `task_id` and
-- `now` are those that the factories would make
unfoldable pub from_dict : Text → Text → Fields → MissionBrief
unfolding find_field
from_dict task_id now dict = record {
  task_id = or_default (find_field (codes "task_id") dict) (str task_id);
  objective = or_default (find_field (codes "objective") dict) (str []);
  completed_steps = or_default (find_field (codes "completed_steps") dict) (array no_items);
  discoveries = or_default (find_field (codes "discoveries") dict) (array no_items);
  next_step = or_default (find_field (codes "next_step") dict) (str []);
  ruled_out = or_default (find_field (codes "ruled_out") dict) (array no_items);
  dna_context_ids = or_default (find_field (codes "dna_context_ids") dict) (array no_items);
  timestamp = or_default (find_field (codes "timestamp") dict) (str now);
}

-- The files under `briefs_dir`, each given by the text that is joined to it. How paths are joined
-- and what the file system does is outside: every call may raise.
pub record Disk (W : Type 0) : Type 0 where
  pub exists : Text → W → Result Bool
  pub write_text : Text → Text → W → Result (Unit {0}) × W
  pub read_text : Text → W → Result Text

abbrev pub file_name : Text → Text
file_name task_id = task_id ++ codes ".json"

-- `json.dumps(brief.to_dict(), indent=2, ensure_ascii=False)`
unfoldable pub brief_text : MissionBrief → Text
unfolding to_dict
brief_text b = dumps indented (object (to_dict b))

-- `MissionBrief.from_dict(data)`, an AttributeError where `data` is no dict; `report` gives the
-- texts of the exceptions
unfoldable pub of_value :
    Text → Text → (Option Json → Text) → Option Json → Result (Option MissionBrief)
unfolding from_dict
of_value fresh now report (some (object dict)) = ok (some (from_dict fresh now dict))
of_value fresh now report v = raised (report v)

-- `json.loads(path.read_text())` and what follows
unfoldable pub of_text :
    Text → Text → (Option Json → Text) → Result Text → Result (Option MissionBrief)
unfolding of_value
of_text fresh now report (raised e) = raised e
of_text fresh now report (ok content) = of_value fresh now report (loads content)

module _ {W : Type 0} (disk : Disk W) where
  -- `write_brief`; `format` is what an f-string makes of an id
  unfoldable pub write_brief : (Json → Text) → MissionBrief → W → Result (Unit {0}) × W
  unfolding brief_text
  write_brief format b w = disk.write_text (file_name (format b.task_id)) (brief_text b) w

  -- `read_brief`, with the id and the time that the factories would make
  unfoldable pub read_brief :
      Text → Text → (Option Json → Text) → Text → W → Result (Option MissionBrief)
  unfolding of_text
  read_brief fresh now report task_id w =
      let content = disk.read_text (file_name task_id) w in
      elim (disk.exists (file_name task_id) w) [
        | raised e ↦ raised e
        | ok found ↦ if found then of_text fresh now report content else ok none
      ]
