-- ===== src/Orchestrator/Handoff/Kept.antt =====
-- A brief that was written is read as it was.
use silicon_valet.Prelude.{◌≡◌, refl, true, Option, some, Text}
use silicon_valet.Json.{Json, object, indented}
use silicon_valet.Json.Lookup.{find_field}
use silicon_valet.Json.RoundTrip.{loads-dumps, indented-IsBlank}
use silicon_valet.Risk.Engine.{ok}
use silicon_valet.Orchestrator.Handoff.{
  MissionBrief, to_dict, from_dict, Disk, file_name, brief_text, of_value, of_text, write_brief,
  read_brief,
}

from_dict-to_dict : (fresh now : Text) (b : MissionBrief) → from_dict fresh now (to_dict b) ≡ b
unfolding from_dict to_dict find_field
from_dict-to_dict fresh now b = refl

of_text-brief_text :
    (fresh now : Text) (report : Option Json → Text) (b : MissionBrief)
    → of_text fresh now report (ok (brief_text b)) ≡ ok (some b)
unfolding of_text brief_text of_value
of_text-brief_text fresh now report b =
    rw (loads-dumps indented indented-IsBlank (object (to_dict b)))
      (rw (from_dict-to_dict fresh now b) refl)

-- Where the file system, once it has written a brief's text to the file that its id names, says that
-- this file exists and reads that text from it: a brief that was written without an exception is
-- read back under its id as it was, whatever stands in its fields.
pub read_brief-write_brief :
    {W : Type 0} (disk : Disk W) (format : Json → Text) (fresh now : Text)
    (report : Option Json → Text) (b : MissionBrief) (w : W)
    → let name = file_name (format b.task_id) in
      ((v : W)
        → (disk.write_text name (brief_text b) v).0 ≡ ok tt
        → (disk.exists name (disk.write_text name (brief_text b) v).1 ≡ ok true)
          × (disk.read_text name (disk.write_text name (brief_text b) v).1 ≡ ok (brief_text b)))
      → let (done, w') = write_brief disk format b w in
        done ≡ ok tt → read_brief disk fresh now report (format b.task_id) w' ≡ ok (some b)
unfolding write_brief read_brief
read_brief-write_brief disk format fresh now report b w keeps written =
    let (there, same) = keeps w written in
    rw (read_brief, there, same) (of_text-brief_text fresh now report b)
