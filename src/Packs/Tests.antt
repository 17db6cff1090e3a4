-- ===== src/Packs/Tests.antt =====
-- The theorems on the runbook library and the loader at concrete inputs.
use silicon_valet.Prelude.{
  ◌≡◌, refl, true, false, none, some, List, [], ◌∷◌, ◌++◌, Text, codes, text_eq, if◌then◌else◌,
}
use silicon_valet.Risk.Engine.{ok, raised}
use silicon_valet.Memory.Runbook.{Runbook, RunbookEntry, Library, add, find_row, record_success}
use silicon_valet.Memory.Runbook.Rows.{used_again, find_row-record_success, find_row-add}
use silicon_valet.Packs.Docker.{docker_seeds}
use silicon_valet.Packs.Loader.{
  Pack, activate_matching, is_seeded, seed_pack, seed_runbooks, run_tasks,
}
use silicon_valet.Packs.Loader.Seeding.{seed_runbooks_once}

-- Entries with ids that begin with a given text and end in as many x as they have successors.
abbrev stamped : Text → List Runbook → List RunbookEntry
stamped id [] = []
stamped id (r ∷ rs) =
    record {
      body = r;
      success_count = 0;
      created_at = codes "2025-01-01";
      last_used = none;
      id = id;
    }
    ∷ stamped (codes "x" ++ id) rs

abbrev disk_entry : RunbookEntry
disk_entry = record {
  body = record {
    title = codes "Disk space full";
    problem_pattern = codes "Root filesystem";
    symptoms = [];
    steps = [];
    root_cause = none;
    verification = none;
    tags = [];
    pack_source = some (codes "linux");
  };
  success_count = 2;
  created_at = codes "2025-01-01";
  last_used = none;
  id = codes "a";
}

abbrev packs_at : Text → List Pack
packs_at id =
    record { name = codes "docker"; detect = ok true; seeds = ok (stamped id docker_seeds) }
    ∷ record { name = codes "linux"; detect = ok true; seeds = raised (codes "broken") }
    ∷ []

abbrev empty : Library
empty = record { rows = []; indexed = [] }

abbrev two_rows : Library
two_rows = record {
  rows = disk_entry ∷ record disk_entry { id = codes "xa" } ∷ [];
  indexed = codes "a" ∷ [];
}

active_packs :
    activate_matching (
      record { name = codes "zabbix"; detect = ok false; seeds = ok [] }
      ∷ record { name = codes "nokia"; detect = raised (codes "broken"); seeds = ok [] }
      ∷ packs_at (codes "d"))
    ≡ packs_at (codes "d")
unfolding activate_matching
active_packs = refl

seed_runbooks_once_example :
    let tasks = seed_runbooks (packs_at (codes "d")) empty in
    let lib = run_tasks (λ text. true) tasks empty in
    (lib.rows ≡ [] ++ tasks) × (seed_runbooks (packs_at (codes "e")) lib ≡ [])
unfolding seed_runbooks seed_pack is_seeded docker_seeds
seed_runbooks_once_example =
    seed_runbooks_once (λ text. true) (packs_at (codes "d")) (packs_at (codes "e")) empty
      ((refl, (refl, (refl, tt))), (tt, tt)) (tt, ((refl, tt), ((refl, (refl, tt)), tt))) refl

find_row-add_example :
    find_row
      (codes "b")
      (add (λ text. false) (record disk_entry { id = codes "b" }) two_rows).1.rows
    ≡ (if text_eq (codes "b") (codes "b")
        then some (record disk_entry { id = codes "b" })
        else find_row (codes "b") two_rows.rows)
find_row-add_example =
    find_row-add (λ text. false) (record disk_entry { id = codes "b" }) (codes "b") two_rows

find_row-record_success_example :
    find_row (codes "a") (record_success (codes "now") (codes "a") two_rows).rows ≡ (
      if text_eq (codes "a") (codes "a")
      then used_again (codes "now") (find_row (codes "a") two_rows.rows)
      else find_row (codes "a") two_rows.rows)
find_row-record_success_example =
    find_row-record_success (codes "now") (codes "a") (codes "a") two_rows
