-- ===== src/Packs/Loader.antt =====
-- packs/loader.py: activation of packs and the seeding of their runbooks.
pub mod Seeding
use silicon_valet.Prelude.{
  Bool, true, false, Option, none, some, List, [], ◌∷◌, ◌++◌, Text, text_eq, if◌then◌else◌, ◌&&◌,
}
use silicon_valet.Risk.Engine.{Result, ok, raised}
use silicon_valet.Memory.Runbook.{RunbookEntry, Library, add}

-- A pack with the answer of its `detect` and the entries that its `get_runbook_seeds` makes, with
-- their fresh ids, or the exceptions of these.
pub record Pack : Type 0 where
  pub name : Text
  pub detect : Result Bool
  pub seeds : Result (List RunbookEntry)

unfoldable pub activate_matching : List Pack → List Pack
activate_matching [] = []
activate_matching (p ∷ ps) =
    let active = activate_matching ps in
    elim p.detect [ ok b ↦ if b then p ∷ active else active | raised e ↦ active ]

from_pack : Text → Option Text → Bool
from_pack name none = false
from_pack name (some source) = text_eq source name

-- `SELECT id FROM runbooks WHERE title = ? AND pack_source = ?` has a row
unfoldable pub is_seeded : Text → Text → List RunbookEntry → Bool
unfolding from_pack
is_seeded name title [] = false
is_seeded name title (r ∷ rs) =
    let later = is_seeded name title rs in
    if text_eq r.title title && from_pack name r.pack_source then true else later

unfoldable pub seed_pack : Text → List RunbookEntry → List RunbookEntry → List RunbookEntry
seed_pack name rows [] = []
seed_pack name rows (s ∷ seeds) =
    let rest = seed_pack name rows seeds in if is_seeded name s.title rows then rest else s ∷ rest

unfoldable pub seeds_of : Result (List RunbookEntry) → List RunbookEntry
seeds_of (ok seeds) = seeds
seeds_of (raised e) = []

-- `seed_runbooks` while the event loop runs, as it does at start-up: each `add` becomes a task, and
-- none has run when the function returns. The list is that of the tasks.
unfoldable pub seed_runbooks : List Pack → Library → List RunbookEntry
unfolding seeds_of
seed_runbooks [] lib = []
seed_runbooks (p ∷ ps) lib = seed_pack p.name lib.rows (seeds_of p.seeds) ++ seed_runbooks ps lib

-- The tasks then run in order; one whose embedding fails ends there.
unfoldable pub run_tasks : (Text → Bool) → List RunbookEntry → Library → Library
run_tasks embeds [] lib = lib
run_tasks embeds (e ∷ es) lib = run_tasks embeds es (add embeds e lib).1
