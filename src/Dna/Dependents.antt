-- ===== src/Dna/Dependents.antt =====
-- `DNAStore.get_dependents` of dna/store.py: the breadth-first traversal.
pub mod Search
pub mod Found
pub mod Reach
mod Tests
use silicon_valet.Prelude.{
  ℕ, zero, suc, ◌+◌, Bool, true, false, not, Option, none, some, List, [], ◌∷◌, ◌++◌, if◌then◌else◌,
  ◌==◌, any, keep, length,
}
use silicon_valet.Dna.Models.{Service, Dependency}
use silicon_valet.Dna.Tables.{Row, has_row}
use silicon_valet.Dna.Store.{Store}

-- `SELECT * FROM services s` with this id
unfoldable pub services_of : ℕ → List (Row Service) → List (Row Service)
services_of i [] = []
services_of i (r ∷ rs) = let rest = services_of i rs in if r.id == i then r ∷ [] else rest

-- the join of the query: one row for each dependency on the service `current`
unfoldable pub sources : List (Row Service) → List (Row Dependency) → ℕ → List (Row Service)
unfolding services_of
sources services [] current = []
sources services (d ∷ ds) current =
    let rest = sources services ds current in
    if d.body.target_service_id == current
    then services_of d.body.source_service_id services ++ rest
    else rest

abbrev pub member : ℕ → List ℕ → Bool
member i is = any (λ j. j == i) is

abbrev pub ids : List (Row Service) → List ℕ
ids [] = []
ids (r ∷ rs) = r.id ∷ ids rs

-- the rows that the inner loop appends
unfoldable pub unvisited : List ℕ → List (Row Service) → List (Row Service)
unvisited visited rows = keep (λ r. not (member r.id visited)) rows

abbrev pub prepend : List (Row Service) → Option (List (Row Service)) → Option (List (Row Service))
prepend rows none = none
prepend rows (some rest) = some (rows ++ rest)

-- `while queue`: what is appended to the result from here on, none if the fuel is used up
unfoldable pub traverse :
    (ℕ → List (Row Service)) → ℕ → List ℕ → List ℕ → Option (List (Row Service))
traverse rows_of fuel visited [] = some []
traverse rows_of zero visited (c ∷ queue) = none
traverse rows_of (suc fuel) visited (c ∷ queue) =
    let known = member c visited in
    let found = if known then [] else unvisited (c ∷ visited) (rows_of c) in
    let visited' = if known then visited else c ∷ visited in
    let rest = traverse rows_of fuel visited' (queue ++ ids found) in prepend found rest

-- One round for the service itself and one for each dependency are enough.
unfoldable pub get_dependents : ℕ → Store → Option (List (Row Service))
unfolding traverse sources unvisited
get_dependents i s =
    traverse (sources s.services.rows s.dependencies.rows) (suc (length s.dependencies.rows)) []
      (i ∷ [])
