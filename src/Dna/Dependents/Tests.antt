-- ===== src/Dna/Dependents/Tests.antt =====
-- A run of the traversal on a cycle with a diamond, and the theorem there.
use silicon_valet.Prelude.{ℕ, ◌≡◌, refl, ◌↔◌, true, none, some, List, [], ◌∷◌, codes}
use silicon_valet.Dna.Models.{Service, Dependency}
use silicon_valet.Dna.Tables.{Row, empty_table, has_row}
use silicon_valet.Dna.Store.{Store}
use silicon_valet.Dna.Dependents.{sources, services_of, unvisited, traverse, get_dependents}
use silicon_valet.Dna.Dependents.Found.{Depends}
use silicon_valet.Dna.Dependents.Reach.{get_dependents_exact}

abbrev unit_file : ℕ → Row Service
unit_file i = record {
  id = i;
  body = record {
    name = codes "unit";
    kind = codes "systemd";
    node_id = none;
    namespace = none;
    status = none;
    pid = none;
    image = none;
    last_seen = codes "t";
  };
}

abbrev needs : ℕ → ℕ → ℕ → Row Dependency
needs i source target = record {
  id = i;
  body = record {
    source_service_id = source;
    target_service_id = target;
    dep_type = codes "network";
    detail = none;
  };
}

-- 2 and 3 need 1, 4 needs both, and 1 needs 4.
abbrev ring : Store
ring = record {
  nodes = empty_table;
  services = record {
    rows = unit_file 1 ∷ unit_file 2 ∷ unit_file 3 ∷ unit_file 4 ∷ unit_file 5 ∷ [];
    next = 6;
  };
  ports = empty_table;
  config_files = empty_table;
  dependencies = record {
    rows = needs 1 2 1 ∷ needs 2 3 1 ∷ needs 3 4 2 ∷ needs 4 4 3 ∷ needs 5 1 4 ∷ [];
    next = 6;
  };
  network_interfaces = empty_table;
  changes_log = [];
}

-- The end of the diamond is listed twice.
ring_run : get_dependents 1 ring ≡ some (unit_file 2 ∷ unit_file 3 ∷ unit_file 4 ∷ unit_file 4 ∷ [])
unfolding get_dependents traverse sources services_of unvisited
ring_run = refl

get_dependents_exact_example :
    (r : List (Row Service)) × (get_dependents 1 ring ≡ some r)
    × ((j : ℕ)
        → (has_row j r ≡ true)
          ↔ (¬ (j ≡ 1) × Depends (sources ring.services.rows ring.dependencies.rows) 1 j))
get_dependents_exact_example = get_dependents_exact 1 ring
