-- ===== src/Dna/Store/Reachable.antt =====
-- The stores that the operations reach, and removals.
use silicon_valet.Prelude.{
  ℕ, ◌<◌, ◌≡◌, refl, inl, inr, Bool, true, false, not, Option, none, some, List, [], ◌∷◌, ◌++◌,
  Text, if_cases, ◌==◌, ◌||◌, any, keep, arith, Bool-cases,
}
use silicon_valet.Dna.Models.{Node, Service, Port, ConfigFile, Dependency, NetworkInterface}
use silicon_valet.Dna.Tables.{Row, Table, empty_table, has_row}
use silicon_valet.Dna.Tables.Again.{IsWellFormed}
use silicon_valet.Dna.Tables.Kept.{All-keep, Distinct-keep}
use silicon_valet.Dna.Store.{
  Store, refers, same_id, upsert_node, upsert_service, upsert_port, upsert_config_file,
  add_dependency, upsert_network_interface, delete_service, removal, remove_inactive,
  mark_services_removed,
}
use silicon_valet.Dna.Store.Validity.{
  IsValid, upsert_node-IsValid, upsert_service-IsValid, upsert_port-IsValid,
  upsert_config_file-IsValid, add_dependency-IsValid, upsert_network_interface-IsValid,
}

IsWellFormed-keep {ℓ} :
    {E : Type ℓ} (p : Row E → Bool) (t : Table E)
    → IsWellFormed t
    → IsWellFormed (record t { rows = keep p t.rows })
IsWellFormed-keep p t (d, b) = (
  Distinct-keep p t.rows d,
  All-keep (λ r. r.id < t.next) (λ r. r.id < t.next) p (λ r e h. h) t.rows b,
)

has_row-without {ℓ} :
    {E : Type ℓ} (i j : ℕ) (rs : List (Row E))
    → (j == i) ≡ false
    → has_row j rs ≡ true
    → has_row j (keep (λ r. not (r.id == i)) rs) ≡ true
has_row-without i j [] n h = h
has_row-without i j (r ∷ rs) n h = elim (Bool-cases (r.id == j)) [
  | inl e ↦ let k : (r.id == i) ≡ false = ground arith in rw (k, e) refl
  | inr e ↦
      let rest = has_row-without i j rs n (rw e at h) in
      if_cases (λ l. has_row j l ≡ true) (not (r.id == i)) (r ∷ keep (λ q. not (q.id == i)) rs)
        (keep (λ q. not (q.id == i)) rs) (λ k. rw e rest) (λ k. rest)
]

module _ (i : ℕ) (t : Table Service) where
  abbrev left : Table Service
  left = record t { rows = keep (λ r. not (r.id == i)) t.rows }

  refers-left :
      (k : Option ℕ) → not (same_id k (some i)) ≡ true → refers k t ≡ true → refers k left ≡ true
  unfolding refers same_id
  refers-left none n h = refl
  refers-left (some j) n h = has_row-without i j t.rows (ground arith) h

delete_service-IsValid : (i : ℕ) (s : Store) → IsValid s → IsValid (delete_service i s)
unfolding delete_service
delete_service-IsValid i s (n, sv, p, c, d, f, rs, rp, rc, so, ta, ri) = (
  n,
  IsWellFormed-keep (λ r. not (r.id == i)) s.services sv,
  IsWellFormed-keep (λ r. not (same_id r.body.service_id (some i))) s.ports p,
  IsWellFormed-keep (λ r. not (same_id r.body.service_id (some i))) s.config_files c,
  IsWellFormed-keep (λ r. not (r.body.source_service_id == i || r.body.target_service_id == i))
      s.dependencies d,
  f,
  All-keep (λ r. refers r.body.node_id s.nodes ≡ true) (λ r. refers r.body.node_id s.nodes ≡ true)
      (λ r. not (r.id == i)) (λ r e h. h) s.services.rows rs,
  All-keep (λ r. refers r.body.service_id s.services ≡ true)
      (λ r. refers r.body.service_id (left i s.services) ≡ true)
      (λ r. not (same_id r.body.service_id (some i)))
      (λ r. refers-left i s.services r.body.service_id) s.ports.rows rp,
  All-keep (λ r. refers r.body.service_id s.services ≡ true)
      (λ r. refers r.body.service_id (left i s.services) ≡ true)
      (λ r. not (same_id r.body.service_id (some i)))
      (λ r. refers-left i s.services r.body.service_id) s.config_files.rows rc,
  All-keep (λ r. has_row r.body.source_service_id s.services.rows ≡ true)
      (λ r. has_row r.body.source_service_id (left i s.services).rows ≡ true)
      (λ r. not (r.body.source_service_id == i || r.body.target_service_id == i))
      (λ r e. has_row-without i r.body.source_service_id s.services.rows (ground arith))
      s.dependencies.rows so,
  All-keep (λ r. has_row r.body.target_service_id s.services.rows ≡ true)
      (λ r. has_row r.body.target_service_id (left i s.services).rows ≡ true)
      (λ r. not (r.body.source_service_id == i || r.body.target_service_id == i))
      (λ r e. has_row-without i r.body.target_service_id s.services.rows (ground arith))
      s.dependencies.rows ta,
  ri,
)

remove_inactive-IsValid :
    (now : Text) (active : List ℕ) (rs : List (Row Service)) (s : Store)
    → IsValid s
    → IsValid (remove_inactive now active rs s)
unfolding remove_inactive
remove_inactive-IsValid now active [] s v = v
remove_inactive-IsValid now active (r ∷ rs) s v =
    let s' = record (delete_service r.id s) {
      changes_log = s.changes_log ++ removal now r.id ∷ [];
    } in
    if_cases IsValid (any (λ i. i == r.id) active) (remove_inactive now active rs s)
      (remove_inactive now active rs s') (λ e. remove_inactive-IsValid now active rs s v)
      (λ e. remove_inactive-IsValid now active rs s' (delete_service-IsValid r.id s v))

-- A store that the program can reach from an empty database.
pub data Reachable : Store → Type 0 where
  start : Reachable record {
    nodes = empty_table;
    services = empty_table;
    ports = empty_table;
    config_files = empty_table;
    dependencies = empty_table;
    network_interfaces = empty_table;
    changes_log = [];
  }
  node :
      (s : Store) (now : Text) (e : Node) (x : ℕ × Store)
      → Reachable s
      → upsert_node now e s ≡ some x
      → Reachable x.1
  service :
      (s : Store) (now : Text) (e : Service) (x : ℕ × Store)
      → Reachable s
      → upsert_service now e s ≡ some x
      → Reachable x.1
  port :
      (s : Store) (now : Text) (e : Port) (x : ℕ × Store)
      → Reachable s
      → upsert_port now e s ≡ some x
      → Reachable x.1
  config_file :
      (s : Store) (now : Text) (e : ConfigFile) (x : ℕ × Store)
      → Reachable s
      → upsert_config_file now e s ≡ some x
      → Reachable x.1
  dependency :
      (s : Store) (now : Text) (e : Dependency) (x : ℕ × Store)
      → Reachable s
      → add_dependency now e s ≡ some x
      → Reachable x.1
  network_interface :
      (s : Store) (now : Text) (e : NetworkInterface) (x : ℕ × Store)
      → Reachable s
      → upsert_network_interface now e s ≡ some x
      → Reachable x.1
  removals :
      (s : Store) (now : Text) (active : List ℕ)
      → Reachable s
      → Reachable (mark_services_removed now active s)

-- In every store that is reached from an empty one by upserts, dependencies and removals, the ids
-- of each table differ and lie below its next id, and every foreign key that is not NULL has its
-- row.
pub Reachable-IsValid : (s : Store) → Reachable s → IsValid s
unfolding mark_services_removed
Reachable-IsValid s start =
    ((tt, tt), (tt, tt), (tt, tt), (tt, tt), (tt, tt), (tt, tt), tt, tt, tt, tt, tt, tt)
Reachable-IsValid s (node s' now e x r run) =
    upsert_node-IsValid now s' e x (Reachable-IsValid s' r) run
Reachable-IsValid s (service s' now e x r run) =
    upsert_service-IsValid now s' e x (Reachable-IsValid s' r) run
Reachable-IsValid s (port s' now e x r run) =
    upsert_port-IsValid now s' e x (Reachable-IsValid s' r) run
Reachable-IsValid s (config_file s' now e x r run) =
    upsert_config_file-IsValid now s' e x (Reachable-IsValid s' r) run
Reachable-IsValid s (dependency s' now e x r run) =
    add_dependency-IsValid now s' e x (Reachable-IsValid s' r) run
Reachable-IsValid s (network_interface s' now e x r run) =
    upsert_network_interface-IsValid now s' e x (Reachable-IsValid s' r) run
Reachable-IsValid s (removals s' now active r) =
    remove_inactive-IsValid now active s'.services.rows s' (Reachable-IsValid s' r)
