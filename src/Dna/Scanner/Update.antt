-- ===== src/Dna/Scanner/Update.antt =====
-- dna/scanner.py: scan_once. What the tasks have found goes into the store, operation by operation;
-- an exception leaves the store as the operations before it have made it.
mod Keeps
pub mod Rules
pub mod Ports
pub mod Steps
mod Loops
pub mod Completes
use silicon_valet.Prelude.{
  ℕ, Bool, true, false, not, Option, none, some, List, [], ◌∷◌, ◌++◌, ◌&&◌, Text, codes, text_eq,
  ◌==◌, if◌then◌else◌, contains, is_empty, strip, split_on,
}
use silicon_valet.Dna.Models.{Node, Service, Port, ConfigFile, Dependency, NetworkInterface}
use silicon_valet.Dna.Tables.{Row, Table, has_row}
use silicon_valet.Dna.Store.{
  Store, same_id, upsert_node, upsert_service, upsert_port, upsert_config_file, add_dependency,
  upsert_network_interface,
}
use silicon_valet.Dna.Scanner.Machine.{ScanTarget, text_of}
use silicon_valet.Dna.Scanner.Plain.{config_files, scan_ports}
use silicon_valet.Dna.Scanner.Objects.{Reading, value, caught, fault, Found, discover}
use silicon_valet.Dna.Scanner.Known.{KnownDependency, service_config_paths, paths_of, known_deps}

-- A step on the store; none is an exception.
abbrev pub Op {ℓ} : Type ℓ → Type ℓ
Op A = Store → Option A × Store

abbrev pub next {ℓ κ} : {A : Type ℓ} {B : Type κ} → (A → Op B) → Option A × Store → Option B × Store
next f (none, s) = (none, s)
next f (some a, s) = f a s

infixl 5 ◌>>=◌ ◌>>◌
abbrev pub ◌>>=◌ {ℓ κ} : {A : Type ℓ} {B : Type κ} → Op A → (A → Op B) → Op B
◌>>=◌ m f s = next f (m s)

abbrev pub ◌>>◌ {ℓ κ} : {A : Type ℓ} {B : Type κ} → Op A → Op B → Op B
m >> k = m >>= λ _. k

abbrev pub pure {ℓ} : {A : Type ℓ} → A → Op A
pure a s = (some a, s)

abbrev pub settled : Store → Option (ℕ × Store) → Option ℕ × Store
settled s none = (none, s)
settled s (some (i, s')) = (some i, s')

-- an operation of the store, which raises IntegrityError and then changes nothing
abbrev pub stored : (Store → Option (ℕ × Store)) → Op ℕ
stored f s = settled s (f s)

abbrev pub found {ℓ} : {A : Type ℓ} → Reading A → Op A
found (value a) s = (some a, s)
found caught s = (none, s)
found fault s = (none, s)

-- a dict from texts to ids, in the order of the first insertions
abbrev pub Names : Type 0
Names = List (Text × ℕ)

unfoldable pub set_item : Text → ℕ → Names → Names
set_item k i [] = (k, i) ∷ []
set_item k i ((j, n) ∷ rest) = if text_eq j k then (j, i) ∷ rest else (j, n) ∷ set_item k i rest

-- `next(iter(d.values()))`, or none for an empty dict
unfoldable pub first_id : Names → Option ℕ
first_id [] = none
first_id ((k, i) ∷ rest) = some i

unfoldable pub update_nodes : Text → List Node → Names → Op Names
unfolding set_item
update_nodes now [] names = pure names
update_nodes now (n ∷ ns) names = do
  i ← stored (upsert_node now n)
  update_nodes now ns (set_item n.hostname i names)

abbrev pub either_id : Option ℕ → Option ℕ → Option ℕ
either_id none j = j
either_id (some i) j = some i

-- a service whose node is not known goes to the first node
unfoldable pub placed : Names → Service → Service
unfolding first_id
placed nodes e = record e { node_id = either_id e.node_id (first_id nodes) }

unfoldable pub update_services : Text → Names → List Service → Names → Op Names
unfolding set_item placed
update_services now nodes [] names = pure names
update_services now nodes (e ∷ es) names = do
  i ← stored (upsert_service now (placed nodes e))
  update_services now nodes es (set_item e.name i names)

-- `get_service_by_port`, as far as the id: a port row of this number whose service is there
unfoldable pub service_by_port : ℕ → List (Row Port) → Table Service → Option ℕ
service_by_port n [] services = none
service_by_port n (r ∷ rs) services =
    let later = service_by_port n rs services in
    elim (r.body.service_id) [
      | none ↦ later
      | some i ↦ if r.body.port == n && has_row i services.rows then some i else later
    ]

-- the port with the service that already listens on it, if it has none of its own
unfoldable pub with_service : Port → Store → Port
unfolding service_by_port
with_service e s = record e {
  service_id = either_id e.service_id (service_by_port e.port s.ports.rows s.services);
}

abbrev pub upsert_owned : Text → Port → Option ℕ → Op ℕ
upsert_owned now e none = pure 0
upsert_owned now e (some i) = stored (upsert_port now e)

unfoldable pub update_port : Text → Port → Op ℕ
unfolding with_service
update_port now e s = let e' = with_service e s in upsert_owned now e' e'.service_id s

unfoldable pub update_ports : Text → List Port → Op (Unit {0})
unfolding update_port
update_ports now [] = pure tt
update_ports now (e ∷ es) = do update_port now e; update_ports now es

-- an interface that names no node goes to the first one, or is passed over
unfoldable pub update_interface : Text → Names → NetworkInterface → Op ℕ
unfolding first_id
update_interface now nodes e =
    if not (e.node_id == 0)
    then stored (upsert_network_interface now e)
    else elim (first_id nodes) [
      | none ↦ pure 0
      | some i ↦ stored (upsert_network_interface now (record e { node_id = i }))
    ]

unfoldable pub update_interfaces : Text → Names → List NetworkInterface → Op (Unit {0})
unfolding update_interface
update_interfaces now nodes [] = pure tt
update_interfaces now nodes (e ∷ es) = do
  update_interface now nodes e
  update_interfaces now nodes es

unfoldable pub configs_under : ScanTarget → ℕ → List Text → List ConfigFile
unfolding config_files text_of strip split_on
configs_under m i [] = []
configs_under m i (base ∷ bases) =
    let rest = configs_under m i bases in
    let output = text_of (
      m.run_cmd
        (codes "find" ∷ base ∷ codes "-type" ∷ codes "f" ∷ codes "-name" ∷ codes "*.conf" ∷ [])) in
    if is_empty output then rest else config_files m i (split_on b'\n' (strip output)) ++ rest

-- `_scan_config_files`
unfoldable pub scan_config_files : ScanTarget → Text → ℕ → List ConfigFile
unfolding configs_under paths_of
scan_config_files m name i = configs_under m i (paths_of name service_config_paths)

unfoldable pub update_configs : Text → List ConfigFile → Op (Unit {0})
update_configs now [] = pure tt
update_configs now (e ∷ es) = do stored (upsert_config_file now e); update_configs now es

unfoldable pub update_all_configs : ScanTarget → Names → Op (Unit {0})
unfolding scan_config_files update_configs
update_all_configs m [] = pure tt
update_all_configs m ((name, i) ∷ rest) = do
  update_configs m.now (scan_config_files m name i)
  update_all_configs m rest

abbrev pub inferred : KnownDependency → ℕ → ℕ → Dependency
inferred k i j = record {
  source_service_id = i;
  target_service_id = j;
  dep_type = k.dep_type;
  detail = some k.detail;
}

unfoldable pub targets_of : KnownDependency → ℕ → Names → List Dependency
targets_of k i [] = []
targets_of k i ((name, j) ∷ rest) =
    let more = targets_of k i rest in
    if contains name k.target_pattern && not (i == j) then inferred k i j ∷ more else more

unfoldable pub sources_of : KnownDependency → Names → Names → List Dependency
unfolding targets_of
sources_of k names [] = []
sources_of k names ((name, i) ∷ rest) =
    let more = sources_of k names rest in
    if contains name k.source_pattern then targets_of k i names ++ more else more

-- `_infer_dependencies`, for the list `known_deps`
unfoldable pub infer_dependencies : List KnownDependency → Names → List Dependency
unfolding sources_of
infer_dependencies [] names = []
infer_dependencies (k ∷ ks) names = sources_of k names names ++ infer_dependencies ks names

unfoldable pub update_dependencies : Text → List Dependency → Op (Unit {0})
update_dependencies now [] = pure tt
update_dependencies now (e ∷ es) = do stored (add_dependency now e); update_dependencies now es

-- the part of `scan_once` that writes to the store
unfoldable pub reconcile : ScanTarget → List Port → Found → Op (Unit {0})
unfolding update_nodes update_services update_ports update_interfaces update_all_configs
    infer_dependencies update_dependencies
reconcile m ports discovered = do
  node_map ← update_nodes m.now discovered.nodes []
  service_name_map ← update_services m.now node_map discovered.services []
  update_ports m.now ports
  update_interfaces m.now node_map discovered.network_interfaces
  update_all_configs m service_name_map
  update_dependencies m.now (infer_dependencies known_deps service_name_map)

-- The whole scan. The lists that the source also returns are only counted for its log, and are left
-- out.
unfoldable pub scan_once : ScanTarget → Op (Unit {0})
unfolding discover reconcile scan_ports
scan_once m = found (discover m) >>= reconcile m (scan_ports m)
