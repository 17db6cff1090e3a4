-- ===== src/Dna/Scanner/Update/Keeps.antt =====
-- What every operation of a scan keeps, the whole scan keeps.
use silicon_valet.Prelude.{
  ℕ, ◌≡◌, refl, not, Option, none, some, List, [], ◌∷◌, Text, if_cases, All, ◌==◌,
}
use silicon_valet.Dna.Models.{Node, Service, Port, ConfigFile, Dependency, NetworkInterface}
use silicon_valet.Dna.Store.{
  Store, upsert_node, upsert_service, upsert_config_file, add_dependency, upsert_network_interface,
}
use silicon_valet.Dna.Scanner.Machine.{ScanTarget}
use silicon_valet.Dna.Scanner.Plain.{scan_ports}
use silicon_valet.Dna.Scanner.Plain.Unowned.{scan_ports-Unowned}
use silicon_valet.Dna.Scanner.Objects.{Reading, value, caught, fault, Found, discover}
use silicon_valet.Dna.Scanner.Known.{known_deps}
use silicon_valet.Dna.Scanner.Update.{
  Op, next, ◌>>=◌, pure, stored, settled, found, Names, set_item, first_id, update_nodes, placed,
  update_services, update_port, update_ports, update_interface, update_interfaces,
  scan_config_files, update_configs, update_all_configs, infer_dependencies, update_dependencies,
  reconcile, scan_once,
}

abbrev pub Keeps {ℓ} : (Store → Type 0) → {A : Type ℓ} → Op A → Type 0
Keeps P m = (s : Store) → P s → P (m s).1

module _ {ℓ κ} {A : Type ℓ} {B : Type κ} (P : Store → Type 0) where
  next-Keeps :
      (f : A → Op B) (x : Option A × Store) → ((a : A) → Keeps P (f a)) → P x.1 → P (next f x).1
  next-Keeps f (none, s) k r = r
  next-Keeps f (some a, s) k r = k a s r

  bind-Keeps : (m : Op A) (f : A → Op B) → Keeps P m → ((a : A) → Keeps P (f a)) → Keeps P (m >>= f)
  bind-Keeps m f h k s r = next-Keeps f (m s) k (h s r)

  found-Keeps : (o : Reading A) (f : A → Op B) → ((a : A) → Keeps P (f a)) → Keeps P (found o >>= f)
  found-Keeps (value a) f k s r = k a s r
  found-Keeps caught f k s r = r
  found-Keeps fault f k s r = r

pub settled-Keeps :
    (P : Store → Type 0) (s : Store) (o : Option (ℕ × Store))
    → P s
    → ((x : ℕ × Store) → o ≡ some x → P x.1)
    → P (settled s o).1
settled-Keeps P s none r k = r
settled-Keeps P s (some (i, s')) r k = k (i, s') refl

-- What a predicate on stores needs of the operations. The ports that a scan finds have no service.
pub record IsKept (P : Store → Type 0) : Type 0 where
  pub node : (now : Text) (e : Node) → Keeps P (stored (upsert_node now e))
  pub service : (now : Text) (e : Service) → Keeps P (stored (upsert_service now e))
  pub port : (now : Text) (e : Port) → e.service_id ≡ none → Keeps P (update_port now e)
  pub config_file : (now : Text) (e : ConfigFile) → Keeps P (stored (upsert_config_file now e))
  pub dependency : (now : Text) (e : Dependency) → Keeps P (stored (add_dependency now e))
  pub network_interface :
      (now : Text) (e : NetworkInterface) → Keeps P (stored (upsert_network_interface now e))

module _ (P : Store → Type 0) (kept : IsKept P) (now : Text) where
  update_nodes-Keeps : (ns : List Node) (names : Names) → Keeps P (update_nodes now ns names)
  unfolding update_nodes
  update_nodes-Keeps [] names = λ s r. r
  update_nodes-Keeps (n ∷ ns) names =
      bind-Keeps P (stored (upsert_node now n))
        (λ i. update_nodes now ns (set_item n.hostname i names)) (kept.node now n)
        (λ i. update_nodes-Keeps ns (set_item n.hostname i names))

  update_services-Keeps :
      (nodes : Names) (es : List Service) (names : Names)
      → Keeps P (update_services now nodes es names)
  unfolding update_services
  update_services-Keeps nodes [] names = λ s r. r
  update_services-Keeps nodes (e ∷ es) names =
      bind-Keeps P (stored (upsert_service now (placed nodes e)))
        (λ i. update_services now nodes es (set_item e.name i names))
        (kept.service now (placed nodes e))
        (λ i. update_services-Keeps nodes es (set_item e.name i names))

  update_ports-Keeps :
      (es : List Port) → All (λ e. e.service_id ≡ none) es → Keeps P (update_ports now es)
  unfolding update_ports
  update_ports-Keeps [] u = λ s r. r
  update_ports-Keeps (e ∷ es) (n, u) =
      bind-Keeps P (update_port now e) (λ i. update_ports now es) (kept.port now e n)
        (λ i. update_ports-Keeps es u)

  given-Keeps :
      (e : NetworkInterface) (o : Option ℕ)
      → Keeps P {A = ℕ} (elim (o) [
        | none ↦ pure 0
        | some i ↦ stored (upsert_network_interface now (record e { node_id = i }))
      ])
  given-Keeps e none = λ s r. r
  given-Keeps e (some i) = kept.network_interface now (record e { node_id = i })

  update_interface-Keeps :
      (nodes : Names) (e : NetworkInterface) → Keeps P (update_interface now nodes e)
  unfolding update_interface
  update_interface-Keeps nodes e =
      if_cases (Keeps P {A = ℕ}) (not (e.node_id == 0)) (stored (upsert_network_interface now e)) _
        (λ h. kept.network_interface now e) (λ h. given-Keeps e (first_id nodes))

  update_interfaces-Keeps :
      (nodes : Names) (es : List NetworkInterface) → Keeps P (update_interfaces now nodes es)
  unfolding update_interfaces
  update_interfaces-Keeps nodes [] = λ s r. r
  update_interfaces-Keeps nodes (e ∷ es) =
      bind-Keeps P (update_interface now nodes e) (λ i. update_interfaces now nodes es)
        (update_interface-Keeps nodes e) (λ i. update_interfaces-Keeps nodes es)

  update_configs-Keeps : (es : List ConfigFile) → Keeps P (update_configs now es)
  unfolding update_configs
  update_configs-Keeps [] = λ s r. r
  update_configs-Keeps (e ∷ es) =
      bind-Keeps P (stored (upsert_config_file now e)) (λ i. update_configs now es)
        (kept.config_file now e) (λ i. update_configs-Keeps es)

  update_dependencies-Keeps : (es : List Dependency) → Keeps P (update_dependencies now es)
  unfolding update_dependencies
  update_dependencies-Keeps [] = λ s r. r
  update_dependencies-Keeps (e ∷ es) =
      bind-Keeps P (stored (add_dependency now e)) (λ i. update_dependencies now es)
        (kept.dependency now e) (λ i. update_dependencies-Keeps es)

module _ (P : Store → Type 0) (kept : IsKept P) (m : ScanTarget) where
  update_all_configs-Keeps : (names : Names) → Keeps P (update_all_configs m names)
  unfolding update_all_configs
  update_all_configs-Keeps [] = λ s r. r
  update_all_configs-Keeps ((name, i) ∷ rest) =
      bind-Keeps P (update_configs m.now (scan_config_files m name i))
        (λ u. update_all_configs m rest)
        (update_configs-Keeps P kept m.now (scan_config_files m name i))
        (λ u. update_all_configs-Keeps rest)

  reconcile-Keeps :
      (ports : List Port)
      → All (λ e. e.service_id ≡ none) ports
      → (d : Found) → Keeps P (reconcile m ports d)
  unfolding reconcile
  reconcile-Keeps ports u d =
      bind-Keeps P (update_nodes m.now d.nodes []) _ (update_nodes-Keeps P kept m.now d.nodes [])
        λ nodes.
          bind-Keeps P (update_services m.now nodes d.services []) _
            (update_services-Keeps P kept m.now nodes d.services [])
            λ names.
              bind-Keeps P (update_ports m.now ports) _ (update_ports-Keeps P kept m.now ports u)
                λ _.
                  bind-Keeps P (update_interfaces m.now nodes d.network_interfaces) _
                    (update_interfaces-Keeps P kept m.now nodes d.network_interfaces)
                    λ _.
                      bind-Keeps P (update_all_configs m names) _ (update_all_configs-Keeps names)
                        λ _.
                          update_dependencies-Keeps P kept m.now
                            (infer_dependencies known_deps names)

  pub scan_once-Keeps : Keeps P (scan_once m)
  unfolding scan_once
  scan_once-Keeps =
      found-Keeps P (discover m) (reconcile m (scan_ports m))
        (reconcile-Keeps (scan_ports m) (scan_ports-Unowned m))
