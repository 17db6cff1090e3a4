-- ===== src/Dna/Scanner/Update/Loops.antt =====
-- The loops of a scan over what it has found succeed.
use silicon_valet.Prelude.{
  ℕ, ◌≡◌, refl, true, ◌&&◌, Option, none, some, List, [], ◌∷◌, Text, text_eq, All, if_cases, ◌==◌,
  arith,
}
use silicon_valet.Dna.Models.{Node, Service, Port, ConfigFile, Dependency, NetworkInterface}
use silicon_valet.Dna.Tables.{Row, Table, has_row}
use silicon_valet.Dna.Store.{
  Store, refers, upsert_node, upsert_service, upsert_config_file, add_dependency,
}
use silicon_valet.Dna.Scanner.Update.{
  stored, Names, set_item, first_id, update_nodes, placed, update_services, service_by_port,
  with_service, upsert_owned, update_port, update_ports, update_interface, update_interfaces,
  update_configs, update_dependencies,
}
use silicon_valet.Dna.Scanner.Update.Steps.{
  Grows, Runs, bind-Runs, Any, node-Runs, service-Runs, port-Runs, config-Runs, dependency-Runs,
  interface-Runs,
}

-- The two services of a dependency are there.
abbrev pub Linked : Store → Dependency → Type 0
Linked s d =
    (has_row d.source_service_id s.services.rows ≡ true)
    × (has_row d.target_service_id s.services.rows ≡ true)

-- Every name has the id of a node, or of a service, of the store.
abbrev pub NodeIds : Names → Store → Type 0
NodeIds names s = All (λ (p : Text × ℕ). has_row p.1 s.nodes.rows ≡ true) names

abbrev pub ServiceIds : Names → Store → Type 0
ServiceIds names s = All (λ (p : Text × ℕ). has_row p.1 s.services.rows ≡ true) names

All-set_item :
    (P : ℕ → Type 0) (k : Text) (i : ℕ) (names : Names)
    → P i
    → All (λ (p : Text × ℕ). P p.1) names
    → All (λ (p : Text × ℕ). P p.1) (set_item k i names)
unfolding set_item
All-set_item P k i [] h hs = (h, tt)
All-set_item P k i ((j, n) ∷ rest) h (g, hs) =
    if_cases (All (λ (p : Text × ℕ). P p.1)) (text_eq j k) ((j, i) ∷ rest)
      ((j, n) ∷ set_item k i rest) (λ e. (h, hs)) (λ e. (g, All-set_item P k i rest h hs))

All-Grows :
    (P Q : ℕ → Type 0) (names : Names)
    → ((i : ℕ) → P i → Q i)
    → All (λ (p : Text × ℕ). P p.1) names
    → All (λ (p : Text × ℕ). Q p.1) names
All-Grows P Q [] k h = tt
All-Grows P Q ((j, n) ∷ rest) k (h, hs) = (k n h, All-Grows P Q rest k hs)

pub NodeIds-Grows : (names : Names) (s u : Store) → Grows s u → NodeIds names s → NodeIds names u
NodeIds-Grows names s u g h =
    All-Grows (λ i. has_row i s.nodes.rows ≡ true) (λ i. has_row i u.nodes.rows ≡ true) names g.0 h

pub ServiceIds-Grows :
    (names : Names) (s u : Store) → Grows s u → ServiceIds names s → ServiceIds names u
ServiceIds-Grows names s u g h =
    All-Grows (λ i. has_row i s.services.rows ≡ true) (λ i. has_row i u.services.rows ≡ true) names
      g.1 h

pub Grows-refl : (s : Store) → Grows s s
Grows-refl s = (λ j h. h, λ j h. h)

module _ (now : Text) where
  pub update_nodes-Runs :
      (ns : List Node) (names : Names) (s : Store)
      → NodeIds names s
      → Runs (update_nodes now ns names) s NodeIds
  unfolding update_nodes
  update_nodes-Runs [] names s h = (names, s, refl, Grows-refl s, h)
  update_nodes-Runs (n ∷ ns) names s h =
      bind-Runs (stored (upsert_node now n))
        (λ i. update_nodes now ns (set_item n.hostname i names)) s
        (λ i u. has_row i u.nodes.rows ≡ true) NodeIds (node-Runs now s n)
        (λ i u g r. update_nodes-Runs ns (set_item n.hostname i names) u (
          All-set_item (λ j. has_row j u.nodes.rows ≡ true) n.hostname i names r
            (NodeIds-Grows names s u g h)))

  refers-first :
      (nodes : Names) (s : Store) → NodeIds nodes s → refers (first_id nodes) s.nodes ≡ true
  unfolding refers first_id
  refers-first [] s h = refl
  refers-first ((k, i) ∷ rest) s (h, hs) = h

  pub update_services-Runs :
      (nodes : Names) (es : List Service) (names : Names) (s : Store)
      → NodeIds nodes s
      → All (λ e. e.node_id ≡ none) es
      → ServiceIds names s
      → Runs (update_services now nodes es names) s ServiceIds
  unfolding update_services placed
  update_services-Runs nodes [] names s n u h = (names, s, refl, Grows-refl s, h)
  update_services-Runs nodes (e ∷ es) names s n (u, us) h =
      bind-Runs (stored (upsert_service now (placed nodes e)))
        (λ i. update_services now nodes es (set_item e.name i names)) s
        (λ i v. has_row i v.services.rows ≡ true) ServiceIds
        (service-Runs now s (placed nodes e) (rw u (refers-first nodes s n)))
        (λ i v g r.
          update_services-Runs nodes es (set_item e.name i names) v (NodeIds-Grows nodes s v g n) us
            (All-set_item (λ j. has_row j v.services.rows ≡ true) e.name i names r
              (ServiceIds-Grows names s v g h)))

  by_port_step :
      (n : ℕ) (r : Row Port) (rs : List (Row Port)) (t : Table Service) (o : Option ℕ)
      → r.body.service_id ≡ o
      → refers (service_by_port n rs t) t ≡ true
      → refers (service_by_port n (r ∷ rs) t) t ≡ true
  unfolding refers service_by_port
  by_port_step n r rs t none h later = rw (service_by_port, h) later
  by_port_step n r rs t (some i) h later =
      rw (service_by_port, h)
        (if_cases (λ k. refers k t ≡ true) (r.body.port == n && has_row i t.rows) (some i)
          (service_by_port n rs t) (λ e. ground arith) (λ e. later))

  service_by_port-refers :
      (n : ℕ) (rs : List (Row Port)) (t : Table Service) → refers (service_by_port n rs t) t ≡ true
  unfolding refers service_by_port
  service_by_port-refers n [] t = refl
  service_by_port-refers n (r ∷ rs) t =
      by_port_step n r rs t r.body.service_id refl (service_by_port-refers n rs t)

  owned-Runs :
      (e : Port) (o : Option ℕ) (s : Store)
      → e.service_id ≡ o
      → refers o s.services ≡ true
      → Runs (upsert_owned now e o) s Any
  owned-Runs e none s h r = (0, s, refl, Grows-refl s, tt)
  owned-Runs e (some i) s h r = port-Runs now s e (rw h r)

  pub update_ports-Runs :
      (es : List Port) (s : Store)
      → All (λ e. e.service_id ≡ none) es
      → Runs (update_ports now es) s Any
  unfolding update_ports update_port with_service
  update_ports-Runs [] s h = (tt, s, refl, Grows-refl s, tt)
  update_ports-Runs (e ∷ es) s (h, hs) =
      bind-Runs (update_port now e) (λ i. update_ports now es) s Any Any
        (owned-Runs (with_service e s) (with_service e s).service_id s refl
          (rw h (service_by_port-refers e.port s.ports.rows s.services)))
        (λ i u g r. update_ports-Runs es u hs)

  update_interface-Runs :
      (nodes : Names) (e : NetworkInterface) (s : Store)
      → NodeIds nodes s
      → e.node_id ≡ 0
      → Runs (update_interface now nodes e) s Any
  unfolding update_interface first_id
  update_interface-Runs [] e s n h = (0, s, rw h refl, Grows-refl s, tt)
  update_interface-Runs ((k, i) ∷ rest) e s (n, ns) h =
      let (a, u, run, g, q) = interface-Runs now s (record e { node_id = i }) n in
      (a, u, rw h run, g, q)

  pub update_interfaces-Runs :
      (nodes : Names) (es : List NetworkInterface) (s : Store)
      → NodeIds nodes s
      → All (λ e. e.node_id ≡ 0) es
      → Runs (update_interfaces now nodes es) s Any
  unfolding update_interfaces
  update_interfaces-Runs nodes [] s n h = (tt, s, refl, Grows-refl s, tt)
  update_interfaces-Runs nodes (e ∷ es) s n (h, hs) =
      bind-Runs (update_interface now nodes e) (λ i. update_interfaces now nodes es) s Any Any
        (update_interface-Runs nodes e s n h)
        (λ i u g r. update_interfaces-Runs nodes es u (NodeIds-Grows nodes s u g n) hs)

  pub update_configs-Runs :
      (i : ℕ) (es : List ConfigFile) (s : Store)
      → has_row i s.services.rows ≡ true
      → All (λ e. e.service_id ≡ some i) es
      → Runs (update_configs now es) s Any
  unfolding update_configs refers
  update_configs-Runs i [] s r h = (tt, s, refl, Grows-refl s, tt)
  update_configs-Runs i (e ∷ es) s r (h, hs) =
      bind-Runs (stored (upsert_config_file now e)) (λ j. update_configs now es) s Any Any
        (config-Runs now s e (rw h r)) (λ j u g q. update_configs-Runs i es u (g.1 i r) hs)

  Linked-Grows :
      (ds : List Dependency) (s u : Store) → Grows s u → All (Linked s) ds → All (Linked u) ds
  Linked-Grows [] s u g h = tt
  Linked-Grows (d ∷ ds) s u g ((a, b), hs) =
      ((g.1 d.source_service_id a, g.1 d.target_service_id b), Linked-Grows ds s u g hs)

  pub update_dependencies-Runs :
      (ds : List Dependency) (s : Store)
      → All (Linked s) ds
      → Runs (update_dependencies now ds) s Any
  unfolding update_dependencies
  update_dependencies-Runs [] s h = (tt, s, refl, Grows-refl s, tt)
  update_dependencies-Runs (d ∷ ds) s ((a, b), hs) =
      bind-Runs (stored (add_dependency now d)) (λ i. update_dependencies now ds) s Any Any
        (dependency-Runs now s d a b)
        (λ i u g q. update_dependencies-Runs ds u (Linked-Grows ds s u g hs))
