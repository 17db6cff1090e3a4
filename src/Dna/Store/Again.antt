-- ===== src/Dna/Store/Again.antt =====
-- Repeated scans: an upsert of what the store has just been told.
use silicon_valet.Prelude.{
  ℕ, ◌≡◌, refl, subst, inl, inr, Bool, true, Option, some, List, ◌++◌, Text, ◌&&◌, Option-cases,
  append_nil,
}
use silicon_valet.Dna.Models.{
  Node, Service, Port, ConfigFile, Dependency, NetworkInterface, ChangeEntry,
}
use silicon_valet.Dna.Tables.{Table, Scheme, upsert, has_row}
use silicon_valet.Dna.Tables.Again.{IsWellFormed, Settled, Quiet, upsert-again}
use silicon_valet.Dna.Store.Settled.{
  node-Settled, node_self-Settled, service-Settled, service_self-Settled, port-Settled,
  port_self-Settled, config-Settled, config_self-Settled, dependency-Settled,
  dependency_self-Settled, interface-Settled, interface_self-Settled,
}
use silicon_valet.Dna.Store.{
  Store, commit, node_scheme, service_scheme, port_scheme, config_scheme, dependency_scheme,
  interface_scheme, refers, upsert_node, upsert_service, upsert_port, upsert_config_file,
  add_dependency, upsert_network_interface,
}

-- The operation `again` finds nothing to do after an upsert if it runs the same upsert.
commit-again {ℓ} :
    {E : Type ℓ} (scheme : Scheme E) (e : E) (known : Bool) (now : Text) (t : Table E)
    (put : Table E → List ChangeEntry → Store) (again : ℕ × Store → Option (ℕ × Store))
    (x : ℕ × Store)
    → IsWellFormed t
    → ((old : E) → scheme.matches old e ≡ true → Settled scheme e (scheme.merge old e))
    → Settled scheme e e
    → ((i : ℕ) (t' : Table E) (log : List ChangeEntry)
        → Quiet scheme e (i, t', log)
        → again (i, put t' log) ≡ some (i, put t' log))
    → commit put (upsert scheme known now e t) ≡ some x
    → again x ≡ some x
unfolding commit
commit-again scheme e known now t put again x w settles self quiet h =
    elim (Option-cases (upsert scheme known now e t)) [
      | inl k ↦ let h' = subst (λ r. commit put r ≡ some x) k h in cc
      | inr ((i, t', log), k) ↦
          let h' = subst (λ r. commit put r ≡ some x) k h in
          let same : (i, put t' log) ≡ x = cc in
          subst (λ y. again y ≡ some y) same
            (quiet i t' log (upsert-again scheme e known now t (i, t', log) w settles self k))
    ]

-- When an upsert of a node has succeeded in a store with a well-formed table of nodes, a second one
-- of the same node, at any time, gives the same id and leaves the store as it is, its log included.
pub upsert_node-again :
    (now now' : Text) (e : Node) (s : Store) (x : ℕ × Store)
    → IsWellFormed s.nodes
    → upsert_node now e s ≡ some x
    → upsert_node now' e x.1 ≡ some x
unfolding upsert_node commit
upsert_node-again now now' e s x w h =
    commit-again node_scheme e true now s.nodes
      (λ t log. record s { nodes = t; changes_log = s.changes_log ++ log })
      (λ y. upsert_node now' e y.1) x w (node-Settled e) (node_self-Settled e)
      (λ i t log q. rw (upsert_node, q true now', append_nil (s.changes_log ++ log)) refl) h

-- When an upsert of a service has succeeded in a store with a well-formed table of services, a
-- second one of the same service, at any time, gives the same id and leaves the store as it is.
pub upsert_service-again :
    (now now' : Text) (e : Service) (s : Store) (x : ℕ × Store)
    → IsWellFormed s.services
    → upsert_service now e s ≡ some x
    → upsert_service now' e x.1 ≡ some x
unfolding upsert_service commit
upsert_service-again now now' e s x w h =
    commit-again service_scheme e (refers e.node_id s.nodes) now s.services
      (λ t log. record s { services = t; changes_log = s.changes_log ++ log })
      (λ y. upsert_service now' e y.1) x w (service-Settled e) (service_self-Settled e)
      (λ i t log q.
        rw (upsert_service, q (refers e.node_id s.nodes) now', append_nil (s.changes_log ++ log))
          refl)
      h

-- When an upsert of a port that belongs to a service has succeeded in a store with a well-formed
-- table of ports, a second one of the same port, at any time, gives the same id and leaves the
-- store as it is.
pub upsert_port-again :
    (now now' : Text) (e : Port) (s : Store) (x : ℕ × Store) (k : ℕ)
    → IsWellFormed s.ports
    → e.service_id ≡ some k
    → upsert_port now e s ≡ some x
    → upsert_port now' e x.1 ≡ some x
unfolding upsert_port commit
upsert_port-again now now' e s x k w o h =
    commit-again port_scheme e (refers e.service_id s.services) now s.ports
      (λ t log. record s { ports = t; changes_log = s.changes_log ++ log })
      (λ y. upsert_port now' e y.1) x w (port-Settled e) (port_self-Settled e k o)
      (λ i t log q.
        rw (upsert_port, q (refers e.service_id s.services) now', append_nil (s.changes_log ++ log))
          refl)
      h

pub upsert_config_file-again :
    (now now' : Text) (e : ConfigFile) (s : Store) (x : ℕ × Store) (k : ℕ)
    → IsWellFormed s.config_files
    → e.service_id ≡ some k
    → upsert_config_file now e s ≡ some x
    → upsert_config_file now' e x.1 ≡ some x
unfolding upsert_config_file commit
upsert_config_file-again now now' e s x k w o h =
    commit-again config_scheme e (refers e.service_id s.services) now s.config_files
      (λ t log. record s { config_files = t; changes_log = s.changes_log ++ log })
      (λ y. upsert_config_file now' e y.1) x w (config-Settled e) (config_self-Settled e k o)
      (λ i t log q.
        rw
          (
            upsert_config_file,
            q (refers e.service_id s.services) now',
            append_nil (s.changes_log ++ log),
          )
          refl)
      h

pub add_dependency-again :
    (now now' : Text) (e : Dependency) (s : Store) (x : ℕ × Store)
    → IsWellFormed s.dependencies
    → add_dependency now e s ≡ some x
    → add_dependency now' e x.1 ≡ some x
unfolding add_dependency commit
add_dependency-again now now' e s x w h =
    commit-again dependency_scheme e
      (has_row e.source_service_id s.services.rows && has_row e.target_service_id s.services.rows)
      now s.dependencies
      (λ t log. record s { dependencies = t; changes_log = s.changes_log ++ log })
      (λ y. add_dependency now' e y.1) x w (dependency-Settled e) (dependency_self-Settled e)
      (λ i t log q.
        rw
          (
            add_dependency,
            q
                (has_row e.source_service_id s.services.rows
                  && has_row e.target_service_id s.services.rows)
                now',
            append_nil (s.changes_log ++ log),
          )
          refl)
      h

pub upsert_network_interface-again :
    (now now' : Text) (e : NetworkInterface) (s : Store) (x : ℕ × Store)
    → IsWellFormed s.network_interfaces
    → upsert_network_interface now e s ≡ some x
    → upsert_network_interface now' e x.1 ≡ some x
unfolding upsert_network_interface commit
upsert_network_interface-again now now' e s x w h =
    commit-again interface_scheme e (has_row e.node_id s.nodes.rows) now s.network_interfaces
      (λ t log. record s { network_interfaces = t; changes_log = s.changes_log ++ log })
      (λ y. upsert_network_interface now' e y.1) x w (interface-Settled e)
      (interface_self-Settled e)
      (λ i t log q.
        rw
          (
            upsert_network_interface,
            q (has_row e.node_id s.nodes.rows) now',
            append_nil (s.changes_log ++ log),
          )
          refl)
      h
