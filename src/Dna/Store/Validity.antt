-- ===== src/Dna/Store/Validity.antt =====
-- What holds of the store however it is reached: its ids and its foreign keys.
use silicon_valet.Prelude.{
  ℕ, ◌≡◌, refl, subst, true, Option, none, some, List, ◌++◌, Text, ◌&&◌, All, arith,
}
use silicon_valet.Dna.Models.{
  Node, Service, Port, ConfigFile, Dependency, NetworkInterface, ChangeEntry,
}
use silicon_valet.Dna.Tables.{Table, has_row, upsert}
use silicon_valet.Dna.Tables.Again.{IsWellFormed}
use silicon_valet.Dna.Tables.Kept.{All-weaken, upsert-IsWellFormed, upsert-has_row, upsert_All}
use silicon_valet.Dna.Store.{
  Store, commit, refers, node_scheme, service_scheme, port_scheme, config_scheme, dependency_scheme,
  interface_scheme, upsert_node, upsert_service, upsert_port, upsert_config_file, add_dependency,
  upsert_network_interface,
}

-- Foreign keys that may be NULL, and that may not, have their rows.
abbrev pub Refer {ℓ κ} : {E : Type ℓ} {F : Type κ} → (E → Option ℕ) → Table E → Table F → Type 0
Refer key t u = All (λ r. refers (key r.body) u ≡ true) t.rows

abbrev pub Own {ℓ κ} : {E : Type ℓ} {F : Type κ} → (E → ℕ) → Table E → Table F → Type 0
Own key t u = All (λ r. has_row (key r.body) u.rows ≡ true) t.rows

-- The ids of every table differ and are below its next one, and every foreign key that is not NULL
-- has its row.
abbrev pub IsValid : Store → Type 0
IsValid s =
    IsWellFormed s.nodes
    × IsWellFormed s.services
    × IsWellFormed s.ports
    × IsWellFormed s.config_files
    × IsWellFormed s.dependencies
    × IsWellFormed s.network_interfaces
    × Refer (λ e. e.node_id) s.services s.nodes
    × Refer (λ e. e.service_id) s.ports s.services
    × Refer (λ e. e.service_id) s.config_files s.services
    × Own (λ e. e.source_service_id) s.dependencies s.services
    × Own (λ e. e.target_service_id) s.dependencies s.services
    × Own (λ e. e.node_id) s.network_interfaces s.nodes

-- A successful operation has run its upsert.
commit_cases {ℓ κ} :
    {E : Type ℓ} (P : Store → Type κ) (put : Table E → List ChangeEntry → Store)
    (out : Option (ℕ × Table E × List ChangeEntry)) (x : ℕ × Store)
    → ((y : ℕ × Table E × List ChangeEntry) → out ≡ some y → P (put y.1 y.2))
    → commit put out ≡ some x
    → P x.1
unfolding commit
commit_cases P put none x step h = cc
commit_cases P put (some (i, t, log)) x step h =
    let same : (i, put t log) ≡ x = cc in subst (λ y. P y.1) same (step (i, t, log) refl)

-- A table of which an upsert was run keeps every id, and so every reference to it.
module _ {κ} {F : Type κ} (t u : Table F)
    (more : (j : ℕ) → has_row j t.rows ≡ true → has_row j u.rows ≡ true) where
  refers-more : (k : Option ℕ) → refers k t ≡ true → refers k u ≡ true
  unfolding refers
  refers-more none h = refl
  refers-more (some j) h = more j h

  Refer-more {ℓ} : {E : Type ℓ} (key : E → Option ℕ) (v : Table E) → Refer key v t → Refer key v u
  Refer-more key v h =
      All-weaken (λ r. refers (key r.body) t ≡ true) (λ r. refers (key r.body) u ≡ true)
        (λ r. refers-more (key r.body)) v.rows h

  Own-more {ℓ} : {E : Type ℓ} (key : E → ℕ) (v : Table E) → Own key v t → Own key v u
  Own-more key v h =
      All-weaken (λ r. has_row (key r.body) t.rows ≡ true) (λ r. has_row (key r.body) u.rows ≡ true)
        (λ r. more (key r.body)) v.rows h

module _ (now : Text) (s : Store) where
  pub upsert_node-IsValid :
      (e : Node) (x : ℕ × Store) → IsValid s → upsert_node now e s ≡ some x → IsValid x.1
  unfolding upsert_node
  upsert_node-IsValid e x (n, sv, p, c, d, i, rs, rp, rc, so, ta, ri) h =
      commit_cases IsValid (λ t log. record s { nodes = t; changes_log = s.changes_log ++ log })
        (upsert node_scheme true now e s.nodes) x
        (λ y run.
          let more = upsert-has_row node_scheme true now e s.nodes y run in
          (
            upsert-IsWellFormed node_scheme true now e s.nodes y run n,
            sv,
            p,
            c,
            d,
            i,
            Refer-more s.nodes y.1 more (λ b. b.node_id) s.services rs,
            rp,
            rc,
            so,
            ta,
            Own-more s.nodes y.1 more (λ b. b.node_id) s.network_interfaces ri,
          ))
        h

  pub upsert_service-IsValid :
      (e : Service) (x : ℕ × Store) → IsValid s → upsert_service now e s ≡ some x → IsValid x.1
  unfolding upsert_service service_scheme
  upsert_service-IsValid e x (n, sv, p, c, d, i, rs, rp, rc, so, ta, ri) h =
      let known = refers e.node_id s.nodes in
      commit_cases IsValid (λ t log. record s { services = t; changes_log = s.changes_log ++ log })
        (upsert service_scheme known now e s.services) x
        (λ y run.
          let more = upsert-has_row service_scheme known now e s.services y run in
          (
            n,
            upsert-IsWellFormed service_scheme known now e s.services y run sv,
            p,
            c,
            d,
            i,
            upsert_All service_scheme known now e s.services y run
                (λ b. refers b.node_id s.nodes ≡ true) (λ old k. k) (λ k. k) rs,
            Refer-more s.services y.1 more (λ b. b.service_id) s.ports rp,
            Refer-more s.services y.1 more (λ b. b.service_id) s.config_files rc,
            Own-more s.services y.1 more (λ b. b.source_service_id) s.dependencies so,
            Own-more s.services y.1 more (λ b. b.target_service_id) s.dependencies ta,
            ri,
          ))
        h

  pub upsert_port-IsValid :
      (e : Port) (x : ℕ × Store) → IsValid s → upsert_port now e s ≡ some x → IsValid x.1
  unfolding upsert_port port_scheme
  upsert_port-IsValid e x (n, sv, p, c, d, i, rs, rp, rc, so, ta, ri) h =
      let known = refers e.service_id s.services in
      commit_cases IsValid (λ t log. record s { ports = t; changes_log = s.changes_log ++ log })
        (upsert port_scheme known now e s.ports) x
        (λ y run. (
          n,
          sv,
          upsert-IsWellFormed port_scheme known now e s.ports y run p,
          c,
          d,
          i,
          rs,
          upsert_All port_scheme known now e s.ports y run
              (λ b. refers b.service_id s.services ≡ true) (λ old k. k) (λ k. k) rp,
          rc,
          so,
          ta,
          ri,
        ))
        h

  pub upsert_config_file-IsValid :
      (e : ConfigFile) (x : ℕ × Store)
      → IsValid s
      → upsert_config_file now e s ≡ some x
      → IsValid x.1
  unfolding upsert_config_file config_scheme
  upsert_config_file-IsValid e x (n, sv, p, c, d, i, rs, rp, rc, so, ta, ri) h =
      let known = refers e.service_id s.services in
      commit_cases IsValid
        (λ t log. record s { config_files = t; changes_log = s.changes_log ++ log })
        (upsert config_scheme known now e s.config_files) x
        (λ y run. (
          n,
          sv,
          p,
          upsert-IsWellFormed config_scheme known now e s.config_files y run c,
          d,
          i,
          rs,
          rp,
          upsert_All config_scheme known now e s.config_files y run
              (λ b. refers b.service_id s.services ≡ true) (λ old k. k) (λ k. k) rc,
          so,
          ta,
          ri,
        ))
        h

  pub add_dependency-IsValid :
      (e : Dependency) (x : ℕ × Store) → IsValid s → add_dependency now e s ≡ some x → IsValid x.1
  unfolding add_dependency dependency_scheme
  add_dependency-IsValid e x (n, sv, p, c, d, i, rs, rp, rc, so, ta, ri) h =
      let known =
        has_row e.source_service_id s.services.rows
        && has_row e.target_service_id s.services.rows in
      commit_cases IsValid
        (λ t log. record s { dependencies = t; changes_log = s.changes_log ++ log })
        (upsert dependency_scheme known now e s.dependencies) x
        (λ y run. (
          n,
          sv,
          p,
          c,
          upsert-IsWellFormed dependency_scheme known now e s.dependencies y run d,
          i,
          rs,
          rp,
          rc,
          upsert_All dependency_scheme known now e s.dependencies y run
              (λ b. has_row b.source_service_id s.services.rows ≡ true) (λ old k. k)
              (λ k. ground arith) so,
          upsert_All dependency_scheme known now e s.dependencies y run
              (λ b. has_row b.target_service_id s.services.rows ≡ true) (λ old k. k)
              (λ k. ground arith) ta,
          ri,
        ))
        h

  pub upsert_network_interface-IsValid :
      (e : NetworkInterface) (x : ℕ × Store)
      → IsValid s
      → upsert_network_interface now e s ≡ some x
      → IsValid x.1
  unfolding upsert_network_interface interface_scheme
  upsert_network_interface-IsValid e x (n, sv, p, c, d, i, rs, rp, rc, so, ta, ri) h =
      let known = has_row e.node_id s.nodes.rows in
      commit_cases IsValid
        (λ t log. record s { network_interfaces = t; changes_log = s.changes_log ++ log })
        (upsert interface_scheme known now e s.network_interfaces) x
        (λ y run. (
          n,
          sv,
          p,
          c,
          d,
          upsert-IsWellFormed interface_scheme known now e s.network_interfaces y run i,
          rs,
          rp,
          rc,
          so,
          ta,
          upsert_All interface_scheme known now e s.network_interfaces y run
              (λ b. has_row b.node_id s.nodes.rows ≡ true) (λ old k. k) (λ k. k) ri,
        ))
        h
