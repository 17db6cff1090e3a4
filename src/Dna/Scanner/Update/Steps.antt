-- ===== src/Dna/Scanner/Update/Steps.antt =====
-- One operation of a scan on the store succeeds where its foreign keys have their rows.
use silicon_valet.Prelude.{
  ℕ, ◌≡◌, refl, sym, subst, ◌∙◌, inl, inr, Bool, true, ◌&&◌, some, List, Text, Option-cases, arith,
}
use silicon_valet.Dna.Models.{
  Node, Service, Port, ConfigFile, Dependency, NetworkInterface, ChangeEntry,
}
use silicon_valet.Dna.Tables.{Table, Scheme, find_where, upsert, has_row, insert_row}
use silicon_valet.Dna.Tables.Again.{find_where-has_row, has_row-update_id, upsert-found, upsert-new}
use silicon_valet.Dna.Tables.Kept.{upsert-has_row, has_row-last}
use silicon_valet.Dna.Store.{
  Store, commit, refers, node_scheme, service_scheme, port_scheme, config_scheme, dependency_scheme,
  interface_scheme, upsert_node, upsert_service, upsert_port, upsert_config_file, add_dependency,
  upsert_network_interface,
}
use silicon_valet.Dna.Scanner.Update.{Op, ◌>>=◌, stored}

-- An upsert whose foreign keys exist succeeds, with the id of a row that is there.
module _ {E : Type 0} (scheme : Scheme E) (now : Text) (e : E) (t : Table E) where
  abbrev Given : Bool → Type 0
  Given known =
      (x : ℕ × Table E × List ChangeEntry) × (upsert scheme known now e t ≡ some x)
      × (has_row x.0 x.1.rows ≡ true)

  upsert-Given : Given true
  unfolding insert_row
  upsert-Given = elim (Option-cases (find_where (λ old. scheme.matches old e) t.rows)) [
    | inl k ↦ (
      _,
      upsert-new scheme e now t k,
      has_row-last t.next t.rows (record { id = t.next; body = e }) ∙ ground arith,
    )
    | inr (r, k) ↦ (
      _,
      upsert-found scheme e true now t r k,
      has_row-update_id r.id r.id (λ old. scheme.merge old e) t.rows
          ∙ find_where-has_row (λ old. scheme.matches old e) t.rows r k,
    )
  ]

-- No node and no service is lost.
abbrev pub Grows : Store → Store → Type 0
Grows s u =
    ((j : ℕ) → has_row j s.nodes.rows ≡ true → has_row j u.nodes.rows ≡ true)
    × ((j : ℕ) → has_row j s.services.rows ≡ true → has_row j u.services.rows ≡ true)

pub Grows-trans : (s t u : Store) → Grows s t → Grows t u → Grows s u
Grows-trans s t u (a, b) (c, d) = (λ j h. c j (a j h), λ j h. d j (b j h))

-- The step succeeds, with `Q` of its result and the store.
abbrev pub Runs : {A : Type 0} → Op A → Store → (A → Store → Type 0) → Type 0
Runs {A} m s Q = (a : A) × (u : Store) × (m s ≡ (some a, u)) × Grows s u × Q a u

pub bind-Runs :
    {A B : Type 0} (m : Op A) (f : A → Op B) (s : Store) (Q : A → Store → Type 0)
    (R : B → Store → Type 0)
    → Runs m s Q
    → ((a : A) (u : Store) → Grows s u → Q a u → Runs (f a) u R)
    → Runs (m >>= f) s R
bind-Runs m f s Q R (a, u, e, g, q) k =
    let (b, v, e', g', r) = k a u g q in (b, v, rw e e', Grows-trans s u v g g', r)

commit-Runs :
    {E : Type 0} (scheme : Scheme E) (known : Bool) (now : Text) (e : E) (t : Table E)
    (put : Table E → List ChangeEntry → Store) (s : Store) (Q : ℕ → Store → Type 0)
    → known ≡ true
    → ((x : ℕ × Table E × List ChangeEntry)
        → upsert scheme known now e t ≡ some x
        → has_row x.0 x.1.rows ≡ true
        → Grows s (put x.1 x.2) × Q x.0 (put x.1 x.2))
    → Runs (stored (λ _. commit put (upsert scheme known now e t))) s Q
unfolding commit
commit-Runs scheme known now e t put s Q h k =
    let (x, run, r) = subst (Given scheme now e t) (sym h) (upsert-Given scheme now e t) in
    let (g, q) = k x run r in (x.0, put x.1 x.2, rw run refl, g, q)

abbrev pub Any : {A : Type 0} → A → Store → Type 0
Any a u = Unit

module _ (now : Text) (s : Store) where
  pub node-Runs :
      (e : Node) → Runs (stored (upsert_node now e)) s (λ i u. has_row i u.nodes.rows ≡ true)
  unfolding upsert_node
  node-Runs e =
      commit-Runs node_scheme true now e s.nodes _ s (λ i u. has_row i u.nodes.rows ≡ true) refl
        (λ x run r. ((upsert-has_row node_scheme true now e s.nodes x run, λ j h. h), r))

  pub service-Runs :
      (e : Service)
      → refers e.node_id s.nodes ≡ true
      → Runs (stored (upsert_service now e)) s (λ i u. has_row i u.services.rows ≡ true)
  unfolding upsert_service
  service-Runs e known =
      commit-Runs service_scheme (refers e.node_id s.nodes) now e s.services _ s
        (λ i u. has_row i u.services.rows ≡ true) known
        (λ x run r. (
          (
            λ j h. h,
            upsert-has_row service_scheme (refers e.node_id s.nodes) now e s.services x run,
          ),
          r,
        ))

  pub port-Runs :
      (e : Port) → refers e.service_id s.services ≡ true → Runs (stored (upsert_port now e)) s Any
  unfolding upsert_port
  port-Runs e known =
      commit-Runs port_scheme (refers e.service_id s.services) now e s.ports _ s Any known
        (λ x run r. ((λ j h. h, λ j h. h), tt))

  pub config-Runs :
      (e : ConfigFile)
      → refers e.service_id s.services ≡ true
      → Runs (stored (upsert_config_file now e)) s Any
  unfolding upsert_config_file
  config-Runs e known =
      commit-Runs config_scheme (refers e.service_id s.services) now e s.config_files _ s Any known
        (λ x run r. ((λ j h. h, λ j h. h), tt))

  pub dependency-Runs :
      (e : Dependency)
      → has_row e.source_service_id s.services.rows ≡ true
      → has_row e.target_service_id s.services.rows ≡ true
      → Runs (stored (add_dependency now e)) s Any
  unfolding add_dependency
  dependency-Runs e source target =
      commit-Runs dependency_scheme
        (has_row e.source_service_id s.services.rows && has_row e.target_service_id s.services.rows)
        now e s.dependencies _ s Any (rw (source, target) refl)
        (λ x run r. ((λ j h. h, λ j h. h), tt))

  pub interface-Runs :
      (e : NetworkInterface)
      → has_row e.node_id s.nodes.rows ≡ true
      → Runs (stored (upsert_network_interface now e)) s Any
  unfolding upsert_network_interface
  interface-Runs e known =
      commit-Runs interface_scheme (has_row e.node_id s.nodes.rows) now e s.network_interfaces _ s
        Any known (λ x run r. ((λ j h. h, λ j h. h), tt))
