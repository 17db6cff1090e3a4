-- ===== src/Dna/Dependents/Search.antt =====
-- The traversal ends, and what it finds.
use silicon_valet.Prelude.{
  ℕ, zero, suc, ◌+◌, ◌≤◌, ◌≡◌, refl, sym, ap, subst, inl, inr, true, false, not, some, List, [],
  ◌∷◌, ◌++◌, if◌then◌else◌, if_cases, ◌==◌, ==_iff, length, length-append, append_nil, arith,
  Bool-cases,
}
use silicon_valet.Dna.Models.{Service, Dependency}
use silicon_valet.Dna.Tables.{Row}
use silicon_valet.Dna.Store.{Store}
use silicon_valet.Dna.Dependents.{
  services_of, sources, member, ids, unvisited, traverse, get_dependents,
}

-- The dependencies whose target has not been visited.
abbrev pending : List ℕ → List (Row Dependency) → ℕ
pending visited [] = 0
pending visited (d ∷ ds) =
    let rest = pending visited ds in
    if member d.body.target_service_id visited then rest else suc rest

length-unvisited :
    (visited : List ℕ) (rows : List (Row Service)) → length (unvisited visited rows) ≤ length rows
unfolding unvisited
length-unvisited visited [] = omega arith
length-unvisited visited (r ∷ rows) =
    let rest = length-unvisited visited rows in
    if_cases (λ l. length l ≤ suc (length rows)) (not (member r.id visited))
      (r ∷ unvisited visited rows) (unvisited visited rows) (λ e. omega arith) (λ e. omega arith)

length-services_of : (i : ℕ) (rows : List (Row Service)) → length (services_of i rows) ≤ 1
unfolding services_of
length-services_of i [] = omega arith
length-services_of i (r ∷ rows) =
    let rest = length-services_of i rows in
    if_cases (λ l. length l ≤ 1) (r.id == i) (r ∷ []) (services_of i rows) (λ e. omega arith)
      (λ e. rest)

length-ids : (rows : List (Row Service)) → length (ids rows) ≡ length rows
length-ids [] = refl
length-ids (r ∷ rows) = ap suc (length-ids rows)

pending_visit :
    (services : List (Row Service)) (ds : List (Row Dependency)) (visited : List ℕ) (c : ℕ)
    → member c visited ≡ false
    → length (sources services ds c) + pending (c ∷ visited) ds ≤ pending visited ds
unfolding sources
pending_visit services [] visited c h = omega arith
pending_visit services (d ∷ ds) visited c h =
    let rest = pending_visit services ds visited c h in
    let one = length-services_of d.body.source_service_id services in
    let sum =
      length-append (services_of d.body.source_service_id services) (sources services ds c) in
    elim (Bool-cases (d.body.target_service_id == c)) [
      | inl e ↦
          let same = (==_iff d.body.target_service_id c).0 e in
          let k : (c == d.body.target_service_id) ≡ true = ground arith in
          let n = subst (λ x. member x visited ≡ false) (sym same) h in
          rw (e, k, n) (omega (arith, rest, one, sum))
      | inr e ↦
          let k : (c == d.body.target_service_id) ≡ false = ground arith in
          elim (Bool-cases (member d.body.target_service_id visited)) [
            | inl m ↦ rw (e, k, m) (omega (arith, rest))
            | inr m ↦ rw (e, k, m) (omega (arith, rest))
          ]
    ]

pending_none : (ds : List (Row Dependency)) → pending [] ds ≤ length ds
pending_none [] = omega arith
pending_none (d ∷ ds) = omega (arith, pending_none ds)

module _ (services : List (Row Service)) (ds : List (Row Dependency)) where
  traverse_total :
      (fuel : ℕ) (visited queue : List ℕ)
      → length queue + pending visited ds ≤ fuel
      → (r : List (Row Service)) × (traverse (sources services ds) fuel visited queue ≡ some r)
  unfolding traverse
  traverse_total fuel visited [] h = ([], refl)
  traverse_total zero visited (c ∷ queue) h = absurd (omega arith)
  traverse_total (suc fuel) visited (c ∷ queue) h = elim (Bool-cases (member c visited)) [
    | inl e ↦
        let (r, k) =
          traverse_total fuel visited (queue ++ []) (rw (append_nil queue) (omega arith)) in
        (r, rw (e, k) refl)
    | inr e ↦
        let rows = sources services ds c in
        let found = unvisited (c ∷ visited) rows in
        let fewer = length-unvisited (c ∷ visited) rows in
        let same = length-ids found in
        let sum = length-append queue (ids found) in
        let left = pending_visit services ds visited c e in
        let (r, k) =
          traverse_total fuel (c ∷ visited) (queue ++ ids found)
            (omega (arith, fewer, same, sum, left)) in
        (found ++ r, rw (e, k) refl)
  ]

-- The traversal of every store ends within its fuel.
pub get_dependents_total :
    (i : ℕ) (s : Store) → (r : List (Row Service)) × (get_dependents i s ≡ some r)
unfolding get_dependents
get_dependents_total i s =
    let ds = s.dependencies.rows in
    traverse_total s.services.rows ds (suc (length ds)) [] (i ∷ []) (omega (arith, pending_none ds))
