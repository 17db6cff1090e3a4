-- ===== src/Dna/Dependents/Reach.antt =====
-- The traversal finds exactly the services that depend on the one it starts from.
use silicon_valet.Prelude.{
  ℕ, zero, suc, ◌≡◌, refl, sym, subst, ◌⊎◌, inl, inr, ◌↔◌, Bool, true, false, some, List, [], ◌∷◌,
  ◌++◌, ◌==◌, ==_iff, arith, Bool-cases, length,
}
use silicon_valet.Dna.Models.{Service}
use silicon_valet.Dna.Tables.{Row, has_row}
use silicon_valet.Dna.Store.{Store}
use silicon_valet.Dna.Dependents.{sources, member, ids, unvisited, traverse, get_dependents}
use silicon_valet.Dna.Dependents.Found.{
  member-append, member-ids, has_row-append, has_row-unvisited, Depends, direct, further,
  round_cases, found_facts, traverse_sound,
}
use silicon_valet.Dna.Dependents.Search.{get_dependents_total}

module _ (rows_of : ℕ → List (Row Service)) where
  -- A set of services that holds the visited and the queued ones, is closed under the sources of
  -- those that had not been visited, and has only visited, queued and found ones.
  record Explored (visited queue : List ℕ) (res : List (Row Service)) : Type 0 where
    final : ℕ → Bool
    visited_in : (x : ℕ) → member x visited ≡ true → final x ≡ true
    queued_in : (x : ℕ) → member x queue ≡ true → final x ≡ true
    closed :
        (x y : ℕ)
        → final x ≡ true
        → member x visited ≡ false
        → has_row y (rows_of x) ≡ true
        → final y ≡ true
    only :
        (x : ℕ)
        → final x ≡ true
        → (member x visited ≡ true) ⊎ (member x queue ≡ true) ⊎ (has_row x res ≡ true)

  seen_before :
      (c : ℕ) (visited queue : List ℕ) (res : List (Row Service))
      → member c visited ≡ true
      → Explored visited queue res
      → Explored visited (c ∷ queue) res
  seen_before c visited queue res e s = record {
    final = s.final;
    visited_in = s.visited_in;
    queued_in = λ x h. elim (Bool-cases (c == x)) [
      | inl t ↦ s.visited_in x (subst (λ y. member y visited ≡ true) ((==_iff c x).0 t) e)
      | inr t ↦ s.queued_in x (rw t at h)
    ];
    closed = s.closed;
    only = λ x h. elim (s.only x h) [
      | inl t ↦ inl t
      | inr (inl t) ↦ inr (inl (ground arith))
      | inr (inr t) ↦ inr (inr t)
    ];
  }

  module _ (c : ℕ) (visited queue : List ℕ) (rest : List (Row Service)) where
    abbrev found : List (Row Service)
    found = unvisited (c ∷ visited) (rows_of c)

    seen_first :
        member c visited ≡ false
        → Explored (c ∷ visited) (queue ++ ids found) rest
        → Explored visited (c ∷ queue) (found ++ rest)
    seen_first e s = record {
      final = s.final;
      visited_in = λ x h. s.visited_in x (ground arith);
      queued_in = λ x h. elim (Bool-cases (c == x)) [
        | inl t ↦ s.visited_in x (rw t refl)
        | inr t ↦ let a = member-append x queue (ids found) in s.queued_in x (ground arith)
      ];
      closed = λ x y f v h. elim (Bool-cases (c == x)) [
        | inl t ↦
            let h' = subst (λ z. has_row y (rows_of z) ≡ true) (sym ((==_iff c x).0 t)) h in
            let a = member-append y queue (ids found) in
            let b = member-ids y found in
            let k = has_row-unvisited y (c ∷ visited) (rows_of c) in
            elim (Bool-cases (member y (c ∷ visited))) [
              | inl m ↦ s.visited_in y m
              | inr m ↦ s.queued_in y (ground arith)
            ]
        | inr t ↦ s.closed x y f (rw (t, v) refl) h
      ];
      only = λ x f.
          let a = member-append x queue (ids found) in
          let b = member-ids x found in
          let k = has_row-append x found rest in
          elim (s.only x f) [
            | inl t ↦ elim (Bool-cases (c == x)) [
              | inl same ↦ inr (inl (rw same refl))
              | inr other ↦ inl (ground arith)
            ]
            | inr (inl t) ↦ elim (Bool-cases (member x queue)) [
              | inl m ↦ inr (inl (ground arith))
              | inr m ↦ inr (inr (ground arith))
            ]
            | inr (inr t) ↦ inr (inr (ground arith))
          ];
    }

  traverse-Explored :
      (fuel : ℕ) (visited queue : List ℕ) (res : List (Row Service))
      → traverse rows_of fuel visited queue ≡ some res
      → Explored visited queue res
  unfolding traverse
  traverse-Explored fuel visited [] res h = record {
    final = λ x. member x visited;
    visited_in = λ x k. k;
    queued_in = λ x k. cc;
    closed = λ x y f v k. cc;
    only = λ x f. inl f;
  }
  traverse-Explored zero visited (c ∷ queue) res h = cc
  traverse-Explored (suc fuel) visited (c ∷ queue) res h =
      round_cases rows_of (Explored visited (c ∷ queue)) fuel c visited queue res
        (λ e run. seen_before c visited queue res e (traverse-Explored fuel visited queue res run))
        (λ e rest run. seen_first c visited queue rest e (
          traverse-Explored fuel (c ∷ visited) (queue ++ ids (found c visited queue rest)) rest
            run))
        h

  start_other :
      (i fuel x : ℕ) (res : List (Row Service))
      → traverse rows_of (suc fuel) [] (i ∷ []) ≡ some res
      → has_row x res ≡ true
      → (i == x) ≡ false
  start_other i fuel x res h k =
      round_cases rows_of (λ l. has_row x l ≡ true → (i == x) ≡ false) fuel i [] [] res
        (λ e run k'. cc)
        (λ e rest run k'.
          let rows = unvisited (i ∷ []) (rows_of i) in
          let a = has_row-append x rows rest in
          let b = has_row-unvisited x (i ∷ []) (rows_of i) in
          let queued : (y : ℕ) → member y ([] ++ ids rows) ≡ true → (y ≡ i) ⊎ Depends rows_of i y =
            λ y m.
              let c = member-ids y rows in
              inr (direct y (found_facts rows_of i y [] (ground arith)).0) in
          elim (Bool-cases (has_row x rows)) [
            | inl f ↦ ground arith
            | inr f ↦
                let n =
                  (traverse_sound rows_of i fuel (i ∷ []) ([] ++ ids rows) rest queued run x
                    (ground arith)).1 in
                ground arith
          ])
        h k

  Depends-final :
      (i j : ℕ) (res : List (Row Service)) (s : Explored [] (i ∷ []) res)
      → Depends rows_of i j
      → s.final j ≡ true
  Depends-final i j res s (direct j' h) =
      s.closed i j (s.queued_in i (rw ((==_iff i i).1 refl) refl)) refl h
  Depends-final i j res s (further k j' d h) = s.closed k j (Depends-final i k res s d) refl h

  traverse_exact :
      (i fuel : ℕ) (res : List (Row Service))
      → traverse rows_of (suc fuel) [] (i ∷ []) ≡ some res
      → (j : ℕ) → (has_row j res ≡ true) ↔ (¬ (j ≡ i) × Depends rows_of i j)
  traverse_exact i fuel res h j = (
    λ k.
        let n = start_other i fuel j res h k in
        let first : (y : ℕ) → member y (i ∷ []) ≡ true → (y ≡ i) ⊎ Depends rows_of i y =
          λ y m. let t : (i == y) ≡ true = ground arith in inl (sym ((==_iff i y).0 t)) in
        (
          λ same. let t = (==_iff i j).1 (sym same) in cc,
          (traverse_sound rows_of i (suc fuel) [] (i ∷ []) res first h j k).0,
        ),
    λ (n, d).
        let s = traverse-Explored (suc fuel) [] (i ∷ []) res h in
        elim (s.only j (Depends-final i j res s d)) [
          | inl v ↦ cc
          | inr (inl q) ↦
              let t : (i == j) ≡ true = ground arith in absurd (n (sym ((==_iff i j).0 t)))
          | inr (inr f) ↦ f
        ],
  )

-- The traversal ends within its fuel in every store, and a service is in its result exactly if it
-- is another one than the start and depends on it, in one step or several, by the dependencies
-- whose sources are in the store.
pub get_dependents_exact :
    (i : ℕ) (s : Store)
    → (r : List (Row Service)) × (get_dependents i s ≡ some r)
      × ((j : ℕ)
          → (has_row j r ≡ true)
            ↔ (¬ (j ≡ i) × Depends (sources s.services.rows s.dependencies.rows) i j))
unfolding get_dependents
get_dependents_exact i s =
    let (r, h) = get_dependents_total i s in
    (
      r,
      h,
      traverse_exact (sources s.services.rows s.dependencies.rows) i (length s.dependencies.rows) r
          h,
    )
