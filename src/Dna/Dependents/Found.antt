-- ===== src/Dna/Dependents/Found.antt =====
-- What the traversal finds depends on the service it starts from.
use silicon_valet.Prelude.{
  ℕ, zero, suc, ◌≡◌, refl, ◌∙◌, sym, ap, subst, ◌⊎◌, inl, inr, true, false, not, Option, none, some,
  List, [], ◌∷◌, ◌++◌, if◌then◌else◌, if_cases, ◌==◌, ==_iff, append_nil, arith, Bool-cases,
}
use silicon_valet.Dna.Models.{Service}
use silicon_valet.Dna.Tables.{Row, has_row}
use silicon_valet.Dna.Dependents.{member, ids, unvisited, prepend, traverse}

pub member-append :
    (x : ℕ) (a b : List ℕ) → member x (a ++ b) ≡ (if member x a then true else member x b)
member-append x [] b = refl
member-append x (y ∷ a) b = let rest = member-append x a b in ground arith

pub member-ids : (x : ℕ) (rows : List (Row Service)) → member x (ids rows) ≡ has_row x rows
member-ids x [] = refl
member-ids x (r ∷ rows) = let rest = member-ids x rows in ground arith

pub has_row-append :
    (x : ℕ) (a b : List (Row Service))
    → has_row x (a ++ b) ≡ (if has_row x a then true else has_row x b)
has_row-append x [] b = refl
has_row-append x (r ∷ a) b = let rest = has_row-append x a b in ground arith

-- A row is left by `unvisited` exactly if its id has not been visited.
pub has_row-unvisited :
    (x : ℕ) (v : List ℕ) (rows : List (Row Service))
    → has_row x (unvisited v rows) ≡ (if member x v then false else has_row x rows)
unfolding unvisited
has_row-unvisited x v [] = ground arith
has_row-unvisited x v (r ∷ rows) = elim (Bool-cases (r.id == x)) [
  | inl e ↦
      let same = (==_iff r.id x).0 e in
      let rest = has_row-unvisited x v rows in
      elim (Bool-cases (member x v)) [
        | inl m ↦
            let k = subst (λ y. member y v ≡ true) (sym same) m in rw (k, m) (ground (arith, rest))
        | inr m ↦ let k = subst (λ y. member y v ≡ false) (sym same) m in rw (k, m, e) refl
      ]
  | inr e ↦
      let rest = has_row-unvisited x v rows in
      if_cases (λ l. has_row x l ≡ (if member x v then false else has_row x (r ∷ rows)))
        (not (member r.id v)) (r ∷ unvisited v rows) (unvisited v rows) (λ k. rw e rest)
        (λ k. rw e rest)
]

prepend-some :
    (found : List (Row Service)) (t : Option (List (Row Service))) (res : List (Row Service))
    → prepend found t ≡ some res
    → (rest : List (Row Service)) × (t ≡ some rest) × (found ++ rest ≡ res)
prepend-some found none res h = cc
prepend-some found (some rest) res h = (rest, refl, cc)

module _ (rows_of : ℕ → List (Row Service)) where
  -- `Depends i j`: the service `j` depends on `i`, in one step or several.
  pub data Depends (i : ℕ) : ℕ → Type 0 where
    direct : (j : ℕ) → has_row j (rows_of i) ≡ true → Depends i j
    further : (k j : ℕ) → Depends i k → has_row j (rows_of k) ≡ true → Depends i j

  -- A successful round: the service at the front had been visited, or its unvisited sources were
  -- appended to the queue and to the result.
  pub round_cases {κ} :
      (P : List (Row Service) → Type κ) (fuel c : ℕ) (visited queue : List ℕ)
      (res : List (Row Service))
      → (member c visited ≡ true → traverse rows_of fuel visited queue ≡ some res → P res)
      → (member c visited ≡ false
          → (rest : List (Row Service))
          → traverse rows_of fuel (c ∷ visited) (queue ++ ids (unvisited (c ∷ visited) (rows_of c)))
            ≡ some rest
          → P (unvisited (c ∷ visited) (rows_of c) ++ rest))
      → traverse rows_of (suc fuel) visited (c ∷ queue) ≡ some res
      → P res
  unfolding traverse
  round_cases P fuel c visited queue res old new h = elim (Bool-cases (member c visited)) [
    | inl e ↦
        let h' = rw (traverse, e, append_nil queue) at h in
        let (rest, k, same) = prepend-some [] (traverse rows_of fuel visited queue) res h' in
        old e (k ∙ ap some same)
    | inr e ↦
        let h' = rw (traverse, e) at h in
        let found = unvisited (c ∷ visited) (rows_of c) in
        let (rest, k, same) =
          prepend-some found (traverse rows_of fuel (c ∷ visited) (queue ++ ids found)) res h' in
        subst P same (new e rest k)
  ]

  pub one_step : (i c x : ℕ) → (c ≡ i) ⊎ Depends i c → has_row x (rows_of c) ≡ true → Depends i x
  one_step i c x (inl same) h = direct x (subst (λ y. has_row x (rows_of y) ≡ true) same h)
  one_step i c x (inr d) h = further c x d h

  pub found_facts :
      (c x : ℕ) (visited : List ℕ)
      → has_row x (unvisited (c ∷ visited) (rows_of c)) ≡ true
      → (has_row x (rows_of c) ≡ true) × (member x visited ≡ false)
  found_facts c x visited h =
      let left = has_row-unvisited x (c ∷ visited) (rows_of c) in (ground arith, ground arith)

  -- What the traversal finds depends on `i`, and had not been visited.
  pub traverse_sound :
      (i fuel : ℕ) (visited queue : List ℕ) (res : List (Row Service))
      → ((x : ℕ) → member x queue ≡ true → (x ≡ i) ⊎ Depends i x)
      → traverse rows_of fuel visited queue ≡ some res
      → (x : ℕ) → has_row x res ≡ true
      → Depends i x × (member x visited ≡ false)
  unfolding traverse
  traverse_sound i fuel visited [] res q h x k =
      let same : [] ≡ res = cc in let none' = subst (λ l. has_row x l ≡ true) (sym same) k in cc
  traverse_sound i zero visited (c ∷ queue) res q h x k = cc
  traverse_sound i (suc fuel) visited (c ∷ queue) res q h x k =
      round_cases (λ l. has_row x l ≡ true → Depends i x × (member x visited ≡ false)) fuel c
        visited queue res
        (λ e run k'. traverse_sound i fuel visited queue res (λ y m. q y (ground arith)) run x k')
        (λ e rest run k'.
          let rows = rows_of c in
          let found = unvisited (c ∷ visited) rows in
          let split = has_row-append x found rest in
          let here = q c (let t = (==_iff c c).1 refl in ground arith) in
          let onward : (y : ℕ) → member y (queue ++ ids found) ≡ true → (y ≡ i) ⊎ Depends i y =
            λ y m.
              let a = member-append y queue (ids found) in
              let b = member-ids y found in
              elim (Bool-cases (member y queue)) [
                | inl t ↦ q y (ground arith)
                | inr t ↦ inr (one_step i c y here (found_facts c y visited (ground arith)).0)
              ] in
          elim (Bool-cases (has_row x found)) [
            | inl f ↦ let (r, n) = found_facts c x visited f in (one_step i c x here r, n)
            | inr f ↦
                let (d, n) =
                  traverse_sound i fuel (c ∷ visited) (queue ++ ids found) rest onward run x
                    (ground arith) in
                (d, ground arith)
          ])
        h k
