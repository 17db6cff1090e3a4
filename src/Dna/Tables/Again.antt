-- ===== src/Dna/Tables/Again.antt =====
-- A repeated upsert, and well-formed tables.
use silicon_valet.Prelude.{
  ℕ, ◌<◌, ◌≡◌, refl, ◌∙◌, sym, ap, subst, inl, inr, Bool, true, false, none, some, List, [], ◌∷◌,
  ◌++◌, Text, ◌==◌, ==_iff, All, arith, Bool-cases, Option-cases,
}
use silicon_valet.Dna.Models.{ChangeEntry}
use silicon_valet.Dna.Tables.{
  Row, Table, Scheme, find_where, update_id, has_row, insert_row, addition, modifications, upsert,
}

module _ {ℓ} {E : Type ℓ} where
  -- No two rows have the same id.
  abbrev pub Distinct : List (Row E) → Type 0
  Distinct [] = Unit
  Distinct (r ∷ rs) = (has_row r.id rs ≡ false) × Distinct rs

  abbrev pub Below : ℕ → List (Row E) → Type 0
  Below n rs = All (λ r. r.id < n) rs

  -- The ids of the rows differ, and are below the id that the next row gets.
  abbrev pub IsWellFormed : Table E → Type 0
  IsWellFormed t = Distinct t.rows × Below t.next t.rows

  pub find_where-has_row :
      (p : E → Bool) (rs : List (Row E)) (r : Row E)
      → find_where p rs ≡ some r
      → has_row r.id rs ≡ true
  unfolding find_where
  find_where-has_row p [] r h = cc
  find_where-has_row p (q ∷ rs) r h = elim (Bool-cases (p q.body)) [
    | inl e ↦
        let k = rw e at h in
        let same : q ≡ r = cc in
        subst (λ x. has_row x.id (q ∷ rs) ≡ true) same (rw ((==_iff q.id q.id).1 refl) refl)
    | inr e ↦ let k = find_where-has_row p rs r (rw e at h) in ground arith
  ]

  update_id-absent :
      (i : ℕ) (f : E → E) (rs : List (Row E)) → has_row i rs ≡ false → update_id i f rs ≡ rs
  unfolding update_id
  update_id-absent i f [] h = refl
  update_id-absent i f (r ∷ rs) h = elim (Bool-cases (r.id == i)) [
    | inl e ↦ ground arith
    | inr e ↦ rw (e, update_id-absent i f rs (rw e at h)) refl
  ]

  pub has_row-update_id :
      (i j : ℕ) (f : E → E) (rs : List (Row E)) → has_row j (update_id i f rs) ≡ has_row j rs
  unfolding update_id
  has_row-update_id i j f [] = refl
  has_row-update_id i j f (r ∷ rs) = elim (Bool-cases (r.id == i)) [
    | inl e ↦ rw (e, has_row-update_id i j f rs) refl
    | inr e ↦ rw (e, has_row-update_id i j f rs) refl
  ]

  pub Below-has_row : (n : ℕ) (rs : List (Row E)) → Below n rs → has_row n rs ≡ false
  Below-has_row n [] h = refl
  Below-has_row n (r ∷ rs) (h, hs) = let k = Below-has_row n rs hs in ground arith

  apart :
      (q r : Row E) (rs : List (Row E))
      → has_row q.id rs ≡ false
      → has_row r.id rs ≡ true
      → (q.id == r.id) ≡ false
  apart q r rs d h = elim (Bool-cases (q.id == r.id)) [
    | inl e ↦ let k = subst (λ i. has_row i rs ≡ false) ((==_iff q.id r.id).0 e) d in ground arith
    | inr e ↦ e
  ]

  module _ (p : E → Bool) (f : E → E) where
    abbrev rewritten : Row E → Row E
    rewritten r = record r { body = f r.body }

    -- The row that the first upsert has updated is the one that the second finds.
    find_where-update_id :
        (rs : List (Row E)) (r : Row E)
        → Distinct rs
        → find_where p rs ≡ some r
        → p (f r.body) ≡ true
        → find_where p (update_id r.id f rs) ≡ some (rewritten r)
    unfolding find_where update_id
    find_where-update_id [] r d h k = cc
    find_where-update_id (q ∷ rs) r (d, ds) h k = elim (Bool-cases (p q.body)) [
      | inl e ↦
          let h' = rw e at h in
          let same : r ≡ q = cc in
          let k' = subst (λ x. p (f x.body) ≡ true) same k in
          subst (λ x. find_where p (update_id x.id f (q ∷ rs)) ≡ some (rewritten x)) (sym same)
            (rw ((==_iff q.id q.id).1 refl, k') refl)
      | inr e ↦
          let h' = rw e at h in
          let found = find_where-has_row p rs r h' in
          let other : (q.id == r.id) ≡ false = apart q r rs d found in
          rw (other, e) (find_where-update_id rs r ds h' k)
    ]

    update_head :
        (q : Row E) (rs : List (Row E))
        → has_row q.id rs ≡ false
        → update_id q.id f (q ∷ rs) ≡ rewritten q ∷ rs
    unfolding update_id
    update_head q rs d = rw ((==_iff q.id q.id).1 refl, update_id-absent q.id f rs d) refl

    update_id-again :
        (rs : List (Row E)) (r : Row E)
        → Distinct rs
        → find_where p rs ≡ some r
        → f (f r.body) ≡ f r.body
        → update_id r.id f (update_id r.id f rs) ≡ update_id r.id f rs
    unfolding find_where update_id
    update_id-again [] r d h k = refl
    update_id-again (q ∷ rs) r (d, ds) h k = elim (Bool-cases (p q.body)) [
      | inl e ↦
          let h' = rw e at h in
          let same : r ≡ q = cc in
          let k' = subst (λ x. f (f x.body) ≡ f x.body) same k in
          subst (λ x. update_id x.id f (update_id x.id f (q ∷ rs)) ≡ update_id x.id f (q ∷ rs))
            (sym same)
            (ap (update_id q.id f) (update_head q rs d)
              ∙ update_head (rewritten q) rs d
              ∙ ap (λ b. record q { body = b } ∷ rs) k'
              ∙ sym (update_head q rs d))
      | inr e ↦
          let h' = rw e at h in
          let other : (q.id == r.id) ≡ false = apart q r rs d (find_where-has_row p rs r h') in
          rw (other, other, update_id-again rs r ds h' k) refl
    ]

    find_where-passes : (rs : List (Row E)) (r : Row E) → find_where p rs ≡ some r → p r.body ≡ true
    unfolding find_where
    find_where-passes [] r h = cc
    find_where-passes (q ∷ rs) r h = elim (Bool-cases (p q.body)) [
      | inl e ↦ let h' = rw e at h in let same : q ≡ r = cc in subst (λ x. p x.body ≡ true) same e
      | inr e ↦ find_where-passes rs r (rw e at h)
    ]

    find_where-last :
        (rs : List (Row E)) (r : Row E)
        → find_where p rs ≡ none
        → p r.body ≡ true
        → find_where p (rs ++ r ∷ []) ≡ some r
    unfolding find_where
    find_where-last [] r h k = rw k refl
    find_where-last (q ∷ rs) r h k = elim (Bool-cases (p q.body)) [
      | inl e ↦ let h' = rw e at h in cc
      | inr e ↦ rw e (find_where-last rs r (rw e at h) k)
    ]

    update_id-last :
        (rs : List (Row E)) (r : Row E)
        → has_row r.id rs ≡ false
        → f r.body ≡ r.body
        → update_id r.id f (rs ++ r ∷ []) ≡ rs ++ r ∷ []
    unfolding update_id
    update_id-last [] r h k = rw ((==_iff r.id r.id).1 refl, k) refl
    update_id-last (q ∷ rs) r h k = elim (Bool-cases (q.id == r.id)) [
      | inl e ↦ ground arith
      | inr e ↦ rw (e, update_id-last rs r (rw e at h) k) refl
    ]

  module _ (scheme : Scheme E) (e : E) where
    -- A row that the entity has just been written into has nothing to change.
    abbrev pub Settled : E → Type ℓ
    Settled old =
        (scheme.matches old e ≡ true) × (scheme.merge old e ≡ old) × (scheme.diff old e ≡ [])

    pub upsert-found :
        (refers : Bool) (now : Text) (t : Table E) (r : Row E)
        → find_where (λ old. scheme.matches old e) t.rows ≡ some r
        → upsert scheme refers now e t
          ≡ some (
            r.id,
            record t { rows = update_id r.id (λ old. scheme.merge old e) t.rows },
            modifications scheme.entity_type now r.id (scheme.diff r.body e),
          )
    unfolding upsert
    upsert-found refers now t r h = rw (upsert, h) refl

    pub upsert-new :
        (now : Text) (t : Table E)
        → find_where (λ old. scheme.matches old e) t.rows ≡ none
        → upsert scheme true now e t
          ≡ some (t.next, insert_row e t, addition scheme.entity_type now t.next ∷ [])
    unfolding upsert
    upsert-new now t h = rw (upsert, h) refl

    pub upsert-refused :
        (now : Text) (t : Table E)
        → find_where (λ old. scheme.matches old e) t.rows ≡ none
        → upsert scheme false now e t ≡ none
    unfolding upsert
    upsert-refused now t h = rw (upsert, h) refl

    -- A second upsert of the same entity gives the same id, and changes and logs nothing.
    abbrev pub Quiet : ℕ × Table E × List ChangeEntry → Type ℓ
    Quiet (i, t, log) =
        (refers : Bool) (now : Text) → upsert scheme refers now e t ≡ some (i, t, [])

    Quiet-found :
        (t : Table E) (r : Row E) (log : List ChangeEntry)
        → IsWellFormed t
        → find_where (λ old. scheme.matches old e) t.rows ≡ some r
        → Settled (scheme.merge r.body e)
        → Quiet (r.id, record t { rows = update_id r.id (λ old. scheme.merge old e) t.rows }, log)
    unfolding modifications
    Quiet-found t r log (d, b) h (m, g, c) refers now =
        let p : E → Bool = λ old. scheme.matches old e in
        let f : E → E = λ old. scheme.merge old e in
        let found = find_where-update_id p f t.rows r d h m in
        let rows = update_id-again p f t.rows r d h g in
        upsert-found refers now (record t { rows = update_id r.id f t.rows })
          (record r { body = f r.body }) found
        ∙ rw (rows, c) refl

    Quiet-new :
        (t : Table E) (log : List ChangeEntry)
        → IsWellFormed t
        → find_where (λ old. scheme.matches old e) t.rows ≡ none
        → Settled e
        → Quiet (t.next, insert_row e t, log)
    unfolding modifications insert_row
    Quiet-new t log (d, b) h (m, g, c) refers now =
        let p : E → Bool = λ old. scheme.matches old e in
        let f : E → E = λ old. scheme.merge old e in
        let last : Row E = record { id = t.next; body = e } in
        let found = find_where-last p f t.rows last h m in
        let rows = update_id-last p f t.rows last (Below-has_row t.next t.rows b) g in
        upsert-found refers now (insert_row e t) last found ∙ rw (rows, c) refl

    pub upsert-again :
        (refers : Bool) (now : Text) (t : Table E) (x : ℕ × Table E × List ChangeEntry)
        → IsWellFormed t
        → ((old : E) → scheme.matches old e ≡ true → Settled (scheme.merge old e))
        → Settled e
        → upsert scheme refers now e t ≡ some x
        → Quiet x
    upsert-again refers now t x w settles self h =
        let p : E → Bool = λ old. scheme.matches old e in
        elim (Option-cases (find_where p t.rows)) [
          | inl k ↦ elim (Bool-cases refers) [
            | inl known ↦
                let log = addition scheme.entity_type now t.next ∷ [] in
                let run = upsert-new now t k in
                let h' = subst (λ b. upsert scheme b now e t ≡ some x) known h in
                let same : (t.next, insert_row e t, log) ≡ x = cc in
                subst Quiet same (Quiet-new t log w k self)
            | inr unknown ↦
                let run = upsert-refused now t k in
                let h' = subst (λ b. upsert scheme b now e t ≡ some x) unknown h in cc
          ]
          | inr (r, k) ↦
              let log = modifications scheme.entity_type now r.id (scheme.diff r.body e) in
              let t' = record t { rows = update_id r.id (λ old. scheme.merge old e) t.rows } in
              let run = upsert-found refers now t r k in
              let same : (r.id, t', log) ≡ x = cc in
              subst Quiet same (
                Quiet-found t r log w k
                  (settles r.body (find_where-passes p (λ old. scheme.merge old e) t.rows r k)))
        ]
