-- ===== src/Dna/Tables/Kept.antt =====
-- What upserts and deletions keep of a table: its form, its ids, and the rows it refers to.
use silicon_valet.Prelude.{
  ℕ, suc, ◌<◌, ◌≡◌, refl, ◌∙◌, subst, inl, inr, Bool, true, false, some, List, [], ◌∷◌, ◌++◌, Text,
  if◌then◌else◌, if_cases, ◌==◌, All, keep, arith, Bool-cases, Option-cases,
}
use silicon_valet.Dna.Models.{ChangeEntry}
use silicon_valet.Dna.Tables.{
  Row, Table, Scheme, find_where, update_id, has_row, insert_row, addition, modifications, upsert,
}
use silicon_valet.Dna.Tables.Again.{
  Distinct, Below, IsWellFormed, has_row-update_id, upsert-found, upsert-new, upsert-refused,
}

module _ {ℓ} {E : Type ℓ} where
  module _ (i : ℕ) (f : E → E) where
    Distinct-update_id : (rs : List (Row E)) → Distinct rs → Distinct (update_id i f rs)
    unfolding update_id
    Distinct-update_id [] h = tt
    Distinct-update_id (r ∷ rs) (h, hs) =
        let rest = Distinct-update_id rs hs in
        if_cases Distinct (r.id == i) (record r { body = f r.body } ∷ update_id i f rs)
          (r ∷ update_id i f rs) (λ e. (has_row-update_id i r.id f rs ∙ h, rest))
          (λ e. (has_row-update_id i r.id f rs ∙ h, rest))

    All-update_id {κ} :
        (P : Row E → Type κ)
        → ((r : Row E) → P r → P (record r { body = f r.body }))
        → (rs : List (Row E)) → All P rs
        → All P (update_id i f rs)
    unfolding update_id
    All-update_id P step [] h = tt
    All-update_id P step (r ∷ rs) (h, hs) =
        let rest = All-update_id P step rs hs in
        if_cases (All P) (r.id == i) (record r { body = f r.body } ∷ update_id i f rs)
          (r ∷ update_id i f rs) (λ e. (step r h, rest)) (λ e. (h, rest))

  All-last {κ} :
      (P : Row E → Type κ) (rs : List (Row E)) (r : Row E) → All P rs → P r → All P (rs ++ r ∷ [])
  All-last P [] r h k = (k, tt)
  All-last P (q ∷ rs) r (h, hs) k = (h, All-last P rs r hs k)

  pub All-weaken {κ} :
      (P Q : Row E → Type κ) → ((r : Row E) → P r → Q r) → (rs : List (Row E)) → All P rs → All Q rs
  All-weaken P Q step [] h = tt
  All-weaken P Q step (r ∷ rs) (h, hs) = (step r h, All-weaken P Q step rs hs)

  pub has_row-last :
      (j : ℕ) (rs : List (Row E)) (r : Row E)
      → has_row j (rs ++ r ∷ []) ≡ (if has_row j rs then true else r.id == j)
  has_row-last j [] r = ground arith
  has_row-last j (q ∷ rs) r = let rest = has_row-last j rs r in ground arith

  Distinct-last :
      (rs : List (Row E)) (r : Row E) → Distinct rs → Below r.id rs → Distinct (rs ++ r ∷ [])
  Distinct-last [] r d b = (refl, tt)
  Distinct-last (q ∷ rs) r (d, ds) (b, bs) =
      let k = has_row-last q.id rs r in (ground arith, Distinct-last rs r ds bs)

  has_row-keep :
      (p : Row E → Bool) (j : ℕ) (rs : List (Row E))
      → has_row j rs ≡ false
      → has_row j (keep p rs) ≡ false
  has_row-keep p j [] h = refl
  has_row-keep p j (r ∷ rs) h =
      let rest = has_row-keep p j rs (ground arith) in
      if_cases (λ (l : List (Row E)). has_row j l ≡ false) (p r) (r ∷ keep p rs) (keep p rs)
        (λ e. ground arith) (λ e. rest)

  pub Distinct-keep : (p : Row E → Bool) (rs : List (Row E)) → Distinct rs → Distinct (keep p rs)
  Distinct-keep p [] h = tt
  Distinct-keep p (r ∷ rs) (h, hs) =
      if_cases Distinct (p r) (r ∷ keep p rs) (keep p rs)
        (λ e. (has_row-keep p r.id rs h, Distinct-keep p rs hs)) (λ e. Distinct-keep p rs hs)

  pub All-keep {κ} :
      (P Q : Row E → Type κ) (p : Row E → Bool)
      → ((r : Row E) → p r ≡ true → P r → Q r)
      → (rs : List (Row E)) → All P rs
      → All Q (keep p rs)
  All-keep P Q p step [] h = tt
  All-keep P Q p step (r ∷ rs) (h, hs) =
      let rest = All-keep P Q p step rs hs in
      if_cases (All Q) (p r) (r ∷ keep p rs) (keep p rs) (λ e. (step r e h, rest)) (λ e. rest)

  -- An upsert either updates a row in place or puts a new row with the next id behind the others.
  pub upsert_cases {κ} :
      (P : Table E → Type κ) (scheme : Scheme E) (known : Bool) (now : Text) (e : E) (t : Table E)
      (x : ℕ × Table E × List ChangeEntry)
      → ((r : Row E) → P (record t { rows = update_id r.id (λ old. scheme.merge old e) t.rows }))
      → (known ≡ true → P (insert_row e t))
      → upsert scheme known now e t ≡ some x
      → P x.1
  upsert_cases P scheme known now e t x old new h =
      elim (Option-cases (find_where (λ o. scheme.matches o e) t.rows)) [
        | inl k ↦ elim (Bool-cases known) [
          | inl yes' ↦
              let run = upsert-new scheme e now t k in
              let h' = subst (λ b. upsert scheme b now e t ≡ some x) yes' h in
              let same : (t.next, insert_row e t, addition scheme.entity_type now t.next ∷ []) ≡ x =
                cc in
              subst (λ y. P y.1) same (new yes')
          | inr no' ↦
              let run = upsert-refused scheme e now t k in
              let h' = subst (λ b. upsert scheme b now e t ≡ some x) no' h in cc
        ]
        | inr (r, k) ↦
            let run = upsert-found scheme e known now t r k in
            let same : (
              r.id,
              record t { rows = update_id r.id (λ o. scheme.merge o e) t.rows },
              modifications scheme.entity_type now r.id (scheme.diff r.body e),
            )
                ≡ x =
              cc in
            subst (λ y. P y.1) same (old r)
      ]

  module _ (scheme : Scheme E) (known : Bool) (now : Text) (e : E) (t : Table E)
      (x : ℕ × Table E × List ChangeEntry) (run : upsert scheme known now e t ≡ some x) where
    pub upsert-IsWellFormed : IsWellFormed t → IsWellFormed x.1
    unfolding insert_row
    upsert-IsWellFormed (d, b) =
        let f : E → E = λ old. scheme.merge old e in
        let last : Row E = record { id = t.next; body = e } in
        upsert_cases IsWellFormed scheme known now e t x
          (λ r. (
            Distinct-update_id r.id f t.rows d,
            All-update_id r.id f (λ q. q.id < t.next) (λ q h. h) t.rows b,
          ))
          (λ h. (
            Distinct-last t.rows last d b,
            All-last (λ q. q.id < suc t.next) t.rows last
                (All-weaken (λ q. q.id < t.next) (λ q. q.id < suc t.next) (λ q k. omega arith)
                  t.rows b)
                (omega arith),
          ))
          run

    pub upsert-has_row : (j : ℕ) → has_row j t.rows ≡ true → has_row j x.1.rows ≡ true
    unfolding insert_row
    upsert-has_row j h =
        upsert_cases (λ u. has_row j u.rows ≡ true) scheme known now e t x
          (λ r. has_row-update_id r.id j (λ old. scheme.merge old e) t.rows ∙ h)
          (λ k. let q = has_row-last j t.rows (record { id = t.next; body = e }) in ground arith)
          run

    pub upsert_All {κ} :
        (P : E → Type κ)
        → ((old : E) → P old → P (scheme.merge old e))
        → (known ≡ true → P e)
        → All (λ r. P r.body) t.rows
        → All (λ r. P r.body) x.1.rows
    unfolding insert_row
    upsert_All P step new h =
        upsert_cases (λ u. All (λ r. P r.body) u.rows) scheme known now e t x
          (λ r.
            All-update_id r.id (λ old. scheme.merge old e) (λ q. P q.body) (λ q k. step q.body k)
              t.rows h)
          (λ k. All-last (λ q. P q.body) t.rows (record { id = t.next; body = e }) h (new k)) run
