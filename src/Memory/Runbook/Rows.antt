-- ===== src/Memory/Runbook/Rows.antt =====
-- What `add` and `record_success` do to the rows that a reader finds.
use silicon_valet.Prelude.{
  ◌+◌, ◌≡◌, refl, ◌∙◌, sym, ap, inl, inr, Bool, true, false, Option, none, some, List, [], ◌∷◌,
  Text, text_eq, if◌then◌else◌, if_cases, Bool-cases, text_eq_refl, text_eq_sound, text_eq_apart,
  text_eq_sym, subst,
}
use silicon_valet.Memory.Runbook.{
  RunbookEntry, Library, add, insert_or_replace, upsert_id, to_search_text, find_row, bump,
  update_row, record_success,
}

-- The entry with one success more than it had, used last at this time, and as it was otherwise.
abbrev pub used_again : Text → Option RunbookEntry → Option RunbookEntry
used_again now none = none
used_again now (some e) = some (record {
  body = e.body;
  success_count = e.success_count + 1;
  created_at = e.created_at;
  last_used = some now;
  id = e.id;
})

find_row-hit :
    (id : Text) (e : RunbookEntry) (es : List RunbookEntry)
    → text_eq e.id id ≡ true
    → find_row id (e ∷ es) ≡ some e
unfolding find_row
find_row-hit id e es h = rw h refl

find_row-miss :
    (id : Text) (e : RunbookEntry) (es : List RunbookEntry)
    → text_eq e.id id ≡ false
    → find_row id (e ∷ es) ≡ find_row id es
unfolding find_row
find_row-miss id e es h = rw h refl

find_row-same :
    (now id : Text) (rows : List RunbookEntry)
    → find_row id (update_row now id rows) ≡ used_again now (find_row id rows)
unfolding find_row update_row bump
find_row-same now id [] = refl
find_row-same now id (e ∷ es) = elim (Bool-cases (text_eq e.id id)) [
  | inl h ↦ rw (h, h) refl
  | inr h ↦ rw (h, h) (find_row-same now id es)
]

find_row-other :
    (now id other : Text) (rows : List RunbookEntry)
    → text_eq other id ≡ false
    → find_row other (update_row now id rows) ≡ find_row other rows
unfolding find_row update_row bump
find_row-other now id other [] n = refl
find_row-other now id other (e ∷ es) n = elim (Bool-cases (text_eq e.id id)) [
  | inl h ↦ let k = text_eq_apart e.id id other h n in rw (h, k) (find_row-other now id other es n)
  | inr h ↦
      let rest = find_row-other now id other es n in
      rw h (ap (λ r. if text_eq e.id other then some e else r) rest)
]

-- After `record_success now id`, the row found for `id` is the one found before, used last
-- at `now` and with one success more, and the row found for every other id is the one found before.
pub find_row-record_success :
    (now id other : Text) (lib : Library)
    → find_row other (record_success now id lib).rows ≡ (
        if text_eq other id
        then used_again now (find_row other lib.rows)
        else find_row other lib.rows)
unfolding record_success
find_row-record_success now id other lib = elim (Bool-cases (text_eq other id)) [
  | inl h ↦
      let same = text_eq_sound other id h in
      rw (same, text_eq_refl id) (find_row-same now id lib.rows)
  | inr h ↦ rw h (find_row-other now id other lib.rows h)
]

add_rows :
    (embeds : Text → Bool) (e : RunbookEntry) (lib : Library)
    → (add embeds e lib).1.rows ≡ insert_or_replace e lib.rows
unfolding add
add_rows embeds e lib =
    if_cases (λ (r : Bool × Library). r.1.rows ≡ insert_or_replace e lib.rows)
      (embeds (to_search_text e))
      (true, record { rows = insert_or_replace e lib.rows; indexed = upsert_id e.id lib.indexed })
      (false, record { rows = insert_or_replace e lib.rows; indexed = lib.indexed }) (λ h. refl)
      (λ h. refl)

module _ (e r : RunbookEntry) (rows : List RunbookEntry) where
  replace_same :
      text_eq r.id e.id ≡ true → insert_or_replace e (r ∷ rows) ≡ insert_or_replace e rows
  unfolding insert_or_replace
  replace_same h = rw h refl

  replace_other :
      text_eq r.id e.id ≡ false → insert_or_replace e (r ∷ rows) ≡ r ∷ insert_or_replace e rows
  unfolding insert_or_replace
  replace_other h = rw h refl

find_row-replace :
    (e : RunbookEntry) (other : Text) (rows : List RunbookEntry)
    → find_row other (insert_or_replace e rows)
      ≡ (if text_eq e.id other then some e else find_row other rows)
unfolding insert_or_replace find_row
find_row-replace e other [] = refl
find_row-replace e other (r ∷ rows) = elim (Bool-cases (text_eq r.id e.id)) [
  | inl h ↦
      let same = text_eq_sound r.id e.id h in
      ap (find_row other) (replace_same e r rows h)
      ∙ find_row-replace e other rows
      ∙ elim (Bool-cases (text_eq e.id other)) [
        | inl k ↦ rw k refl
        | inr k ↦
            rw (k, find_row-miss other r rows (subst (λ x. text_eq x other ≡ false) (sym same) k))
              refl
      ]
  | inr h ↦
      ap (find_row other) (replace_other e r rows h) ∙ elim (Bool-cases (text_eq r.id other)) [
        | inl k ↦
            let n = subst (λ x. text_eq x e.id ≡ false) (text_eq_sound r.id other k) h in
            rw (k, text_eq_sym e.id other, n) refl
        | inr k ↦ rw k (find_row-replace e other rows)
      ]
]

-- The entry that `add` was given is then found by its id, and every other id finds what it found
-- before, whether or not the embedding succeeds.
pub find_row-add :
    (embeds : Text → Bool) (e : RunbookEntry) (other : Text) (lib : Library)
    → find_row other (add embeds e lib).1.rows
      ≡ (if text_eq e.id other then some e else find_row other lib.rows)
find_row-add embeds e other lib =
    subst
      (λ rows.
        find_row other rows ≡ (if text_eq e.id other then some e else find_row other lib.rows))
      (sym (add_rows embeds e lib)) (find_row-replace e other lib.rows)
