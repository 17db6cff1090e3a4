-- ===== src/Dna/Tables.antt =====
-- What the store needs of a SQLite table with an autoincremented id: rows in the order of their
-- ids, and the id that the next row gets. And the scheme that every upsert of dna/store.py follows.
pub mod Again
pub mod Kept
use silicon_valet.Prelude.{
  ℕ, suc, ◌+◌, Bool, true, false, Option, none, some, List, [], ◌∷◌, ◌++◌, Text, codes, text_eq,
  if◌then◌else◌, ◌==◌, any,
}
use silicon_valet.Dna.Models.{ChangeEntry, ChangeType, added, modified}

pub record Row {ℓ} (E : Type ℓ) : Type ℓ where
  pub id : ℕ
  pub body : E

pub record Table {ℓ} (E : Type ℓ) : Type ℓ where
  pub rows : List (Row E)
  pub next : ℕ

abbrev pub empty_table {ℓ} : {E : Type ℓ} → Table E
empty_table = record { rows = []; next = 1 }

-- A change of one field, as the loops over the field names report it.
pub record FieldChange : Type 0 where
  pub field : Text
  pub old_value : Option Text
  pub new_value : Option Text

-- What an upsert knows of its table: which row is the one to update, what it reports, and what it
-- writes into the row.
pub record Scheme {ℓ} (E : Type ℓ) : Type ℓ where
  pub entity_type : Text
  pub matches : E → E → Bool
  pub diff : E → E → List FieldChange
  pub merge : E → E → E

-- the entries that `_record_change` writes for the changed fields of the row `i`
unfoldable pub modifications : Text → Text → ℕ → List FieldChange → List ChangeEntry
modifications entity now i [] = []
modifications entity now i (c ∷ cs) =
    record {
      entity_type = entity;
      entity_id = i;
      change_type = modified;
      timestamp = now;
      field = some c.field;
      old_value = c.old_value;
      new_value = c.new_value;
    }
    ∷ modifications entity now i cs

abbrev pub addition : Text → Text → ℕ → ChangeEntry
addition entity now i = record {
  entity_type = entity;
  entity_id = i;
  change_type = added;
  timestamp = now;
  field = none;
  old_value = none;
  new_value = none;
}

module _ {ℓ} {E : Type ℓ} where
  -- the first row that passes the test
  unfoldable pub find_where : (E → Bool) → List (Row E) → Option (Row E)
  find_where p [] = none
  find_where p (r ∷ rs) = let rest = find_where p rs in if p r.body then some r else rest

  -- `UPDATE ... WHERE id=?`
  unfoldable pub update_id : ℕ → (E → E) → List (Row E) → List (Row E)
  update_id i f [] = []
  update_id i f (r ∷ rs) =
      let rest = update_id i f rs in
      if r.id == i then record r { body = f r.body } ∷ rest else r ∷ rest

  abbrev pub has_row : ℕ → List (Row E) → Bool
  has_row i rs = any (λ r. r.id == i) rs

  unfoldable pub insert_row : E → Table E → Table E
  insert_row e t = record {
    rows = t.rows ++ record { id = t.next; body = e } ∷ [];
    next = suc t.next;
  }

  -- An upsert: the id of the row, the table and the new entries of the log. `refers` is whether the
  -- foreign keys of a new row exist: SQLite raises an exception otherwise (none).
  unfoldable pub upsert :
      Scheme E → Bool → Text → E → Table E → Option (ℕ × Table E × List ChangeEntry)
  unfolding find_where update_id insert_row modifications
  upsert scheme refers now e t = elim (find_where (λ old. scheme.matches old e) t.rows) [
    | some r ↦ some (
      r.id,
      record t { rows = update_id r.id (λ old. scheme.merge old e) t.rows },
      modifications scheme.entity_type now r.id (scheme.diff r.body e),
    )
    | none ↦
        if refers
        then some (t.next, insert_row e t, addition scheme.entity_type now t.next ∷ [])
        else none
  ]
