-- ===== src/Memory/Runbook.antt =====
-- memory/procedural.py: runbooks and the library that stores them. The SQLite table is the list of
-- its rows in the order of their row ids; the vector index is the list of ids that it holds.
pub mod Rows
use silicon_valet.Prelude.{
  ℕ, ◌+◌, Bool, true, false, Option, none, some, List, [], ◌∷◌, ◌++◌, String, Text, codes, text_eq,
  nonempty, join, leb, length, keep, not, if◌then◌else◌,
}
use silicon_valet.Risk.Classifier.{RiskTier}

-- {"action": ..., "command": ..., "explanation": ..., "risk_tier": ...}
pub record Step : Type 0 where
  pub action : Text
  pub command : Text
  pub explanation : Text
  pub risk_tier : RiskTier

abbrev pub step : String → String → String → RiskTier → Step
step action command explanation tier = record {
  action = codes action;
  command = codes command;
  explanation = codes explanation;
  risk_tier = tier;
}

abbrev pub texts : List String → List Text
texts [] = []
texts (s ∷ ss) = codes s ∷ texts ss

-- The fields of `RunbookEntry` that say what to do; those without a value given are `none` or [].
pub record Runbook : Type 0 where
  pub title : Text
  pub problem_pattern : Text
  pub symptoms : List Text
  pub steps : List Step
  pub root_cause : Option Text
  pub verification : Option Text
  pub tags : List Text
  pub pack_source : Option Text

-- With the fields that the library keeps. `id` is a fresh UUID and `created_at` the time.
pub record RunbookEntry : Type 0 where
  pub body : Runbook
  pub open body use *
  pub success_count : ℕ
  pub created_at : Text
  pub last_used : Option Text
  pub id : Text

cause_part : Option Text → List Text
cause_part none = []
cause_part (some cause) = if nonempty cause then cause ∷ [] else []

unfoldable pub to_search_text : RunbookEntry → Text
unfolding cause_part join
to_search_text e =
    join (codes " ") ((e.title ∷ e.problem_pattern ∷ e.symptoms) ++ cause_part e.root_cause)

pub record Library : Type 0 where
  pub rows : List RunbookEntry
  pub indexed : List Text

abbrev pub has_id : Text → RunbookEntry → Bool
has_id id e = text_eq e.id id

-- `INSERT OR REPLACE`: a row with the same primary key is deleted, and the new row comes last
unfoldable pub insert_or_replace : RunbookEntry → List RunbookEntry → List RunbookEntry
insert_or_replace e rows = keep (λ r. not (has_id e.id r)) rows ++ e ∷ []

abbrev pub upsert_id : Text → List Text → List Text
upsert_id id [] = id ∷ []
upsert_id id (i ∷ ids) = let rest = upsert_id id ids in if text_eq i id then i ∷ ids else i ∷ rest

-- `add`: the row is committed before the embedding is asked for, which may raise (false)
unfoldable pub add : (Text → Bool) → RunbookEntry → Library → Bool × Library
unfolding insert_or_replace to_search_text
add embeds e lib =
    let rows = insert_or_replace e lib.rows in
    if embeds (to_search_text e)
    then (true, record { rows = rows; indexed = upsert_id e.id lib.indexed })
    else (false, record { rows = rows; indexed = lib.indexed })

-- `SELECT * FROM runbooks WHERE id = ?`
unfoldable pub find_row : Text → List RunbookEntry → Option RunbookEntry
find_row id [] = none
find_row id (e ∷ es) = let rest = find_row id es in if has_id id e then some e else rest

-- the loop of `search` over the ids that the vector index returns
unfoldable pub entries_of : List Text → List RunbookEntry → List RunbookEntry
unfolding find_row
entries_of [] rows = []
entries_of (id ∷ ids) rows =
    let rest = entries_of ids rows in elim (find_row id rows) [ none ↦ rest | some e ↦ e ∷ rest ]

-- `search`; `query text n` stands for the vector index, which ranks ids
unfoldable pub search_library : (Text → ℕ → List Text) → Text → ℕ → Library → List RunbookEntry
unfolding entries_of
search_library query text n lib =
    let count = length lib.indexed in
    if leb count 0 then [] else entries_of (query text (if leb n count then n else count)) lib.rows

unfoldable pub bump : Text → RunbookEntry → RunbookEntry
bump now e = record e { success_count = e.success_count + 1; last_used = some now }

-- `UPDATE runbooks SET success_count = success_count + 1, last_used = ? WHERE id = ?`
unfoldable pub update_row : Text → Text → List RunbookEntry → List RunbookEntry
unfolding bump
update_row now id [] = []
update_row now id (e ∷ es) =
    let rest = update_row now id es in if has_id id e then bump now e ∷ rest else e ∷ rest

unfoldable pub record_success : Text → Text → Library → Library
unfolding update_row
record_success now id lib = record lib { rows = update_row now id lib.rows }

-- `get_all`; `order_by` stands for `ORDER BY success_count DESC`
unfoldable pub get_all : (List RunbookEntry → List RunbookEntry) → Library → List RunbookEntry
get_all order_by lib = order_by lib.rows

unfoldable pub count : Library → ℕ
count lib = length lib.rows
