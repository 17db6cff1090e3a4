-- ===== src/Dna/Scanner/Reading.antt =====
-- Readings of JSON values that may raise, as dna/scanner.py reads its answers.
use silicon_valet.Prelude.{Option, none, some, List, [], ◌∷◌, Text}
use silicon_valet.Json.{
  Json, Items, Fields, null, str, array, object, no_items, item, no_fields, field, loads,
}
use silicon_valet.Json.Lookup.{find_field}

-- `caught` is a JSONDecodeError, a KeyError or a ValueError, `fault` any other exception.
pub data Reading {ℓ} (A : Type ℓ) : Type ℓ where
  value : A → Reading A
  caught : Reading A
  fault : Reading A

infixl 5 ◌>>=◌
abbrev pub ◌>>=◌ {ℓ κ} : {A : Type ℓ} {B : Type κ} → Reading A → (A → Reading B) → Reading B
value a >>= f = f a
caught >>= f = caught
fault >>= f = fault

abbrev or_default : Option Json → Json → Json
or_default none d = d
or_default (some v) d = v

-- `v.get(key, default)`, an AttributeError where `v` is no dict
unfoldable pub get : Text → Json → Json → Reading Json
get key default (object fields) = value (or_default (find_field key fields) default)
get key default _ = fault

abbrev required : Option Json → Reading Json
required none = caught
required (some v) = value v

-- `v[key]` for a text: a KeyError, or a TypeError
unfoldable pub index : Text → Json → Reading Json
index key (object fields) = required (find_field key fields)
index key _ = fault

unfoldable pub text : Json → Reading Text
text (str s) = value s
text _ = fault

-- a text or None
unfoldable pub optional_text : Json → Reading (Option Text)
optional_text null = value none
optional_text (str s) = value (some s)
optional_text _ = fault

unfoldable pub items_in : Items → List Json
items_in no_items = []
items_in (item v vs) = v ∷ items_in vs

unfoldable pub keys_in : Fields → List Json
keys_in no_fields = []
keys_in (field k v fs) = str k ∷ keys_in fs

unfoldable pub characters : Text → List Json
characters [] = []
characters (c ∷ cs) = str (c ∷ []) ∷ characters cs

-- what `for x in v` runs over
unfoldable pub iterate : Json → Reading (List Json)
unfolding items_in keys_in characters
iterate (array vs) = value (items_in vs)
iterate (object fs) = value (keys_in fs)
iterate (str s) = value (characters s)
iterate _ = fault

abbrev pub prepend {ℓ} : {A : Type ℓ} → A → Reading (List A) → Reading (List A)
prepend a (value rest) = value (a ∷ rest)
prepend a caught = caught
prepend a fault = fault

-- a loop with `append` under a `try` that returns what it has
unfoldable pub collect {ℓ} : {A : Type ℓ} → (Json → Reading A) → List Json → Reading (List A)
collect f [] = value []
collect f (v ∷ vs) = elim (f v) [
  | value a ↦ prepend a (collect f vs)
  | caught ↦ value []
  | fault ↦ fault
]

-- that `try`, with the text of the whole answer
unfoldable pub parsed {ℓ} :
    {A : Type ℓ} → Text → (Json → Reading (List Json)) → (Json → Reading A) → Reading (List A)
unfolding collect
parsed output entries f = elim (loads output) [
  | none ↦ value []
  | some v ↦ elim (entries v) [ value vs ↦ collect f vs | caught ↦ value [] | fault ↦ fault ]
]
