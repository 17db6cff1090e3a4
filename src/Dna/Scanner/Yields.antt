-- ===== src/Dna/Scanner/Yields.antt =====
-- What holds of the value of a reading, if it has one.
use silicon_valet.Prelude.{◌≡◌, refl, Option, none, some, List, [], ◌∷◌, Text, All}
use silicon_valet.Json.{Json, loads}
use silicon_valet.Dna.Scanner.Reading.{
  Reading, value, caught, fault, ◌>>=◌, collect, parsed, prepend,
}

abbrev pub Yields {ℓ} : {A : Type ℓ} → (A → Type 0) → Reading A → Type 0
Yields P (value a) = P a
Yields P caught = Unit
Yields P fault = Unit

pub bind-Yields {ℓ κ} :
    {A : Type ℓ} {B : Type κ} (P : B → Type 0) (f : A → Reading B) (r : Reading A)
    → ((a : A) → Yields P (f a))
    → Yields P (r >>= f)
bind-Yields P f (value a) k = k a
bind-Yields P f caught k = tt
bind-Yields P f fault k = tt

prepended :
    {A : Type 0} (P : A → Type 0) (a : A) (r : Reading (List A))
    → P a
    → Yields (All P) r
    → Yields (All P) (prepend a r)
prepended P a (value rest) p h = (p, h)
prepended P a caught p h = tt
prepended P a fault p h = tt

module _ {A : Type 0} (P : A → Type 0) (f : Json → Reading A)
    (each : (v : Json) → Yields P (f v)) where
  collect_cons :
      (v : Json) (vs : List Json) (r : Reading A)
      → f v ≡ r
      → Yields P r
      → Yields (All P) (collect f vs)
      → Yields (All P) (collect f (v ∷ vs))
  unfolding collect
  collect_cons v vs (value a) h p rest = rw (collect, h) (prepended P a (collect f vs) p rest)
  collect_cons v vs caught h p rest = rw (collect, h) tt
  collect_cons v vs fault h p rest = rw (collect, h) tt

  collect-Yields : (vs : List Json) → Yields (All P) (collect f vs)
  unfolding collect
  collect-Yields [] = tt
  collect-Yields (v ∷ vs) = collect_cons v vs (f v) refl (each v) (collect-Yields vs)

  entries_cases :
      (r : Reading (List Json))
      → Yields (All P) (elim (r) [ value vs ↦ collect f vs | caught ↦ value [] | fault ↦ fault ])
  entries_cases (value vs) = collect-Yields vs
  entries_cases caught = tt
  entries_cases fault = tt

  parsed_cases :
      (output : Text) (entries : Json → Reading (List Json)) (o : Option Json)
      → loads output ≡ o
      → Yields (All P) (parsed output entries f)
  unfolding parsed
  parsed_cases output entries none h = rw (parsed, h) tt
  parsed_cases output entries (some v) h = rw (parsed, h) (entries_cases (entries v))

  pub parsed-Yields :
      (output : Text) (entries : Json → Reading (List Json))
      → Yields (All P) (parsed output entries f)
  parsed-Yields output entries = parsed_cases output entries (loads output) refl

pub with-Yields :
    {A B : Type 0} (Q : A → Type 0) (P : B → Type 0) (f : A → Reading B) (r : Reading A)
    → Yields Q r
    → ((a : A) → Q a → Yields P (f a))
    → Yields P (r >>= f)
with-Yields Q P f (value a) q k = k a q
with-Yields Q P f caught q k = tt
with-Yields Q P f fault q k = tt
