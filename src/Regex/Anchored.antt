-- ===== src/Regex/Anchored.antt =====
-- Searches that can be decided without walking the text: patterns that begin with `^`, and
-- patterns that begin with a character which the text does not have.
use silicon_valet.Prelude.{
  ℕ, ◌≡◌, refl, Bool, true, false, not, Option, none, some, [], ◌∷◌, Text, arith, ◌==◌, all,
  Bool-cases, inl, inr,
}
use silicon_valet.Regex.{
  only, one, start, Regex, ◌▸◌, place, run, run_one, accepts, search_from, search_in,
}

-- The pattern begins with `^`.
abbrev pub anchored : Regex → Bool
anchored (start ▸ r) = true
anchored _ = false

module _ (r : Regex) where
  run-anchored_inside :
      (c : ℕ) (xs : Text) → run (start ▸ r) (place (some c) xs) (λ _. true) ≡ false
  unfolding run
  run-anchored_inside c xs = refl

  search_from-anchored_inside : (c : ℕ) (xs : Text) → search_from (start ▸ r) (some c) xs ≡ false
  unfolding search_from
  search_from-anchored_inside c [] = run-anchored_inside c []
  search_from-anchored_inside c (x ∷ xs) =
      ground (arith, run-anchored_inside c (x ∷ xs), search_from-anchored_inside x xs)

  -- A pattern that begins with `^` is tried at the start only.
  pub search_in-anchored :
      (text : Text) → search_in (start ▸ r) text ≡ run r (place none text) (λ _. true)
  unfolding search_in search_from run
  search_in-anchored [] = refl
  search_in-anchored (x ∷ xs) = ground (arith, search_from-anchored_inside x xs)

  search_from-absent :
      (c : ℕ) (l : Option ℕ) (xs : Text)
      → all (λ x. not (x == c)) xs ≡ true
      → search_from (one (only c) ▸ r) l xs ≡ false
  unfolding search_from run run_one accepts
  search_from-absent c l [] h = refl
  search_from-absent c l (x ∷ xs) h = elim (Bool-cases (x == c)) [
    | inl e ↦ ground arith
    | inr e ↦ ground (arith, search_from-absent c (some x) xs)
  ]

  -- A pattern that begins with a character is not found in a text without it.
  pub search_in-absent :
      (c : ℕ) (text : Text)
      → all (λ x. not (x == c)) text ≡ true
      → search_in (one (only c) ▸ r) text ≡ false
  unfolding search_in
  search_in-absent c text = search_from-absent c none text
