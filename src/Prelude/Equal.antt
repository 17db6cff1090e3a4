-- ===== src/Prelude/Equal.antt =====
-- The Boolean test on texts decides equality.
use mathlib.Core.Path.{◌≡◌, refl, subst}
use mathlib.Core.Logic.{◌⊎◌, inl, inr}
use mathlib.Core.Bool.{true, false}
use mathlib.Core.List.{[], ◌∷◌}
use native.Mathlib.Omega.{arith}
use silicon_valet.Prelude.Tests.{◌==◌, Bool-cases, ==_iff}
use silicon_valet.Prelude.Texts.{Text, text_eq}

pub text_eq_refl : (s : Text) → text_eq s s ≡ true
text_eq_refl [] = refl
text_eq_refl (x ∷ s) = rw ((==_iff x x).1 refl, text_eq_refl s) refl

pub text_eq_sound : (s t : Text) → text_eq s t ≡ true → s ≡ t
text_eq_sound [] [] h = refl
text_eq_sound [] (y ∷ t) h = cc
text_eq_sound (x ∷ s) [] h = cc
text_eq_sound (x ∷ s) (y ∷ t) h = elim (Bool-cases (x == y)) [
  | inl e ↦ let same = (==_iff x y).0 e in let rest = text_eq_sound s t (rw e at h) in cc
  | inr e ↦ ground arith
]

-- Equal texts, or texts that differ and of which the test is false.
pub text_eq_cases : (s t : Text) → (s ≡ t) ⊎ (text_eq s t ≡ false)
text_eq_cases s t = elim (Bool-cases (text_eq s t)) [
  | inl e ↦ inl (text_eq_sound s t e)
  | inr e ↦ inr e
]

-- A text equal to `t` is not one that differs from `t`.
pub text_eq_apart : (s t u : Text) → text_eq s t ≡ true → text_eq u t ≡ false → text_eq s u ≡ false
text_eq_apart s t u h n = elim (text_eq_cases s u) [
  | inl same ↦ let k = subst (λ x. text_eq x t ≡ true) same h in ground arith
  | inr e ↦ e
]

pub text_eq_sym : (s t : Text) → text_eq s t ≡ text_eq t s
text_eq_sym [] [] = refl
text_eq_sym [] (y ∷ t) = refl
text_eq_sym (x ∷ s) [] = refl
text_eq_sym (x ∷ s) (y ∷ t) = let rest = text_eq_sym s t in ground arith
