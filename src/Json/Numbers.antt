-- ===== src/Json/Numbers.antt =====
-- The digits that `decimal` writes are read back.
use Prim.Native.Nat.{◌/◌, ◌%◌}
use silicon_valet.Prelude.{
  ℕ, zero, suc, ◌+◌, ◌-◌, ◌*◌, ◌<◌, ◌≡◌, refl, ◌∙◌, ap, inl, inr, Bool, true, false, some, [], ◌∷◌,
  ◌++◌, Text, ◌==◌, ltb, is_digit, arith, Bool-cases, append_assoc,
}
use silicon_valet.Prelude.Int.{ℤ, pos, negsuc, decimal, decimal_from}
use silicon_valet.Json.{num, digits, natural, whole, is_float, negative, value, dump_int}

abbrev pub digit_first : Text → Bool
digit_first [] = false
digit_first (c ∷ ts) = is_digit c

-- A number ends before this text.
abbrev pub Ends : Text → Type 0
Ends ts = (digit_first ts ≡ false) × (is_float ts ≡ false)

digits-last :
    (n : ℕ) (m : ℕ) (t : Text) → digits m ((b'0' + n % 10) ∷ t) ≡ digits (m * 10 + n % 10) t
unfolding digits is_digit
digits-last n m t =
    let d : is_digit (b'0' + n % 10) ≡ true = ground arith in
    let v : b'0' + n % 10 - b'0' ≡ n % 10 = omega arith in rw (d, v) refl

digits-decimal_from :
    (fuel n : ℕ) (t : Text) → n < fuel → digits 0 (decimal_from fuel n ++ t) ≡ digits n t
unfolding decimal_from
digits-decimal_from zero n t h = absurd (omega arith)
digits-decimal_from (suc fuel) n t h = elim (Bool-cases (ltb n 10)) [
  | inl e ↦ let k : 0 * 10 + n % 10 ≡ n = ground arith in rw e (digits-last n 0 t ∙ rw k refl)
  | inr e ↦
      let k : n / 10 * 10 + n % 10 ≡ n = omega arith in
      let small : n / 10 < fuel = ground arith in
      rw e (
        ap (digits 0) (append_assoc (decimal_from fuel (n / 10)) ((b'0' + n % 10) ∷ []) t)
        ∙ digits-decimal_from fuel (n / 10) ((b'0' + n % 10) ∷ t) small
        ∙ digits-last n (n / 10) t
        ∙ rw k refl)
]

-- The first digit of a positive number is not 0.
abbrev Leads : Text → Type 0
Leads [] = ⊥
Leads (c ∷ ts) = (is_digit c ≡ true) × ((c == b'0') ≡ false)

Leads-append : (s t : Text) → Leads s → Leads (s ++ t)
Leads-append [] t h = absurd h
Leads-append (c ∷ s) t h = h

decimal_from-Leads : (fuel n : ℕ) → n < fuel → 0 < n → Leads (decimal_from fuel n)
unfolding decimal_from is_digit
decimal_from-Leads zero n h p = absurd (omega arith)
decimal_from-Leads (suc fuel) n h p = elim (Bool-cases (ltb n 10)) [
  | inl e ↦ rw e (ground arith, ground arith)
  | inr e ↦ rw e (
      Leads-append (decimal_from fuel (n / 10)) ((b'0' + n % 10) ∷ [])
        (decimal_from-Leads fuel (n / 10) (ground arith) (ground arith)))
]

digits-Ends : (n : ℕ) (t : Text) → digit_first t ≡ false → digits n t ≡ (n, t)
unfolding digits
digits-Ends n [] h = refl
digits-Ends n (c ∷ t) h = rw h refl

whole-Ends :
    (sign : ℕ → ℤ) (n : ℕ) (t : Text) → Ends t → whole sign (digits n t) ≡ some (num (sign n), t)
whole-Ends sign n t (d, f) = rw (digits-Ends n t d, f) refl

natural-Leads : (sign : ℕ → ℤ) (s : Text) → Leads s → natural sign s ≡ whole sign (digits 0 s)
unfolding natural
natural-Leads sign [] h = absurd h
natural-Leads sign (c ∷ s) (d, z) = rw (z, d) refl

natural-zero : (sign : ℕ → ℤ) (t : Text) → Ends t → natural sign (b'0' ∷ t) ≡ some (num (sign 0), t)
unfolding natural
natural-zero sign t (d, f) = rw f refl

pub natural-decimal :
    (sign : ℕ → ℤ) (n : ℕ) (t : Text)
    → Ends t
    → natural sign (decimal n ++ t) ≡ some (num (sign n), t)
unfolding decimal
natural-decimal sign zero t e = natural-zero sign t e
natural-decimal sign (suc n) t e =
    let s = decimal_from (suc (suc n)) (suc n) in
    let l =
      Leads-append s t (decimal_from-Leads (suc (suc n)) (suc n) (omega arith) (omega arith)) in
    natural-Leads sign (s ++ t) l
    ∙ ap (whole sign) (digits-decimal_from (suc (suc n)) (suc n) t (omega arith))
    ∙ whole-Ends sign (suc n) t e

digit_first-Leads : (s : Text) → Leads s → digit_first s ≡ true
digit_first-Leads [] h = absurd h
digit_first-Leads (c ∷ s) (d, z) = d

pub digit_first-decimal : (n : ℕ) (t : Text) → digit_first (decimal n ++ t) ≡ true
unfolding decimal decimal_from is_digit
digit_first-decimal zero t = refl
digit_first-decimal (suc n) t = digit_first-Leads (decimal_from (suc (suc n)) (suc n) ++ t) (
    Leads-append (decimal_from (suc (suc n)) (suc n)) t
      (decimal_from-Leads (suc (suc n)) (suc n) (omega arith) (omega arith)))

value_digit : (f : ℕ) (s : Text) → digit_first s ≡ true → value (suc f) s ≡ natural pos s
unfolding value is_digit
value_digit f [] h = cc
value_digit f (c ∷ s) h =
    let a : (c == b'"') ≡ false = ground arith in
    let b : (c == b'[') ≡ false = ground arith in
    let d : (c == b'{') ≡ false = ground arith in
    let e : (c == b'n') ≡ false = ground arith in
    let g : (c == b't') ≡ false = ground arith in
    let i : (c == b'f') ≡ false = ground arith in
    let j : (c == b'-') ≡ false = ground arith in rw (value, a, b, d, e, g, i, j) refl

-- A printed integer is read back before every text that cannot continue it.
pub value-dump_int :
    (f : ℕ) (n : ℤ) (t : Text) → Ends t → value (suc f) (dump_int n ++ t) ≡ some (num n, t)
unfolding dump_int value
value-dump_int f (pos n) t e =
    value_digit f (decimal n ++ t) (digit_first-decimal n t) ∙ natural-decimal pos n t e
value-dump_int f (negsuc n) t e = natural-decimal negative (suc n) t e
