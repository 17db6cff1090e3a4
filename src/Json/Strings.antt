-- ===== src/Json/Strings.antt =====
-- A string literal is read back.
use Prim.Native.Nat.{◌/◌, ◌%◌}
use silicon_valet.Prelude.{
  ℕ, zero, suc, ◌+◌, ◌*◌, ◌<◌, ◌≡◌, refl, ◌∙◌, sym, ap, subst, inl, inr, true, false, some, [], ◌∷◌,
  ◌++◌, Text, ◌==◌, ==_iff, ltb, leb, arith, Bool-cases, append_assoc, length, length-append,
}
use silicon_valet.Json.{
  escape, hex_digit, literal, chars, read_escape, hex4, hex_value, unescape, pair,
}

hex_value-hex_digit : (n : ℕ) → n < 16 → hex_value (hex_digit n) ≡ some n
unfolding hex_value hex_digit
hex_value-hex_digit n h = ground arith

-- If the text behind the character `c` is read, then so is the escaped `c` before it.
abbrev Steps : ℕ → Text → Text → Text → ℕ → Type 0
Steps f t s r c = chars (suc f) (escape c ++ t) ≡ some (c ∷ s, r)

module _ (f : ℕ) (t s r : Text) (h : chars f t ≡ some (s, r)) where
  at_code : (c k : ℕ) → (c == k) ≡ true → Steps f t s r k → Steps f t s r c
  at_code c k e p = subst (Steps f t s r) (sym ((==_iff c k).0 e)) p

  hex4-control :
      (c : ℕ)
      → c < 32
      → hex4 (b'0' ∷ b'0' ∷ hex_digit (c / 16) ∷ hex_digit (c % 16) ∷ t) ≡ some (c, t)
  unfolding hex4
  hex4-control c k =
      let sum : (0 * 16 + c / 16) * 16 + c % 16 ≡ c = omega arith in
      rw
        (
          hex4,
          hex_value-hex_digit (c / 16) (omega arith),
          hex_value-hex_digit (c % 16) (omega arith),
        )
        (ap (λ n. some (n, t)) sum)

  pair-control : (c : ℕ) → c < 32 → pair c t ≡ (c, t)
  unfolding pair
  pair-control c k = let e : leb 0xd800 c ≡ false = ground arith in rw e refl

  Steps-control :
      (c : ℕ)
      → c < 32
      → escape c ≡ b'\\' ∷ b'u' ∷ b'0' ∷ b'0' ∷ hex_digit (c / 16) ∷ hex_digit (c % 16) ∷ []
      → Steps f t s r c
  unfolding chars read_escape
  Steps-control c k e =
      rw (e, chars, read_escape, hex4-control c k, pair-control c k, h)
        (ap (λ p. some (p.0 ∷ s, r)) (pair-control c k))

  Steps-plain :
      (c : ℕ)
      → (c == b'"') ≡ false
      → (c == b'\\') ≡ false
      → ltb c 32 ≡ false
      → escape c ≡ c ∷ []
      → Steps f t s r c
  unfolding chars
  Steps-plain c a b d e = rw (e, chars, a, b, d, h) refl

  chars-escape : (c : ℕ) → Steps f t s r c
  unfolding escape chars read_escape unescape
  chars-escape c = elim (Bool-cases (c == b'"')) [
    | inl x ↦ at_code c (b'"') x (rw h refl)
    | inr a ↦ elim (Bool-cases (c == b'\\')) [
      | inl x ↦ at_code c (b'\\') x (rw h refl)
      | inr b ↦ elim (Bool-cases (c == 8)) [
        | inl x ↦ at_code c (8) x (rw h refl)
        | inr d ↦ elim (Bool-cases (c == 12)) [
          | inl x ↦ at_code c (12) x (rw h refl)
          | inr e ↦ elim (Bool-cases (c == 10)) [
            | inl x ↦ at_code c (10) x (rw h refl)
            | inr g ↦ elim (Bool-cases (c == 13)) [
              | inl x ↦ at_code c (13) x (rw h refl)
              | inr i ↦ elim (Bool-cases (c == 9)) [
                | inl x ↦ at_code c (9) x (rw h refl)
                | inr j ↦ elim (Bool-cases (ltb c 32)) [
                  | inl x ↦ Steps-control c (ground arith) (rw (a, b, d, e, g, i, j, x) refl)
                  | inr x ↦ Steps-plain c a b x (rw (a, b, d, e, g, i, j, x) refl)
                ]
              ]
            ]
          ]
        ]
      ]
    ]
  ]

length-escape : (c : ℕ) → 0 < length (escape c)
unfolding escape
length-escape c = ground arith

-- The characters of a literal are read back from the front of any text.
pub chars-literal :
    (f : ℕ) (s t : Text) → length (literal s) < f → chars f (literal s ++ t) ≡ some (s, t)
unfolding literal chars
chars-literal zero s t h = absurd (omega arith)
chars-literal (suc f) [] t h = refl
chars-literal (suc f) (c ∷ s) t h =
    let one = length-escape c in
    let sum = length-append (escape c) (literal s) in
    let rest = chars-literal f s t (omega (arith, one, sum, h)) in
    ap (chars (suc f)) (append_assoc (escape c) (literal s) t)
    ∙ chars-escape f (literal s ++ t) s t rest c
