-- ===== src/Prelude/Strip.antt =====
-- Laws of `strip`, and of `split` on a character that is no white space.
use Prim.Native.Nat.{ℕ}
use mathlib.Core.Path.{◌≡◌, refl, ap, ap₂, sym, ◌∙◌}
use mathlib.Core.Logic.{◌⊎◌, inl, inr}
use mathlib.Core.Bool.{Bool, true, false, not, ◌&&◌}
use mathlib.Core.List.{List, [], ◌∷◌, ◌++◌, map}
use native.Mathlib.Omega.{arith}
use silicon_valet.Prelude.Tests.{◌==◌, ==_iff, Bool-cases}
use silicon_valet.Prelude.Lists.{is_empty, all}
use silicon_valet.Prelude.Texts.{Text, is_space, lstrip, rstrip, strip, split_on, onto_first}

module _ (c : ℕ) (cs : Text) where
  lstrip-cons_space : is_space c ≡ true → lstrip (c ∷ cs) ≡ lstrip cs
  unfolding lstrip
  lstrip-cons_space h = rw h

  lstrip-cons_solid : is_space c ≡ false → lstrip (c ∷ cs) ≡ c ∷ cs
  unfolding lstrip
  lstrip-cons_solid h = rw h

  strip-cons_space : is_space c ≡ true → strip (c ∷ cs) ≡ strip cs
  unfolding strip lstrip
  strip-cons_space h = rw h

  strip-cons_solid : is_space c ≡ false → strip (c ∷ cs) ≡ c ∷ rstrip cs
  unfolding strip lstrip rstrip
  strip-cons_solid h = ground arith

  pub rstrip-cons_solid : is_space c ≡ false → rstrip (c ∷ cs) ≡ c ∷ rstrip cs
  unfolding rstrip
  rstrip-cons_solid h = ground arith

rstrip-rstrip : (s : Text) → rstrip (rstrip s) ≡ rstrip s
unfolding rstrip
rstrip-rstrip [] = refl
rstrip-rstrip (c ∷ cs) = ground (arith, rstrip-rstrip cs)

rstrip-eq-nil-cons : (c : ℕ) (cs : Text) → rstrip cs ≡ [] → is_space c ≡ true → rstrip (c ∷ cs) ≡ []
unfolding rstrip
rstrip-eq-nil-cons c cs h e = ground arith

strip-nil : strip [] ≡ []
unfolding strip lstrip rstrip
strip-nil = refl

rstrip-cons_more :
    (c : ℕ) (cs : Text) → is_empty (rstrip cs) ≡ false → rstrip (c ∷ cs) ≡ c ∷ rstrip cs
unfolding rstrip
rstrip-cons_more c cs h = ground arith

nil_of_is_empty : (s : Text) → is_empty s ≡ true → s ≡ []
nil_of_is_empty [] h = refl
nil_of_is_empty (c ∷ cs) h = cc

-- Stripping the right end first changes nothing.
strip-rstrip : (s : Text) → strip (rstrip s) ≡ strip s
strip-rstrip [] = unfold rstrip in refl
strip-rstrip (c ∷ cs) = elim (Bool-cases (is_space c)) [
  | inr solid ↦ rw (
    rstrip-cons_solid c cs solid,
    strip-cons_solid c (rstrip cs) solid,
    strip-cons_solid c cs solid,
    rstrip-rstrip cs,
  )
  | inl e ↦ elim (Bool-cases (is_empty (rstrip cs))) [
    | inl none_left ↦
        let z = nil_of_is_empty (rstrip cs) none_left in
        rw (rstrip-eq-nil-cons c cs z e, strip-cons_space c cs e, strip-nil)
          (sym strip-nil ∙ ap strip (sym z) ∙ strip-rstrip cs)
    | inr left ↦
        rw (rstrip-cons_more c cs left, strip-cons_space c (rstrip cs) e, strip-cons_space c cs e)
          (strip-rstrip cs)
  ]
]

strip_of_rstrip : (p q : Text) → rstrip p ≡ rstrip q → strip p ≡ strip q
strip_of_rstrip p q h = sym (strip-rstrip p) ∙ ap strip h ∙ strip-rstrip q

-- Texts that agree up to their right ends.
abbrev SameLeft : List Text → List Text → Type 0
SameLeft ps qs = map rstrip ps ≡ map rstrip qs

SameLeft-onto_first :
    (c : ℕ) (ps qs : List Text) → SameLeft ps qs → SameLeft (onto_first c ps) (onto_first c qs)
unfolding rstrip
SameLeft-onto_first c [] [] h = refl
SameLeft-onto_first c [] (q ∷ qs) h = cc
SameLeft-onto_first c (p ∷ ps) [] h = cc
SameLeft-onto_first c (p ∷ ps) (q ∷ qs) h = ground arith

map-strip_of_SameLeft : (ps qs : List Text) → SameLeft ps qs → map strip ps ≡ map strip qs
map-strip_of_SameLeft [] [] h = refl
map-strip_of_SameLeft [] (q ∷ qs) h = cc
map-strip_of_SameLeft (p ∷ ps) [] h = cc
map-strip_of_SameLeft (p ∷ ps) (q ∷ qs) h =
    let first : rstrip p ≡ rstrip q = cc in
    let rest : map rstrip ps ≡ map rstrip qs = cc in
    ap₂ ◌∷◌ (strip_of_rstrip p q first) (map-strip_of_SameLeft ps qs rest)

module _ (sep : ℕ) where
  pub split_on-cons : (s : Text) → (p : Text) × (ps : List Text) × (split_on sep s ≡ p ∷ ps)
  unfolding split_on
  split_on-cons [] = ([], [], refl)
  split_on-cons (c ∷ cs) = elim (Bool-cases (c == sep)) [
    | inl e ↦ ([], split_on sep cs, rw e)
    | inr e ↦ let (p, ps, h) = split_on-cons cs in (c ∷ p, ps, rw (e, h))
  ]

  split_on-nil : split_on sep [] ≡ [] ∷ []
  unfolding split_on
  split_on-nil = refl

  split_on-cons_sep :
      (c : ℕ) (cs : Text) → (c == sep) ≡ true → split_on sep (c ∷ cs) ≡ [] ∷ split_on sep cs
  unfolding split_on
  split_on-cons_sep c cs h = rw h

  split_on-cons_other :
      (c : ℕ) (cs : Text)
      → (c == sep) ≡ false
      → split_on sep (c ∷ cs) ≡ onto_first c (split_on sep cs)
  unfolding split_on
  split_on-cons_other c cs h = rw h

module _ (sep : ℕ) (solid : is_space sep ≡ false) where
  solid_of_eq : (c : ℕ) → (c == sep) ≡ true → is_space c ≡ false
  solid_of_eq c h = let e : c ≡ sep = ground arith in rw e solid

  other_of_space : (c : ℕ) → is_space c ≡ true → (c == sep) ≡ false
  other_of_space c h = elim (Bool-cases (c == sep)) [
    | inl e ↦ let n = solid_of_eq c e in cc
    | inr n ↦ n
  ]

  SameLeft-cons :
      (c : ℕ) (cs ds : Text)
      → SameLeft (split_on sep cs) (split_on sep ds)
      → SameLeft (split_on sep (c ∷ cs)) (split_on sep (c ∷ ds))
  SameLeft-cons c cs ds h = elim (Bool-cases (c == sep)) [
    | inl e ↦
        rw (split_on-cons_sep sep c cs e, split_on-cons_sep sep c ds e)
          (unfold rstrip in ap (◌∷◌ []) h)
    | inr e ↦
        rw (split_on-cons_other sep c cs e, split_on-cons_other sep c ds e)
          (SameLeft-onto_first c (split_on sep cs) (split_on sep ds) h)
  ]

  one_space : (c : ℕ) → is_space c ≡ true → SameLeft (split_on sep []) (split_on sep (c ∷ []))
  unfolding split_on rstrip
  one_space c space = rw (other_of_space c space, space)

  -- A text of white space alone is one piece, which is empty up to its right end.
  SameLeft-space :
      (c : ℕ) (cs : Text)
      → is_space c ≡ true
      → SameLeft (split_on sep []) (split_on sep cs)
      → SameLeft (split_on sep []) (split_on sep (c ∷ cs))
  SameLeft-space c cs space h = one_space c space ∙ SameLeft-cons c [] cs h

  split_on-rstrip : (s : Text) → SameLeft (split_on sep (rstrip s)) (split_on sep s)
  split_on-rstrip [] = unfold rstrip in refl
  split_on-rstrip (c ∷ cs) = elim (Bool-cases (is_space c)) [
    | inr e ↦ rw (rstrip-cons_solid c cs e) (SameLeft-cons c (rstrip cs) cs (split_on-rstrip cs))
    | inl e ↦ elim (Bool-cases (is_empty (rstrip cs))) [
      | inl none_left ↦
          let z = nil_of_is_empty (rstrip cs) none_left in
          rw (rstrip-eq-nil-cons c cs z e) (SameLeft-space c cs e (rw z at (split_on-rstrip cs)))
      | inr left ↦
          rw (rstrip-cons_more c cs left) (SameLeft-cons c (rstrip cs) cs (split_on-rstrip cs))
    ]
  ]

  map-strip-onto_first :
      (c : ℕ) (s : Text)
      → is_space c ≡ true
      → map strip (onto_first c (split_on sep s)) ≡ map strip (split_on sep s)
  map-strip-onto_first c s space =
      let (p, ps, e) = split_on-cons sep s in rw (e, strip-cons_space c p space)

  map-strip-split_on-lstrip :
      (s : Text) → map strip (split_on sep (lstrip s)) ≡ map strip (split_on sep s)
  map-strip-split_on-lstrip [] = unfold lstrip in refl
  map-strip-split_on-lstrip (c ∷ cs) = elim (Bool-cases (is_space c)) [
    | inr e ↦ rw (lstrip-cons_solid c cs e)
    | inl e ↦
        rw (split_on-cons_other sep c cs (other_of_space c e), map-strip-onto_first c cs e)
          (rw (lstrip-cons_space c cs e) (map-strip-split_on-lstrip cs))
  ]

  -- Stripping a text does not change the stripped pieces of it.
  pub map-strip-split_on-strip :
      (s : Text) → map strip (split_on sep (strip s)) ≡ map strip (split_on sep s)
  unfolding strip
  map-strip-split_on-strip s =
      map-strip_of_SameLeft (split_on sep (rstrip (lstrip s))) (split_on sep (lstrip s))
        (split_on-rstrip (lstrip s))
      ∙ map-strip-split_on-lstrip s

  -- The pieces of `s + sep + t` are those of `s` and those of `t`.
  pub split_on-append :
      (s t : Text) → split_on sep (s ++ sep ∷ t) ≡ split_on sep s ++ split_on sep t
  split_on-append [] t = split_on-cons_sep sep sep t ((==_iff sep sep).1 refl) ∙ (sym nil-split)
    where
      nil-split : split_on sep [] ++ split_on sep t ≡ [] ∷ split_on sep t
      nil-split = ap (λ (ps : List Text). ps ++ split_on sep t) (split_on-nil sep)
  split_on-append (c ∷ cs) t = elim (Bool-cases (c == sep)) [
    | inl e ↦ rw (
      split_on-cons_sep sep c cs e,
      split_on-cons_sep sep c (cs ++ sep ∷ t) e,
      split_on-append cs t,
    )
    | inr e ↦
        let (p, ps, h) = split_on-cons sep cs in
        rw (
          split_on-cons_other sep c cs e,
          split_on-cons_other sep c (cs ++ sep ∷ t) e,
          split_on-append cs t,
          h,
        )
  ]

lstrip-lstrip : (s : Text) → lstrip (lstrip s) ≡ lstrip s
unfolding lstrip
lstrip-lstrip [] = refl
lstrip-lstrip (c ∷ cs) = ground (arith, lstrip-lstrip cs)

pub strip-strip : (s : Text) → strip (strip s) ≡ strip s
unfolding strip
strip-strip s = strip-rstrip (lstrip s) ∙ ap rstrip (lstrip-lstrip s)

is_empty-append_cons : (w : Text) (c : ℕ) (x : Text) → is_empty (w ++ c ∷ x) ≡ false
is_empty-append_cons [] c x = refl
is_empty-append_cons (d ∷ w) c x = refl

-- A character that is no white space keeps all that stands before it.
pub rstrip-append_solid :
    (w : Text) (c : ℕ) (x : Text) → is_space c ≡ false → rstrip (w ++ c ∷ x) ≡ w ++ c ∷ rstrip x
rstrip-append_solid [] c x h = rstrip-cons_solid c x h
rstrip-append_solid (d ∷ w) c x h =
    let e = rstrip-append_solid w c x h in
    let more : is_empty (rstrip (w ++ c ∷ x)) ≡ false =
      rw e (is_empty-append_cons w c (rstrip x)) in
    rw (rstrip-cons_more d (w ++ c ∷ x) more, e)

pub strip-append_solid :
    (d : ℕ) (w : Text) (c : ℕ) (x : Text)
    → is_space d ≡ false
    → is_space c ≡ false
    → strip (d ∷ w ++ c ∷ x) ≡ d ∷ w ++ c ∷ rstrip x
strip-append_solid d w c x hd hc =
    rw (strip-cons_solid d (w ++ c ∷ x) hd, rstrip-append_solid w c x hc)

-- What is left of a text when its right end is stripped: nothing, or a text with the same head.
pub rstrip-cons_cases : (c : ℕ) (x : Text) → (rstrip (c ∷ x) ≡ []) ⊎ (rstrip (c ∷ x) ≡ c ∷ rstrip x)
unfolding rstrip
rstrip-cons_cases c x = elim (Bool-cases (is_empty (rstrip x) && is_space c)) [
  | inl e ↦ inl (rw e)
  | inr e ↦ inr (rw e)
]

-- The first piece of a text that begins without the separator.
pub split_on-prefix :
    (sep : ℕ) (w rest : Text)
    → all (λ x. not (x == sep)) w ≡ true
    → (p : Text) × (ps : List Text) × (split_on sep (w ++ rest) ≡ (w ++ p) ∷ ps)
split_on-prefix sep [] rest h = split_on-cons sep rest
split_on-prefix sep (c ∷ w) rest h = elim (Bool-cases (c == sep)) [
  | inl e ↦ ground arith
  | inr e ↦
      let (p, ps, q) = split_on-prefix sep w rest (ground arith) in
      (p, ps, rw (split_on-cons_other sep c (w ++ rest) e, q))
]

-- The text does not have the character.
abbrev pub lacks : ℕ → Text → Bool
lacks c = all (λ x. not (x == c))

pub split_on-lacks : (sep : ℕ) (s : Text) → lacks sep s ≡ true → split_on sep s ≡ s ∷ []
split_on-lacks sep [] h = split_on-nil sep
split_on-lacks sep (c ∷ cs) h = elim (Bool-cases (c == sep)) [
  | inl e ↦ ground arith
  | inr e ↦ rw (split_on-cons_other sep c cs e, split_on-lacks sep cs (ground arith))
]

pub lacks-append :
    (c : ℕ) (s t : Text) → lacks c s ≡ true → lacks c t ≡ true → lacks c (s ++ t) ≡ true
lacks-append c [] t hs ht = ht
lacks-append c (x ∷ s) t hs ht = ground (arith, lacks-append c s t)

pub lacks-rstrip : (c : ℕ) (s : Text) → lacks c s ≡ true → lacks c (rstrip s) ≡ true
unfolding rstrip
lacks-rstrip c [] h = refl
lacks-rstrip c (x ∷ s) h = ground (arith, lacks-rstrip c s)
