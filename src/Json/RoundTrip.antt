-- ===== src/Json/RoundTrip.antt =====
-- What `dumps` prints, `loads` reads back.
use silicon_valet.Prelude.{
  ℕ, zero, suc, ◌+◌, ◌<◌, ◌≡◌, refl, ◌∙◌, sym, ap, subst, Bool, true, false, not, ◌&&◌, some, [],
  ◌∷◌, ◌++◌, Text, ◌==◌, arith, append_assoc, append_nil, length, length-append, all, is_digit,
}
use silicon_valet.Prelude.Int.{ℤ, pos, negsuc, decimal}
use silicon_valet.Json.{
  Json, Items, Fields, null, bool, num, str, array, object, no_items, item, no_fields, field,
  Layout, one_line, indented, spaces, dump, dump_items, dump_fields, dumps, dump_int, literal,
  is_blank, skip, starts, expect, value, items, fields, finish, loads,
}
use silicon_valet.Json.Numbers.{Ends, digit_first, digit_first-decimal, value-dump_int}
use silicon_valet.Json.Strings.{chars-literal}

-- JSON's white space.
abbrev pub Blank : Text → Type 0
Blank s = all is_blank s ≡ true

pub record IsBlank (layout : Layout) : Type 0 where
  pub opening_blank : (d : ℕ) → Blank (layout.opening d)
  pub between_blank : (d : ℕ) → Blank (layout.between d)
  pub closing_blank : (d : ℕ) → Blank (layout.closing d)

-- The text begins with a value: with no white space, and not with a closing square bracket.
abbrev opens : Text → Bool
opens [] = false
opens (c ∷ ts) = not (is_blank c) && not (c == b']')

skip-Blank : (s t : Text) → Blank s → skip (s ++ t) ≡ skip t
unfolding skip
skip-Blank [] t h = refl
skip-Blank (c ∷ s) t h =
    let e : is_blank c ≡ true = ground arith in
    let rest = skip-Blank s t (ground arith) in rw (e, rest) refl

skip-solid : (c : ℕ) (t : Text) → is_blank c ≡ false → skip (c ∷ t) ≡ c ∷ t
unfolding skip
skip-solid c t h = rw h refl

skip-opens : (t : Text) → opens t ≡ true → skip t ≡ t
skip-opens [] h = cc
skip-opens (c ∷ t) h = skip-solid c t (ground arith)

starts-opens : (t : Text) → opens t ≡ true → starts b']' t ≡ false
starts-opens [] h = cc
starts-opens (c ∷ t) h = ground arith

Ends-Blank : (s t : Text) → Blank s → Ends t → Ends (s ++ t)
unfolding is_digit
Ends-Blank [] t h e = e
Ends-Blank (c ∷ s) t h e = (ground arith, ground arith)

opens-digit : (t : Text) → digit_first t ≡ true → opens t ≡ true
unfolding is_digit
opens-digit [] h = cc
opens-digit (c ∷ t) h = ground arith

skip-closing :
    (s : Text) (c : ℕ) (t : Text) → Blank s → is_blank c ≡ false → skip ((s ++ c ∷ []) ++ t) ≡ c ∷ t
skip-closing s c t h k =
    ap skip (append_assoc s (c ∷ []) t) ∙ skip-Blank s (c ∷ t) h ∙ skip-solid c t k

skip-next :
    (s a b t : Text)
    → Blank s
    → opens (a ++ (b ++ t)) ≡ true
    → skip ((s ++ (a ++ b)) ++ t) ≡ a ++ (b ++ t)
skip-next s a b t h k =
    ap skip (append_assoc s (a ++ b) t ∙ ap (◌++◌ s) (append_assoc a b t))
    ∙ skip-Blank s (a ++ (b ++ t)) h
    ∙ skip-opens (a ++ (b ++ t)) k

module _ (layout : Layout) (blank : IsBlank layout) where
  opens-dump : (d : ℕ) (v : Json) (t : Text) → opens (dump layout d v ++ t) ≡ true
  unfolding dump dump_int
  opens-dump d null t = refl
  opens-dump d (bool true) t = refl
  opens-dump d (bool false) t = refl
  opens-dump d (num (pos n)) t = opens-digit (decimal n ++ t) (digit_first-decimal n t)
  opens-dump d (num (negsuc n)) t = refl
  opens-dump d (str s) t = refl
  opens-dump d (array xs) t = refl
  opens-dump d (object fs) t = refl

  -- With more fuel than its length, the printed value is read from the front of every text that
  -- does not continue a number.
  abbrev ReadsValue : Json → Type 0
  ReadsValue v =
      (d : ℕ) (rest : Text) (f : ℕ)
      → Ends rest
      → length (dump layout d v) < f
      → value f (dump layout d v ++ rest) ≡ some (v, rest)

  -- The same of the items, from one that stands before them on.
  abbrev AfterItem : Items → Type 0
  AfterItem xs =
      (v : Json)
      → ReadsValue v
      → (d : ℕ) (rest : Text) (f : ℕ)
      → length (dump layout (suc d) v) + length (dump_items layout d false xs) < f
      → items f (dump layout (suc d) v ++ (dump_items layout d false xs ++ rest))
        ≡ some (item v xs, rest)

  -- The same of an array, from its bracket on.
  abbrev FirstItem : Items → Type 0
  FirstItem xs =
      (d : ℕ) (rest : Text) (f : ℕ)
      → length (dump_items layout d true xs) < f
      → value (suc f) (b'[' ∷ (dump_items layout d true xs ++ rest)) ≡ some (array xs, rest)

  Ends-items : (d : ℕ) (xs : Items) (rest : Text) → Ends (dump_items layout d false xs ++ rest)
  unfolding dump_items is_digit
  Ends-items d no_items rest =
      subst Ends (sym (append_assoc (layout.closing d) (b']' ∷ []) rest))
        (Ends-Blank (layout.closing d) (b']' ∷ rest) (blank.closing_blank d) (refl, refl))
  Ends-items d (item w xs) rest = (refl, refl)

  AfterItem-none : AfterItem no_items
  unfolding items dump_items
  AfterItem-none v reads d rest zero h = absurd (omega arith)
  AfterItem-none v reads d rest (suc f) h =
      let more = length-append (layout.closing d) (b']' ∷ []) in
      let ends = Ends-items d no_items rest in
      let run =
        reads (suc d) (dump_items layout d false no_items ++ rest) f ends
          (omega (arith, more, h)) in
      let gap = skip-closing (layout.closing d) b']' rest (blank.closing_blank d) refl in
      rw (items, run, gap) refl

  AfterItem-more : (w : Json) (xs : Items) → ReadsValue w → AfterItem xs → AfterItem (item w xs)
  unfolding items dump_items
  AfterItem-more w xs wreads after v reads d rest zero h = absurd (omega arith)
  AfterItem-more w xs wreads after v reads d rest (suc f) h =
      let a = dump layout (suc d) w in
      let b = dump_items layout d false xs in
      let inner = length-append (layout.between d) (a ++ b) in
      let sum = length-append a b in
      let run =
        reads (suc d) (dump_items layout d false (item w xs) ++ rest) f
          (Ends-items d (item w xs) rest) (omega (arith, h)) in
      let comma = skip-solid b',' ((layout.between d ++ (a ++ b)) ++ rest) refl in
      let next =
        skip-next (layout.between d) a b rest (blank.between_blank d)
          (opens-dump (suc d) w (b ++ rest)) in
      let more = after w wreads d rest f (omega (arith, inner, sum, h)) in
      rw (items, run, comma, next, more) refl

  value-array : (xs : Items) → FirstItem xs → ReadsValue (array xs)
  unfolding value dump
  value-array xs first d rest zero e h = absurd (omega arith)
  value-array xs first d rest (suc f) e h = first d rest f (omega arith)

  FirstItem-none : FirstItem no_items
  unfolding value dump_items skip
  FirstItem-none d rest f h = refl

  FirstItem-more : (w : Json) (xs : Items) → ReadsValue w → AfterItem xs → FirstItem (item w xs)
  unfolding value dump_items
  FirstItem-more w xs wreads after d rest f h =
      let a = dump layout (suc d) w in
      let b = dump_items layout d false xs in
      let inner = length-append (layout.opening d) (a ++ b) in
      let sum = length-append a b in
      let next =
        skip-next (layout.opening d) a b rest (blank.opening_blank d)
          (opens-dump (suc d) w (b ++ rest)) in
      let bracket = starts-opens (a ++ (b ++ rest)) (opens-dump (suc d) w (b ++ rest)) in
      let more = after w wreads d rest f (omega (arith, inner, sum, h)) in
      rw (next, bracket, more) refl

  abbrev AfterField : Fields → Type 0
  AfterField fs =
      (k : Text) (v : Json)
      → ReadsValue v
      → (d : ℕ) (rest : Text) (f : ℕ)
      → length (literal k)
          + (length (dump layout (suc d) v) + length (dump_fields layout d false fs))
        < f
      → fields f (
          b'"'
          ∷ (literal k
              ++ b':' ∷ b' ' ∷ (dump layout (suc d) v ++ (dump_fields layout d false fs ++ rest))))
        ≡ some (field k v fs, rest)

  abbrev FirstField : Fields → Type 0
  FirstField fs =
      (d : ℕ) (rest : Text) (f : ℕ)
      → length (dump_fields layout d true fs) < f
      → value (suc f) (b'{' ∷ (dump_fields layout d true fs ++ rest)) ≡ some (object fs, rest)

  Ends-fields : (d : ℕ) (fs : Fields) (rest : Text) → Ends (dump_fields layout d false fs ++ rest)
  unfolding dump_fields is_digit
  Ends-fields d no_fields rest =
      subst Ends (sym (append_assoc (layout.closing d) (b'}' ∷ []) rest))
        (Ends-Blank (layout.closing d) (b'}' ∷ rest) (blank.closing_blank d) (refl, refl))
  Ends-fields d (field k w fs) rest = (refl, refl)

  length-dump_fields_pos : (d : ℕ) (fs : Fields) → 0 < length (dump_fields layout d false fs)
  unfolding dump_fields
  length-dump_fields_pos d no_fields = omega (arith, length-append (layout.closing d) (b'}' ∷ []))
  length-dump_fields_pos d (field k w fs) = omega arith

  skip_space :
      (d : ℕ) (v : Json) (t : Text) → skip (b' ' ∷ (dump layout d v ++ t)) ≡ dump layout d v ++ t
  skip_space d v t =
      skip-Blank (b' ' ∷ []) (dump layout d v ++ t) refl
      ∙ skip-opens (dump layout d v ++ t) (opens-dump d v t)

  -- The text of a field, with what stands behind it taken in.
  field_text :
      (gap k a b t : Text)
      → (gap ++ b'"' ∷ (literal k ++ b':' ∷ b' ' ∷ (a ++ b))) ++ t
        ≡ gap ++ b'"' ∷ (literal k ++ b':' ∷ b' ' ∷ (a ++ (b ++ t)))
  field_text gap k a b t =
      append_assoc gap (b'"' ∷ (literal k ++ b':' ∷ b' ' ∷ (a ++ b))) t
      ∙ ap (λ s. gap ++ b'"' ∷ s) (append_assoc (literal k) (b':' ∷ b' ' ∷ (a ++ b)) t)
      ∙ ap (λ s. gap ++ b'"' ∷ (literal k ++ b':' ∷ b' ' ∷ s)) (append_assoc a b t)

  length-field_text :
      (gap k a b : Text)
      → length (gap ++ b'"' ∷ (literal k ++ b':' ∷ b' ' ∷ (a ++ b)))
        ≡ length gap + (3 + (length (literal k) + (length a + length b)))
  length-field_text gap k a b = omega (
    arith,
    length-append gap (b'"' ∷ (literal k ++ b':' ∷ b' ' ∷ (a ++ b))),
    length-append (literal k) (b':' ∷ b' ' ∷ (a ++ b)),
    length-append a b,
  )

  AfterField-none : AfterField no_fields
  unfolding fields dump_fields
  AfterField-none k v reads d rest zero h = absurd (omega arith)
  AfterField-none k v reads d rest (suc f) h =
      let a = dump layout (suc d) v in
      let b = dump_fields layout d false no_fields in
      let pos' = length-dump_fields_pos d no_fields in
      let key = chars-literal f k (b':' ∷ b' ' ∷ (a ++ (b ++ rest))) (omega (arith, h, pos')) in
      let colon = skip-solid b':' (b' ' ∷ (a ++ (b ++ rest))) refl in
      let space = skip_space (suc d) v (b ++ rest) in
      let run =
        reads (suc d) (b ++ rest) f (Ends-fields d no_fields rest) (omega (arith, h, pos')) in
      let gap = skip-closing (layout.closing d) b'}' rest (blank.closing_blank d) refl in
      rw (fields, key, colon, space, run, gap) refl

  AfterField-more :
      (l : Text) (w : Json) (fs : Fields) → ReadsValue w → AfterField fs → AfterField (field l w fs)
  unfolding fields dump_fields
  AfterField-more l w fs wreads after k v reads d rest zero h = absurd (omega arith)
  AfterField-more l w fs wreads after k v reads d rest (suc f) h =
      let a = dump layout (suc d) v in
      let b = dump_fields layout d false (field l w fs) in
      let a' = dump layout (suc d) w in
      let b' = dump_fields layout d false fs in
      let inner = length-field_text (layout.between d) l a' b' in
      let key = chars-literal f k (b':' ∷ b' ' ∷ (a ++ (b ++ rest))) (omega (arith, h)) in
      let colon = skip-solid b':' (b' ' ∷ (a ++ (b ++ rest))) refl in
      let space = skip_space (suc d) v (b ++ rest) in
      let run =
        reads (suc d) (b ++ rest) f (Ends-fields d (field l w fs) rest) (omega (arith, h)) in
      let quote = b'"' ∷ (literal l ++ b':' ∷ b' ' ∷ (a' ++ (b' ++ rest))) in
      let comma =
        skip-solid b','
          ((layout.between d ++ b'"' ∷ (literal l ++ b':' ∷ b' ' ∷ (a' ++ b'))) ++ rest) refl in
      let next =
        ap skip (field_text (layout.between d) l a' b' rest)
        ∙ skip-Blank (layout.between d) quote (blank.between_blank d)
        ∙ skip-opens quote refl in
      let more = after l w wreads d rest f (omega (arith, inner, h)) in
      rw (fields, key, colon, space, run, comma, next, more) refl

  value-object : (fs : Fields) → FirstField fs → ReadsValue (object fs)
  unfolding value dump
  value-object fs first d rest zero e h = absurd (omega arith)
  value-object fs first d rest (suc f) e h = first d rest f (omega arith)

  FirstField-none : FirstField no_fields
  unfolding value dump_fields skip
  FirstField-none d rest f h = refl

  FirstField-more :
      (l : Text) (w : Json) (fs : Fields) → ReadsValue w → AfterField fs → FirstField (field l w fs)
  unfolding value dump_fields
  FirstField-more l w fs wreads after d rest f h =
      let a' = dump layout (suc d) w in
      let b' = dump_fields layout d false fs in
      let inner = length-field_text (layout.opening d) l a' b' in
      let quote = b'"' ∷ (literal l ++ b':' ∷ b' ' ∷ (a' ++ (b' ++ rest))) in
      let next =
        ap skip (field_text (layout.opening d) l a' b' rest)
        ∙ skip-Blank (layout.opening d) quote (blank.opening_blank d)
        ∙ skip-opens quote refl in
      let more = after l w wreads d rest f (omega (arith, inner, h)) in rw (next, more) refl

  reads_null : ReadsValue null
  unfolding value dump expect
  reads_null d rest zero e h = absurd (omega arith)
  reads_null d rest (suc f) e h = refl

  reads_bool : (b : Bool) → ReadsValue (bool b)
  unfolding value dump expect
  reads_bool b d rest zero e h = absurd (omega arith)
  reads_bool true d rest (suc f) e h = refl
  reads_bool false d rest (suc f) e h = refl

  reads_num : (n : ℤ) → ReadsValue (num n)
  unfolding dump
  reads_num n d rest zero e h = absurd (omega arith)
  reads_num n d rest (suc f) e h = value-dump_int f n rest e

  reads_str : (s : Text) → ReadsValue (str s)
  unfolding value dump
  reads_str s d rest zero e h = absurd (omega arith)
  reads_str s d rest (suc f) e h = rw (chars-literal f s rest (omega (arith, h))) refl

  value-dump : (v : Json) → ReadsValue v
  value-dump v =
      elim v
        as ReadsValue (λ xs. FirstItem xs × AfterItem xs) (λ fs. FirstField fs × AfterField fs) [
          | null ↦ reads_null
          | bool b ↦ reads_bool b
          | num n ↦ reads_num n
          | str s ↦ reads_str s
          | array (xs → ih) ↦ value-array xs ih.0
          | object (fs → ih) ↦ value-object fs ih.0
          | no_items ↦ (FirstItem-none, AfterItem-none)
          | item (w → ih) (xs → ihs) ↦ (FirstItem-more w xs ih ihs.1, AfterItem-more w xs ih ihs.1)
          | no_fields ↦ (FirstField-none, AfterField-none)
          | field k (w → ih) (fs → ihs) ↦
              (FirstField-more k w fs ih ihs.1, AfterField-more k w fs ih ihs.1)
        ]

  -- What is printed in a layout of white space, one line or indented, is read back as it was.
  pub loads-dumps : (v : Json) → loads (dumps layout v) ≡ some v
  unfolding loads dumps finish skip
  loads-dumps v =
      let t = dump layout 0 v in
      let same = append_nil t in
      let start = subst (λ s. skip s ≡ s) same (skip-opens (t ++ []) (opens-dump 0 v [])) in
      let run =
        subst (λ s. value (suc (length t)) s ≡ some (v, [])) same
          (value-dump v 0 [] (suc (length t)) (refl, refl) (omega arith)) in
      ap (λ s. finish (value (suc (length t)) s)) start ∙ ap finish run

spaces-Blank : (n : ℕ) → Blank (spaces n)
spaces-Blank zero = refl
spaces-Blank (suc n) = spaces-Blank n

pub one_line-IsBlank : IsBlank one_line
one_line-IsBlank = record {
  opening_blank = λ d. refl;
  between_blank = λ d. refl;
  closing_blank = λ d. refl;
}

pub indented-IsBlank : IsBlank indented
indented-IsBlank = record {
  opening_blank = λ d. spaces-Blank (suc d);
  between_blank = λ d. spaces-Blank (suc d);
  closing_blank = λ d. spaces-Blank d;
}
