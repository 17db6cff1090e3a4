-- ===== src/Json.antt =====
-- Python's json module, as far as the program uses it: values, `dumps` with `ensure_ascii=False`
-- and with or without an indent, and `loads`. Numbers are integers: a text with a fraction, an
-- exponent, NaN or Infinity is not read here.
pub mod Lookup
pub mod RoundTrip
mod Numbers
mod Strings
mod Tests
use silicon_valet.Prelude.{
  ℕ, zero, suc, ◌+◌, ◌-◌, ◌*◌, Bool, true, false, not, ◌&&◌, ◌||◌, Option, none, some, List, [],
  ◌∷◌, ◌++◌, String, Text, codes, text_eq, leb, ltb, ◌==◌, if◌then◌else◌, length, is_digit,
}
use silicon_valet.Prelude.Int.{ℤ, pos, negsuc, decimal}
use Prim.Native.Nat.{◌/◌, ◌%◌}

mutual
  pub data Json : Type 0 where
    null : Json
    bool : Bool → Json
    num : ℤ → Json
    str : Text → Json
    array : Items → Json
    object : Fields → Json

  pub data Items : Type 0 where
    no_items : Items
    item : Json → Items → Items

  pub data Fields : Type 0 where
    no_fields : Fields
    field : Text → Json → Fields → Fields

-- The white space that `dumps` puts behind an opening bracket, behind a comma and before a closing
-- bracket, by depth.
pub record Layout : Type 0 where
  pub opening : ℕ → Text
  pub between : ℕ → Text
  pub closing : ℕ → Text

abbrev pub one_line : Layout
one_line = record { opening = λ d. []; between = λ d. b' ' ∷ []; closing = λ d. [] }

abbrev spaces : ℕ → Text
spaces zero = []
spaces (suc n) = b' ' ∷ b' ' ∷ spaces n

-- `indent=2`
abbrev pub indented : Layout
indented = record {
  opening = λ d. b'\n' ∷ spaces (suc d);
  between = λ d. b'\n' ∷ spaces (suc d);
  closing = λ d. b'\n' ∷ spaces d;
}

unfoldable pub hex_digit : ℕ → ℕ
hex_digit n = if ltb n 10 then b'0' + n else b'a' + (n - 10)

-- one character inside a string literal
unfoldable pub escape : ℕ → Text
unfolding hex_digit
escape c =
    if c == b'"'
    then b'\\' ∷ b'"' ∷ []
    else if c == b'\\'
    then b'\\' ∷ b'\\' ∷ []
    else if c == 8
    then b'\\' ∷ b'b' ∷ []
    else if c == 12
    then b'\\' ∷ b'f' ∷ []
    else if c == 10
    then b'\\' ∷ b'n' ∷ []
    else if c == 13
    then b'\\' ∷ b'r' ∷ []
    else if c == 9
    then b'\\' ∷ b't' ∷ []
    else if ltb c 32
    then b'\\' ∷ b'u' ∷ b'0' ∷ b'0' ∷ hex_digit (c / 16) ∷ hex_digit (c % 16) ∷ []
    else c ∷ []

-- the characters of a literal and its closing quote
unfoldable pub literal : Text → Text
unfolding escape
literal [] = b'"' ∷ []
literal (c ∷ s) = escape c ++ literal s

unfoldable pub dump_int : ℤ → Text
dump_int (pos n) = decimal n
dump_int (negsuc n) = b'-' ∷ decimal (suc n)

module _ (layout : Layout) where
  unfoldable mutual
    pub dump : ℕ → Json → Text
    dump d null = codes "null"
    dump d (bool b) = if b then codes "true" else codes "false"
    dump d (num n) = dump_int n
    dump d (str s) = b'"' ∷ literal s
    dump d (array xs) = b'[' ∷ dump_items d true xs
    dump d (object fs) = b'{' ∷ dump_fields d true fs

    -- what stands behind the bracket (true) or behind an item
    pub dump_items : ℕ → Bool → Items → Text
    dump_items d true no_items = b']' ∷ []
    dump_items d false no_items = layout.closing d ++ b']' ∷ []
    dump_items d true (item v xs) = layout.opening d ++ (dump (suc d) v ++ dump_items d false xs)
    dump_items d false (item v xs) =
        b',' ∷ (layout.between d ++ (dump (suc d) v ++ dump_items d false xs))

    pub dump_fields : ℕ → Bool → Fields → Text
    dump_fields d true no_fields = b'}' ∷ []
    dump_fields d false no_fields = layout.closing d ++ b'}' ∷ []
    dump_fields d true (field k v fs) =
        layout.opening d
        ++ b'"' ∷ (literal k ++ b':' ∷ b' ' ∷ (dump (suc d) v ++ dump_fields d false fs))
    dump_fields d false (field k v fs) =
        b','
        ∷ (layout.between d
            ++ b'"' ∷ (literal k ++ b':' ∷ b' ' ∷ (dump (suc d) v ++ dump_fields d false fs)))

  unfoldable pub dumps : Json → Text
  dumps v = dump 0 v

-- Reading. A reader gives the value and what is left of the text.
abbrev pub is_blank : ℕ → Bool
is_blank c = c == 32 || c == 9 || c == 10 || c == 13

unfoldable pub skip : Text → Text
skip [] = []
skip (c ∷ ts) = let rest = skip ts in if is_blank c then rest else c ∷ ts

abbrev pub starts : ℕ → Text → Bool
starts c [] = false
starts c (d ∷ ts) = d == c

abbrev pub tail : Text → Text
tail [] = []
tail (d ∷ ts) = ts

unfoldable pub hex_value : ℕ → Option ℕ
hex_value c =
    if leb b'0' c && leb c b'9'
    then some (c - b'0')
    else if leb b'a' c && leb c b'f'
    then some (c - b'a' + 10)
    else if leb b'A' c && leb c b'F'
    then some (c - b'A' + 10)
    else none

abbrev shift : Option ℕ → Option ℕ → Option ℕ
shift (some a) (some b) = some (a * 16 + b)
shift _ _ = none

-- `\uXXXX`, without the pairing of surrogates
unfoldable pub hex4 : Text → Option (ℕ × Text)
unfolding hex_value
hex4 (a ∷ b ∷ c ∷ d ∷ ts) =
    elim (shift (shift (shift (hex_value a) (hex_value b)) (hex_value c)) (hex_value d)) [
      | none ↦ none
      | some n ↦ some (n, ts)
    ]
hex4 _ = none

-- the character that a backslash and `c` stand for
unfoldable pub unescape : ℕ → Option ℕ
unescape c =
    if c == b'"' || c == b'\\' || c == b'/'
    then some c
    else if c == b'b'
    then some 8
    else if c == b'f'
    then some 12
    else if c == b'n'
    then some 10
    else if c == b'r'
    then some 13
    else if c == b't'
    then some 9
    else none

-- a high surrogate followed by an escaped low one is one character
unfoldable pub pair : ℕ → Text → ℕ × Text
unfolding hex4
pair n ts =
    if leb 0xd800 n && leb n 0xdbff && starts b'\\' ts && starts b'u' (tail ts)
    then elim (hex4 (tail (tail ts))) [
      | none ↦ (n, ts)
      | some (m, rest) ↦
          if leb 0xdc00 m && leb m 0xdfff
          then (0x10000 + ((n - 0xd800) * 1024 + (m - 0xdc00)), rest)
          else (n, ts)
    ]
    else (n, ts)

-- what stands behind a backslash
unfoldable pub read_escape : Text → Option (ℕ × Text)
unfolding hex4 unescape pair
read_escape [] = none
read_escape (e ∷ ts) =
    if e == b'u'
    then elim (hex4 ts) [ none ↦ none | some (n, rest) ↦ some (pair n rest) ]
    else elim (unescape e) [ none ↦ none | some n ↦ some (n, ts) ]

abbrev pub next_char : ℕ → Text → Option (ℕ × Text)
next_char c ts = if c == b'\\' then read_escape ts else if ltb c 32 then none else some (c, ts)

abbrev pub left {ℓ} : {A : Type ℓ} → Option (A × Text) → Text
left none = []
left (some (_, ts)) = ts

abbrev pub add_char : Option (ℕ × Text) → Option (Text × Text) → Option (Text × Text)
add_char (some (c, _)) (some (s, ts)) = some (c ∷ s, ts)
add_char _ _ = none

-- the characters up to the closing quote
unfoldable pub chars : ℕ → Text → Option (Text × Text)
chars zero ts = none
chars (suc f) [] = none
chars (suc f) (c ∷ ts) =
    let next = next_char c ts in
    let rest = chars f (left next) in if c == b'"' then some ([], ts) else add_char next rest

-- the digits at the front, behind those that make `n`
unfoldable pub digits : ℕ → Text → ℕ × Text
digits n [] = (n, [])
digits n (c ∷ ts) =
    let rest = digits (n * 10 + (c - b'0')) ts in if is_digit c then rest else (n, c ∷ ts)

-- a fraction or an exponent follows
abbrev pub is_float : Text → Bool
is_float ts = starts b'.' ts || starts b'e' ts || starts b'E' ts

abbrev pub whole : (ℕ → ℤ) → ℕ × Text → Option (Json × Text)
whole sign (n, ts) = if is_float ts then none else some (num (sign n), ts)

-- a number from its first digit on
unfoldable pub natural : (ℕ → ℤ) → Text → Option (Json × Text)
unfolding digits
natural sign [] = none
natural sign (c ∷ ts) =
    if c == b'0'
    then whole sign (0, ts)
    else if is_digit c
    then whole sign (digits 0 (c ∷ ts))
    else none

abbrev pub negative : ℕ → ℤ
negative zero = pos 0
negative (suc n) = negsuc n

unfoldable pub expect : Text → Json → Text → Option (Json × Text)
expect [] v ts = some (v, ts)
expect (c ∷ w) v ts = let rest = expect w v (tail ts) in if starts c ts then rest else none

abbrev pub mapped {ℓ κ} :
    {A : Type ℓ} {B : Type κ} → (A → B) → Option (A × Text) → Option (B × Text)
mapped f none = none
mapped f (some (a, ts)) = some (f a, ts)

-- Each call of a reader costs a unit of fuel.
unfoldable mutual
  pub value : ℕ → Text → Option (Json × Text)
  value zero ts = none
  value (suc f) [] = none
  value (suc f) (c ∷ ts) =
      let list = mapped array (items f (skip ts)) in
      let dict = mapped object (fields f (skip ts)) in
      if c == b'"'
      then mapped str (chars f ts)
      else if c == b'['
      then (if starts b']' (skip ts) then some (array no_items, tail (skip ts)) else list)
      else if c == b'{'
      then (if starts b'}' (skip ts) then some (object no_fields, tail (skip ts)) else dict)
      else if c == b'n'
      then expect (codes "ull") null ts
      else if c == b't'
      then expect (codes "rue") (bool true) ts
      else if c == b'f'
      then expect (codes "alse") (bool false) ts
      else if c == b'-'
      then natural negative ts
      else natural pos (c ∷ ts)

  pub items : ℕ → Text → Option (Items × Text)
  items zero ts = none
  items (suc f) ts = elim (value f ts) [
    | none ↦ none
    | some (v, rest) ↦
        let ts' = skip rest in
        let more = mapped (item v) (items f (skip (tail ts'))) in
        if starts b']' ts'
        then some (item v no_items, tail ts')
        else if starts b',' ts'
        then more
        else none
  ]

  pub fields : ℕ → Text → Option (Fields × Text)
  fields zero ts = none
  fields (suc f) ts =
      if starts b'"' ts
      then elim (chars f (tail ts)) [
        | none ↦ none
        | some (k, rest) ↦
            let colon = skip rest in
            if starts b':' colon
            then elim (value f (skip (tail colon))) [
              | none ↦ none
              | some (v, rest') ↦
                  let ts' = skip rest' in
                  let more = mapped (field k v) (fields f (skip (tail ts'))) in
                  if starts b'}' ts'
                  then some (field k v no_fields, tail ts')
                  else if starts b',' ts'
                  then more
                  else none
            ]
            else none
      ]
      else none

unfoldable pub finish : Option (Json × Text) → Option Json
finish none = none
finish (some (v, ts)) = elim (skip ts) [ [] ↦ some v | _ ↦ none ]

-- `json.loads`; none is a JSONDecodeError
unfoldable pub loads : Text → Option Json
unfolding finish
loads ts = finish (value (suc (length ts)) (skip ts))
