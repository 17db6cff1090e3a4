-- ===== src/Prelude/Texts.antt =====
-- Python's `str` as the list of its code points, and the methods of `str` that the program calls.
-- Case (`lower`, `capitalize`, `\w`) is that of the ASCII letters: on texts of ASCII code points
-- the functions here are Python's. White space is all of Unicode's, as `str.isspace` has it.
use Prim.Native.Char.{code}
use Prim.Native.Nat.{ℕ, ◌+◌, ◌-◌}
use Prim.Native.String.{String}
use mathlib.Core.Bool.{Bool, true, false, ◌&&◌, ◌||◌}
use mathlib.Core.List.{List, [], ◌∷◌, ◌++◌, map}
use silicon_valet.Prelude.Tests.{leb, ◌==◌, if◌then◌else◌}
use silicon_valet.Prelude.Lists.{is_empty}

abbrev pub Text : Type 0
Text = List ℕ

abbrev pub codes : String → Text
codes String.[] = []
codes (String.◌∷◌ c s) = code c ∷ codes s

abbrev pub text_eq : Text → Text → Bool
text_eq [] [] = true
text_eq [] (y ∷ ys) = false
text_eq (x ∷ xs) [] = false
text_eq (x ∷ xs) (y ∷ ys) = let rest = text_eq xs ys in if x == y then rest else false

-- Python's truth value of a string
abbrev pub nonempty : Text → Bool
nonempty [] = false
nonempty (x ∷ xs) = true

-- `str.isspace` of one character, which is also `\s`
unfoldable pub is_space : ℕ → Bool
is_space c =
    leb 9 c && leb c 13
    || leb 28 c && leb c 32
    || c == 0x85
    || c == 0xa0
    || c == 0x1680
    || leb 0x2000 c && leb c 0x200a
    || c == 0x2028
    || c == 0x2029
    || c == 0x202f
    || c == 0x205f
    || c == 0x3000

unfoldable pub is_digit : ℕ → Bool
is_digit c = leb b'0' c && leb c b'9'

unfoldable pub is_alpha_upper : ℕ → Bool
is_alpha_upper c = leb b'A' c && leb c b'Z'

unfoldable pub is_alpha_lower : ℕ → Bool
is_alpha_lower c = leb b'a' c && leb c b'z'

-- `\w`
unfoldable pub is_word : ℕ → Bool
unfolding is_alpha_lower is_alpha_upper is_digit
is_word c = is_alpha_lower c || is_alpha_upper c || is_digit c || c == b'_'

unfoldable pub to_lower : ℕ → ℕ
unfolding is_alpha_upper
to_lower c = if is_alpha_upper c then c + 32 else c

unfoldable pub to_upper : ℕ → ℕ
unfolding is_alpha_lower
to_upper c = if is_alpha_lower c then c - 32 else c

unfoldable pub lower : Text → Text
unfolding to_lower
lower = map to_lower

-- the first character in upper case, the others in lower case
unfoldable pub capitalize : Text → Text
unfolding to_upper lower
capitalize [] = []
capitalize (c ∷ cs) = to_upper c ∷ lower cs

unfoldable pub lstrip : Text → Text
lstrip [] = []
lstrip (c ∷ cs) = let rest = lstrip cs in if is_space c then rest else c ∷ cs

unfoldable pub rstrip : Text → Text
rstrip [] = []
rstrip (c ∷ cs) = let rest = rstrip cs in if is_empty rest && is_space c then [] else c ∷ rest

unfoldable pub strip : Text → Text
unfolding lstrip rstrip
strip s = rstrip (lstrip s)

-- one more character at the front of the first piece
abbrev pub onto_first : ℕ → List Text → List Text
onto_first c [] = (c ∷ []) ∷ []
onto_first c (p ∷ ps) = (c ∷ p) ∷ ps

-- `s.split(sep)` for a separator of one character
unfoldable pub split_on : ℕ → Text → List Text
split_on sep [] = [] ∷ []
split_on sep (c ∷ cs) =
    let rest = split_on sep cs in if c == sep then [] ∷ rest else onto_first c rest

-- the pieces between runs of white space; `held` is the piece being read
abbrev pub flush : Text → List Text → List Text
flush [] ps = ps
flush (c ∷ cs) ps = (c ∷ cs) ∷ ps

words_from : Text → Text → List Text
words_from held [] = flush held []
words_from held (c ∷ cs) =
    let stop = flush held (words_from [] cs) in
    let more = words_from (held ++ c ∷ []) cs in if is_space c then stop else more

-- `s.split()`
unfoldable pub words : Text → List Text
unfolding words_from
words s = words_from [] s

unfoldable pub starts_with : Text → Text → Bool
starts_with s [] = true
starts_with [] (p ∷ ps) = false
starts_with (c ∷ cs) (p ∷ ps) = let rest = starts_with cs ps in if c == p then rest else false

-- `part in s`
unfoldable pub contains : Text → Text → Bool
unfolding starts_with
contains [] part = is_empty part
contains (c ∷ cs) part =
    let later = contains cs part in if starts_with (c ∷ cs) part then true else later

-- `s.replace(old, new)` for an `old` of one character
unfoldable pub replace : ℕ → Text → Text → Text
replace old new [] = []
replace old new (c ∷ cs) =
    let rest = replace old new cs in if c == old then new ++ rest else c ∷ rest

-- `s.partition(sep)` for a separator of one character, without its middle part
unfoldable pub partition : ℕ → Text → Text × Text
partition sep [] = ([], [])
partition sep (c ∷ cs) =
    let (before, after) = partition sep cs in if c == sep then ([], cs) else (c ∷ before, after)

-- `sep.join(parts)`
unfoldable pub join : Text → List Text → Text
join sep [] = []
join sep (p ∷ []) = p
join sep (p ∷ q ∷ ps) = p ++ sep ++ join sep (q ∷ ps)
