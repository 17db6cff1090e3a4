-- ===== src/Regex.antt =====
-- The part of Python's `re` that the program's patterns use: literals, classes, `\s`, `\w`, `.`,
-- `*` and `+` on one class, `?`, alternation, `^`, `$`, `\b` and negative lookahead, matched by
-- backtracking. Whether a match exists does not depend on greed, so no captures are kept.
pub mod Meaning
pub mod Anchored
use silicon_valet.Prelude.{
  ℕ, Bool, true, false, not, ◌&&◌, ◌||◌, Option, none, some, List, [], ◌∷◌, String, Text, codes,
  ◌==◌, if◌then◌else◌, is_space, is_digit, is_word, to_lower, is_empty,
}

-- A test of one character.
pub data Class : Type 0 where
  only : ℕ → Class
  among : Text → Class
  space non_space word digit any_char : Class
  -- a literal under `re.IGNORECASE`
  either_case : ℕ → Class

member : ℕ → Text → Bool
member c [] = false
member c (x ∷ xs) = let rest = member c xs in if c == x then true else rest

unfoldable pub accepts : Class → ℕ → Bool
unfolding member is_space is_word is_digit to_lower
accepts (only x) c = c == x
accepts (among xs) c = member c xs
accepts space c = is_space c
accepts non_space c = not (is_space c)
accepts word c = is_word c
accepts digit c = is_digit c
accepts any_char c = not (c == 10)
accepts (either_case x) c = to_lower c == to_lower x

infixr 60 ◌▸◌
pub data Regex : Type 0 where
  empty : Regex
  one : Class → Regex
  -- `c*`
  many : Class → Regex
  start finish word_edge : Regex
  ◌▸◌ : Regex → Regex → Regex
  alt : Regex → Regex → Regex
  opt : Regex → Regex
  -- `(?!r)`
  never : Regex → Regex

-- A place in the text: the character before it, and what follows.
pub data Pos : Type 0 where
  place : Option ℕ → Text → Pos

-- `$`: at the end, or before a newline that ends the text
unfoldable pub at_finish : Text → Bool
at_finish [] = true
at_finish (c ∷ []) = c == 10
at_finish (c ∷ _ ∷ _) = false

unfoldable pub word_before : Option ℕ → Bool
unfolding is_word
word_before none = false
word_before (some c) = is_word c

unfoldable pub word_after : Text → Bool
unfolding is_word
word_after [] = false
word_after (c ∷ _) = is_word c

-- `\b`: one side is a word character and the other is not
unfoldable pub at_edge : Option ℕ → Text → Bool
unfolding word_before word_after
at_edge l xs = if word_before l then not (word_after xs) else word_after xs

-- `c*`, then the rest of the pattern. The order in which lengths are tried does not matter here.
unfoldable pub run_many : Class → Option ℕ → Text → (Pos → Bool) → Bool
unfolding accepts
run_many c l [] k = k (place l [])
run_many c l (x ∷ xs) k =
    let more = run_many c (some x) xs k in
    let eaten = if accepts c x then more else false in if k (place l (x ∷ xs)) then true else eaten

unfoldable pub run_one : Class → Text → (Pos → Bool) → Bool
unfolding accepts
run_one c [] k = false
run_one c (x ∷ xs) k = let rest = k (place (some x) xs) in if accepts c x then rest else false

-- Does `r` match here in a way that lets the rest of the pattern, `k`, match after it?
unfoldable pub run : Regex → Pos → (Pos → Bool) → Bool
unfolding run_one run_many at_finish at_edge
run empty s k = k s
run (one c) (place l xs) k = run_one c xs k
run (many c) (place l xs) k = run_many c l xs k
run start (place none xs) k = k (place none xs)
run start (place (some c) xs) k = false
run finish (place l xs) k = let rest = k (place l xs) in if at_finish xs then rest else false
run word_edge (place l xs) k = let rest = k (place l xs) in if at_edge l xs then rest else false
run (r ▸ q) s k = run r s (λ t. run q t k)
run (alt r q) s k = let second = run q s k in if run r s k then true else second
run (opt r) s k = let skipped = k s in if run r s k then true else skipped
run (never r) s k = let rest = k s in if run r s (λ _. true) then false else rest

unfoldable pub search_from : Regex → Option ℕ → Text → Bool
unfolding run
search_from r l [] = run r (place l []) (λ _. true)
search_from r l (x ∷ xs) =
    let later = search_from r (some x) xs in
    if run r (place l (x ∷ xs)) (λ _. true) then true else later

-- `pattern.search(text)`, as a truth value
unfoldable pub search_in : Regex → Text → Bool
unfolding search_from
search_in r text = search_from r none text

-- Notation for the tables of patterns.
abbrev pub literal : Text → Regex
literal [] = empty
literal (c ∷ []) = one (only c)
literal (c ∷ d ∷ cs) = one (only c) ▸ literal (d ∷ cs)

abbrev pub lit : String → Regex
lit s = literal (codes s)

abbrev literal_ci : Text → Regex
literal_ci [] = empty
literal_ci (c ∷ []) = one (either_case c)
literal_ci (c ∷ d ∷ cs) = one (either_case c) ▸ literal_ci (d ∷ cs)

-- a literal under `re.IGNORECASE`
abbrev pub lit_ci : String → Regex
lit_ci s = literal_ci (codes s)

-- `(r|q|...)`
abbrev pub one_of : Regex → List Regex → Regex
one_of r [] = r
one_of r (q ∷ qs) = alt r (one_of q qs)

abbrev lits : List String → List Regex
lits [] = []
lits (s ∷ ss) = lit s ∷ lits ss

-- `(a|b|...)` of literals
abbrev pub names : String → List String → Regex
names s ss = one_of (lit s) (lits ss)

abbrev lits_ci : List String → List Regex
lits_ci [] = []
lits_ci (s ∷ ss) = lit_ci s ∷ lits_ci ss

-- the same under `re.IGNORECASE`
abbrev pub names_ci : String → List String → Regex
names_ci s ss = one_of (lit_ci s) (lits_ci ss)

-- `c+`
abbrev pub some_of : Class → Regex
some_of c = one c ▸ many c

-- `\s`, `\s+` and `\s*`
abbrev pub sp : Regex
sp = one space

abbrev pub sps : Regex
sps = some_of space

abbrev pub sps? : Regex
sps? = many space
