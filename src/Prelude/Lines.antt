-- ===== src/Prelude/Lines.antt =====
-- More of Python's `str`: lines, affixes, characters stripped from a set, and `int` of a text.
use Prim.Native.Nat.{ℕ, zero, suc, ◌+◌, ◌-◌, ◌*◌}
use mathlib.Core.Bool.{Bool, true, false, ◌&&◌, ◌||◌}
use mathlib.Core.List.{List, [], ◌∷◌, ◌++◌}
use mathlib.Core.Option.{Option, none, some}
use silicon_valet.Prelude.Tests.{leb, ◌==◌, if◌then◌else◌}
use silicon_valet.Prelude.Lists.{is_empty, length, any}
use silicon_valet.Prelude.Texts.{Text, text_eq, flush, is_digit, starts_with, strip}

unfoldable pub is_line_break : ℕ → Bool
is_line_break c =
    leb 10 c && leb c 13 || leb 28 c && leb c 30 || c == 0x85 || c == 0x2028 || c == 0x2029

-- `held` is the line being read, and `returned` says that the last character was a carriage return
lines_from : Text → Bool → Text → List Text
unfolding is_line_break
lines_from held returned [] = flush held []
lines_from held returned (c ∷ cs) =
    let skipped = lines_from held false cs in
    let ended = held ∷ lines_from [] (c == 13) cs in
    let more = lines_from (held ++ c ∷ []) false cs in
    if returned && c == 10 then skipped else if is_line_break c then ended else more

-- `s.splitlines()`
unfoldable pub splitlines : Text → List Text
unfolding lines_from
splitlines s = lines_from [] false s

-- `s.endswith(part)`
unfoldable pub ends_with : Text → Text → Bool
ends_with [] part = is_empty part
ends_with (c ∷ cs) part =
    let later = ends_with cs part in if text_eq (c ∷ cs) part then true else later

erase_from : Text → ℕ → Text → Text
unfolding starts_with
erase_from part skip [] = []
erase_from part (suc skip) (c ∷ cs) = erase_from part skip cs
erase_from part zero (c ∷ cs) =
    let hit = erase_from part (length part - 1) cs in
    let miss = c ∷ erase_from part 0 cs in if starts_with (c ∷ cs) part then hit else miss

-- `s.replace(part, "")` for a part that is not empty
unfoldable pub erase : Text → Text → Text
unfolding erase_from
erase part s = erase_from part 0 s

-- `s.rstrip(chars)`
unfoldable pub rstrip_of : Text → Text → Text
rstrip_of chars [] = []
rstrip_of chars (c ∷ cs) =
    let rest = rstrip_of chars cs in
    if is_empty rest && any (λ d. c == d) chars then [] else c ∷ rest

unfoldable pub lstrip_of : Text → Text → Text
lstrip_of chars [] = []
lstrip_of chars (c ∷ cs) =
    let rest = lstrip_of chars cs in if any (λ d. c == d) chars then rest else c ∷ cs

-- `s.strip(chars)`
unfoldable pub strip_of : Text → Text → Text
unfolding rstrip_of lstrip_of
strip_of chars s = rstrip_of chars (lstrip_of chars s)

abbrev pub earlier : ℕ → ℕ → Text → Option (Text × Text) → Option (Text × Text)
earlier sep c cs (some (before, after)) = some (c ∷ before, after)
earlier sep c cs none = if c == sep then some ([], cs) else none

-- the parts before and behind the last `sep`
unfoldable pub rpartition : ℕ → Text → Option (Text × Text)
rpartition sep [] = none
rpartition sep (c ∷ cs) = earlier sep c cs (rpartition sep cs)

digits_from : ℕ → Bool → Text → Option ℕ
unfolding is_digit
digits_from n ready [] = if ready then some n else none
digits_from n ready (c ∷ cs) =
    let digit = digits_from (n * 10 + (c - b'0')) true cs in
    let joined = digits_from n false cs in
    if is_digit c then digit else if ready && c == b'_' then joined else none

-- `int(s)`; none is a ValueError. Digits are the ASCII ones, and a text with a minus sign, which
-- the commands that are asked for counts and sizes do not print, is not read here.
unfoldable pub int_of : Text → Option ℕ
unfolding digits_from strip
int_of s = elim (strip s) [
  | [] ↦ none
  | c ∷ cs ↦ if c == b'+' then digits_from 0 false cs else digits_from 0 false (c ∷ cs)
]
