-- ===== src/Risk/Classifier/Fast.antt =====
-- `match_tier` decided by its patterns at the start of the text, where they begin with `^`: this
-- computes on a text of which only the beginning is known.
use silicon_valet.Prelude.{
  ◌≡◌, refl, inl, inr, Bool, true, not, none, List, [], ◌∷◌, Text, any, keep, if◌then◌else◌, arith,
  Bool-cases, is_space,
}
use silicon_valet.Regex.{Regex, start, ◌▸◌, place, run, search_in}
use silicon_valet.Regex.Anchored.{anchored, search_in-anchored}
use silicon_valet.Risk.Patterns.{green_patterns, red_patterns}
use silicon_valet.Risk.Classifier.{green, yellow, red, matches_any, match_tier}

abbrev starts_here : List Regex → Text → Bool
starts_here rs text = any (λ r. run r (place none text) (λ _. true)) rs

-- The patterns with `^` at the start of the text, the others everywhere.
unfoldable pub fast_any : List Regex → Text → Bool
fast_any rs text =
    if starts_here (keep anchored rs) text
    then true
    else matches_any (keep (λ r. not (anchored r)) rs) text

search_in-start :
    (r : Regex) (text : Text)
    → anchored r ≡ true
    → search_in r text ≡ run r (place none text) (λ _. true)
unfolding run
search_in-start (start ▸ r) text h = search_in-anchored r text
search_in-start _ text h = cc

matches_any-fast : (rs : List Regex) (text : Text) → matches_any rs text ≡ fast_any rs text
unfolding matches_any fast_any
matches_any-fast [] text = refl
matches_any-fast (r ∷ rs) text = elim (Bool-cases (anchored r)) [
  | inl e ↦ ground (arith, search_in-start r text, matches_any-fast rs text)
  | inr e ↦ ground (arith, matches_any-fast rs text)
]

pub match_tier-fast :
    (c : Text)
    → match_tier c ≡ (
        if fast_any red_patterns c
        then red
        else if fast_any green_patterns c
        then green
        else yellow)
unfolding match_tier
match_tier-fast c =
    ground (arith, matches_any-fast red_patterns c, matches_any-fast green_patterns c)

-- All that `fast_any` computes with.
unfoldable pub opens_fast : Unit {0}
unfolding fast_any red_patterns green_patterns run matches_any search_in is_space
opens_fast = tt
