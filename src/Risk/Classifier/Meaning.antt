-- ===== src/Risk/Classifier/Meaning.antt =====
-- What the tiers mean: the tables of patterns read as `Spans` reads them, with no search in them.
use silicon_valet.Prelude.{
  ◌≡◌, ◌⊎◌, inl, inr, ◌↔◌, true, none, List, [], ◌∷◌, Text, arith, Bool-cases, All,
}
use silicon_valet.Regex.{Regex, search_in}
use silicon_valet.Regex.Meaning.{Found, search_iff}
use silicon_valet.Risk.Patterns.{green_patterns, red_patterns}
use silicon_valet.Risk.Classifier.{
  RiskTier, green, red, matches_any, match_tier, highest_tier, pipe_parts, classify,
}
use silicon_valet.Risk.Classifier.Chains.{
  worse, green-worse, highest_tier-nil, highest_tier-cons, tier-classify,
}

-- One of the patterns matches a stretch of the text.
abbrev pub HasMatch : List Regex → Text → Type 0
HasMatch [] text = ⊥
HasMatch (r ∷ rs) text = Found r none text ⊎ HasMatch rs text

matches_any_sound : (rs : List Regex) (text : Text) → matches_any rs text ≡ true → HasMatch rs text
unfolding matches_any
matches_any_sound [] text h = cc
matches_any_sound (r ∷ rs) text h = elim (Bool-cases (search_in r text)) [
  | inl e ↦ inl ((search_iff r text).0 e)
  | inr e ↦ inr (matches_any_sound rs text (rw e at h))
]

matches_any_complete :
    (rs : List Regex) (text : Text) → HasMatch rs text → matches_any rs text ≡ true
unfolding matches_any
matches_any_complete [] text h = absurd h
matches_any_complete (r ∷ rs) text (inl f) = rw ((search_iff r text).1 f)
matches_any_complete (r ∷ rs) text (inr m) =
    let rest = matches_any_complete rs text m in ground arith

pub matches_any_iff :
    (rs : List Regex) (text : Text) → (matches_any rs text ≡ true) ↔ HasMatch rs text
matches_any_iff rs text = (matches_any_sound rs text, matches_any_complete rs text)

-- A part that may run without a question: a GREEN pattern matches it, and no RED one does.
abbrev pub ReadOnly : Text → Type 0
ReadOnly part = ¬ HasMatch red_patterns part × HasMatch green_patterns part

pub match_tier-red_iff : (part : Text) → (match_tier part ≡ red) ↔ HasMatch red_patterns part
unfolding match_tier
match_tier-red_iff part = (
  λ h. (matches_any_iff red_patterns part).0 (ground arith),
  λ m. rw ((matches_any_iff red_patterns part).1 m),
)

pub match_tier-green_iff : (part : Text) → (match_tier part ≡ green) ↔ ReadOnly part
unfolding match_tier
match_tier-green_iff part = (
  λ h. (
    λ m. let e = (matches_any_iff red_patterns part).1 m in ground arith,
    (matches_any_iff green_patterns part).0 (ground arith),
  ),
  λ (n, m).
      let e = (matches_any_iff green_patterns part).1 m in
      elim (Bool-cases (matches_any red_patterns part)) [
        | inl f ↦ absurd (n ((matches_any_iff red_patterns part).0 f))
        | inr f ↦ ground arith
      ],
)

stays_green : (t : RiskTier) (ps : List Text) → highest_tier t ps ≡ green → t ≡ green
stays_green t [] h = rw highest_tier-nil at h
stays_green t (p ∷ ps) h =
    let e = stays_green (worse t (match_tier p)) ps (rw highest_tier-cons at h) in ground arith

pub highest_tier-green_iff :
    (ps : List Text) → (highest_tier green ps ≡ green) ↔ All (λ p. match_tier p ≡ green) ps
highest_tier-green_iff [] = (λ _. tt, λ _. highest_tier-nil green)
highest_tier-green_iff (p ∷ ps) = (
  λ h.
      let h' = rw (highest_tier-cons green p ps, green-worse) at h in
      let e = stays_green (match_tier p) ps h' in (e, (highest_tier-green_iff ps).0 (rw e at h')),
  λ (e, rest).
      rw (highest_tier-cons green p ps, green-worse, e) ((highest_tier-green_iff ps).1 rest),
)

All-map : (P Q : Text → Type 0) (ps : List Text) → ((p : Text) → P p → Q p) → All P ps → All Q ps
All-map P Q [] f h = tt
All-map P Q (p ∷ ps) f h = (f p h.0, All-map P Q ps f h.1)

-- A command is GREEN exactly when every part of its pipe chain is matched by some GREEN pattern
-- and by no RED pattern.
pub classify-green_iff : (c : Text) → ((classify c).tier ≡ green) ↔ All ReadOnly (pipe_parts c)
classify-green_iff c = (
  λ h.
      All-map (λ p. match_tier p ≡ green) ReadOnly (pipe_parts c) (λ p. (match_tier-green_iff p).0)
        ((highest_tier-green_iff (pipe_parts c)).0 (rw tier-classify at h)),
  λ a. rw tier-classify (
      (highest_tier-green_iff (pipe_parts c)).1 (
        All-map ReadOnly (λ p. match_tier p ≡ green) (pipe_parts c)
          (λ p. (match_tier-green_iff p).1) a)),
)
