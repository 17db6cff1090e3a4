-- ===== src/Risk/Classifier/Chains.antt =====
-- The tier of a command and the tiers of the parts of its pipe chain (`classify`,
-- `_classify_pipe_chain`).
use mathlib.Core.List.{map-append}
use silicon_valet.Prelude.{
  ◌≡◌, refl, inl, inr, ◌∙◌, sym, ap, false, List, [], ◌∷◌, ◌++◌, map, Text, codes, is_space, strip,
  split_on, contains, starts_with, ltb, if◌then◌else◌, arith, Bool-cases,
}
use silicon_valet.Prelude.Strip.{map-strip-split_on-strip, split_on-append, strip-strip}
use silicon_valet.Risk.Classifier.{
  RiskTier, green, tier_order, match_tier, highest_tier, pipe_parts, classify, classify_single,
  classify_pipe_chain, classify_stripped,
}

-- The higher of two tiers.
abbrev pub worse : RiskTier → RiskTier → RiskTier
worse t u = if ltb (tier_order t) (tier_order u) then u else t

worse_assoc : (t u v : RiskTier) → worse (worse t u) v ≡ worse t (worse u v)
worse_assoc t u v = ground arith

worse-green : (t : RiskTier) → worse t green ≡ t
worse-green t = ground arith

pub green-worse : (t : RiskTier) → worse green t ≡ t
green-worse t = ground arith

pub highest_tier-cons :
    (h : RiskTier) (p : Text) (ps : List Text)
    → highest_tier h (p ∷ ps) ≡ highest_tier (worse h (match_tier p)) ps
unfolding highest_tier
highest_tier-cons h p ps = refl

pub highest_tier-nil : (h : RiskTier) → highest_tier h [] ≡ h
unfolding highest_tier
highest_tier-nil h = refl

pub highest_tier-worse :
    (h : RiskTier) (ps : List Text) → highest_tier h ps ≡ worse h (highest_tier green ps)
highest_tier-worse h [] = unfold highest_tier in sym (worse-green h)
highest_tier-worse h (p ∷ ps) =
    let t = match_tier p in
    rw (highest_tier-cons h p ps, highest_tier-cons green p ps, green-worse)
      (highest_tier-worse (worse h t) ps
        ∙ worse_assoc h t (highest_tier green ps)
        ∙ sym (ap (worse h) (highest_tier-worse t ps)))

highest_tier-append :
    (h : RiskTier) (ps qs : List Text)
    → highest_tier h (ps ++ qs) ≡ worse (highest_tier h ps) (highest_tier green qs)
highest_tier-append h [] qs = rw (highest_tier-nil h) (highest_tier-worse h qs)
highest_tier-append h (p ∷ ps) qs =
    rw (highest_tier-cons h p (ps ++ qs), highest_tier-cons h p ps)
      (highest_tier-append (worse h (match_tier p)) ps qs)

pipe_is_solid : is_space b'|' ≡ false
unfolding is_space
pipe_is_solid = refl

pub pipe_parts-strip : (c : Text) → pipe_parts (strip c) ≡ pipe_parts c
unfolding pipe_parts
pipe_parts-strip c = map-strip-split_on-strip b'|' pipe_is_solid c

pub pipe_parts-append : (a b : Text) → pipe_parts (a ++ b'|' ∷ b) ≡ pipe_parts a ++ pipe_parts b
unfolding pipe_parts
pipe_parts-append a b =
    rw (split_on-append b'|' pipe_is_solid a b)
      (map-append strip (split_on b'|' a) (split_on b'|' b))

split_on-whole : (c : Text) → contains c (codes "|") ≡ false → split_on b'|' c ≡ c ∷ []
unfolding split_on contains starts_with
split_on-whole [] h = refl
split_on-whole (x ∷ xs) h = ground (arith, split_on-whole xs)

pub pipe_parts-whole : (c : Text) → contains c (codes "|") ≡ false → pipe_parts c ≡ strip c ∷ []
unfolding pipe_parts
pipe_parts-whole c h = ap (map strip) (split_on-whole c h)

single_green : (t : RiskTier) → t ≡ worse green t
single_green t = sym (green-worse t)

tier-classify_stripped :
    (c : Text) → strip c ≡ c → (classify_stripped c).tier ≡ highest_tier green (pipe_parts c)
unfolding classify_stripped classify_pipe_chain classify_single
tier-classify_stripped c h = elim (Bool-cases (contains c (codes "|"))) [
  | inl e ↦ rw e
  | inr e ↦
      rw (e, pipe_parts-whole c e, h, highest_tier-cons green c [], highest_tier-nil)
        (single_green (match_tier c))
]

-- The tier of every command, piped or not, is that of the loop over its parts.
pub tier-classify : (c : Text) → (classify c).tier ≡ highest_tier green (pipe_parts c)
unfolding classify
tier-classify c =
    tier-classify_stripped (strip c) (strip-strip c) ∙ ap (highest_tier green) (pipe_parts-strip c)

-- For all texts `a` and `b`, the tier of the pipe chain `a|b` is the higher of the tiers of `a`
-- and of `b`: nothing in front of a pipe or behind it hides a dangerous part, and no part is
-- rated higher for its neighbours.
pub tier-classify-pipe :
    (a b : Text) → (classify (a ++ b'|' ∷ b)).tier ≡ worse (classify a).tier (classify b).tier
tier-classify-pipe a b =
    rw (tier-classify, pipe_parts-append)
      (highest_tier-append green (pipe_parts a) (pipe_parts b) ∙ rw (tier-classify, tier-classify))
