-- ===== src/Risk/Classifier/Deletion.antt =====
-- `rm`, `rmdir` and `shred` are RED with any arguments, wherever in a pipe chain they stand.
use silicon_valet.Prelude.{
  ◌≡◌, refl, is_space, true, arith, ◌⊎◌, inl, inr, ◌∙◌, ap, List, [], ◌∷◌, ◌++◌, Text, codes, strip,
  rstrip, map,
}
use silicon_valet.Prelude.Strip.{strip-append_solid, rstrip-cons_cases, split_on-prefix}
use silicon_valet.Risk.Patterns.{red_patterns}
use silicon_valet.Risk.Classifier.Fast.{fast_any, match_tier-fast, opens_fast}
use silicon_valet.Risk.Classifier.{
  RiskTier, green, red, match_tier, highest_tier, pipe_parts, classify,
}
use silicon_valet.Risk.Classifier.Chains.{
  worse, highest_tier-cons, highest_tier-worse, tier-classify, tier-classify-pipe, green-worse,
}

pub data Deleter : Type 0 where
  rm rmdir shred : Deleter

abbrev pub spell : Deleter → Text
spell rm = codes "rm"
spell rmdir = codes "rmdir"
spell shred = codes "shred"

-- The name alone, or the name and a space.
fast-deleter :
    (d : Deleter) (x : Text)
    → (x ≡ []) ⊎ ((y : Text) × (x ≡ b' ' ∷ y))
    → fast_any red_patterns (spell d ++ x) ≡ true
unfolding opens_fast
fast-deleter rm x (inl e) = rw e
fast-deleter rmdir x (inl e) = rw e
fast-deleter shred x (inl e) = rw e
fast-deleter rm x (inr (y, e)) = rw e
fast-deleter rmdir x (inr (y, e)) = rw e
fast-deleter shred x (inr (y, e)) = rw e

match_tier-deleter :
    (d : Deleter) (x : Text)
    → (x ≡ []) ⊎ ((y : Text) × (x ≡ b' ' ∷ y))
    → match_tier (spell d ++ x) ≡ red
match_tier-deleter d x h = rw (match_tier-fast (spell d ++ x), fast-deleter d x h)

-- what is left of the arguments
blank_or_space : (x : Text) → let y = rstrip (b' ' ∷ x) in (y ≡ []) ⊎ ((z : Text) × (y ≡ b' ' ∷ z))
blank_or_space x = elim (rstrip-cons_cases b' ' x) [ inl e ↦ inl e | inr e ↦ inr (rstrip x, e) ]

strip-deleter :
    (d : Deleter) (x : Text) → strip (spell d ++ b' ' ∷ x) ≡ spell d ++ rstrip (b' ' ∷ x)
unfolding is_space
strip-deleter rm x = strip-append_solid b'r' [] b'm' (b' ' ∷ x) refl refl
strip-deleter rmdir x = strip-append_solid b'r' (codes "mdi") b'r' (b' ' ∷ x) refl refl
strip-deleter shred x = strip-append_solid b's' (codes "hre") b'd' (b' ' ∷ x) refl refl

pipe_parts-deleter :
    (d : Deleter) (rest : Text)
    → (x : Text) × (ps : List Text) × (pipe_parts (spell d ++ b' ' ∷ rest)
        ≡ strip (spell d ++ b' ' ∷ x) ∷ ps)
unfolding pipe_parts
pipe_parts-deleter rm rest =
    let (x, ps, e) = split_on-prefix b'|' (codes "rm ") rest refl in
    (x, map strip ps, ap (map strip) e)
pipe_parts-deleter rmdir rest =
    let (x, ps, e) = split_on-prefix b'|' (codes "rmdir ") rest refl in
    (x, map strip ps, ap (map strip) e)
pipe_parts-deleter shred rest =
    let (x, ps, e) = split_on-prefix b'|' (codes "shred ") rest refl in
    (x, map strip ps, ap (map strip) e)

worse-red : (t : RiskTier) → worse t red ≡ red
worse-red t = ground arith

red-worse : (t : RiskTier) → worse red t ≡ red
red-worse t = ground arith

-- `rm`, `rmdir` and `shred` are RED whatever their arguments, and whatever they are piped into.
pub classify-deleter : (d : Deleter) (rest : Text) → (classify (spell d ++ b' ' ∷ rest)).tier ≡ red
classify-deleter d rest =
    let (x, ps, e) = pipe_parts-deleter d rest in
    let first : match_tier (strip (spell d ++ b' ' ∷ x)) ≡ red =
      rw (strip-deleter d x) (match_tier-deleter d (rstrip (b' ' ∷ x)) (blank_or_space x)) in
    rw (tier-classify (spell d ++ b' ' ∷ rest), e, highest_tier-cons, first, green-worse)
      (highest_tier-worse red ps ∙ red-worse (highest_tier green ps))

tier-classify_of_strip : (a b : Text) → strip a ≡ strip b → (classify a).tier ≡ (classify b).tier
unfolding classify
tier-classify_of_strip a b h = rw h

-- A pipe chain is RED, whatever stands before the pipe, if after it stand `rm`, `rmdir` or
-- `shred` with any arguments, up to white space at the ends.
pub classify-deleter_piped :
    (a b : Text) (d : Deleter) (rest : Text)
    → strip b ≡ strip (spell d ++ b' ' ∷ rest)
    → (classify (a ++ b'|' ∷ b)).tier ≡ red
classify-deleter_piped a b d rest h =
    rw
      (
        tier-classify-pipe a b,
        tier-classify_of_strip b (spell d ++ b' ' ∷ rest) h,
        classify-deleter d rest,
      )
      (worse-red (classify a).tier)
