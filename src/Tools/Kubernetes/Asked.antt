-- ===== src/Tools/Kubernetes/Asked.antt =====
-- The commands that change a cluster are never GREEN.
use silicon_valet.Prelude.{
  ◌≡◌, ◌≢◌, refl, map, ap, false, ℕ, Option, ◌++◌, List, ◌∷◌, Text, codes, strip, rstrip, is_space,
  arith,
}
use silicon_valet.Prelude.Strip.{strip-append_solid, split_on-prefix}
use silicon_valet.Risk.Patterns.{green_patterns}
use silicon_valet.Risk.Classifier.{green, match_tier, pipe_parts, classify}
use silicon_valet.Risk.Classifier.Chains.{tier-classify}
use silicon_valet.Risk.Classifier.Meaning.{highest_tier-green_iff}
use silicon_valet.Risk.Classifier.Fast.{fast_any, match_tier-fast, opens_fast}
use silicon_valet.Tools.Kubernetes.{apply_command, delete_command, scale_command}

pub data Change : Type 0 where
  apply : Text → Change
  delete : Text → Text → Option Text → Change
  scale : Text → ℕ → Option Text → Change

abbrev pub command_of : Change → Text
command_of (apply path) = apply_command path
command_of (delete resource name namespace) = delete_command resource name namespace
command_of (scale deployment replicas namespace) = scale_command deployment replicas namespace

data Verb : Type 0 where
  applies deletes scales : Verb

abbrev spell : Verb → Text
spell applies = codes "kubectl apply"
spell deletes = codes "kubectl delete"
spell scales = codes "kubectl scale"

fast-verb : (v : Verb) (x : Text) → fast_any green_patterns (spell v ++ x) ≡ false
unfolding opens_fast
fast-verb applies x = refl
fast-verb deletes x = refl
fast-verb scales x = refl

match_tier-verb : (v : Verb) (x : Text) → match_tier (spell v ++ x) ≢ green
match_tier-verb v x h =
    let e = rw (match_tier-fast (spell v ++ x), fast-verb v x) at h in ground arith

strip-verb : (v : Verb) (x : Text) → strip (spell v ++ x) ≡ spell v ++ rstrip x
unfolding is_space
strip-verb applies x = strip-append_solid b'k' (codes "ubectl appl") b'y' x refl refl
strip-verb deletes x = strip-append_solid b'k' (codes "ubectl delet") b'e' x refl refl
strip-verb scales x = strip-append_solid b'k' (codes "ubectl scal") b'e' x refl refl

parts-verb :
    (v : Verb) (x : Text)
    → (p : Text) × (ps : List Text) × (pipe_parts (spell v ++ x) ≡ strip (spell v ++ p) ∷ ps)
unfolding pipe_parts
parts-verb applies x =
    let (p, ps, e) = split_on-prefix b'|' (codes "kubectl apply") x refl in
    (p, map strip ps, ap (map strip) e)
parts-verb deletes x =
    let (p, ps, e) = split_on-prefix b'|' (codes "kubectl delete") x refl in
    (p, map strip ps, ap (map strip) e)
parts-verb scales x =
    let (p, ps, e) = split_on-prefix b'|' (codes "kubectl scale") x refl in
    (p, map strip ps, ap (map strip) e)

tier-verb : (v : Verb) (x : Text) → (classify (spell v ++ x)).tier ≢ green
tier-verb v x h =
    let (p, ps, e) = parts-verb v x in
    let all_green =
      (highest_tier-green_iff (pipe_parts (spell v ++ x))).0 (rw tier-classify at h) in
    let first = (rw e at all_green).0 in match_tier-verb v (rstrip p) (rw (strip-verb v p) at first)

-- The commands of the tools that apply a manifest, delete a resource or scale a deployment are never
-- GREEN, whatever their parameters hold.
pub command_of_asked : (change : Change) → (classify (command_of change)).tier ≢ green
unfolding apply_command delete_command scale_command
command_of_asked (apply path) = tier-verb applies (codes " -f " ++ path)
command_of_asked (delete resource name namespace) = tier-verb deletes _
command_of_asked (scale deployment replicas namespace) = tier-verb scales _
