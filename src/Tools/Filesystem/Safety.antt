-- ===== src/Tools/Filesystem/Safety.antt =====
-- Which of the commands that the file tools build run without a question.
use silicon_valet.Prelude.{
  ◌≡◌, ◌≢◌, refl, ◌∙◌, true, false, not, ◌++◌, Text, codes, strip, rstrip, replace, is_space, keep,
  arith, if◌then◌else◌,
}
use silicon_valet.Prelude.Strip.{
  lacks, split_on-lacks, lacks-append, lacks-rstrip, strip-append_solid, split_on-prefix,
}
use silicon_valet.Regex.Anchored.{anchored, search_in-absent}
use silicon_valet.Risk.Patterns.{green_patterns, red_patterns}
use silicon_valet.Risk.Classifier.{
  green, yellow, red, matches_any, match_tier, pipe_parts, classify,
}
use silicon_valet.Risk.Classifier.Chains.{tier-classify, highest_tier-cons, highest_tier-nil}
use silicon_valet.Risk.Classifier.Meaning.{highest_tier-green_iff}
use silicon_valet.Risk.Classifier.Fast.{fast_any, match_tier-fast, opens_fast}
use silicon_valet.Tools.Filesystem.{read_command, write_command, quote}

-- The two RED patterns without `^` need a `|` or a `>`.
elsewhere-lacks :
    (c : Text)
    → lacks b'|' c ≡ true
    → lacks b'>' c ≡ true
    → matches_any (keep (λ r. not (anchored r)) red_patterns) c ≡ false
unfolding red_patterns matches_any
elsewhere-lacks c h k = rw (search_in-absent _ b'|' c h, search_in-absent _ b'>' c k)

-- `head -n` with anything behind it.
fast-head :
    (x : Text)
    → matches_any (keep (λ r. not (anchored r)) red_patterns) (codes "head -n" ++ x) ≡ false
    → (if fast_any red_patterns (codes "head -n" ++ x)
        then red
        else if fast_any green_patterns (codes "head -n" ++ x)
        then green
        else yellow)
      ≡ green
unfolding opens_fast
fast-head x h = rw h

-- A text with neither a pipe nor a `>`.
abbrev pub IsPlain : Text → Type 0
IsPlain s = (lacks b'|' s ≡ true) × (lacks b'>' s ≡ true)

IsPlain-append : (s t : Text) → IsPlain s → IsPlain t → IsPlain (s ++ t)
IsPlain-append s t (a, b) (c, d) = (lacks-append b'|' s t a c, lacks-append b'>' s t b d)

IsPlain-rstrip : (s : Text) → IsPlain s → IsPlain (rstrip s)
IsPlain-rstrip s (a, b) = (lacks-rstrip b'|' s a, lacks-rstrip b'>' s b)

match_tier-head : (x : Text) → IsPlain x → match_tier (codes "head -n" ++ x) ≡ green
match_tier-head x plain =
    let (a, b) = IsPlain-append (codes "head -n") x (refl, refl) plain in
    match_tier-fast (codes "head -n" ++ x)
    ∙ fast-head x (elsewhere-lacks (codes "head -n" ++ x) a b)

strip-head : (x : Text) → strip (codes "head -n" ++ x) ≡ codes "head -n" ++ rstrip x
unfolding is_space
strip-head x = strip-append_solid b'h' (codes "ead -") b'n' x refl refl

tier-head : (x : Text) → IsPlain x → (classify (codes "head -n" ++ x)).tier ≡ green
unfolding pipe_parts
tier-head x plain =
    let (a, b) = IsPlain-append (codes "head -n") x (refl, refl) plain in
    tier-classify (codes "head -n" ++ x)
    ∙ rw (
      split_on-lacks b'|' (codes "head -n" ++ x) a,
      highest_tier-cons,
      highest_tier-nil,
      strip-head x,
      match_tier-head (rstrip x) (IsPlain-rstrip x plain),
    )

-- The command of `read_file` is GREEN for every number of lines and every path that are free of
-- `|` and `>`: the path is not quoted, and what follows a `;` in it is not looked at.
pub classify-read_command :
    (lines path : Text)
    → IsPlain lines
    → IsPlain path
    → (classify (read_command lines path)).tier ≡ green
unfolding read_command
classify-read_command lines path hl hp =
    let front = IsPlain-append (codes " ") lines (refl, refl) hl in
    let before_path = IsPlain-append (codes " " ++ lines) (codes " ") front (refl, refl) in
    tier-head (codes " " ++ lines ++ codes " " ++ path)
      (IsPlain-append (codes " " ++ lines ++ codes " ") path before_path hp)

fast-echo : (x : Text) → fast_any green_patterns (codes "echo '" ++ x) ≡ false
unfolding opens_fast
fast-echo x = refl

match_tier-echo : (x : Text) → match_tier (codes "echo '" ++ x) ≢ green
match_tier-echo x h =
    let e = rw (match_tier-fast (codes "echo '" ++ x), fast-echo x) at h in ground arith

strip-echo : (x : Text) → strip (codes "echo '" ++ x) ≡ codes "echo '" ++ rstrip x
unfolding is_space
strip-echo x = strip-append_solid b'e' (codes "cho ") b'\'' x refl refl

tier-echo : (x : Text) → (classify (codes "echo '" ++ x)).tier ≢ green
unfolding pipe_parts
tier-echo x h =
    let (p, ps, e) = split_on-prefix b'|' (codes "echo '") x refl in
    let all_green =
      (highest_tier-green_iff (pipe_parts (codes "echo '" ++ x))).0 (rw tier-classify at h) in
    let first = (rw e at all_green).0 in match_tier-echo (rstrip p) (rw (strip-echo p) at first)

-- The command of `write_file` is never GREEN, whatever the content and the path.
pub classify-write_command :
    (content path : Text) → (classify (write_command content path)).tier ≢ green
unfolding write_command
classify-write_command content path =
    tier-echo (replace b'\'' (codes "'\\''") content ++ codes "' | tee " ++ quote path)
