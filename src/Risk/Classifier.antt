-- ===== src/Risk/Classifier.antt =====
-- risk/classifier.py: the tier of a command, its explanation and its rollback.
pub mod Chains
pub mod Meaning
pub mod Deletion
pub mod Fast
use silicon_valet.Prelude.{
  ℕ, Bool, true, false, Option, none, some, List, [], ◌∷◌, ◌++◌, map, Text, codes, text_eq,
  is_space, strip, split_on, words, capitalize, starts_with, contains, any, ltb, if◌then◌else◌,
}
use silicon_valet.Regex.{Regex, search_in}
use silicon_valet.Risk.Patterns.{green_patterns, yellow_patterns, red_patterns}

pub data RiskTier : Type 0 where
  green yellow red : RiskTier

pub record ClassifiedAction : Type 0 where
  pub command : Text
  pub tier : RiskTier
  pub explanation : Text
  pub rollback_command : Option Text
  pub backup_needed : Bool

-- `template.format(service=x, target=x, original="?")` for each template of `_ROLLBACK_TEMPLATES`
abbrev Template : Type 0
Template = Text × (Text → Text)

rollback_templates : List Template
rollback_templates =
    (codes "systemctl start", λ x. codes "systemctl stop " ++ x)
    ∷ (codes "systemctl stop", λ x. codes "systemctl start " ++ x)
    ∷ (codes "systemctl restart", λ x. codes "systemctl restart " ++ x)
    ∷ (codes "systemctl enable", λ x. codes "systemctl disable " ++ x)
    ∷ (codes "systemctl disable", λ x. codes "systemctl enable " ++ x)
    ∷ (codes "kubectl apply", λ x. codes "kubectl delete -f " ++ x)
    ∷ (codes "kubectl scale", λ x. codes "kubectl scale " ++ x ++ codes " --replicas=?")
    ∷ []

-- `parts[2]`, if there are three parts
abbrev third : List Text → Option Text
third (_ ∷ _ ∷ t ∷ _) = some t
third _ = none

rollback_from : List Template → Text → Option Text
unfolding starts_with words
rollback_from [] command = none
rollback_from ((prefix, template) ∷ rest) command =
    let later = rollback_from rest command in
    if starts_with command prefix
    then elim (third (words command)) [ none ↦ later | some target ↦ some (template target) ]
    else later

pub suggest_rollback : Text → Option Text
unfolding rollback_templates rollback_from
suggest_rollback = rollback_from rollback_templates

abbrev find_text : Text → List (Text × Text) → Option Text
find_text k [] = none
find_text k ((j, v) ∷ rest) = let later = find_text k rest in if text_eq k j then some v else later

-- `cmd_parts[1] if len(cmd_parts) > 1 else default`
abbrev first_or : List Text → Text → Text
first_or [] default = default
first_or (a ∷ _) default = a

-- the dict `explanations`
explanations : Text → List Text → List (Text × Text)
unfolding contains
explanations command args =
    (codes "cat", codes "Read file contents")
    ∷ (codes "ls", codes "List directory contents")
    ∷ (codes "ps", codes "Show running processes")
    ∷ (codes "df", codes "Show disk space usage")
    ∷ (codes "du", codes "Show directory size")
    ∷ (codes "free", codes "Show memory usage")
    ∷ (codes "uptime", codes "Show system uptime")
    ∷ (codes "ping", codes "Test network connectivity to " ++ first_or args (codes "host"))
    ∷ (codes "dig", codes "DNS lookup for " ++ first_or args (codes "domain"))
    ∷ (codes "curl", codes "Make HTTP request")
    ∷ (
      codes "rm",
      codes "Delete "
          ++ (if contains command (codes "-r") then codes "files/directories" else codes "files"),
    )
    ∷ (codes "cp", codes "Copy files")
    ∷ (codes "mv", codes "Move/rename files")
    ∷ (codes "mkdir", codes "Create directory")
    ∷ (codes "chmod", codes "Change file permissions")
    ∷ (codes "chown", codes "Change file ownership")
    ∷ (codes "reboot", codes "Reboot the system")
    ∷ (codes "shutdown", codes "Shut down the system")
    ∷ (codes "dd", codes "Low-level data copy (can overwrite entire disks)")
    ∷ []

tier_label : RiskTier → Text
tier_label green = codes "Read-only operation"
tier_label yellow = codes "Modification operation"
tier_label red = codes "Destructive operation"

-- the last two tests of `_explain`, and the label
explain_other : Text → Text → RiskTier → Text
unfolding contains tier_label
explain_other base command tier =
    if text_eq base (codes "journalctl")
    then codes "Read system logs"
    else if (if text_eq base (codes "sed") then contains command (codes "-i") else false)
    then codes "Edit file in-place"
    else tier_label tier ++ codes ": " ++ base

-- the tests on `systemctl` and `kubectl`, which want three parts
explain_verb : Text → List Text → Text → RiskTier → Text
unfolding explain_other capitalize
explain_verb base (action ∷ object ∷ _) command tier =
    if text_eq base (codes "systemctl")
    then capitalize action ++ codes " the " ++ object ++ codes " service"
    else if text_eq base (codes "kubectl")
    then codes "Kubernetes: " ++ action ++ codes " " ++ object
    else explain_other base command tier
explain_verb base _ command tier = explain_other base command tier

explain_parts : List Text → Text → RiskTier → Text
unfolding explanations explain_verb
explain_parts [] command tier = codes "Empty command"
explain_parts (base ∷ args) command tier = elim (find_text base (explanations command args)) [
  | some text ↦ text
  | none ↦ explain_verb base args command tier
]

unfoldable pub explain : Text → RiskTier → Text
unfolding explain_parts words
explain command tier = explain_parts (words command) command tier

-- a loop `for pattern in patterns: if pattern.search(command)`
unfoldable pub matches_any : List Regex → Text → Bool
matches_any patterns command = any (λ r. search_in r command) patterns

unfoldable pub match_tier : Text → RiskTier
match_tier command =
    if matches_any red_patterns command
    then red
    else if matches_any green_patterns command
    then green
    else if matches_any yellow_patterns command
    then yellow
    else yellow

abbrev pub tier_order : RiskTier → ℕ
tier_order green = 0
tier_order yellow = 1
tier_order red = 2

-- the loop over the parts, from the tier found so far
unfoldable pub highest_tier : RiskTier → List Text → RiskTier
highest_tier highest [] = highest
highest_tier highest (part ∷ rest) =
    highest_tier
      (if ltb (tier_order highest) (tier_order (match_tier part)) then match_tier part else highest)
      rest

-- the parts of a pipe chain
unfoldable pub pipe_parts : Text → List Text
pipe_parts command = map strip (split_on b'|' command)

abbrev is_red : RiskTier → Bool
is_red red = true
is_red _ = false

abbrev pub is_yellow : RiskTier → Bool
is_yellow yellow = true
is_yellow _ = false

unfoldable pub classify_pipe_chain : Text → ClassifiedAction
classify_pipe_chain command =
    let tier = highest_tier green (pipe_parts command) in
    record {
      command = command;
      tier = tier;
      explanation =
          if is_red tier
          then explain command tier ++ codes " (pipe chain contains destructive command)"
          else explain command tier;
      rollback_command = none;
      backup_needed = is_yellow tier;
    }

pub classify_single : Text → ClassifiedAction
classify_single command =
    let tier = match_tier command in
    record {
      command = command;
      tier = tier;
      explanation = explain command tier;
      rollback_command = suggest_rollback command;
      backup_needed = is_yellow tier;
    }

-- what `classify` does with the stripped command
unfoldable pub classify_stripped : Text → ClassifiedAction
classify_stripped command =
    if contains command (codes "|") then classify_pipe_chain command else classify_single command

unfoldable pub classify : Text → ClassifiedAction
classify command = classify_stripped (strip command)

-- All that `match_tier` computes with, under one name for the lines of the tests.
unfoldable pub opens_match_tier : Unit {0}
unfolding match_tier matches_any search_in red_patterns green_patterns yellow_patterns is_space
opens_match_tier = tt

-- And all that `classify` computes with.
unfoldable pub opens_classify : Unit {0}
unfolding classify classify_stripped classify_pipe_chain classify_single highest_tier pipe_parts
    explain suggest_rollback contains split_on strip opens_match_tier
opens_classify = tt
