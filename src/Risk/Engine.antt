-- ===== src/Risk/Engine.antt =====
-- risk/engine.py: classification, approval, backup and execution of a command. What the engine
-- asks of the operating system is the parameter `Host`, over a world `W` that every call may
-- change; the approval callback is an argument, as in the source.
pub mod Permission
pub mod Gate
pub mod Runs
pub mod Backup
use silicon_valet.Prelude.{
  ℕ, ◌-◌, Bool, true, false, ◌&&◌, not, Option, none, some, List, [], ◌∷◌, ◌++◌, Text, codes, words,
  split_on, join, nonempty, is_empty, length, drop, keep, text_eq, ◌==◌, if◌then◌else◌,
}
use silicon_valet.Prelude.Int.{ℤ, pos, minus_one, decimal}
use silicon_valet.Risk.Classifier.{
  RiskTier, green, yellow, red, ClassifiedAction, classify, opens_classify,
}

-- A Python call that may raise; the text is that of the exception.
pub data Result {ℓ} (A : Type ℓ) : Type ℓ where
  ok : A → Result A
  raised : Text → Result A

-- How `create_subprocess_shell` and `communicate` under `wait_for` end: with output, the process's
-- `returncode` and the milliseconds taken; with a timeout; or with another exception.
pub data Outcome : Type 0 where
  finished : Text → Text → Option ℤ → ℕ → Outcome
  timed_out : ℕ → Outcome
  failed : Text → ℕ → Outcome

-- The operating system. `is_file` is `path.exists() and path.is_file()`, which raises where the path
-- may not be looked at or is too long; `copy_file` is false on `PermissionError` and `OSError`.
pub record Host (W : Type 0) : Type 0 where
  pub run_shell : Text → ℕ → W → Outcome × W
  pub make_dir : Text → W → Result (Unit {0}) × W
  pub timestamp : W → Text
  pub is_file : Text → W → Result Bool
  pub copy_file : Text → Text → W → Bool × W

-- The async function that asks the user about a command, its tier and its explanation.
abbrev pub Callback : Type 0 → Type 0
Callback W = Text → Text → Text → W → Result Bool × W

pub record ExecutionResult : Type 0 where
  pub stdout : Text
  pub stderr : Text
  pub return_code : ℤ
  pub tier : RiskTier
  pub command : Text
  pub duration_ms : ℕ
  pub backup_path : Option Text
  pub approved : Bool

-- The engine's own state, with the world it acts on.
pub record Machine (W : Type 0) : Type 0 where
  pub auto_approve_green : Bool
  pub backup_dir : Text
  pub execution_log : List ExecutionResult
  pub world : W

unfoldable pub tier_value : RiskTier → Text
tier_value green = codes "green"
tier_value yellow = codes "yellow"
tier_value red = codes "red"

-- The result of a command that did not run.
abbrev pub refused : Text → RiskTier → Text → ExecutionResult
refused command tier stderr = record {
  stdout = [];
  stderr = stderr;
  return_code = minus_one;
  tier = tier;
  command = command;
  duration_ms = 0;
  backup_path = none;
  approved = false;
}

abbrev ran : ClassifiedAction → Text → Text → ℤ → ℕ → ExecutionResult
ran action out err code ms = record {
  stdout = out;
  stderr = err;
  return_code = code;
  tier = action.tier;
  command = action.command;
  duration_ms = ms;
  backup_path = none;
  approved = true;
}

-- `proc.returncode or 0`
abbrev code_or_zero : Option ℤ → ℤ
code_or_zero none = pos 0
code_or_zero (some c) = c

pub result_of : ClassifiedAction → ℕ → Outcome → ExecutionResult
result_of action timeout (finished out err code ms) = ran action out err (code_or_zero code) ms
result_of action timeout (timed_out ms) =
    ran action [] (codes "Command timed out after " ++ decimal timeout ++ codes "s") minus_one ms
result_of action timeout (failed message ms) = ran action [] message minus_one ms

-- `Path(part)` as `str` prints it: no empty or `.` components, and two leading slashes kept
pub path_parts : Text → List Text
unfolding split_on
path_parts path = keep (λ p. nonempty p && not (text_eq p (codes "."))) (split_on b'/' path)

root_of : Text → Text
root_of (c ∷ d ∷ e ∷ _) =
    if c == b'/' then if d == b'/' && not (e == b'/') then codes "//" else codes "/" else []
root_of (c ∷ d ∷ []) = if c == b'/' then if d == b'/' then codes "//" else codes "/" else []
root_of (c ∷ []) = if c == b'/' then codes "/" else []
root_of [] = []

pub path_text : Text → Text
unfolding path_parts root_of join
path_text path =
    let text = root_of path ++ join (codes "/") (path_parts path) in
    if is_empty text then codes "." else text

last_or : List Text → Text → Text
last_or [] default = default
last_or (p ∷ []) default = p
last_or (p ∷ q ∷ ps) default = last_or (q ∷ ps) default

-- `Path(part).name`
pub path_name : Text → Text
unfolding path_parts last_or
path_name path = last_or (path_parts path) []

abbrev pub with_last : List ExecutionResult → ExecutionResult → List ExecutionResult
with_last [] r = []
with_last (x ∷ []) r = r ∷ []
with_last (x ∷ y ∷ xs) r = x ∷ with_last (y ∷ xs) r

abbrev pub is_green : RiskTier → Bool
is_green green = true
is_green _ = false

module _ {W : Type 0} (host : Host W) where
  -- `_run`: every exception becomes a result, and every result is logged
  pub run : ClassifiedAction → ℕ → Machine W → ExecutionResult × Machine W
  run action timeout m =
      let (outcome, w) = host.run_shell action.command timeout m.world in
      let result = result_of action timeout outcome in
      (result, record m { world = w; execution_log = m.execution_log ++ result ∷ [] })

  -- the loop of `_create_backup`: the first part that is a file and can be copied; the test whether
  -- a part is a file is not guarded
  pub backup_first : Text → Text → List Text → W → Result (Option Text) × W
  backup_first dir stamp [] w = (ok none, w)
  backup_first dir stamp (part ∷ parts) w =
      let path = path_text part in
      let target = dir ++ codes "/" ++ path_name part ++ codes "." ++ stamp ++ codes ".bak" in
      let (copied, w') = host.copy_file path target w in
      let done : Result (Option Text) × W = (ok (some target), w') in
      let next = backup_first dir stamp parts w' in
      let skip = backup_first dir stamp parts w in
      elim (host.is_file path w) [
        | raised e ↦ (raised e, w)
        | ok found ↦ if found then (if copied then done else next) else skip
      ]

  pub after_mkdir : ClassifiedAction → Text → Result (Unit {0}) → W → Result (Option Text) × W
  after_mkdir action dir (raised e) w = (raised e, w)
  after_mkdir action dir (ok _) w = backup_first dir (host.timestamp w) (words action.command) w

  pub create_backup : ClassifiedAction → Machine W → Result (Option Text) × Machine W
  create_backup action m =
      let (made, w) = host.make_dir m.backup_dir m.world in
      let (path, w') = after_mkdir action m.backup_dir made w in (path, record m { world = w' })

  -- the last lines of `execute`; the logged result is the object whose `backup_path` is set
  pub run_with_backup :
      ClassifiedAction → ℕ → Result (Option Text) → Machine W → Result ExecutionResult × Machine W
  run_with_backup action timeout (raised e) m = (raised e, m)
  run_with_backup action timeout (ok path) m =
      let (result, m') = run action timeout m in
      let final = record result { backup_path = path } in
      (ok final, record m' { execution_log = with_last m'.execution_log final })

  pub run_approved : ClassifiedAction → ℕ → Machine W → Result ExecutionResult × Machine W
  run_approved action timeout m =
      let (path, m') = create_backup action m in
      if action.backup_needed
      then run_with_backup action timeout path m'
      else run_with_backup action timeout (ok none) m

  -- what `execute` does with the callback's answer
  pub answered :
      Text → ClassifiedAction → ℕ → Result Bool → Machine W → Result ExecutionResult × Machine W
  answered command action timeout (raised e) m = (raised e, m)
  answered command action timeout (ok true) m = run_approved action timeout m
  answered command action timeout (ok false) m =
      (ok (refused command action.tier (codes "Command denied by user")), m)

  pub ask_and_run :
      Option (Callback W)
      → Text
      → ClassifiedAction
      → ℕ
      → Machine W
      → Result ExecutionResult × Machine W
  ask_and_run none command action timeout m = (
    ok (refused command action.tier (codes "No approval callback provided for non-GREEN command")),
    m,
  )
  ask_and_run (some ask) command action timeout m =
      let (answer, w) = ask action.command (tier_value action.tier) action.explanation m.world in
      answered command action timeout answer (record m { world = w })

  pub execute_action :
      Text
      → ClassifiedAction
      → Option (Callback W)
      → ℕ
      → Machine W
      → Result ExecutionResult × Machine W
  execute_action command action callback timeout m =
      let (result, m') = run action timeout m in
      if is_green action.tier && m.auto_approve_green
      then (ok result, m')
      else ask_and_run callback command action timeout m

  pub execute : Text → Option (Callback W) → ℕ → Machine W → Result ExecutionResult × Machine W
  execute command callback timeout m = execute_action command (classify command) callback timeout m

-- All that `execute` computes with, under one name for the lines of the tests.
unfoldable pub opens_execute : Unit {0}
unfolding execute execute_action ask_and_run answered run_approved run_with_backup create_backup
    after_mkdir backup_first run result_of tier_value path_text path_name decimal words
    opens_classify
opens_execute = tt

-- `get_recent_executions(n)`, that is `execution_log[-n:]`; `-0` is 0
unfoldable pub get_recent_executions : {W : Type 0} → Machine W → ℕ → List ExecutionResult
get_recent_executions m n =
    let log = m.execution_log in if n == 0 then log else drop (length log - n) log
