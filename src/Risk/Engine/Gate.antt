-- ===== src/Risk/Engine/Gate.antt =====
-- `RiskEngine.execute` without permission: nothing runs.
use silicon_valet.Prelude.{
  ℕ, ◌≡◌, refl, inl, inr, Bool, true, false, Option, none, some, [], Text, codes, if_cases,
}
use silicon_valet.Prelude.Int.{minus_one}
use silicon_valet.Risk.Classifier.{RiskTier, ClassifiedAction, classify}
use silicon_valet.Risk.Engine.{
  Result, ok, raised, Host, Callback, ExecutionResult, Machine, tier_value, answered, ask_and_run,
  execute_action, execute,
}
use silicon_valet.Risk.Engine.Permission.{SaidYes, Permitted, asked_world, auto, auto-green}

-- The result of a command that was not run, for a reason.
abbrev refusal_of : Text → RiskTier → Text → ExecutionResult
refusal_of command tier reason = record {
  stdout = [];
  stderr = reason;
  return_code = minus_one;
  tier = tier;
  command = command;
  duration_ms = 0;
  backup_path = none;
  approved = false;
}

-- What is returned by the answer: after an exception the same one, and else a refusal.
abbrev for_answer : Text → RiskTier → Result Bool → Result ExecutionResult
for_answer command tier (raised e) = raised e
for_answer command tier (ok _) = ok (refusal_of command tier (codes "Command denied by user"))

-- What is returned when a command does not run.
abbrev refusal :
    {W : Type 0}
    → Option (Callback W)
    → Text
    → ClassifiedAction
    → Machine W
    → Result ExecutionResult
refusal none command action m =
    ok
      (refusal_of command action.tier (codes "No approval callback provided for non-GREEN command"))
refusal (some ask) command action m =
    for_answer command action.tier
      (ask action.command (tier_value action.tier) action.explanation m.world).0

-- The command did not run: nothing but the question was put to the world, nothing is logged, and
-- the refusal for this callback and its answer is returned.
pub record NotRun {W : Type 0} (callback : Option (Callback W)) (command : Text)
    (action : ClassifiedAction) (m : Machine W) (out : Result ExecutionResult × Machine W)
    : Type 0 where
  pub untouched : out.1 ≡ record m { world = asked_world callback action m }
  pub returned : out.0 ≡ refusal callback command action m

module _ {W : Type 0} (host : Host W) (action : ClassifiedAction) (timeout : ℕ) where
  answered-NotRun :
      (command : Text) (answer : Result Bool) (m : Machine W)
      → ¬ (answer ≡ ok true)
      → ((answered host command action timeout answer m).1 ≡ m)
        × ((answered host command action timeout answer m).0
            ≡ for_answer command action.tier answer)
  unfolding answered
  answered-NotRun command (raised e) m n = (refl, refl)
  answered-NotRun command (ok true) m n = absurd (n refl)
  answered-NotRun command (ok false) m n = (refl, refl)

  ask_and_run-NotRun :
      (command : Text) (callback : Option (Callback W)) (m : Machine W)
      → ¬ SaidYes callback action m
      → NotRun callback command action m (ask_and_run host callback command action timeout m)
  unfolding ask_and_run
  ask_and_run-NotRun command none m n = record { untouched = refl; returned = refl }
  ask_and_run-NotRun command (some ask) m n =
      let (answer, w) = ask action.command (tier_value action.tier) action.explanation m.world in
      let (same, refused) = answered-NotRun command answer (record m { world = w }) n in
      record { untouched = same; returned = refused }

module _ {W : Type 0} (host : Host W) (callback : Option (Callback W)) (timeout : ℕ) where
  execute_action-NotRun :
      (command : Text) (action : ClassifiedAction) (m : Machine W)
      → ¬ Permitted callback action m
      → NotRun callback command action m (execute_action host command action callback timeout m)
  unfolding execute_action
  execute_action-NotRun command action m n =
      if_cases (NotRun callback command action m) (auto action m) _ _
        (λ e. absurd (n (inl ((auto-green action m).0 e))))
        (λ _. ask_and_run-NotRun host action timeout command callback m (λ y. n (inr y)))

  -- Without that permission nothing runs: the log is as it was and the world has seen the question
  -- and nothing else. If the callback raised, its exception is raised; else the result is a refusal
  -- with the text for a missing callback or for a denial, return code -1, the command as given and
  -- its tier, no output, no backup and the mark that it was not approved.
  pub execute-NotRun :
      (command : Text) (m : Machine W)
      → ¬ Permitted callback (classify command) m
      → NotRun callback command (classify command) m (execute host command callback timeout m)
  unfolding execute
  execute-NotRun command m n = execute_action-NotRun command (classify command) m n
