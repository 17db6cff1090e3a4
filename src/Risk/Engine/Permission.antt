-- ===== src/Risk/Engine/Permission.antt =====
-- Who may run a command, and what a permitted one runs with.
use silicon_valet.Prelude.{
  ℕ, ◌≡◌, refl, ◌⊎◌, inl, inr, ap, Bool, true, false, ◌&&◌, Option, none, some, List, [], ◌∷◌, ◌++◌,
  Text, arith, if_both, if◌then◌else◌, ◌↔◌,
}
use silicon_valet.Risk.Classifier.{green, ClassifiedAction}
use silicon_valet.Risk.Engine.{
  Result, ok, raised, Host, Callback, ExecutionResult, Machine, tier_value, result_of, run, Outcome,
  finished, timed_out, failed, create_backup, run_with_backup, run_approved, answered, ask_and_run,
  is_green, execute_action, after_mkdir, with_last,
}

-- The user said yes to this action.
abbrev pub SaidYes : {W : Type 0} → Option (Callback W) → ClassifiedAction → Machine W → Type 0
SaidYes none action m = ⊥
SaidYes (some ask) action m =
    (ask action.command (tier_value action.tier) action.explanation m.world).0 ≡ ok true

-- GREEN with automatic approval, or approved by the callback.
abbrev pub Permitted : {W : Type 0} → Option (Callback W) → ClassifiedAction → Machine W → Type 0
Permitted callback action m =
    ((action.tier ≡ green) × (m.auto_approve_green ≡ true)) ⊎ SaidYes callback action m

-- The world after the question, if there is someone to ask.
abbrev pub asked_world : {W : Type 0} → Option (Callback W) → ClassifiedAction → Machine W → W
asked_world none action m = m.world
asked_world (some ask) action m =
    (ask action.command (tier_value action.tier) action.explanation m.world).1

-- The backup and the world that a permitted command runs with: none and the present one where it
-- runs at once, else those after the question and the backup that it needs.
abbrev pub prepared :
    {W : Type 0}
    → Host W
    → Option (Callback W)
    → ClassifiedAction
    → Machine W
    → Result (Option Text) × W
prepared host callback action m =
    let asked = record m { world = asked_world callback action m } in
    let (path, m') = create_backup host action asked in
    if is_green action.tier && m.auto_approve_green
    then (ok none, m.world)
    else if action.backup_needed
    then (path, m'.world)
    else (ok none, asked.world)

abbrev pub auto : {W : Type 0} → ClassifiedAction → Machine W → Bool
auto action m = is_green action.tier && m.auto_approve_green

pub auto-green :
    {W : Type 0} (action : ClassifiedAction) (m : Machine W)
    → (auto action m ≡ true) ↔ ((action.tier ≡ green) × (m.auto_approve_green ≡ true))
auto-green action m = (λ h. (ground arith, ground arith), λ (t, a). rw (t, a))

pub with_last-append :
    (xs : List ExecutionResult) (a b : ExecutionResult) → with_last (xs ++ a ∷ []) b ≡ xs ++ b ∷ []
with_last-append [] a b = refl
with_last-append (x ∷ []) a b = refl
with_last-append (x ∷ y ∷ xs) a b = ap (◌∷◌ x) (with_last-append (y ∷ xs) a b)

module _ {W : Type 0} (host : Host W) (action : ClassifiedAction) (timeout : ℕ) where
  -- the run of a command on what was prepared
  abbrev pub run_prepared :
      Machine W → Result (Option Text) × W → Result ExecutionResult × Machine W
  run_prepared m (path, w) = run_with_backup host action timeout path (record m { world = w })

  logged_once :
      (o : Outcome) (m : Machine W) (w : W)
      → let r = result_of action timeout o in
        let log = m.execution_log ++ r ∷ [] in
        let final = record r { backup_path = none } in
        let once : Result ExecutionResult × Machine W =
          (ok r, record m { world = w; execution_log = log }) in
        once ≡ (ok final, record m { world = w; execution_log = with_last log final })
  unfolding result_of
  logged_once (finished out err code ms) m w = rw (with_last-append m.execution_log _ _) refl
  logged_once (timed_out ms) m w = rw (with_last-append m.execution_log _ _) refl
  logged_once (failed message ms) m w = rw (with_last-append m.execution_log _ _) refl

  run-prepared :
      (m : Machine W)
      → let (r, m') = run host action timeout m in (ok r, m') ≡ run_prepared m (ok none, m.world)
  unfolding run run_with_backup
  run-prepared m = let (o, w) = host.run_shell action.command timeout m.world in logged_once o m w

  -- the preparation of a command that was approved
  abbrev backup_if_needed : Machine W → Result (Option Text) × W
  backup_if_needed m =
      let (path, m') = create_backup host action m in
      if action.backup_needed then (path, m'.world) else (ok none, m.world)

  run_approved-prepared :
      (m : Machine W) (w : W)
      → run_approved host action timeout (record m { world = w })
        ≡ run_prepared m (backup_if_needed (record m { world = w }))
  unfolding run_approved create_backup
  run_approved-prepared m w =
      let asked = record m { world = w } in
      let (made, w1) = host.make_dir m.backup_dir w in
      let (path, w2) = after_mkdir host action m.backup_dir made w1 in
      if_both (λ x y. y ≡ run_prepared m x) action.backup_needed (path, w2) (ok none, w)
        (run_with_backup host action timeout path (record m { world = w2 }))
        (run_with_backup host action timeout (ok none) asked) (λ _. refl) (λ _. refl)

  answered-prepared :
      (command : Text) (answer : Result Bool) (m : Machine W) (w : W)
      → answer ≡ ok true
      → answered host command action timeout answer (record m { world = w })
        ≡ run_prepared m (backup_if_needed (record m { world = w }))
  unfolding answered
  answered-prepared command (raised e) m w h = cc
  answered-prepared command (ok true) m w h = run_approved-prepared m w
  answered-prepared command (ok false) m w h = cc

  ask_and_run-prepared :
      (command : Text) (callback : Option (Callback W)) (m : Machine W)
      → SaidYes callback action m
      → ask_and_run host callback command action timeout m
        ≡ run_prepared m (backup_if_needed (record m { world = asked_world callback action m }))
  unfolding ask_and_run
  ask_and_run-prepared command none m h = absurd h
  ask_and_run-prepared command (some ask) m h =
      let (answer, w) = ask action.command (tier_value action.tier) action.explanation m.world in
      answered-prepared command answer m w h

  pub execute_action-prepared :
      (command : Text) (callback : Option (Callback W)) (m : Machine W)
      → Permitted callback action m
      → execute_action host command action callback timeout m
        ≡ run_prepared m (prepared host callback action m)
  unfolding execute_action
  execute_action-prepared command callback m p =
      let later = backup_if_needed (record m { world = asked_world callback action m }) in
      let (result, m'') = run host action timeout m in
      if_both (λ x y. y ≡ run_prepared m x) (auto action m) (ok none, m.world) later
        (ok result, m'') (ask_and_run host callback command action timeout m) (λ _. run-prepared m)
        (λ e.
          let said : SaidYes callback action m = elim p [
            | inl g ↦ let e' = (auto-green action m).1 g in absurd (cc)
            | inr yes_said ↦ yes_said
          ] in
          ask_and_run-prepared command callback m said)
