-- ===== src/Risk/Engine/Runs.antt =====
-- `RiskEngine.execute` with permission: what runs, in which world, and what is logged and returned.
use silicon_valet.Prelude.{
  ℕ, ◌≡◌, refl, sym, subst, ap, Bool, true, Option, none, some, List, [], ◌∷◌, ◌++◌, Text, codes,
  words, if_cases, if◌then◌else◌,
}
use silicon_valet.Prelude.Int.{pos, minus_one, decimal}
use silicon_valet.Risk.Classifier.{ClassifiedAction, classify}
use silicon_valet.Risk.Engine.{
  Result, ok, raised, Host, Callback, ExecutionResult, Machine, result_of, run, Outcome, finished,
  timed_out, failed, create_backup, run_with_backup, execute, after_mkdir, backup_first, path_text,
  path_name,
}
use silicon_valet.Risk.Engine.Permission.{
  Permitted, asked_world, prepared, auto, with_last-append, execute_action-prepared,
}

-- What the result of a run reports of how the shell ended.
abbrev Reports : ℕ → Outcome → ExecutionResult → Type 0
Reports timeout (finished out err none ms) r =
    (r.stdout ≡ out) × (r.stderr ≡ err) × (r.return_code ≡ pos 0) × (r.duration_ms ≡ ms)
Reports timeout (finished out err (some c) ms) r =
    (r.stdout ≡ out) × (r.stderr ≡ err) × (r.return_code ≡ c) × (r.duration_ms ≡ ms)
Reports timeout (timed_out ms) r =
    (r.stdout ≡ [])
    × (r.stderr ≡ codes "Command timed out after " ++ decimal timeout ++ codes "s")
    × (r.return_code ≡ minus_one)
    × (r.duration_ms ≡ ms)
Reports timeout (failed message ms) r =
    (r.stdout ≡ []) × (r.stderr ≡ message) × (r.return_code ≡ minus_one) × (r.duration_ms ≡ ms)

-- The command ran, after a preparation that found `path` as backup and left the world `before`: the
-- shell was given it once, in that world, and nothing came after. The result is returned and is the
-- one new entry of the log.
pub record Ran {W : Type 0} (host : Host W) (action : ClassifiedAction) (timeout : ℕ)
    (m : Machine W) (prepared : Result (Option Text) × W) (out : Result ExecutionResult × Machine W)
    : Type 0 where
  pub result : ExecutionResult
  pub returned : out.0 ≡ ok result
  pub backed_up : prepared.0 ≡ ok result.backup_path
  pub machine : out.1 ≡ record m {
    world = (host.run_shell action.command timeout prepared.1).1;
    execution_log = m.execution_log ++ result ∷ [];
  }
  pub reports : Reports timeout (host.run_shell action.command timeout prepared.1).0 result
  pub same_tier : result.tier ≡ action.tier
  pub same_command : result.command ≡ action.command
  pub marked : result.approved ≡ true

module _ {W : Type 0} (host : Host W) (action : ClassifiedAction) (timeout : ℕ) where
  result_of-facts :
      (o : Outcome)
      → let r = result_of action timeout o in
        Reports timeout o r
        × (r.tier ≡ action.tier)
        × (r.command ≡ action.command)
        × (r.approved ≡ true)
  unfolding result_of
  result_of-facts (finished out err none ms) = ((refl, refl, refl, refl), refl, refl, refl)
  result_of-facts (finished out err (some c) ms) = ((refl, refl, refl, refl), refl, refl, refl)
  result_of-facts (timed_out ms) = ((refl, refl, refl, refl), refl, refl, refl)
  result_of-facts (failed message ms) = ((refl, refl, refl, refl), refl, refl, refl)

  -- the facts do not speak of the backup
  backed_up-facts :
      (o : Outcome) (path : Option Text)
      → Reports timeout o (record (result_of action timeout o) { backup_path = path })
  unfolding result_of
  backed_up-facts (finished out err none ms) path = (refl, refl, refl, refl)
  backed_up-facts (finished out err (some c) ms) path = (refl, refl, refl, refl)
  backed_up-facts (timed_out ms) path = (refl, refl, refl, refl)
  backed_up-facts (failed message ms) path = (refl, refl, refl, refl)

  run_with_backup-Ran :
      (path : Option Text) (m : Machine W) (w' : W)
      → Ran host action timeout m
          (ok path, w')
          (run_with_backup host action timeout (ok path) (record m { world = w' }))
  unfolding run_with_backup run
  run_with_backup-Ran path m w' =
      let (o, w) = host.run_shell action.command timeout w' in
      let r = result_of action timeout o in
      let (f, t, c, a) = result_of-facts o in
      let final = record r { backup_path = path } in
      record {
        result = final;
        returned = refl;
        backed_up = refl;
        machine =
            ap (λ log. record m { world = w; execution_log = log })
              (with_last-append m.execution_log r final);
        reports = backed_up-facts o path;
        same_tier = t;
        same_command = c;
        marked = a;
      }

  run_with_backup-Ran_of_ok :
      (found : Result (Option Text)) (m : Machine W) (w' : W)
      → (path : Option Text) × (found ≡ ok path)
      → Ran host action timeout m
          (found, w')
          (run_with_backup host action timeout found (record m { world = w' }))
  run_with_backup-Ran_of_ok found m w' (path, e) = rw e (run_with_backup-Ran path m w')

-- The backup directory can be made, and every file can be tested.
abbrev pub Accessible : {W : Type 0} → Host W → Type 0
Accessible {W} host =
    ((d : Text) (w : W) → (host.make_dir d w).0 ≡ ok tt)
    × ((path : Text) (w : W) → (b : Bool) × (host.is_file path w ≡ ok b))

module _ {W : Type 0} (host : Host W) (accessible : Accessible host)
    (action : ClassifiedAction) where
  backup_first-ok :
      (dir stamp : Text) (parts : List Text) (w : W)
      → (path : Option Text) × ((backup_first host dir stamp parts w).0 ≡ ok path)
  unfolding backup_first
  backup_first-ok dir stamp [] w = (none, refl)
  backup_first-ok dir stamp (part ∷ parts) w =
      let path = path_text part in
      let target = dir ++ codes "/" ++ path_name part ++ codes "." ++ stamp ++ codes ".bak" in
      let (copied, w') = host.copy_file path target w in
      let done : Result (Option Text) × W = (ok (some target), w') in
      let next = backup_first host dir stamp parts w' in
      let skip = backup_first host dir stamp parts w in
      let P : Result (Option Text) × W → Type 0 = λ r. (p : Option Text) × (r.0 ≡ ok p) in
      let (found, e) = accessible.1 path w in
      rw (backup_first, e)
        (if_cases P found (if copied then done else next) skip
          (λ _.
            if_cases P copied done next (λ _. (some target, refl))
              (λ _. backup_first-ok dir stamp parts w'))
          (λ _. backup_first-ok dir stamp parts w))

  after_mkdir-ok :
      (dir : Text) (made : Result (Unit {0})) (w : W)
      → made ≡ ok tt
      → (path : Option Text) × ((after_mkdir host action dir made w).0 ≡ ok path)
  unfolding after_mkdir
  after_mkdir-ok dir (raised e) w h = cc
  after_mkdir-ok dir (ok _) w h = backup_first-ok dir (host.timestamp w) (words action.command) w

  create_backup-ok :
      (m : Machine W) → (path : Option Text) × ((create_backup host action m).0 ≡ ok path)
  unfolding create_backup
  create_backup-ok m =
      let (made, w) = host.make_dir m.backup_dir m.world in
      after_mkdir-ok m.backup_dir made w (accessible.0 m.backup_dir m.world)

  prepared-ok :
      (callback : Option (Callback W)) (m : Machine W)
      → (path : Option Text) × ((prepared host callback action m).0 ≡ ok path)
  prepared-ok callback m =
      let asked = record m { world = asked_world callback action m } in
      let (path, m') = create_backup host action asked in
      let P : Result (Option Text) × W → Type 0 = λ r. (p : Option Text) × (r.0 ≡ ok p) in
      if_cases P (auto action m) (ok none, m.world)
        (if action.backup_needed then (path, m'.world) else (ok none, asked.world))
        (λ _. (none, refl))
        (λ _.
          if_cases P action.backup_needed (path, m'.world) (ok none, asked.world)
            (λ _. create_backup-ok asked) (λ _. (none, refl)))

module _ {W : Type 0} (host : Host W) (callback : Option (Callback W)) (timeout : ℕ) where
  -- Where the backup directory can always be made and every file be tested: a command whose tier is
  -- GREEN under automatic approval, or to which the user said yes, is given to the shell, once and
  -- as the last step, in the world as it is or, if the user was asked, as it is after the question
  -- and the backup that it needs. The result reports how the shell ended (output, timeout or
  -- exception), carries the backup and the tier and the command of the classification, is marked
  -- approved, and is the one new entry of the log.
  pub execute-Ran :
      Accessible host
      → (command : Text) (m : Machine W) → Permitted callback (classify command) m
      → Ran host
          (classify command)
          timeout
          m
          (prepared host callback (classify command) m)
          (execute host command callback timeout m)
  unfolding execute
  execute-Ran accessible command m p =
      let action = classify command in
      let (path, w) = prepared host callback action m in
      subst (Ran host action timeout m (path, w))
        (sym (execute_action-prepared host action timeout command callback m p))
        (run_with_backup-Ran_of_ok host action timeout path m w
          (prepared-ok host accessible action callback m))
