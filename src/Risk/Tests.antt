-- ===== src/Risk/Tests.antt =====
-- Runs of risk/classifier.py and risk/engine.py, and the theorems at concrete inputs.
use silicon_valet.Prelude.{
  ◌≡◌, refl, ◌↔◌, inl, inr, Bool, true, false, none, some, List, [], ◌∷◌, ◌++◌, Text, codes,
  text_eq, words, strip, is_space, All,
}
use silicon_valet.Prelude.Int.{pos}
use silicon_valet.Risk.Classifier.{
  green, yellow, red, match_tier, pipe_parts, classify, opens_classify,
}
use silicon_valet.Risk.Classifier.Chains.{worse, tier-classify-pipe}
use silicon_valet.Risk.Classifier.Meaning.{ReadOnly, classify-green_iff}
use silicon_valet.Risk.Classifier.Deletion.{rm, classify-deleter_piped}
use silicon_valet.Risk.Engine.{
  ok, raised, finished, Host, Callback, Machine, create_backup, execute, opens_execute,
}
use silicon_valet.Risk.Engine.Permission.{Permitted, prepared}
use silicon_valet.Risk.Engine.Gate.{NotRun, execute-NotRun}
use silicon_valet.Risk.Engine.Backup.{FirstOf, no_more, no_file, create_backup-first}
use silicon_valet.Risk.Engine.Runs.{Ran, execute-Ran}

classify_ls : (classify (codes "  ls -la ")).tier ≡ green
unfolding opens_classify
classify_ls = refl

classify_pipe : (classify (codes "ls | rm -rf /")).tier ≡ red
unfolding opens_classify
classify_pipe = refl

classify_grep : (classify (codes "ps aux | grep nginx")).tier ≡ green
unfolding opens_classify
classify_grep = refl

classify_unknown : (classify (codes "some-custom-script --flag")).tier ≡ yellow
unfolding opens_classify
classify_unknown = refl

classify_sequence : (classify (codes "ls; rm -rf /")).tier ≡ green
unfolding opens_classify
classify_sequence = refl

classify_post : (classify (codes "curl -X POST http://a/b")).tier ≡ green
unfolding opens_classify
classify_post = refl

-- The pattern for `| dd` is RED, and the part `dd` alone is not.
classify_dd :
    (match_tier (codes "cat disk | dd") ≡ red) × ((classify (codes "cat disk | dd")).tier ≡ yellow)
unfolding opens_classify
classify_dd = (refl, refl)

classify_stop :
    (classify (codes "systemctl stop nginx")).rollback_command
    ≡ some (codes "systemctl start nginx")
unfolding opens_classify
classify_stop = refl

explain_stop :
    (classify (codes "systemctl stop nginx")).explanation ≡ codes "Stop the nginx service"
unfolding opens_classify
explain_stop = refl

-- A world that keeps the commands that the shell was given.
abbrev recorder : Host (List Text)
recorder = record {
  run_shell = λ command timeout w. (finished (codes "out") [] (some (pos 0)) 5, w ++ command ∷ []);
  make_dir = λ dir w. (ok tt, w);
  timestamp = λ w. codes "20260101_000000";
  is_file = λ path w. ok true;
  copy_file = λ from to w. (true, w);
}

abbrev says : Bool → Callback (List Text)
says b command tier explanation w = (ok b, w)

abbrev fresh : Machine (List Text)
fresh = record {
  auto_approve_green = true;
  backup_dir = codes "/b";
  execution_log = [];
  world = [];
}

green_runs : (execute recorder (codes "ls -l") none 30 fresh).1.world ≡ codes "ls -l" ∷ []
unfolding opens_execute
green_runs = refl

approved_runs :
    (execute recorder (codes "cp /etc/a b") (some (says true)) 30 fresh).1.world
    ≡ codes "cp /etc/a b" ∷ []
unfolding opens_execute
approved_runs = refl

execute-Ran_example :
    Ran recorder
      (classify (codes "cp a b"))
      30
      fresh
      (prepared recorder (some (says true)) (classify (codes "cp a b")) fresh)
      (execute recorder (codes "cp a b") (some (says true)) 30 fresh)
execute-Ran_example =
    execute-Ran recorder (some (says true)) 30 (λ d w. refl, λ path w. (true, refl))
      (codes "cp a b") fresh (inr refl)

-- A file whose directory may not be read.
abbrev forbidden : Host (List Text)
forbidden = record recorder { is_file = λ path w. raised (codes "Permission denied") }

cp_needs_permission : ¬ Permitted (some (says false)) (classify (codes "cp a b")) fresh
unfolding opens_classify
cp_needs_permission (inl (h, _)) = cc
cp_needs_permission (inr h) = cc

execute-NotRun_example :
    NotRun
      (some (says false))
      (codes "cp a b")
      (classify (codes "cp a b"))
      fresh
      (execute recorder (codes "cp a b") (some (says false)) 30 fresh)
execute-NotRun_example =
    execute-NotRun recorder (some (says false)) 30 (codes "cp a b") fresh cp_needs_permission

classify-green_iff_example :
    ((classify (codes "ls | wc -l")).tier ≡ green) ↔ All ReadOnly (pipe_parts (codes "ls | wc -l"))
classify-green_iff_example = classify-green_iff (codes "ls | wc -l")

tier-classify-pipe_example :
    (classify (codes "ls |cp a b")).tier
    ≡ worse (classify (codes "ls ")).tier (classify (codes "cp a b")).tier
tier-classify-pipe_example = tier-classify-pipe (codes "ls ") (codes "cp a b")

classify-deleter_piped_example : (classify (codes "ls |  rm -rf /")).tier ≡ red
unfolding strip is_space
classify-deleter_piped_example =
    classify-deleter_piped (codes "ls ") (codes "  rm -rf /") rm (codes "-rf /") refl

-- Of the words of the command, the last is a file.
abbrev one_file : Host (List Text)
one_file = record recorder { is_file = λ path w. ok (text_eq path (codes "b")) }

cp_words : words (codes "cp a b") ≡ (codes "cp" ∷ codes "a" ∷ []) ++ codes "b" ∷ []
unfolding opens_execute
cp_words = refl

create_backup-first_example :
    let (path, m') = create_backup one_file (classify (codes "cp a b")) fresh in
    (m' ≡ record fresh { world = m'.world })
    × FirstOf one_file (codes "/b") (codes "20260101_000000") (codes "b" ∷ []) [] (path, m'.world)
unfolding opens_execute
create_backup-first_example =
    create_backup-first one_file (classify (codes "cp a b")) fresh (codes "cp" ∷ codes "a" ∷ [])
      (codes "b" ∷ []) [] refl cp_words (no_file refl (no_file refl no_more))
