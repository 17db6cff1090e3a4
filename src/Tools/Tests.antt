-- ===== src/Tools/Tests.antt =====
-- Runs of tools/filesystem.py, and the theorems at concrete inputs.
use silicon_valet.Prelude.{◌≡◌, ◌≢◌, refl, codes}
use silicon_valet.Risk.Classifier.{green, classify}
use silicon_valet.Tools.Filesystem.{read_command, write_command, quote}
use silicon_valet.Prelude.{none, some}
use silicon_valet.Prelude.Int.{decimal}
use silicon_valet.Tools.Kubernetes.{get_command, logs_command}
use silicon_valet.Tools.Kubernetes.Asked.{delete, command_of, command_of_asked}
use silicon_valet.Tools.Filesystem.Safety.{classify-read_command, classify-write_command}

quote_space : quote (codes "a b's") ≡ codes "'a b'\"'\"'s'"
unfolding quote
quote_space = refl

write_quotes : write_command (codes "it's") (codes "/tmp/x") ≡ codes "echo 'it'\\''s' | tee /tmp/x"
unfolding write_command quote
write_quotes = refl

-- A path with a `;` in it.
classify-read_command_example :
    (classify (read_command (codes "1") (codes "x; rm -rf /"))).tier ≡ green
classify-read_command_example =
    classify-read_command (codes "1") (codes "x; rm -rf /") (refl, refl) (refl, refl)

classify-write_command_example :
    (classify (write_command (codes "a|b") (codes "/tmp/x"))).tier ≢ green
classify-write_command_example = classify-write_command (codes "a|b") (codes "/tmp/x")

get_all_namespaces : get_command (codes "pods") none none ≡ codes "kubectl get pods -A"
unfolding get_command
get_all_namespaces = refl

logs_of_pod :
    logs_command (codes "web-1") (some (codes "prod")) 100 none
    ≡ codes "kubectl logs web-1 --tail=100 -n prod"
unfolding logs_command decimal
logs_of_pod = refl

command_of_asked_example :
    (classify (command_of (delete (codes "ns") (codes "x | ls") none))).tier ≢ green
command_of_asked_example = command_of_asked (delete (codes "ns") (codes "x | ls") none)
