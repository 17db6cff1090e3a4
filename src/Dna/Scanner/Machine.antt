-- ===== src/Dna/Scanner/Machine.antt =====
-- dna/scanner.py: the machine that a scan looks at. Every command's answer, the two files that are
-- read directly and the host's name are taken to stay as they are while a scan runs, so that the
-- order in which its tasks ask does not matter.
use silicon_valet.Prelude.{Bool, Option, none, some, List, [], Text}

pub record ScanTarget : Type 0 where
  -- `_run_cmd`: the stripped output, or none for a failure
  pub run_cmd : List Text → Option Text
  pub hostname : Text
  -- /proc/meminfo and /etc/os-release, or none if absent or not readable
  pub meminfo : Option Text
  pub os_release : Option Text
  -- the detected capabilities
  pub has_kubectl : Bool
  pub has_docker : Bool
  -- the time of the entities' `last_seen`
  pub now : Text

-- what is left of an answer by `if not output`, where none and an empty text are the same
unfoldable pub text_of : Option Text → Text
text_of none = []
text_of (some output) = output
