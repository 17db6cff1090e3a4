-- ===== src/Tools/Filesystem.antt =====
-- tools/filesystem.py: tools that build a shell command and hand it to the risk engine. A tool's
-- parameters are taken as parsed; its reply is the dict that it prints as JSON.
pub mod Safety
use silicon_valet.Prelude.{
  ℕ, Bool, true, false, not, ◌||◌, Option, List, [], ◌∷◌, ◌++◌, Text, codes, nonempty, is_word,
  strip, split_on, replace, all, ◌==◌, if◌then◌else◌,
}
use silicon_valet.Prelude.Int.{ℤ, is_zero}
use silicon_valet.Risk.Engine.{
  Result, ok, raised, Host, Callback, ExecutionResult, Machine, execute,
}

-- `[^\w@%+=:,./-]` does not match: the characters that `shlex.quote` leaves alone
is_shell_safe : ℕ → Bool
unfolding is_word
is_shell_safe c =
    is_word c
    || c == b'@'
    || c == b'%'
    || c == b'+'
    || c == b'='
    || c == b':'
    || c == b','
    || c == b'.'
    || c == b'/'
    || c == b'-'

-- `shlex.quote`
unfoldable pub quote : Text → Text
unfolding is_shell_safe replace
quote s =
    if nonempty s
    then if all is_shell_safe s
      then s
      else codes "'" ++ replace b'\'' (codes "'\"'\"'") s ++ codes "'"
    else codes "''"

-- `head -n {lines} {path}`
unfoldable pub read_command : Text → Text → Text
read_command lines path = codes "head -n " ++ lines ++ codes " " ++ path

-- `echo '{escaped}' | tee {shlex.quote(path)}`
unfoldable pub write_command : Text → Text → Text
write_command content path =
    codes "echo '" ++ replace b'\'' (codes "'\\''") content ++ codes "' | tee " ++ quote path

-- `grep -r --include='*' -l '{pattern}' {directory} 2>/dev/null | head -20`
unfoldable pub search_command : Text → Text → Text
search_command pattern_text directory =
    codes "grep -r --include='*' -l '"
    ++ pattern_text
    ++ codes "' "
    ++ directory
    ++ codes " 2>/dev/null | head -20"

-- `diff {path1} {path2}`
unfoldable pub diff_command : Text → Text → Text
diff_command path1 path2 = codes "diff " ++ path1 ++ codes " " ++ path2

-- {"content": ..., "return_code": ...}, and {"diff": ..., "return_code": ...}
pub record OutputReply : Type 0 where
  pub output : Text
  pub return_code : ℤ

pub record WriteReply : Type 0 where
  pub success : Bool
  pub stderr : Text

abbrev pub map_result : {A B : Type 0} → (A → B) → Result A → Result B
map_result f (ok a) = ok (f a)
map_result f (raised e) = raised e

abbrev pub output_reply : ExecutionResult → OutputReply
output_reply r = record { output = r.stdout; return_code = r.return_code }

abbrev pub write_reply : ExecutionResult → WriteReply
write_reply r = record { success = is_zero r.return_code; stderr = r.stderr }

-- {"files": [...]}
pub search_reply : ExecutionResult → List Text
unfolding strip split_on
search_reply r = let out = strip r.stdout in if nonempty out then split_on 10 out else []

module _ {W : Type 0} (host : Host W) (callback : Option (Callback W)) where
  unfoldable pub exec_via_risk : Text → Machine W → Result ExecutionResult × Machine W
  exec_via_risk command m = execute host command callback 30 m

  unfoldable pub read_file : Text → Text → Machine W → Result OutputReply × Machine W
  unfolding exec_via_risk
  read_file path lines m =
      let (r, m') = exec_via_risk (read_command lines path) m in (map_result output_reply r, m')

  unfoldable pub write_file : Text → Text → Machine W → Result WriteReply × Machine W
  unfolding exec_via_risk
  write_file path content m =
      let (r, m') = exec_via_risk (write_command content path) m in (map_result write_reply r, m')

  unfoldable pub search_files : Text → Text → Machine W → Result (List Text) × Machine W
  unfolding exec_via_risk
  search_files pattern_text directory m =
      let (r, m') = exec_via_risk (search_command pattern_text directory) m in
      (map_result search_reply r, m')

  unfoldable pub file_diff : Text → Text → Machine W → Result OutputReply × Machine W
  unfolding exec_via_risk
  file_diff path1 path2 m =
      let (r, m') = exec_via_risk (diff_command path1 path2) m in (map_result output_reply r, m')
