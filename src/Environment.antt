-- ===== src/Environment.antt =====
-- environment.py: what kind of machine the program runs on, and which model servers it reaches.
mod Tests
use silicon_valet.Prelude.{
  ℕ, ◌*◌, Bool, true, false, not, ◌&&◌, Option, none, some, List, [], ◌∷◌, ◌++◌, Text, codes,
  text_eq, if◌then◌else◌, words, is_empty, any, splitlines, starts_with, int_of, rstrip_of, ltb,
  ◌==◌,
}
use Prim.Native.Nat.{◌/◌}

pub data EnvironmentType : Type 0 where
  kubernetes : EnvironmentType
  docker : EnvironmentType
  bare_metal : EnvironmentType
  unknown : EnvironmentType

pub record EnvironmentCapabilities : Type 0 where
  pub env_type : EnvironmentType
  pub has_kubectl : Bool
  pub has_docker : Bool
  pub has_systemd : Bool
  pub has_ollama_local : Bool
  pub ollama_endpoints : List Text
  pub hostname : Text
  pub os_info : Text
  pub available_ram_mb : Option ℕ
  pub cpu_cores : Option ℕ
  pub available_models : List (Text × List Text)

unfoldable pub environment_description : EnvironmentCapabilities → Text
environment_description caps = elim (caps.env_type) [
  | kubernetes ↦ codes "Kubernetes (k3s) cluster on " ++ caps.hostname
  | docker ↦
      codes "Docker environment on "
      ++ (caps.hostname ++ (codes " (" ++ (caps.os_info ++ codes ")")))
  | bare_metal ↦
      codes "Linux server (" ++ (caps.hostname ++ (codes ", " ++ (caps.os_info ++ codes ")")))
  | unknown ↦ codes "server (" ++ (caps.hostname ++ codes ")")
]

-- The machine and the network while the detection runs. Every probe's answer is taken to stay as it
-- is during the detection, so that the order of the concurrent probes does not matter.
pub record Surroundings : Type 0 where
  -- `_run_cmd`: the stripped output, or none for a failure
  pub run_cmd : List Text → Option Text
  -- `_probe_ollama`: the names of the models, or none where the endpoint cannot be reached
  pub probe : Text → Option (List Text)
  pub getenv : Text → Option Text
  pub meminfo : Option Text
  pub hostname : Text
  pub platform : Text

unfoldable pub is_some {ℓ} : {A : Type ℓ} → Option A → Bool
is_some none = false
is_some (some a) = true

-- `if not output`
unfoldable pub given : Option Text → Text
given none = []
given (some output) = output

-- `_check_kubectl` and `_check_docker`: the program is there, and it answers
unfoldable pub check_program : Surroundings → Text → Text → Bool
unfolding is_some given
check_program w name question =
    if is_empty (given (w.run_cmd (codes "which" ∷ name ∷ [])))
    then false
    else is_some (w.run_cmd (name ∷ question ∷ []))

unfoldable pub check_kubectl : Surroundings → Bool
unfolding check_program
check_kubectl w = check_program w (codes "kubectl") (codes "cluster-info")

unfoldable pub check_docker : Surroundings → Bool
unfolding check_program
check_docker w = check_program w (codes "docker") (codes "info")

unfoldable pub check_systemd : Surroundings → Bool
unfolding is_some
check_systemd w = is_some (w.run_cmd (codes "which" ∷ codes "systemctl" ∷ []))

abbrev second_word : List Text → Option Text
second_word (a ∷ b ∷ rest) = some b
second_word _ = none

-- the first line that begins with `MemTotal:`; an exception there is passed over
unfoldable pub meminfo_mb : List Text → Option ℕ
unfolding starts_with words int_of
meminfo_mb [] = none
meminfo_mb (line ∷ lines) =
    let later = meminfo_mb lines in
    if starts_with line (codes "MemTotal:")
    then elim (second_word (words line)) [
      | none ↦ none
      | some w ↦ elim (int_of w) [ none ↦ none | some kb ↦ some (kb / 1024) ]
    ]
    else later

-- the first line `Mem:` of `free -m` with two words. The outer none is a ValueError.
unfoldable pub free_mb : List Text → Option (Option ℕ)
unfolding starts_with words int_of
free_mb [] = some none
free_mb (line ∷ lines) =
    let later = free_mb lines in
    if starts_with line (codes "Mem:")
    then elim (second_word (words line)) [
      | none ↦ later
      | some w ↦ elim (int_of w) [ none ↦ none | some mb ↦ some (some mb) ]
    ]
    else later

abbrev bytes_mb : Option ℕ → Option ℕ
bytes_mb none = none
bytes_mb (some bytes) = some (bytes / (1024 * 1024))

unfoldable pub hw_memsize : Surroundings → Option ℕ
unfolding given int_of
hw_memsize w =
    bytes_mb (int_of (given (w.run_cmd (codes "sysctl" ∷ codes "-n" ∷ codes "hw.memsize" ∷ []))))

abbrev lines_of : Option Text → List Text
unfolding splitlines
lines_of none = []
lines_of (some text) = splitlines text

-- `_check_ram`, whose exceptions `detect` turns into None
unfoldable pub check_ram : Surroundings → Option ℕ
unfolding meminfo_mb free_mb hw_memsize splitlines
check_ram w = elim (meminfo_mb (lines_of w.meminfo)) [
  | some mb ↦ some mb
  | none ↦ elim (free_mb (lines_of (w.run_cmd (codes "free" ∷ codes "-m" ∷ [])))) [
    | none ↦ none
    | some (some mb) ↦ some mb
    | some none ↦ hw_memsize w
  ]
]

-- `_check_cpu`
unfoldable pub check_cpu : Surroundings → Option ℕ
unfolding given int_of
check_cpu w = elim (int_of (given (w.run_cmd (codes "nproc" ∷ [])))) [
  | some n ↦ some n
  | none ↦ int_of (given (w.run_cmd (codes "sysctl" ∷ codes "-n" ∷ codes "hw.ncpu" ∷ [])))
]

-- texts in the order of their code points
unfoldable pub text_lt : Text → Text → Bool
text_lt s [] = false
text_lt [] (d ∷ t) = true
text_lt (c ∷ s) (d ∷ t) = let rest = text_lt s t in if c == d then rest else ltb c d

-- one more element of a set that is kept sorted
unfoldable pub insert_sorted : Text → List Text → List Text
unfolding text_lt
insert_sorted e [] = e ∷ []
insert_sorted e (f ∷ fs) =
    let rest = insert_sorted e fs in
    if text_eq e f then f ∷ fs else if text_lt e f then e ∷ f ∷ fs else f ∷ rest

abbrev pub localhost : Text
localhost = codes "http://localhost:11434"

-- an endpoint that a variable of the environment names
unfoldable pub add_endpoint : Option Text → List Text → List Text
unfolding insert_sorted rstrip_of
add_endpoint none endpoints = endpoints
add_endpoint (some v) endpoints =
    if is_empty v
    then endpoints
    else if text_eq v (codes "auto")
    then endpoints
    else insert_sorted (rstrip_of (b'/' ∷ []) v) endpoints

-- the endpoints to probe, sorted
unfoldable pub endpoints_to_probe : Surroundings → List Text
unfolding add_endpoint
endpoints_to_probe w =
    add_endpoint (w.getenv (codes "SV_OLLAMA_WORKER02"))
      (add_endpoint (w.getenv (codes "SV_OLLAMA_WORKER01")) (localhost ∷ []))

-- `_probe_all_ollama_endpoints`, and the loop of `detect` over its result: the endpoints that answer
unfoldable pub reached : (Text → Option (List Text)) → List Text → List (Text × List Text)
reached probe [] = []
reached probe (e ∷ es) = elim (probe e) [
  | none ↦ reached probe es
  | some models ↦ (e, models) ∷ reached probe es
]

unfoldable pub names : List (Text × List Text) → List Text
names [] = []
names ((e, models) ∷ rest) = e ∷ names rest

unfoldable pub env_type_of : Bool → Bool → Bool → EnvironmentType
env_type_of has_kubectl has_docker has_systemd =
    if has_kubectl then kubernetes else if has_docker && not has_systemd then docker else bare_metal

unfoldable pub detect : Surroundings → EnvironmentCapabilities
unfolding check_kubectl check_docker check_systemd check_ram check_cpu endpoints_to_probe reached
    names env_type_of
detect w =
    let models = reached w.probe (endpoints_to_probe w) in
    record {
      env_type = env_type_of (check_kubectl w) (check_docker w) (check_systemd w);
      has_kubectl = check_kubectl w;
      has_docker = check_docker w;
      has_systemd = check_systemd w;
      has_ollama_local = any (λ e. text_eq e localhost) (names models);
      ollama_endpoints = names models;
      hostname = w.hostname;
      os_info = w.platform;
      available_ram_mb = check_ram w;
      cpu_cores = check_cpu w;
      available_models = models;
    }
