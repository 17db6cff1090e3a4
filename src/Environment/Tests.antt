-- ===== src/Environment/Tests.antt =====
-- A detection and its configuration, run.
use silicon_valet.Prelude.{
  ◌≡◌, ◌≢◌, refl, true, not, ◌&&◌, Option, none, some, [], ◌∷◌, Text, codes, text_eq, join,
  is_space, strip, if◌then◌else◌,
}
use silicon_valet.Environment.{
  Surroundings, detect, check_kubectl, check_docker, check_systemd, endpoints_to_probe, localhost,
}
use silicon_valet.Config.{
  ValetConfig, is_kubernetes, is_docker, is_standalone, resolve_from_environment, ensure_auth_token,
}
use silicon_valet.Config.Resolved.{Usable, resolve_from_environment-detect, is_kubernetes-detect}
use silicon_valet.Config.Token.{ensure_auth_token_again, ensure_auth_token_blank}
use silicon_valet.Server.Auth.{check_auth, admits}

abbrev answer : Text → Option Text
answer command =
    if text_eq command (codes "which docker")
    then some (codes "/usr/bin/docker")
    else if text_eq command (codes "docker info")
    then some (codes "Containers: 2")
    else none

abbrev inside : Surroundings
inside = record {
  run_cmd = λ command. answer (join (codes " ") command);
  probe = λ endpoint.
      if text_eq endpoint (codes "http://gpu:11434") then some (codes "qwen3:8b" ∷ []) else none;
  getenv = λ name.
      if text_eq name (codes "SV_OLLAMA_WORKER01") then some (codes "http://gpu:11434/") else none;
  meminfo = none;
  hostname = codes "box";
  platform = codes "Linux";
}

abbrev fresh : ValetConfig
fresh = record {
  ollama_orchestrator = codes "auto";
  ollama_coder = codes "auto";
  auth_token = [];
  capabilities = none;
}

to_probe : endpoints_to_probe inside ≡ codes "http://gpu:11434" ∷ localhost ∷ []
unfolding endpoints_to_probe
to_probe = refl

docker_found :
    (resolve_from_environment (detect inside) fresh).ollama_coder ≡ codes "http://gpu:11434"
unfolding resolve_from_environment detect
docker_found = refl

resolve_from_environment-detect_example :
    let r = resolve_from_environment (detect inside) fresh in
    (r.ollama_orchestrator ≢ codes "auto")
    × (r.ollama_coder ≢ codes "auto")
    × (fresh.ollama_orchestrator ≢ codes "auto" → r.ollama_orchestrator ≡ fresh.ollama_orchestrator)
    × (fresh.ollama_coder ≢ codes "auto" → r.ollama_coder ≡ fresh.ollama_coder)
    × (fresh.ollama_orchestrator ≡ codes "auto" → Usable inside r.ollama_orchestrator)
resolve_from_environment-detect_example = resolve_from_environment-detect inside fresh refl

is_kubernetes-detect_example :
    let r = resolve_from_environment (detect inside) fresh in
    let docker_only = check_docker inside && not (check_systemd inside) in
    (is_kubernetes r ≡ check_kubectl inside)
    × (is_docker r ≡ (not (check_kubectl inside) && docker_only))
    × (is_standalone r ≡ (not (check_kubectl inside) && not docker_only))
is_kubernetes-detect_example = is_kubernetes-detect inside fresh

ensure_auth_token_again_example :
    let (first, file) = ensure_auth_token (codes "k1") (λ s. some s) fresh none in
    (ensure_auth_token (codes "k2") (λ s. some s) fresh file).0.auth_token ≡ first.auth_token
unfolding strip is_space
ensure_auth_token_again_example =
    ensure_auth_token_again (codes "k1") (codes "k2") (λ s. some s) (λ s. some s) fresh none refl
      refl refl

ensure_auth_token_blank_example :
    let token =
      (ensure_auth_token (codes "k1") (λ s. some s) fresh (some (codes "\n"))).0.auth_token in
    (check_auth token none ≡ true) × (admits token [] [] ≡ true)
unfolding strip is_space
ensure_auth_token_blank_example =
    ensure_auth_token_blank (codes "k1") (λ s. some s) fresh (codes "\n") none [] [] refl refl
