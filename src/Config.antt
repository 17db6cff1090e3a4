-- ===== src/Config.antt =====
-- config.py: the settings, how "auto" is resolved, and the access token.
pub mod Resolved
pub mod Token
use silicon_valet.Prelude.{
  Bool, true, false, Option, none, some, List, [], ◌∷◌, Text, codes, text_eq, if◌then◌else◌, strip,
  nonempty, is_empty,
}
use silicon_valet.Environment.{
  EnvironmentType, kubernetes, docker, bare_metal, unknown, EnvironmentCapabilities, localhost,
}

-- The settings that change after the start.
pub record ValetConfig : Type 0 where
  pub ollama_orchestrator : Text
  pub ollama_coder : Text
  pub auth_token : Text
  pub capabilities : Option EnvironmentCapabilities

abbrev is_type : (EnvironmentType → Bool) → Option EnvironmentCapabilities → Bool
is_type p none = false
is_type p (some caps) = p caps.env_type

abbrev pub kubernetes_type : EnvironmentType → Bool
kubernetes_type kubernetes = true
kubernetes_type _ = false

abbrev pub docker_type : EnvironmentType → Bool
docker_type docker = true
docker_type _ = false

abbrev pub bare_metal_type : EnvironmentType → Bool
bare_metal_type bare_metal = true
bare_metal_type _ = false

unfoldable pub is_kubernetes : ValetConfig → Bool
is_kubernetes c = is_type kubernetes_type c.capabilities

unfoldable pub is_docker : ValetConfig → Bool
is_docker c = is_type docker_type c.capabilities

unfoldable pub is_standalone : ValetConfig → Bool
is_standalone c = is_type bare_metal_type c.capabilities

unfoldable pub first_endpoint : List Text → Text
first_endpoint [] = localhost
first_endpoint (e ∷ es) = e

unfoldable pub second_endpoint : List Text → Text → Text
second_endpoint (e ∷ f ∷ es) orchestrator = f
second_endpoint _ orchestrator = orchestrator

unfoldable pub resolve_orchestrator : EnvironmentCapabilities → Text → Text
unfolding first_endpoint
resolve_orchestrator caps endpoint =
    if text_eq endpoint (codes "auto") then first_endpoint caps.ollama_endpoints else endpoint

unfoldable pub resolve_coder : EnvironmentCapabilities → Text → Text → Text
unfolding second_endpoint
resolve_coder caps orchestrator endpoint =
    if text_eq endpoint (codes "auto")
    then second_endpoint caps.ollama_endpoints orchestrator
    else endpoint

unfoldable pub resolve_from_environment : EnvironmentCapabilities → ValetConfig → ValetConfig
unfolding resolve_orchestrator resolve_coder
resolve_from_environment caps c =
    let orchestrator = resolve_orchestrator caps c.ollama_orchestrator in
    record c {
      ollama_orchestrator = orchestrator;
      ollama_coder = resolve_coder caps orchestrator c.ollama_coder;
      capabilities = some caps;
    }

-- `ensure_auth_token`: the token file's content (none if there is no file), the token that
-- `secrets.token_urlsafe` would make, and what a write leaves in the file. The result is the
-- configuration, whose `auth_token` is what the source returns, and the file.
unfoldable pub ensure_auth_token :
    Text → (Text → Option Text) → ValetConfig → Option Text → ValetConfig × Option Text
unfolding strip
ensure_auth_token secret write c file = if nonempty c.auth_token then (c, file) else elim (file) [
  | some text ↦ (record c { auth_token = strip text }, some text)
  | none ↦ (record c { auth_token = secret }, write secret)
]
