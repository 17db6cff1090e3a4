-- ===== src/Config/Resolved.antt =====
-- What the detection and the resolution of "auto" give together.
use silicon_valet.Prelude.{
  ◌≡◌, ◌≢◌, ◌⊎◌, refl, inl, inr, subst, sym, ◌∙◌, Bool, true, false, not, ◌&&◌, Option, none, some,
  List, [], ◌∷◌, Text, codes, text_eq, text_eq_cases, text_eq_refl, All, if_cases,
}
use silicon_valet.Environment.{
  Surroundings, localhost, reached, names, detect, endpoints_to_probe, env_type_of, check_kubectl,
  check_docker, check_systemd,
}
use silicon_valet.Config.{
  ValetConfig, is_kubernetes, is_docker, is_standalone, first_endpoint, second_endpoint,
  resolve_orchestrator, resolve_coder, resolve_from_environment,
}

abbrev auto : Text
auto = codes "auto"

-- An endpoint that answered the probe, or the default one.
abbrev pub Usable : Surroundings → Text → Type 0
Usable w e = (e ≡ localhost) ⊎ (w.probe e ≢ none)

module _ (w : Surroundings) where
  reached_cons :
      (e : Text) (es : List Text) (o : Option (List Text))
      → w.probe e ≡ o
      → All (Usable w) (names (reached w.probe es))
      → All (Usable w) (names (reached w.probe (e ∷ es)))
  unfolding reached names
  reached_cons e es none h u = rw (reached, h) u
  reached_cons e es (some ms) h u = rw (reached, h) (inr (λ k. cc), u)

  reached-Usable : (es : List Text) → All (Usable w) (names (reached w.probe es))
  unfolding reached names
  reached-Usable [] = tt
  reached-Usable (e ∷ es) = reached_cons e es (w.probe e) refl (reached-Usable es)

  first_endpoint-Usable : (es : List Text) → All (Usable w) es → Usable w (first_endpoint es)
  unfolding first_endpoint
  first_endpoint-Usable [] u = inl refl
  first_endpoint-Usable (e ∷ es) (u, us) = u

  second_endpoint_not :
      (es : List Text) (orchestrator : Text)
      → All (Usable w) es
      → ((e : Text) → Usable w e → e ≢ auto)
      → orchestrator ≢ auto
      → second_endpoint es orchestrator ≢ auto
  unfolding second_endpoint
  second_endpoint_not [] o u k n = n
  second_endpoint_not (e ∷ []) o u k n = n
  second_endpoint_not (e ∷ f ∷ es) o (u, (v, us)) k n = k f v

  Usable-apart : w.probe auto ≡ none → (e : Text) → Usable w e → e ≢ auto
  Usable-apart h e (inl k) = λ g. let x : localhost ≡ auto = sym k ∙ g in cc
  Usable-apart h e (inr k) = λ g. k (subst (λ t. w.probe t ≡ none) (sym g) h)

  -- The detected environment and a configuration.
  module _ (c : ValetConfig) (unprobed : w.probe auto ≡ none) where
    endpoints-Usable : All (Usable w) (detect w).ollama_endpoints
    unfolding detect
    endpoints-Usable = reached-Usable (endpoints_to_probe w)

    orchestrator_auto :
        c.ollama_orchestrator ≡ auto
        → Usable w (resolve_orchestrator (detect w) c.ollama_orchestrator)
    unfolding resolve_orchestrator
    orchestrator_auto h = rw h (first_endpoint-Usable (detect w).ollama_endpoints endpoints-Usable)

    orchestrator_given :
        c.ollama_orchestrator ≢ auto
        → resolve_orchestrator (detect w) c.ollama_orchestrator ≡ c.ollama_orchestrator
    unfolding resolve_orchestrator
    orchestrator_given n = elim (text_eq_cases c.ollama_orchestrator auto) [
      | inl e ↦ absurd (n e)
      | inr e ↦ rw e refl
    ]

    orchestrator_not : resolve_orchestrator (detect w) c.ollama_orchestrator ≢ auto
    orchestrator_not = elim (text_eq_cases c.ollama_orchestrator auto) [
      | inl e ↦ Usable-apart unprobed _ (orchestrator_auto e)
      | inr e ↦ λ g.
          let n : c.ollama_orchestrator ≢ auto = λ k. cc (text_eq_refl auto, k, e) in
          n (sym (orchestrator_given n) ∙ g)
    ]

    coder_given :
        (o : Text)
        → c.ollama_coder ≢ auto
        → resolve_coder (detect w) o c.ollama_coder ≡ c.ollama_coder
    unfolding resolve_coder
    coder_given o n = elim (text_eq_cases c.ollama_coder auto) [
      | inl e ↦ absurd (n e)
      | inr e ↦ rw e refl
    ]

    coder_not : (o : Text) → o ≢ auto → resolve_coder (detect w) o c.ollama_coder ≢ auto
    unfolding resolve_coder
    coder_not o n =
        if_cases (λ t. t ≢ auto) (text_eq c.ollama_coder auto)
          (second_endpoint (detect w).ollama_endpoints o) c.ollama_coder
          (λ e.
            second_endpoint_not (detect w).ollama_endpoints o endpoints-Usable
              (Usable-apart unprobed) n)
          (λ e k. cc (text_eq_refl auto, k, e))

    -- Where no model server answers under the name "auto": after the detection and the resolution
    -- neither endpoint is "auto", an endpoint that was given is left as it is, and an orchestrator
    -- that was "auto" has answered the probe or is the one at localhost.
    pub resolve_from_environment-detect :
        let r = resolve_from_environment (detect w) c in
        (r.ollama_orchestrator ≢ auto)
        × (r.ollama_coder ≢ auto)
        × (c.ollama_orchestrator ≢ auto → r.ollama_orchestrator ≡ c.ollama_orchestrator)
        × (c.ollama_coder ≢ auto → r.ollama_coder ≡ c.ollama_coder)
        × (c.ollama_orchestrator ≡ auto → Usable w r.ollama_orchestrator)
    unfolding resolve_from_environment
    resolve_from_environment-detect =
        let o = resolve_orchestrator (detect w) c.ollama_orchestrator in
        (
          orchestrator_not,
          coder_not o orchestrator_not,
          orchestrator_given,
          coder_given o,
          orchestrator_auto,
        )

-- The three tests of the configuration, on the three answers of the detection.
env_type_of_cases :
    (w : Surroundings) (c : ValetConfig) (k d s : Bool)
    → (detect w).env_type ≡ env_type_of k d s
    → let r = resolve_from_environment (detect w) c in
      (is_kubernetes r ≡ k)
      × (is_docker r ≡ (not k && (d && not s)))
      × (is_standalone r ≡ (not k && not (d && not s)))
unfolding resolve_from_environment is_kubernetes is_docker is_standalone env_type_of
env_type_of_cases w c true d s h = rw h (refl, refl, refl)
env_type_of_cases w c false true true h = rw h (refl, refl, refl)
env_type_of_cases w c false true false h = rw h (refl, refl, refl)
env_type_of_cases w c false false s h = rw h (refl, refl, refl)

-- After the detection and the resolution the configuration is one for Kubernetes exactly if kubectl
-- answers; otherwise for Docker exactly if docker answers and there is no systemd, and for a
-- standalone server in every other case.
pub is_kubernetes-detect :
    (w : Surroundings) (c : ValetConfig)
    → let r = resolve_from_environment (detect w) c in
      let docker_only = check_docker w && not (check_systemd w) in
      (is_kubernetes r ≡ check_kubectl w)
      × (is_docker r ≡ (not (check_kubectl w) && docker_only))
      × (is_standalone r ≡ (not (check_kubectl w) && not docker_only))
unfolding detect
is_kubernetes-detect w c =
    env_type_of_cases w c (check_kubectl w) (check_docker w) (check_systemd w) refl
