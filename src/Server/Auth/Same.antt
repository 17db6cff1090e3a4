-- ===== src/Server/Auth/Same.antt =====
-- The two servers read a header in the same way.
use silicon_valet.Prelude.{
  ℕ, ◌≡◌, ◌⊎◌, refl, inl, inr, Bool, true, false, ◌&&◌, some, List, [], ◌∷◌, ◌++◌, Text, codes,
  text_eq, if◌then◌else◌, lower, to_lower, is_alpha_upper, strip, is_empty, starts_with, partition,
  ◌==◌, arith, All, Bool-cases,
}
use silicon_valet.Server.Auth.{check_auth, header_token, query_token, admits}

to_lower_space : (c : ℕ) → (to_lower c == b' ') ≡ (c == b' ')
unfolding to_lower is_alpha_upper
to_lower_space c = ground arith

abbrev space : Text
space = b' ' ∷ []

abbrev NoSpace : Text → Type 0
NoSpace p = All (λ (q : ℕ). (q == b' ') ≡ false) p

-- A header with a scheme and a blank in front has just that scheme.
scheme_of :
    (h p : Text)
    → NoSpace p
    → starts_with (lower h) (p ++ space) ≡ true
    → text_eq (lower (partition b' ' h).0) p ≡ true
unfolding starts_with lower partition
scheme_of [] [] n s = cc
scheme_of [] (q ∷ ps) n s = cc
scheme_of (c ∷ cs) [] n s = ground (arith, to_lower_space c)
scheme_of (c ∷ cs) (q ∷ ps) (m, n) s = ground (arith, to_lower_space c, scheme_of cs ps n)

-- A header that has the scheme but does not go on with a blank has nothing behind it.
scheme_only :
    (h p : Text)
    → NoSpace p
    → starts_with (lower h) (p ++ space) ≡ false
    → text_eq (lower (partition b' ' h).0) p ≡ true
    → (partition b' ' h).1 ≡ []
unfolding starts_with lower partition
scheme_only [] [] n s t = refl
scheme_only [] (q ∷ ps) n s t = refl
scheme_only (c ∷ cs) [] n s t = ground (arith, to_lower_space c)
scheme_only (c ∷ cs) (q ∷ ps) (m, n) s t = ground (arith, to_lower_space c, scheme_only cs ps n)

abbrev bearer : Text
bearer = codes "bearer"

bearer_lem : NoSpace bearer
bearer_lem = (refl, (refl, (refl, (refl, (refl, (refl, tt))))))

header_token_cases :
    (h : Text)
    → (text_eq (lower (partition b' ' h).0) bearer ≡ true)
        × (header_token h ≡ strip (partition b' ' h).1)
      ⊎ (text_eq (lower (partition b' ' h).0) bearer ≡ false) × (header_token h ≡ [])
      ⊎ (strip (partition b' ' h).1 ≡ []) × (header_token h ≡ [])
unfolding header_token strip
header_token_cases h = elim (Bool-cases (starts_with (lower h) (codes "bearer "))) [
  | inl e ↦ inl (scheme_of h bearer bearer_lem e, rw e refl)
  | inr e ↦ elim (Bool-cases (text_eq (lower (partition b' ' h).0) bearer)) [
    | inl t ↦ inr (inr (rw (scheme_only h bearer bearer_lem e t) refl, rw e refl))
    | inr f ↦ inr (inl (f, rw e refl))
  ]
]

-- What the two servers make of a header's scheme and token.
judged :
    (expected query token behind : Text) (scheme : Bool)
    → (scheme ≡ true) × (token ≡ behind)
      ⊎ (scheme ≡ false) × (token ≡ [])
      ⊎ (behind ≡ []) × (token ≡ [])
    → (is_empty token ≡ false
        → (if is_empty expected
            then true
            else text_eq (if is_empty token then query else token) expected)
          ≡ (if is_empty expected then true else (scheme && text_eq behind expected)))
      × (is_empty token ≡ true
          → ((if is_empty expected
                then true
                else text_eq (if is_empty token then query else token) expected)
              ≡ (if is_empty expected then true else text_eq query expected))
            × ((if is_empty expected then true else (scheme && text_eq behind expected))
                ≡ is_empty expected))
judged [] query token behind scheme h = (λ t. refl, λ t. (refl, refl))
judged (x ∷ xs) query [] behind scheme (inl (s, e)) = (λ t. cc, λ t. (refl, rw (s, ← e) refl))
judged (x ∷ xs) query [] behind scheme (inr (inl (s, e))) = (λ t. cc, λ t. (refl, rw s refl))
judged (x ∷ xs) query [] behind true (inr (inr (k, e))) = (λ t. cc, λ t. (refl, rw k refl))
judged (x ∷ xs) query [] behind false (inr (inr (k, e))) = (λ t. cc, λ t. (refl, refl))
judged (x ∷ xs) query (t ∷ ts) behind scheme (inl (s, e)) = (λ u. rw (s, ← e) refl, λ u. cc)
judged (x ∷ xs) query (t ∷ ts) behind scheme (inr (inl (s, e))) = (λ u. cc, λ u. cc)
judged (x ∷ xs) query (t ∷ ts) behind scheme (inr (inr (k, e))) = (λ u. cc, λ u. cc)

-- A header that has a token is judged by the WebSocket server as by the HTTP server. One that has
-- none is judged by the query, and the HTTP server lets no header without a token in, unless no
-- token is expected.
pub admits-check_auth :
    (expected header : Text) (query : List Text)
    → (is_empty (header_token header) ≡ false
        → admits expected header query ≡ check_auth expected (some header))
      × (is_empty (header_token header) ≡ true
          → (admits expected header query
              ≡ (if is_empty expected then true else text_eq (query_token query) expected))
            × (check_auth expected (some header) ≡ is_empty expected))
unfolding admits check_auth header_token strip
admits-check_auth [] [] query = (λ t. refl, λ t. (refl, refl))
admits-check_auth (x ∷ xs) [] query = (λ t. cc, λ t. (refl, refl))
admits-check_auth expected (c ∷ cs) query =
    judged expected (query_token query) (header_token (c ∷ cs)) (strip (partition b' ' (c ∷ cs)).1)
      (text_eq (lower (partition b' ' (c ∷ cs)).0) bearer) (header_token_cases (c ∷ cs))
