-- ===== src/Dna/Scanner/Update/Rules.antt =====
-- The dependencies that a scan infers.
use silicon_valet.Prelude.{
  ℕ, ◌≡◌, ◌≢◌, ◌↔◌, ◌⊎◌, refl, inl, inr, true, not, List, [], ◌∷◌, ◌++◌, Text, ◌&&◌, ◌==◌, contains,
  if_cases, arith, subst,
}
use silicon_valet.Dna.Models.{Dependency}
use silicon_valet.Dna.Scanner.Known.{KnownDependency}
use silicon_valet.Dna.Scanner.Update.{Names, inferred, targets_of, sources_of, infer_dependencies}

abbrev pub In : {A : Type 0} → A → List A → Type 0
In x [] = ⊥
In x (y ∷ ys) = (x ≡ y) ⊎ In x ys

In-append_left : {A : Type 0} (x : A) (xs ys : List A) → In x xs → In x (xs ++ ys)
In-append_left x [] ys h = elim h [ ]
In-append_left x (y ∷ xs) ys (inl e) = inl e
In-append_left x (y ∷ xs) ys (inr h) = inr (In-append_left x xs ys h)

In-append_right : {A : Type 0} (x : A) (xs ys : List A) → In x ys → In x (xs ++ ys)
In-append_right x [] ys h = h
In-append_right x (y ∷ xs) ys h = inr (In-append_right x xs ys h)

In-append_cases : {A : Type 0} (x : A) (xs ys : List A) → In x (xs ++ ys) → In x xs ⊎ In x ys
In-append_cases x [] ys h = inr h
In-append_cases x (y ∷ xs) ys (inl e) = inl (inl e)
In-append_cases x (y ∷ xs) ys (inr h) = elim (In-append_cases x xs ys h) [
  | inl k ↦ inl (inr k)
  | inr k ↦ inr k
]

module _ (d : Dependency) (k : KnownDependency) (i : ℕ) where
  -- `d` is the dependency on one of the named services by the rule `k`
  abbrev Target : Names → Type 0
  Target names =
      (t : Text × ℕ) × In t names
      × (contains t.0 k.target_pattern ≡ true)
      × (i ≢ t.1)
      × (d ≡ inferred k i t.1)

  later : (t : Text × ℕ) (names : Names) → Target names → Target (t ∷ names)
  later t names (u, h, c, n, e) = (u, inr h, c, n, e)

  targets_of_sound : (names : Names) → In d (targets_of k i names) → Target names
  unfolding targets_of
  targets_of_sound [] h = elim h [ ]
  targets_of_sound ((name, j) ∷ rest) h =
      if_cases (λ l. In d l → Target ((name, j) ∷ rest))
        (contains name k.target_pattern && not (i == j)) (inferred k i j ∷ targets_of k i rest)
        (targets_of k i rest)
        (λ holds g. elim (g) [
          | inl e ↦ ((name, j), inl refl, ground arith, ground arith, e)
          | inr r ↦ later (name, j) rest (targets_of_sound rest r)
        ])
        (λ fails g. later (name, j) rest (targets_of_sound rest g)) h

  targets_of_complete : (names : Names) → Target names → In d (targets_of k i names)
  unfolding targets_of
  targets_of_complete [] (t, h, c, n, g) = elim h [ ]
  targets_of_complete ((name, j) ∷ rest) (t, inl e, c, n, g) =
      let c' : contains name k.target_pattern ≡ true =
        subst (λ (u : Text × ℕ). contains u.0 k.target_pattern ≡ true) e c in
      let n' : i ≢ j = subst (λ (u : Text × ℕ). i ≢ u.1) e n in
      let g' : d ≡ inferred k i j = subst (λ (u : Text × ℕ). d ≡ inferred k i u.1) e g in
      let b : (contains name k.target_pattern && not (i == j)) ≡ true = ground arith in
      rw b (inl g')
  targets_of_complete ((name, j) ∷ rest) (t, inr h, c, n, g) =
      if_cases (λ l. In d l) (contains name k.target_pattern && not (i == j))
        (inferred k i j ∷ targets_of k i rest) (targets_of k i rest)
        (λ holds. inr (targets_of_complete rest (t, h, c, n, g)))
        (λ fails. targets_of_complete rest (t, h, c, n, g))

module _ (d : Dependency) (k : KnownDependency) (all : Names) where
  -- `d` is a dependency of one of the names by the rule `k`
  abbrev Source : Names → Type 0
  Source names =
      (s : Text × ℕ) × In s names × (contains s.0 k.source_pattern ≡ true) × Target d k s.1 all

  later-Source : (t : Text × ℕ) (names : Names) → Source names → Source (t ∷ names)
  later-Source t names (u, h, c, r) = (u, inr h, c, r)

  sources_of_sound : (names : Names) → In d (sources_of k all names) → Source names
  unfolding sources_of
  sources_of_sound [] h = elim h [ ]
  sources_of_sound ((name, i) ∷ rest) h =
      if_cases (λ l. In d l → Source ((name, i) ∷ rest)) (contains name k.source_pattern)
        (targets_of k i all ++ sources_of k all rest) (sources_of k all rest)
        (λ holds g. elim (In-append_cases d (targets_of k i all) (sources_of k all rest) g) [
          | inl e ↦ ((name, i), inl refl, holds, targets_of_sound d k i all e)
          | inr r ↦ later-Source (name, i) rest (sources_of_sound rest r)
        ])
        (λ fails g. later-Source (name, i) rest (sources_of_sound rest g)) h

  sources_of_complete : (names : Names) → Source names → In d (sources_of k all names)
  unfolding sources_of
  sources_of_complete [] (s, h, c, t) = elim h [ ]
  sources_of_complete ((name, i) ∷ rest) (s, inl e, c, t) =
      let c' : contains name k.source_pattern ≡ true =
        subst (λ (u : Text × ℕ). contains u.0 k.source_pattern ≡ true) e c in
      let t' : Target d k i all = subst (λ (u : Text × ℕ). Target d k u.1 all) e t in
      rw c' (
        In-append_left d (targets_of k i all) (sources_of k all rest)
          (targets_of_complete d k i all t'))
  sources_of_complete ((name, i) ∷ rest) (s, inr h, c, t) =
      if_cases (λ l. In d l) (contains name k.source_pattern)
        (targets_of k i all ++ sources_of k all rest) (sources_of k all rest)
        (λ holds.
          In-append_right d (targets_of k i all) (sources_of k all rest)
            (sources_of_complete rest (s, h, c, t)))
        (λ fails. sources_of_complete rest (s, h, c, t))

-- `d` follows by one of the rules from two of the names with different ids
abbrev pub Follows : Dependency → List KnownDependency → Names → Type 0
Follows d rules names = (k : KnownDependency) × In k rules × Source d k names names

-- A dependency is inferred exactly if one of the rules has its source pattern in the name of one
-- service and its target pattern in the name of another one with another id, and the dependency is
-- the one of the rule between the two.
pub infer_dependencies_iff :
    (d : Dependency) (rules : List KnownDependency) (names : Names)
    → In d (infer_dependencies rules names) ↔ Follows d rules names
unfolding infer_dependencies
infer_dependencies_iff d [] names = (λ h. elim h [ ], λ f. elim (f.1) [ ])
infer_dependencies_iff d (k ∷ ks) names =
    let rest = infer_dependencies_iff d ks names in
    (
      λ h. elim (In-append_cases d (sources_of k names names) (infer_dependencies ks names) h) [
        | inl e ↦ (k, inl refl, sources_of_sound d k names names e)
        | inr r ↦ let (u, g, more) = rest.0 r in (u, inr g, more)
      ],
      λ f. elim (f.1) [
        | inl e ↦
            In-append_left d (sources_of k names names) (infer_dependencies ks names)
              (sources_of_complete d k names names (subst (λ u. Source d u names names) e f.2))
        | inr g ↦
            In-append_right d (sources_of k names names) (infer_dependencies ks names)
              (rest.1 (f.0, g, f.2))
      ],
    )
