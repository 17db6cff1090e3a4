-- ===== src/Regex/Meaning.antt =====
-- What it means for a pattern to match a stretch of text, with no search order in it, and the
-- proof that the backtracking matcher decides it.
use silicon_valet.Prelude.{
  ℕ, ◌≡◌, refl, ◌↔◌, ◌⊎◌, inl, inr, Bool, true, Option, none, some, [], ◌∷◌, Text, arith,
  Bool-cases,
}
use silicon_valet.Regex.{
  Class, accepts, Regex, empty, one, many, start, finish, word_edge, ◌▸◌, alt, opt, never, Pos,
  place, at_finish, at_edge, run_one, run_many, run, search_from, search_in,
}

-- One character that `c` accepts.
pub data Eats (c : Class) : Pos → Pos → Type 0 where
  eat :
      {l : Option ℕ} {x : ℕ} {xs : Text}
      → accepts c x ≡ true
      → Eats c (place l (x ∷ xs)) (place (some x) xs)

-- Any number of them.
pub data EatsMany (c : Class) : Pos → Pos → Type 0 where
  stop : {s : Pos} → EatsMany c s s
  more :
      {l : Option ℕ} {x : ℕ} {xs : Text} {t : Pos}
      → accepts c x ≡ true
      → EatsMany c (place (some x) xs) t
      → EatsMany c (place l (x ∷ xs)) t

abbrev pub AtStart : Pos → Type 0
AtStart (place l xs) = l ≡ none

abbrev pub AtFinish : Pos → Type 0
AtFinish (place l xs) = at_finish xs ≡ true

abbrev pub AtEdge : Pos → Type 0
AtEdge (place l xs) = at_edge l xs ≡ true

-- `Spans r s t`: `r` matches the text from `s` to `t`.
abbrev pub Spans : Regex → Pos → Pos → Type 0
Spans empty s t = s ≡ t
Spans (one c) s t = Eats c s t
Spans (many c) s t = EatsMany c s t
Spans start s t = AtStart s × (s ≡ t)
Spans finish s t = AtFinish s × (s ≡ t)
Spans word_edge s t = AtEdge s × (s ≡ t)
Spans (r ▸ q) s t = (m : Pos) × Spans r s m × Spans q m t
Spans (alt r q) s t = Spans r s t ⊎ Spans q s t
Spans (opt r) s t = Spans r s t ⊎ (s ≡ t)
Spans (never r) s t = ¬ ((m : Pos) × Spans r s m) × (s ≡ t)

-- `r` matches from `s` to somewhere that satisfies `k`.
abbrev pub Leads : Regex → Pos → (Pos → Bool) → Type 0
Leads r s k = (t : Pos) × Spans r s t × (k t ≡ true)

module _ (c : Class) where
  run_one_sound :
      (l : Option ℕ) (xs : Text) (k : Pos → Bool)
      → run_one c xs k ≡ true
      → Leads (one c) (place l xs) k
  unfolding run_one
  run_one_sound l [] k h = cc
  run_one_sound l (x ∷ xs) k h = elim (Bool-cases (accepts c x)) [
    | inl e ↦ (place (some x) xs, eat e, ground arith)
    | inr e ↦ ground arith
  ]

  run_one_complete : {s t : Pos} (k : Pos → Bool) → Eats c s t → k t ≡ true → run (one c) s k ≡ true
  unfolding run run_one
  run_one_complete k (eat e) h = ground arith

  run_many_sound :
      (l : Option ℕ) (xs : Text) (k : Pos → Bool)
      → run_many c l xs k ≡ true
      → Leads (many c) (place l xs) k
  unfolding run_many
  run_many_sound l [] k h = (place l [], stop, h)
  run_many_sound l (x ∷ xs) k h = elim (Bool-cases (k (place l (x ∷ xs)))) [
    | inl e ↦ (place l (x ∷ xs), stop, e)
    | inr e ↦ elim (Bool-cases (accepts c x)) [
      | inl a ↦ let (t, m, kt) = run_many_sound (some x) xs k (ground arith) in (t, more a m, kt)
      | inr a ↦ ground arith
    ]
  ]

  run_many_complete :
      {s t : Pos} (k : Pos → Bool) → EatsMany c s t → k t ≡ true → run (many c) s k ≡ true
  unfolding run run_many
  run_many_complete {s = place l []} k stop h = h
  run_many_complete {s = place l (x ∷ xs)} k stop h = ground arith
  run_many_complete k (more a m) h = ground (arith, run_many_complete k m h)

-- Soundness and completeness together, since `never` uses both of its part.
pub run_iff : (r : Regex) (s : Pos) (k : Pos → Bool) → (run r s k ≡ true) ↔ Leads r s k
unfolding run
run_iff empty s k = (λ h. (s, refl, h), λ (t, e, h). rw e h)
run_iff (one c) (place l xs) k =
    (run_one_sound c l xs k, λ (t, e, h). unfold run in run_one_complete c k e h)
run_iff (many c) (place l xs) k =
    (run_many_sound c l xs k, λ (t, e, h). unfold run in run_many_complete c k e h)
run_iff start (place none xs) k = (λ h. (place none xs, (refl, refl), h), λ (t, (_, e), h). rw e h)
run_iff start (place (some c) xs) k = (λ h. cc h, λ (t, (n, _), h). cc n)
run_iff finish (place l xs) k =
    (λ h. (place l xs, (ground arith, refl), ground arith), λ (t, (f, e), h). ground arith)
run_iff word_edge (place l xs) k =
    (λ h. (place l xs, (ground arith, refl), ground arith), λ (t, (f, e), h). ground arith)
run_iff (r ▸ q) s k = (
  λ h.
      let (m, a, h') = (run_iff r s (λ t. run q t k)).0 h in
      let (t, b, h'') = (run_iff q m k).0 h' in (t, (m, a, b), h''),
  λ (t, (m, a, b), h). (run_iff r s (λ t. run q t k)).1 (m, a, (run_iff q m k).1 (t, b, h)),
)
run_iff (alt r q) s k = (
  λ h. elim (Bool-cases (run r s k)) [
    | inl e ↦ let (t, a, kt) = (run_iff r s k).0 e in (t, inl a, kt)
    | inr e ↦ let (t, b, kt) = (run_iff q s k).0 (ground arith) in (t, inr b, kt)
  ],
  λ (t, ab, h). elim ab [
    | inl a ↦ rw ((run_iff r s k).1 (t, a, h))
    | inr b ↦ let e = (run_iff q s k).1 (t, b, h) in ground arith
  ],
)
run_iff (opt r) s k = (
  λ h. elim (Bool-cases (run r s k)) [
    | inl e ↦ let (t, a, kt) = (run_iff r s k).0 e in (t, inl a, kt)
    | inr e ↦ (s, inr refl, ground arith)
  ],
  λ (t, ab, h). elim ab [ inl a ↦ rw ((run_iff r s k).1 (t, a, h)) | inr e ↦ ground arith ],
)
run_iff (never r) s k = (
  λ h. elim (Bool-cases (run r s (λ _. true))) [
    | inl e ↦ ground arith
    | inr e ↦
        let none_there : ¬ ((m : Pos) × Spans r s m) =
          λ (m, a). let e' = (run_iff r s (λ _. true)).1 (m, a, refl) in cc in
        (s, (none_there, refl), ground arith)
  ],
  λ (t, (n, e), h). elim (Bool-cases (run r s (λ _. true))) [
    | inl f ↦ let (m, a, _) = (run_iff r s (λ _. true)).0 f in absurd (n (m, a))
    | inr f ↦ ground arith
  ],
)

-- `InText l xs s`: `s` is a place in the text `xs` that follows `l`.
pub data InText : Option ℕ → Text → Pos → Type 0 where
  here : {l : Option ℕ} {xs : Text} → InText l xs (place l xs)
  later : {l : Option ℕ} {x : ℕ} {xs : Text} {s : Pos} → InText (some x) xs s → InText l (x ∷ xs) s

abbrev pub Found : Regex → Option ℕ → Text → Type 0
Found r l xs = (s : Pos) × InText l xs s × ((t : Pos) × Spans r s t)

module _ (r : Regex) where
  run_here : (s : Pos) → (run r s (λ _. true) ≡ true) ↔ ((t : Pos) × Spans r s t)
  run_here s = (
    λ h. let (t, a, _) = (run_iff r s (λ _. true)).0 h in (t, a),
    λ (t, a). (run_iff r s (λ _. true)).1 (t, a, refl),
  )

  search_from_sound : (l : Option ℕ) (xs : Text) → search_from r l xs ≡ true → Found r l xs
  unfolding search_from
  search_from_sound l [] h = (place l [], here, (run_here (place l [])).0 h)
  search_from_sound l (x ∷ xs) h = elim (Bool-cases (run r (place l (x ∷ xs)) (λ _. true))) [
    | inl e ↦ (place l (x ∷ xs), here, (run_here (place l (x ∷ xs))).0 e)
    | inr e ↦ let (s, i, m) = search_from_sound (some x) xs (rw e at h) in (s, later i, m)
  ]

  search_from_complete :
      {l : Option ℕ} {xs : Text} {s : Pos}
      → InText l xs s
      → (t : Pos) × Spans r s t
      → search_from r l xs ≡ true
  unfolding search_from
  search_from_complete {l} {xs = []} here m = (run_here (place l [])).1 m
  search_from_complete {l} {xs = x ∷ xs} here m = rw ((run_here (place l (x ∷ xs))).1 m)
  search_from_complete {l} {xs = x ∷ xs} (later i) m =
      let rest = search_from_complete i m in ground arith

  -- The search answers true exactly on the texts that hold a match of the pattern somewhere.
  pub search_iff : (text : Text) → (search_in r text ≡ true) ↔ Found r none text
  unfolding search_in
  search_iff text = (search_from_sound none text, λ (s, i, m). search_from_complete i m)
