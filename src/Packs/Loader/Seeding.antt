-- ===== src/Packs/Loader/Seeding.antt =====
-- What `seed_runbooks` leaves in the library, over two starts of the program.
use silicon_valet.Prelude.{
  append_nil, ◌≡◌, refl, ◌∙◌, sym, subst, inl, inr, Bool, true, false, not, some, List, [], ◌∷◌,
  ◌++◌, Text, text_eq, if◌then◌else◌, if_cases, All, keep, Bool-cases, arith, text_eq_refl,
}
use silicon_valet.Memory.Runbook.{
  RunbookEntry, Library, add, insert_or_replace, has_id, to_search_text, upsert_id,
}
use silicon_valet.Packs.Loader.{Pack, is_seeded, seed_pack, seeds_of, seed_runbooks, run_tasks}

-- No row has this id.
abbrev pub Unused : Text → List RunbookEntry → Type 0
Unused id rows = All (λ r. text_eq r.id id ≡ false) rows

-- The ids of the entries differ from each other and from those of the rows.
abbrev pub Fresh : List RunbookEntry → List RunbookEntry → Type 0
Fresh [] rows = Unit
Fresh (e ∷ es) rows = Unused e.id rows × Fresh es (rows ++ e ∷ [])

-- Every seed names its own pack as its source.
abbrev pub Sourced : List Pack → Type 0
Sourced packs = All (λ p. All (λ s. s.pack_source ≡ some p.name) (seeds_of p.seeds)) packs

abbrev titles : Text → List RunbookEntry → List (Text × Text)
titles name [] = []
titles name (s ∷ seeds) = (name, s.title) ∷ titles name seeds

-- The pairs of pack and title that the packs would seed.
abbrev pub catalogue : List Pack → List (Text × Text)
catalogue [] = []
catalogue (p ∷ ps) = titles p.name (seeds_of p.seeds) ++ catalogue ps

append_one :
    (rows es : List RunbookEntry) (e : RunbookEntry) → (rows ++ e ∷ []) ++ es ≡ rows ++ e ∷ es
append_one [] es e = refl
append_one (r ∷ rows) es e = rw (append_one rows es e) refl

keep-Unused :
    (id : Text) (rows : List RunbookEntry)
    → Unused id rows
    → keep (λ r. not (has_id id r)) rows ≡ rows
keep-Unused id [] h = refl
keep-Unused id (r ∷ rows) (h, hs) = rw (h, keep-Unused id rows hs) refl

add_rows :
    (embeds : Text → Bool) (e : RunbookEntry) (lib : Library)
    → Unused e.id lib.rows
    → (add embeds e lib).1.rows ≡ lib.rows ++ e ∷ []
unfolding add insert_or_replace
add_rows embeds e lib h =
    let k = keep-Unused e.id lib.rows h in
    if_cases (λ (r : Bool × Library). r.1.rows ≡ lib.rows ++ e ∷ []) (embeds (to_search_text e))
      (true, record { rows = insert_or_replace e lib.rows; indexed = upsert_id e.id lib.indexed })
      (false, record { rows = insert_or_replace e lib.rows; indexed = lib.indexed })
      (λ h'. rw k refl) (λ h'. rw k refl)

run_tasks_rows :
    (embeds : Text → Bool) (es : List RunbookEntry) (lib : Library)
    → Fresh es lib.rows
    → (run_tasks embeds es lib).rows ≡ lib.rows ++ es
unfolding run_tasks
run_tasks_rows embeds [] lib h = sym (append_nil lib.rows)
run_tasks_rows embeds (e ∷ es) lib (h, hs) =
    let one = add_rows embeds e lib h in
    let rest = run_tasks_rows embeds es (add embeds e lib).1 (rw one hs) in
    rest ∙ rw one (append_one lib.rows es e)

is_seeded-append :
    (name title : Text) (rs qs : List RunbookEntry)
    → is_seeded name title (rs ++ qs)
      ≡ (if is_seeded name title rs then true else is_seeded name title qs)
unfolding is_seeded
is_seeded-append name title [] qs = refl
is_seeded-append name title (r ∷ rs) qs =
    let rest = is_seeded-append name title rs qs in ground arith

seed_first :
    (name : Text) (s : RunbookEntry) (es : List RunbookEntry)
    → s.pack_source ≡ some name
    → is_seeded name s.title (s ∷ es) ≡ true
unfolding is_seeded
seed_first name s es h = rw (text_eq_refl s.title, h, text_eq_refl name) refl

-- In the rows or in the tasks, for every pair of the list.
abbrev Held : List RunbookEntry → List RunbookEntry → List (Text × Text) → Type 0
Held rows es keys = All (λ k. is_seeded k.0 k.1 (rows ++ es) ≡ true) keys

module _ (rows es fs : List RunbookEntry) where
  is_seeded-later :
      (name title : Text)
      → is_seeded name title (rows ++ fs) ≡ true
      → is_seeded name title (rows ++ (es ++ fs)) ≡ true
  is_seeded-later name title h =
      let a = is_seeded-append name title rows fs in
      let b = is_seeded-append name title rows (es ++ fs) in
      let c = is_seeded-append name title es fs in ground arith

  is_seeded-earlier :
      (name title : Text)
      → is_seeded name title (rows ++ es) ≡ true
      → is_seeded name title (rows ++ (es ++ fs)) ≡ true
  is_seeded-earlier name title h =
      let a = is_seeded-append name title rows es in
      let b = is_seeded-append name title rows (es ++ fs) in
      let c = is_seeded-append name title es fs in ground arith

  Held-later : (keys : List (Text × Text)) → Held rows fs keys → Held rows (es ++ fs) keys
  Held-later [] h = tt
  Held-later ((name, title) ∷ keys) (h, hs) = (is_seeded-later name title h, Held-later keys hs)

  Held-earlier : (keys : List (Text × Text)) → Held rows es keys → Held rows (es ++ fs) keys
  Held-earlier [] h = tt
  Held-earlier ((name, title) ∷ keys) (h, hs) =
      (is_seeded-earlier name title h, Held-earlier keys hs)

Held-append :
    (rows es : List RunbookEntry) (xs ys : List (Text × Text))
    → Held rows es xs
    → Held rows es ys
    → Held rows es (xs ++ ys)
Held-append rows es [] ys h k = k
Held-append rows es (x ∷ xs) ys (h, hs) k = (h, Held-append rows es xs ys hs k)

module _ (name : Text) (rows seeds : List RunbookEntry) (s : RunbookEntry) where
  seed_pack-skip :
      is_seeded name s.title rows ≡ true
      → seed_pack name rows (s ∷ seeds) ≡ seed_pack name rows seeds
  unfolding seed_pack
  seed_pack-skip e = rw e refl

  seed_pack-put :
      is_seeded name s.title rows ≡ false
      → seed_pack name rows (s ∷ seeds) ≡ s ∷ seed_pack name rows seeds
  unfolding seed_pack
  seed_pack-put e = rw e refl

seed_pack-Held :
    (name : Text) (rows seeds : List RunbookEntry)
    → All (λ s. s.pack_source ≡ some name) seeds
    → Held rows (seed_pack name rows seeds) (titles name seeds)
seed_pack-Held name rows [] h = tt
seed_pack-Held name rows (s ∷ seeds) (h, hs) =
    let rest = seed_pack-Held name rows seeds hs in
    let tasks = seed_pack name rows seeds in
    elim (Bool-cases (is_seeded name s.title rows)) [
      | inl e ↦
          let a = is_seeded-append name s.title rows tasks in
          subst (λ es. Held rows es (titles name (s ∷ seeds)))
            (sym (seed_pack-skip name rows seeds s e)) (ground arith, rest)
      | inr e ↦
          let a = is_seeded-append name s.title rows (s ∷ tasks) in
          let b = seed_first name s tasks h in
          subst (λ es. Held rows es (titles name (s ∷ seeds)))
            (sym (seed_pack-put name rows seeds s e))
            (ground arith, Held-later rows (s ∷ []) tasks (titles name seeds) rest)
    ]

seed_runbooks-Held :
    (packs : List Pack) (lib : Library)
    → Sourced packs
    → Held lib.rows (seed_runbooks packs lib) (catalogue packs)
unfolding seed_runbooks
seed_runbooks-Held [] lib h = tt
seed_runbooks-Held (p ∷ ps) lib (h, hs) =
    let first = seed_pack p.name lib.rows (seeds_of p.seeds) in
    let rest = seed_runbooks ps lib in
    Held-append lib.rows (first ++ rest) (titles p.name (seeds_of p.seeds)) (catalogue ps)
      (Held-earlier lib.rows first rest (titles p.name (seeds_of p.seeds))
        (seed_pack-Held p.name lib.rows (seeds_of p.seeds) h))
      (Held-later lib.rows first rest (catalogue ps) (seed_runbooks-Held ps lib hs))

abbrev InRows : List RunbookEntry → List (Text × Text) → Type 0
InRows rows keys = All (λ k. is_seeded k.0 k.1 rows ≡ true) keys

InRows-append :
    (rows : List RunbookEntry) (xs ys : List (Text × Text))
    → InRows rows (xs ++ ys)
    → InRows rows xs × InRows rows ys
InRows-append rows [] ys h = (tt, h)
InRows-append rows (x ∷ xs) ys (h, hs) = let (a, b) = InRows-append rows xs ys hs in ((h, a), b)

seed_pack_done :
    (name : Text) (rows seeds : List RunbookEntry)
    → InRows rows (titles name seeds)
    → seed_pack name rows seeds ≡ []
unfolding seed_pack
seed_pack_done name rows [] h = refl
seed_pack_done name rows (s ∷ seeds) (h, hs) = rw (h, seed_pack_done name rows seeds hs) refl

seed_runbooks_done :
    (packs : List Pack) (lib : Library)
    → InRows lib.rows (catalogue packs)
    → seed_runbooks packs lib ≡ []
unfolding seed_runbooks
seed_runbooks_done [] lib h = refl
seed_runbooks_done (p ∷ ps) lib h =
    let (a, b) = InRows-append lib.rows (titles p.name (seeds_of p.seeds)) (catalogue ps) h in
    rw (seed_pack_done p.name lib.rows (seeds_of p.seeds) a, seed_runbooks_done ps lib b) refl

module _ (embeds : Text → Bool) (packs packs' : List Pack) (lib : Library) (sourced : Sourced packs)
    (fresh : Fresh (seed_runbooks packs lib) lib.rows)
    (same : catalogue packs' ≡ catalogue packs) where
  -- If every seed names its pack as its source and the new ids are fresh, then once the tasks have
  -- run, whether or not their embeddings succeeded, the new rows stand behind the old ones in
  -- order, and a second start with packs of the same names and titles seeds nothing.
  pub seed_runbooks_once :
      let tasks = seed_runbooks packs lib in
      let lib' = run_tasks embeds tasks lib in
      (lib'.rows ≡ lib.rows ++ tasks) × (seed_runbooks packs' lib' ≡ [])
  seed_runbooks_once =
      let tasks = seed_runbooks packs lib in
      let lib' = run_tasks embeds tasks lib in
      let rows = run_tasks_rows embeds tasks lib fresh in
      (
        rows,
        seed_runbooks_done packs' lib' (rw (same, rows) (seed_runbooks-Held packs lib sourced)),
      )
