-- ===== src/Risk/Engine/Backup.antt =====
-- `_create_backup`: which part of a command is copied, and to which file.
use silicon_valet.Prelude.{
  ◌≡◌, refl, ◌∙◌, sym, ap, subst, true, false, Option, none, some, List, [], ◌∷◌, ◌++◌, Text, codes,
  words, if◌then◌else◌,
}
use silicon_valet.Risk.Classifier.{ClassifiedAction}
use silicon_valet.Risk.Engine.{
  Result, ok, raised, Host, Machine, path_text, path_name, backup_first, after_mkdir, create_backup,
}

-- The file that a part of the command is copied to.
abbrev pub backup_of : Text → Text → Text → Text
backup_of dir stamp part = dir ++ codes "/" ++ path_name part ++ codes "." ++ stamp ++ codes ".bak"

-- The parts are passed over, one after the other, and lead from one world to another: each is no
-- file, or its copy fails.
pub data Passed {W : Type 0} (host : Host W) (dir stamp : Text) : W → List Text → W → Type 0 where
  no_more : {w : W} → Passed host dir stamp w [] w
  no_file :
      {w w' : W} {part : Text} {parts : List Text}
      → host.is_file (path_text part) w ≡ ok false
      → Passed host dir stamp w parts w'
      → Passed host dir stamp w (part ∷ parts) w'
  not_copied :
      {w w' : W} {part : Text} {parts : List Text}
      → host.is_file (path_text part) w ≡ ok true
      → (host.copy_file (path_text part) (backup_of dir stamp part) w).0 ≡ false
      → Passed host dir stamp
          (host.copy_file (path_text part) (backup_of dir stamp part) w).1
          parts
          w'
      → Passed host dir stamp w (part ∷ parts) w'

module _ {W : Type 0} (host : Host W) (dir stamp : Text) where
  backup_first-no_file :
      (part : Text) (parts : List Text) (w : W)
      → host.is_file (path_text part) w ≡ ok false
      → backup_first host dir stamp (part ∷ parts) w ≡ backup_first host dir stamp parts w
  unfolding backup_first
  backup_first-no_file part parts w h = rw (backup_first, h) refl

  backup_first-copy :
      (part : Text) (parts : List Text) (w : W)
      → host.is_file (path_text part) w ≡ ok true
      → let (copied, w') = host.copy_file (path_text part) (backup_of dir stamp part) w in
        backup_first host dir stamp (part ∷ parts) w ≡ (
          if copied
          then (ok (some (backup_of dir stamp part)), w')
          else backup_first host dir stamp parts w')
  unfolding backup_first
  backup_first-copy part parts w h = rw (backup_first, h) refl

  backup_first-raised :
      (part : Text) (parts : List Text) (w : W) (e : Text)
      → host.is_file (path_text part) w ≡ raised e
      → backup_first host dir stamp (part ∷ parts) w ≡ (raised e, w)
  unfolding backup_first
  backup_first-raised part parts w e h = rw (backup_first, h) refl

  backup_first-Passed :
      (skipped rest : List Text) {w w' : W}
      → Passed host dir stamp w skipped w'
      → backup_first host dir stamp (skipped ++ rest) w ≡ backup_first host dir stamp rest w'
  backup_first-Passed _ rest no_more = refl
  backup_first-Passed (part ∷ skipped) rest {w = w} (no_file h later) =
      backup_first-no_file part (skipped ++ rest) w h ∙ backup_first-Passed skipped rest later
  backup_first-Passed (part ∷ skipped) rest {w = w} (not_copied h k later) =
      backup_first-copy part (skipped ++ rest) w h ∙ rw k (backup_first-Passed skipped rest later)

-- What becomes of the rest of the parts, in the world that the parts passed over have led to: the
-- backup, or none, and the world after it.
abbrev pub FirstOf :
    {W : Type 0} → Host W → Text → Text → List Text → W → Result (Option Text) × W → Type 0
FirstOf host dir stamp [] w out = out ≡ (ok none, w)
FirstOf host dir stamp (part ∷ parts) w out =
    let (copied, w') = host.copy_file (path_text part) (backup_of dir stamp part) w in
    (host.is_file (path_text part) w ≡ ok true
      → copied ≡ true
      → out ≡ (ok (some (backup_of dir stamp part)), w'))
    × ((e : Text) → host.is_file (path_text part) w ≡ raised e → out ≡ (raised e, w))

backup_first-FirstOf :
    {W : Type 0} (host : Host W) (dir stamp : Text) (rest : List Text) (w : W)
    → FirstOf host dir stamp rest w (backup_first host dir stamp rest w)
unfolding backup_first
backup_first-FirstOf host dir stamp [] w = refl
backup_first-FirstOf host dir stamp (part ∷ parts) w = (
  λ h k. backup_first-copy host dir stamp part parts w h ∙ rw k refl,
  λ e h. backup_first-raised host dir stamp part parts w e h,
)

module _ {W : Type 0} (host : Host W) (action : ClassifiedAction) (m : Machine W) where
  after_mkdir-made :
      (dir : Text) (made : Result (Unit {0})) (w : W)
      → made ≡ ok tt
      → after_mkdir host action dir made w
        ≡ backup_first host dir (host.timestamp w) (words action.command) w
  unfolding after_mkdir
  after_mkdir-made dir (raised e) w h = cc
  after_mkdir-made dir (ok _) w h = refl

  -- Where the backup directory can be made: if the first words of a command are no files or fail to
  -- be copied, then no backup is made where no word is left; the next word, if it is a file that can
  -- be copied, is copied to the backup directory, under its name and the time, and no word after it
  -- is looked at; and if its test raises, so does the backup.
  pub create_backup-first :
      (skipped rest : List Text) (w : W)
      → let (made, w0) = host.make_dir m.backup_dir m.world in
        made ≡ ok tt
        → words action.command ≡ skipped ++ rest
        → Passed host m.backup_dir (host.timestamp w0) w0 skipped w
        → let (path, m') = create_backup host action m in
          (m' ≡ record m { world = m'.world })
          × FirstOf host m.backup_dir (host.timestamp w0) rest w (path, m'.world)
  unfolding create_backup
  create_backup-first skipped rest w made e passed =
      let (made_dir, w0) = host.make_dir m.backup_dir m.world in
      let stamp = host.timestamp w0 in
      let same =
        after_mkdir-made m.backup_dir made_dir w0 made
        ∙ ap (λ parts. backup_first host m.backup_dir stamp parts w0) e
        ∙ backup_first-Passed host m.backup_dir stamp skipped rest passed in
      (
        refl,
        subst (FirstOf host m.backup_dir stamp rest w) (sym same)
            (backup_first-FirstOf host m.backup_dir stamp rest w),
      )
