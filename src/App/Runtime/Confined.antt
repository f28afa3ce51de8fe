-- ===== src/App/Runtime/Confined.antt =====
-- Where extractZip of backend/internal/runtime/manager.go writes files.
use suzuran.Prelude.{
  ◌≡◌, refl, ap, ◌∙◌, inl, inr, ℕ, true, Bool-cases, false, List, [], ◌∷◌, ◌++◌, ◌==◌,
}
use suzuran.Prelude.Exec.{Ensures, Anything}
use suzuran.Prelude.Exec.Rules.{
  Ensures-bind, Ensures-pure, Ensures-raise_if, Ensures-require, Ensures-if,
}
use suzuran.Prelude.Text.{Text}
use suzuran.App.Package.{ZipEntry, Reads, forward, segments, clean, is_rooted, is_unsafe}
use suzuran.App.Package.Paths.{no_dots, walk, relative, safe_name_stays}
use suzuran.App.Package.Meaning.{segments-++, walk-++, walk-clean}
use suzuran.App.Store.{Env, Store, on_disk}
use suzuran.App.Runtime.Extract.{
  join_path, write_entry, extract_entry, extract_entries, extract_zip,
}

-- The path leads into the directory, or to it: from every working directory, a walk along its
-- segments ends below the directory, on a way without `..`.
abbrev pub LeadsInto : Text → Text → Type 0
LeadsInto dir t =
    (cwd : List Text)
    → (below : List Text) × (no_dots below ≡ true)
      × (walk cwd (segments t) ≡ below ++ walk cwd (segments dir))

-- A property of the disk that no new directory breaks, and no file written into `dir`.
pub record IsKept (e : Env) (dir : Text) (P : e.files.Disk → Type 0) : Type 0 where
  pub by_mkdir : (t : Text) (d : e.files.Disk) → P d → P (e.files.mkdir_all t d).1
  pub by_write :
      (t : Text) (c : Reads) (d : e.files.Disk)
      → LeadsInto dir t
      → P d
      → P (e.files.write_file t c d).1

first_rooted : (c : ℕ) (d t : Text) → is_rooted (c ∷ d) ≡ false → is_rooted (c ∷ t) ≡ false
first_rooted c d t h = elim (Bool-cases (b'/' == c)) [
  | inl q ↦ absurd (let bad : true ≡ false = rw q at h in let no : ⊥ = cc in no)
  | inr q ↦ rw q refl
]

-- A name that is let through leads into the relative directory that it is joined to.
join_path-LeadsInto :
    (c : ℕ) (d name : Text)
    → is_rooted (c ∷ d) ≡ false
    → is_unsafe (clean (forward name)) ≡ false
    → LeadsInto (c ∷ d) (join_path (c ∷ d) (clean (forward name)))
join_path-LeadsInto c d name from safe cwd =
    let (below, down, ends) = safe_name_stays (forward name) safe (walk cwd (segments (c ∷ d))) in
    (
      below,
      down,
      walk-clean cwd (c ∷ d ++ b'/' ∷ clean (forward name))
            (first_rooted c d (d ++ b'/' ∷ clean (forward name)) from)
          ∙ ap (walk cwd) (segments-++ (c ∷ d) (clean (forward name)))
          ∙ walk-++ cwd (segments (c ∷ d)) (segments (clean (forward name)))
          ∙ walk-clean (walk cwd (segments (c ∷ d))) (forward name) (relative (forward name) safe)
          ∙ ends,
    )

module _ (e : Env) (c : ℕ) (d : Text) (from : is_rooted (c ∷ d) ≡ false) (P : e.files.Disk → Type 0)
    (kept : IsKept e (c ∷ d) P) where
  abbrev OnDisk : Store e → Type 0
  OnDisk s = P s.disk

  mkdir_keeps : (t : Text) → Ensures OnDisk Anything (on_disk e (e.files.mkdir_all t))
  mkdir_keeps t = record { keeps = λ s h. kept.by_mkdir t s.disk h; returns = λ s h a q. tt }

  write_entry_keeps :
      (dest : Text) (entry : ZipEntry)
      → LeadsInto (c ∷ d) dest
      → Ensures OnDisk Anything (write_entry e dest entry)
  unfolding write_entry
  write_entry_keeps dest entry within = Ensures-bind (mkdir_keeps _) (λ _ _.
      Ensures-bind (Ensures-require _ entry.content) (λ x _. record {
        keeps = λ s h. kept.by_write dest x s.disk within h;
        returns = λ s h a q. tt;
      }))

  extract_entries_keeps :
      (entries : List ZipEntry) → Ensures OnDisk Anything (extract_entries e (c ∷ d) entries)
  unfolding extract_entries extract_entry
  extract_entries_keeps [] = Ensures-pure tt tt
  extract_entries_keeps (entry ∷ entries) =
      Ensures-bind
        (Ensures-bind (Ensures-raise_if _ _) (λ _ safe. Ensures-bind (Ensures-raise_if _ _) (λ _ _.
          Ensures-if entry.is_dir _ _ (λ _. mkdir_keeps _)
            (λ _. write_entry_keeps _ entry (join_path-LeadsInto c d entry.name from safe)))))
        (λ _ _. extract_entries_keeps entries)

  -- extractZip into a directory whose path is relative and not empty writes files into this directory
  -- only: whatever holds of the disk, and is broken by no new directory and by no file written to a
  -- path that leads into the directory, still holds after it, whether the extraction fails or not.
  pub extract_zip_confined :
      (zip : Text) (s : Store e) → P s.disk → P (extract_zip e zip (c ∷ d) s).1.disk
  unfolding extract_zip
  extract_zip_confined zip s h =
      let rule : Ensures OnDisk Anything (extract_zip e zip (c ∷ d)) =
        Ensures-bind (Ensures-require _ (e.formats.open_zip zip))
          (λ entries _. extract_entries_keeps entries) in
      rule.keeps s h
