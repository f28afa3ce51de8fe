-- ===== src/App/Package/Stays.antt =====
-- Where the entries of an archive lie that parseAppZip of
-- backend/internal/service/app_import_service.go accepts.
use suzuran.Prelude.{
  ◌≡◌, refl, sym, ap, ◌∙◌, inl, inr, true, some, List, [], ◌∷◌, ◌++◌, ◌||◌, ◌==◌, All, All-map,
  Bool-cases, if◌then◌else◌,
}
use suzuran.Prelude.Result.{ok}
use suzuran.Prelude.Text.{Text}
use suzuran.App.Package.{
  Formats, ZipEntry, AppManifest, forward, onto_first, segments, parse_app_zip,
}
use suzuran.App.Package.Paths.{no_dots, walk, safe_name_stays}
use suzuran.App.Package.Limits.{IsSafeEntry, parse_app_zip-IsAccepted}

-- The parts of a name between its slashes of either kind.
abbrev pub parts : Text → List Text
parts [] = [] ∷ []
parts (c ∷ t) =
    let rest = parts t in if c == b'/' || c == b'\\' then [] ∷ rest else onto_first c rest

segments-forward : (name : Text) → segments (forward name) ≡ parts name
unfolding segments
segments-forward [] = refl
segments-forward (c ∷ t) = elim (Bool-cases (c == b'\\')) [
  | inl q ↦ rw q (elim (Bool-cases (c == b'/')) [
    | inl s ↦ rw s (ap (λ r. [] ∷ r) (segments-forward t))
    | inr s ↦ rw s (ap (λ r. [] ∷ r) (segments-forward t))
  ])
  | inr q ↦ rw q (elim (Bool-cases (c == b'/')) [
    | inl s ↦ rw s (ap (λ r. [] ∷ r) (segments-forward t))
    | inr s ↦ rw s (ap (onto_first c) (segments-forward t))
  ])
]

-- The entry is in the directory that it is unpacked to, or is that directory: a walk along the parts
-- of its name from any directory ends below it, on a way without `..`.
pub record Stays (entry : ZipEntry) (dir : List Text) : Type 0 where
  pub below : List Text
  pub down : no_dots below ≡ true
  pub ends : walk dir (parts entry.name) ≡ below ++ dir

IsSafeEntry-Stays : (entry : ZipEntry) (dir : List Text) → IsSafeEntry entry → Stays entry dir
IsSafeEntry-Stays entry dir safe =
    let (below, down, ends) = safe_name_stays (forward entry.name) safe.0 dir in
    record {
      below = below;
      down = down;
      ends = ap (walk dir) (sym (segments-forward entry.name)) ∙ ends;
    }

-- Every entry of an archive that parseAppZip accepts lies in the directory that the archive is
-- unpacked to, or is that directory: a walk along the parts of its name, between slashes of either
-- kind, ends below the directory on a way without `..`.
pub parse_app_zip-Stays :
    (f : Formats) (zip : Text) (m : AppManifest) (dir : List Text)
    → parse_app_zip f zip ≡ ok m
    → (entries : List ZipEntry) × (f.open_zip zip ≡ some entries)
      × All (λ entry. Stays entry dir) entries
parse_app_zip-Stays f zip m dir q =
    let (entries, opened, few, safe, small, rest) = parse_app_zip-IsAccepted f zip m q in
    (
      entries,
      opened,
      All-map IsSafeEntry (λ x. Stays x dir) entries (λ x. IsSafeEntry-Stays x dir) safe,
    )
