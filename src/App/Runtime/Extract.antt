-- ===== src/App/Runtime/Extract.antt =====
-- prepareCodePackage and extractZip of backend/internal/runtime/manager.go.
use suzuran.Prelude.{Bool, not, ◌||◌, List, [], ◌∷◌, ◌++◌, reverse, str_eq, ◌==◌, if◌then◌else◌}
use suzuran.Prelude.Error.{
  unsafe_path, escapes_dir, disk, invalid_zip, no_code_package, storage_unavailable,
}
use suzuran.Prelude.Exec.{Exec, pure, require, raise_if, ◌>>=◌, ◌>>◌}
use suzuran.Prelude.Text.{Text, text_eq, has_prefix, trim_left}
use suzuran.App.Model.{Application}
use suzuran.App.Package.{ZipEntry, forward, clean, is_unsafe}
use suzuran.App.Store.{Env, Store, on_disk, on_objects}

-- filepath.Join of two parts that are not empty
abbrev pub join_path : Text → Text → Text
join_path dir name = clean (dir ++ b'/' ∷ name)

-- filepath.Dir
abbrev pub dir_of : Text → Text
dir_of t = clean (reverse (trim_left (λ c. not (c == b'/')) (reverse t)))

-- `dest` is below the directory, or is it.
abbrev pub inside : Text → Text → Bool
inside dir dest = has_prefix dest (clean dir ++ b'/' ∷ []) || text_eq dest (clean dir)

-- data/app-packages/
abbrev pub packages : Text
packages =
    b'd' ∷ b'a' ∷ b't' ∷ b'a' ∷ b'/' ∷ b'a' ∷ b'p' ∷ b'p' ∷ b'-' ∷ b'p' ∷ b'a' ∷ b'c' ∷ b'k' ∷ b'a'
    ∷ b'g' ∷ b'e' ∷ b's' ∷ b'/' ∷ []

module _ (e : Env) where
  unfoldable pub write_entry : Text → ZipEntry → Exec (Store e) (Unit {0})
  write_entry dest entry = do
    on_disk e (e.files.mkdir_all (dir_of dest))
    content ← require disk entry.content
    on_disk e (e.files.write_file dest content)

  abbrev pub unpack : Text → ZipEntry → Exec (Store e) (Unit {0})
  unpack dest entry =
      if entry.is_dir then on_disk e (e.files.mkdir_all dest) else write_entry dest entry

  unfoldable pub extract_entry : Text → ZipEntry → Exec (Store e) (Unit {0})
  extract_entry dir entry = do
    raise_if (is_unsafe (clean (forward entry.name))) unsafe_path
    raise_if (not (inside dir (join_path dir (clean (forward entry.name))))) escapes_dir
    unpack (join_path dir (clean (forward entry.name))) entry

  unfoldable pub extract_entries : Text → List ZipEntry → Exec (Store e) (Unit {0})
  extract_entries dir [] = pure tt
  extract_entries dir (entry ∷ entries) = do extract_entry dir entry; extract_entries dir entries

  unfoldable pub extract_zip : Text → Text → Exec (Store e) (Unit {0})
  extract_zip zip dir = do
    entries ← require invalid_zip (e.formats.open_zip zip)
    extract_entries dir entries

  abbrev pub cache_dir : Application → Text
  cache_dir app = clean (packages ++ e.bytes app.id)

  unfoldable pub prepare_code_package : Application → Exec (Store e) Text
  prepare_code_package app = do
    raise_if (str_eq app.source_key "") no_code_package
    raise_if (not e.has_storage) storage_unavailable
    zip ← on_objects e (e.files.download app.source_key)
    on_disk e (e.files.remove_all (cache_dir app))
    on_disk e (e.files.mkdir_all (cache_dir app))
    extract_zip zip (cache_dir app)
    pure (cache_dir app)
