-- ===== src/App/Trials.antt =====
-- The import of an archive and the calls of the runtime at the environment of `Samples`.
use suzuran.Prelude.{All, ◌≡◌, refl, none, some, List, [], ◌∷◌, arith}
use suzuran.Prelude.Int.{pos}
use suzuran.Prelude.Result.{ok}
use suzuran.Prelude.Exec.{◌>>=◌}
use suzuran.Prelude.Text.{Text}
use suzuran.Gorm.Memory.{memory-IsGorm}
use suzuran.App.Package.{
  ZipEntry, Reads, chunk, eof, segments, check_entry, check_entries, clean, read_all_limited,
  validate_manifest, parse_app_zip,
}
use suzuran.App.Package.Stays.{Stays, parse_app_zip-Stays}
use suzuran.App.Package.Limits.{
  IsAccepted, parse_app_zip-IsAccepted, within, contents, returned, read_all_limited_reads,
}
use suzuran.App.Store.{get_app, update_app_row}
use suzuran.App.Runtime.Extract.{extract_zip}
use suzuran.App.Runtime.Confined.{LeadsInto, extract_zip_confined}
use suzuran.App.Runtime.Steps.{Moves, phase, start}
use suzuran.App.Runtime.Lifecycle.{perform, perform-Moves}
use suzuran.App.Service.{UpdateAppRequest, get_existing, update_app, updated, import_app}
use suzuran.App.Service.Imports.{Outcome, import_app-Outcome}
use suzuran.App.Samples.{env, formats, manifest, stopped, store}

parse_app_zip-IsAccepted_example : IsAccepted formats (1 ∷ []) manifest
unfolding parse_app_zip check_entries check_entry clean segments read_all_limited validate_manifest
parse_app_zip-IsAccepted_example = parse_app_zip-IsAccepted formats (1 ∷ []) manifest refl

-- "a/../b"
parse_app_zip-Stays_example :
    (entries : List ZipEntry) × (formats.open_zip (1 ∷ []) ≡ some entries)
    × All (λ entry. Stays entry ((b'w' ∷ []) ∷ [])) entries
unfolding parse_app_zip check_entries check_entry clean segments read_all_limited validate_manifest
parse_app_zip-Stays_example = parse_app_zip-Stays formats (1 ∷ []) manifest ((b'w' ∷ []) ∷ []) refl

abbrev two_reads : Reads
two_reads = chunk (1 ∷ 2 ∷ []) (chunk (3 ∷ []) eof)

read_all_limited_reads_example :
    returned (read_all_limited [] 0 two_reads 3) ≡ within 3 (contents two_reads)
read_all_limited_reads_example =
    read_all_limited_reads two_reads 3 (omega arith) (omega arith, (omega arith, tt))

abbrev EachLeadsInto : List Text → Type 0
EachLeadsInto = All (LeadsInto (b'd' ∷ []))

extract_zip_confined_example : EachLeadsInto (extract_zip env (1 ∷ []) (b'd' ∷ []) store).1.disk
extract_zip_confined_example =
    extract_zip_confined env b'd' [] refl EachLeadsInto
      (record { by_mkdir = λ t d h. h; by_write = λ t c d q h. (q, h) }) (1 ∷ []) store tt

perform-Moves_example :
    Moves
      (start "a1")
      "a1"
      (phase "a1" store.apps)
      (phase "a1" (perform env (start "a1") store).apps)
perform-Moves_example =
    perform-Moves env memory-IsGorm
      (record { created_named = λ c x id q. λ bad. let no : ⊥ = cc in no }) (start "a1") "a1" store

import_app-Outcome_example :
    Outcome env memory-IsGorm "a2" 1 (1 ∷ []) store (import_app env "a2" 1 (1 ∷ []) store)
import_app-Outcome_example = import_app-Outcome env memory-IsGorm "a2" 1 (1 ∷ []) store (refl, tt)

-- UpdateApp takes a port that CreateApp refuses.
abbrev port_80 : UpdateAppRequest
port_80 = record {
  name = none;
  version = none;
  runtime = none;
  entrypoint = none;
  port = some (pos 80);
  cpu_quota = none;
  memory_quota = none;
  db_conn_quota = none;
  mcp_scopes = none;
}

port_unchecked : (update_app env "a1" port_80 store).0 ≡ ok (updated port_80 stopped)
unfolding update_app get_existing get_app update_app_row ◌>>=◌
port_unchecked = refl
