-- ===== src/App/Package.antt =====
-- backend/internal/service/app_import_service.go, up to the manifest that an archive carries. The
-- zip reader and the JSON decoder are parameters; what the code uses of Go's `path` and `strings`
-- is modelled. A name is the list of its bytes.
pub mod Meaning
pub mod Paths
pub mod Stays
pub mod Limits
use suzuran.Prelude.{
  ℕ, ◌+◌, ◌%◌, ◌^◌, Bool, true, false, not, ◌&&◌, ◌||◌, String, Option, none, some, List, [], ◌∷◌,
  ◌++◌, map, reverse, length, str_eq, ltb, leb, ◌==◌, if◌then◌else◌,
}
use suzuran.Prelude.Error.{
  Error, invalid_zip, too_many_entries, unsafe_path, expands_beyond, entry_too_large,
  unreadable_entry, file_exceeds, manifest_missing, invalid_manifest, manifest_without_name,
  manifest_without_runtime, manifest_without_entrypoint, manifest_port,
}
use suzuran.Prelude.Int.{ℤ, pos, negsuc}
use suzuran.Prelude.Result.{Result, ok, err, reject_if, ◌>>=◌, ◌>>◌}
use suzuran.Prelude.Text.{Text, text_eq, has_prefix}

abbrev pub max_zip_size : ℕ
max_zip_size = 52428800

abbrev pub max_zip_entries : ℕ
max_zip_entries = 500

abbrev pub max_file_size : ℕ
max_file_size = 20971520

-- int64 in two's complement: the sum, and the signed test `a > limit` for a limit that is not
-- negative
abbrev pub add64 : ℕ → ℕ → ℕ
add64 a b = (a + b) % 2 ^ 64

abbrev pub above : ℕ → ℕ → Bool
above a limit = ltb a (2 ^ 63) && ltb limit a

-- What the successive calls of `Read` give: bytes, until the end or an error.
pub data Reads : Type 0 where
  eof : Reads
  broken : Reads
  chunk : Text → Reads → Reads

-- an entry of the archive; `content` is `none` when it cannot be opened
pub record ZipEntry : Type 0 where
  pub name : Text
  pub uncompressed_size : ℕ
  pub is_dir : Bool
  pub content : Option Reads

pub record AppManifest : Type 0 where
  pub name : String
  pub version : String
  pub runtime : String
  pub entrypoint : String
  pub port : ℤ
  pub resources : List (String × String)
  pub mcp_scopes : List String

-- zip.NewReader and json.Unmarshal
pub record Formats : Type 0 where
  pub open_zip : Text → Option (List ZipEntry)
  pub unmarshal : Text → Option AppManifest

-- strings.ReplaceAll(name, "\\", "/")
abbrev pub forward : Text → Text
forward = map (λ c. if c == b'\\' then b'/' else c)

-- The segments between the slashes.
abbrev pub onto_first : ℕ → List Text → List Text
onto_first c [] = (c ∷ []) ∷ []
onto_first c (s ∷ t) = (c ∷ s) ∷ t

unfoldable pub segments : Text → List Text
segments [] = [] ∷ []
segments (c ∷ t) = let rest = segments t in if c == b'/' then [] ∷ rest else onto_first c rest

abbrev pub dot_dot : Text
dot_dot = b'.' ∷ b'.' ∷ []

abbrev pub is_nothing : Text → Bool
is_nothing s = text_eq s [] || text_eq s (b'.' ∷ [])

-- `..` drops the last segment that was kept, unless that is a `..` itself; at the root it is
-- dropped.
abbrev pub go_up : Bool → List Text → List Text
go_up rooted [] = if rooted then [] else dot_dot ∷ []
go_up rooted (s ∷ kept) = if text_eq s dot_dot then dot_dot ∷ s ∷ kept else kept

-- one pass of its loop; the segments that it keeps stand in reverse
abbrev pub clean_step : Bool → List Text → Text → List Text
clean_step rooted kept s =
    if is_nothing s then kept else if text_eq s dot_dot then go_up rooted kept else s ∷ kept

abbrev pub clean_segments : Bool → List Text → List Text → List Text
clean_segments rooted kept [] = kept
clean_segments rooted kept (s ∷ t) = clean_segments rooted (clean_step rooted kept s) t

abbrev pub join : List Text → Text
join [] = []
join (s ∷ []) = s
join (s ∷ r ∷ t) = s ++ b'/' ∷ join (r ∷ t)

abbrev pub is_rooted : Text → Bool
is_rooted t = has_prefix t (b'/' ∷ [])

-- an empty result is "."
abbrev pub or_dot : Text → Text
or_dot [] = b'.' ∷ []
or_dot (c ∷ t) = c ∷ t

abbrev pub printed : Bool → List Text → Text
printed true kept = b'/' ∷ join kept
printed false kept = or_dot (join kept)

-- path.Clean
unfoldable pub clean : Text → Text
clean t = printed (is_rooted t) (reverse (clean_segments (is_rooted t) [] (segments t)))

abbrev pub is_unsafe : Text → Bool
is_unsafe t =
    has_prefix t (b'.' ∷ b'.' ∷ b'/' ∷ []) || has_prefix t (b'/' ∷ []) || text_eq t dot_dot

unfoldable pub read_all_limited : Text → ℕ → Reads → ℕ → Result Text
read_all_limited buf total eof limit = ok buf
read_all_limited buf total broken limit = err unreadable_entry
read_all_limited buf total (chunk bytes rest) limit =
    let sum = add64 total (length bytes) in
    let later = read_all_limited (buf ++ bytes) sum rest limit in
    if above sum limit then err file_exceeds else later

abbrev pub app_json : Text
app_json = b'a' ∷ b'p' ∷ b'p' ∷ b'.' ∷ b'j' ∷ b's' ∷ b'o' ∷ b'n' ∷ []

abbrev pub open_entry : Option Reads → Result Text
open_entry none = err unreadable_entry
open_entry (some r) = read_all_limited [] 0 r max_file_size

-- The manifest is read from the first entry that is `app.json`.
abbrev pub read_manifest : Option Text → Text → ZipEntry → Result (Option Text)
read_manifest (some bytes) name entry = ok (some bytes)
read_manifest none name entry =
    if text_eq name app_json
    then (do bytes ← open_entry entry.content; ok (some bytes))
    else ok none

-- one pass of the loop over the entries
unfoldable pub check_entry : ℕ → Option Text → ZipEntry → Result (ℕ × Option Text)
check_entry total found entry = do
  reject_if (is_unsafe (clean (forward entry.name))) unsafe_path
  reject_if (above (add64 total entry.uncompressed_size) max_zip_size) expands_beyond
  reject_if (ltb max_file_size entry.uncompressed_size) entry_too_large
  bytes ← read_manifest found (clean (forward entry.name)) entry
  ok (add64 total entry.uncompressed_size, bytes)

unfoldable pub check_entries : ℕ → Option Text → List ZipEntry → Result (Option Text)
check_entries total found [] = ok found
check_entries total found (entry ∷ entries) = do
  next ← check_entry total found entry
  check_entries next.0 next.1 entries

abbrev pub in_port_range : ℤ → Bool
in_port_range (pos n) = leb 1024 n && leb n 65535
in_port_range (negsuc n) = false

unfoldable pub validate_manifest : AppManifest → Result (Unit {0})
validate_manifest m = do
  reject_if (str_eq m.name "") manifest_without_name
  reject_if (str_eq m.runtime "") manifest_without_runtime
  reject_if (str_eq m.entrypoint "") manifest_without_entrypoint
  reject_if (not (in_port_range m.port)) manifest_port
  ok tt

abbrev found_or {ℓ} : {A : Type ℓ} → Error → Option A → Result A
found_or e none = err e
found_or e (some a) = ok a

unfoldable pub parse_app_zip : Formats → Text → Result AppManifest
parse_app_zip f zip = do
  entries ← found_or invalid_zip (f.open_zip zip)
  reject_if (ltb max_zip_entries (length entries)) too_many_entries
  found ← check_entries 0 none entries
  bytes ← found_or manifest_missing found
  m ← found_or invalid_manifest (f.unmarshal bytes)
  validate_manifest m
  ok m
