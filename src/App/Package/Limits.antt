-- ===== src/App/Package/Limits.antt =====
-- The limits of parseAppZip and readAllLimited of backend/internal/service/app_import_service.go.
use mathlib.Core.List.{append-nil, append_assoc}
use suzuran.Prelude.{
  length-append, ℕ, ◌+◌, ◌≤◌, ◌<◌, ◌^◌, ◌≡◌, ◌≢◌, refl, sym, ap, subst, ◌∙◌, inl, inr, true, false,
  Option, none, some, Option-cases, str_eq_iff, List, [], ◌∷◌, ◌++◌, length, All, Bool-cases, ltb,
  leb, if◌then◌else◌, arith,
}
use suzuran.Prelude.Result.{Result-cases, Result, ok, err, >>=-ok}
use suzuran.Prelude.Text.{Text}
use suzuran.App.Package.{
  max_zip_size, max_zip_entries, max_file_size, add64, above, Reads, eof, broken, chunk, ZipEntry,
  AppManifest, Formats, forward, clean, is_unsafe, read_all_limited, read_manifest, check_entry,
  check_entries, in_port_range, validate_manifest, parse_app_zip,
}

add64_small : (a b : ℕ) → a + b < 2 ^ 63 → add64 a b ≡ a + b
add64_small a b h = omega arith

above_small : (a limit : ℕ) → a < 2 ^ 63 → above a limit ≡ ltb limit a
above_small a limit h = ground arith

-- An entry that unpacks safely: its name stays below the target, and its size is in bounds.
abbrev pub IsSafeEntry : ZipEntry → Type 0
IsSafeEntry e = (is_unsafe (clean (forward e.name)) ≡ false) × (e.uncompressed_size ≤ max_file_size)

abbrev pub total_size : List ZipEntry → ℕ
total_size [] = 0
total_size (e ∷ t) = e.uncompressed_size + total_size t

check_entry-ok :
    (total : ℕ) (found : Option Text) (e : ZipEntry) (next : ℕ × Option Text)
    → total ≤ max_zip_size
    → check_entry total found e ≡ ok next
    → IsSafeEntry e × (next.0 ≡ total + e.uncompressed_size) × (next.0 ≤ max_zip_size)
unfolding check_entry
check_entry-ok total found e next h q =
    elim (Result-cases (read_manifest found (clean (forward e.name)) e)) [
      | inl (m, r) ↦ ground (
        arith,
        add64_small total e.uncompressed_size,
        above_small (add64 total e.uncompressed_size) max_zip_size,
        rw r at q,
      )
      | inr (x, r) ↦ let bad : ⊥ = ground (arith, rw r at q) in absurd bad
    ]

check_entries-ok :
    (total : ℕ) (found : Option Text) (entries : List ZipEntry) (m : Option Text)
    → total ≤ max_zip_size
    → check_entries total found entries ≡ ok m
    → All IsSafeEntry entries × (total + total_size entries ≤ max_zip_size)
unfolding check_entries
check_entries-ok total found [] m h q = (tt, omega (arith, h))
check_entries-ok total found (e ∷ entries) m h q =
    let (next, r, later) =
      >>=-ok (check_entry total found e) (λ n. check_entries n.0 n.1 entries) m q in
    let (safe, sum, bounded) = check_entry-ok total found e next h r in
    let (rest, sums) = check_entries-ok next.0 next.1 entries m bounded later in
    ((safe, rest), omega (arith, sum, sums))

-- the manifest that validateManifest accepts
abbrev pub IsManifest : AppManifest → Type 0
IsManifest m =
    (m.name ≢ "") × (m.runtime ≢ "") × (m.entrypoint ≢ "") × (in_port_range m.port ≡ true)

validate_manifest-ok : (m : AppManifest) → validate_manifest m ≡ ok tt → IsManifest m
unfolding validate_manifest
validate_manifest-ok m q = (
  (λ e. let bad : ⊥ = ground (arith, (str_eq_iff m.name "").1 e) in bad),
  (λ e. let bad : ⊥ = ground (arith, (str_eq_iff m.runtime "").1 e) in bad),
  (λ e. let bad : ⊥ = ground (arith, (str_eq_iff m.entrypoint "").1 e) in bad),
  ground arith,
)

module _ (f : Formats) where
  abbrev pub IsAccepted : Text → AppManifest → Type 0
  IsAccepted zip m =
      (entries : List ZipEntry) × (f.open_zip zip ≡ some entries)
      × (length entries ≤ max_zip_entries)
      × All IsSafeEntry entries
      × (total_size entries ≤ max_zip_size)
      × IsManifest m

  -- An archive that parseAppZip accepts with a manifest has 500 entries at most, each with a name
  -- that the path check lets through and of 20 MB at most, and of 50 MB together, though the code
  -- adds the sizes in 64 bits that wrap; the manifest has a name, a runtime, an entrypoint and a
  -- port from 1024 to 65535.
  pub parse_app_zip-IsAccepted :
      (zip : Text) (m : AppManifest) → parse_app_zip f zip ≡ ok m → IsAccepted zip m
  unfolding parse_app_zip
  parse_app_zip-IsAccepted zip m q = elim (Option-cases (f.open_zip zip)) [
    | inl e ↦ let bad : ⊥ = ground (arith, rw e at q) in absurd bad
    | inr (entries, e) ↦ elim (Result-cases (check_entries 0 none entries)) [
      | inr (x, r) ↦ let bad : ⊥ = ground (arith, rw (e, r) at q) in absurd bad
      | inl (none, r) ↦ let bad : ⊥ = ground (arith, rw (e, r) at q) in absurd bad
      | inl (some d, r) ↦ elim (Option-cases (f.unmarshal d)) [
        | inl u ↦ let bad : ⊥ = ground (arith, rw (e, r, u) at q) in absurd bad
        | inr (n, u) ↦ elim (Result-cases (validate_manifest n)) [
          | inr (x, v) ↦ let bad : ⊥ = ground (arith, rw (e, r, u, v) at q) in absurd bad
          | inl (tt, v) ↦
              let (safe, sum) = check_entries-ok 0 none entries (some d) (omega arith) r in
              let same : n ≡ m = ground (arith, rw (e, r, u, v) at q) in
              (
                entries,
                e,
                ground (arith, rw (e, r, u, v) at q),
                safe,
                omega (arith, sum),
                subst IsManifest same (validate_manifest-ok n v),
              )
        ]
      ]
    ]
  ]

abbrev pub after : Text → Option Text → Option Text
after buf none = none
after buf (some t) = some (buf ++ t)

-- the bytes that a reader gives, if it reaches the end
abbrev pub contents : Reads → Option Text
contents eof = some []
contents broken = none
contents (chunk t r) = after t (contents r)

abbrev pub within : ℕ → Option Text → Option Text
within limit none = none
within limit (some t) = if leb (length t) limit then some t else none

abbrev pub returned {ℓ} : {A : Type ℓ} → Result A → Option A
returned (ok a) = some a
returned (err x) = none

-- the buffer of one call of `Read`
abbrev pub Chunked : Reads → Type 0
Chunked eof = Unit
Chunked broken = Unit
Chunked (chunk t r) = (length t ≤ 32768) × Chunked r

after-after : (a b : Text) (o : Option Text) → after a (after b o) ≡ after (a ++ b) o
after-after a b none = refl
after-after a b (some t) = ap some (sym (append_assoc a b t))

after-nil : (o : Option Text) → after [] o ≡ o
after-nil none = refl
after-nil (some t) = refl

-- What is longer than the limit already stays so.
within_longer :
    (buf : Text) (o : Option Text) (limit : ℕ)
    → limit < length buf
    → within limit (after buf o) ≡ none
within_longer buf none limit h = refl
within_longer buf (some t) limit h = ground (arith, length-append buf t)

read_all_from :
    (buf : Text) (r : Reads) (limit : ℕ)
    → limit < 2 ^ 62
    → length buf ≤ limit
    → Chunked r
    → returned (read_all_limited buf (length buf) r limit) ≡ within limit (after buf (contents r))
unfolding read_all_limited
read_all_from buf eof limit hl hb c = rw (append-nil buf) (ground arith)
read_all_from buf broken limit hl hb c = refl
read_all_from buf (chunk t r) limit hl hb c =
    let sum : add64 (length buf) (length t) ≡ length (buf ++ t) =
      omega (arith, add64_small (length buf) (length t), length-append buf t, c.0) in
    let small : length (buf ++ t) < 2 ^ 63 = omega (arith, length-append buf t, c.0) in
    rw (sum, above_small (length (buf ++ t)) limit small, after-after buf t (contents r))
      (elim (Bool-cases (ltb limit (length (buf ++ t)))) [
        | inl e ↦ rw e (sym (within_longer (buf ++ t) (contents r) limit (ground arith)))
        | inr e ↦ rw e (read_all_from (buf ++ t) r limit hl (ground arith) c.1)
      ])

-- readAllLimited returns everything that the reader gives, when this ends without an error and is
-- not longer than the limit, and reports an error otherwise. The limit is below 2^62, and no `Read`
-- gives more than the 32 KB of its buffer.
pub read_all_limited_reads :
    (r : Reads) (limit : ℕ)
    → limit < 2 ^ 62
    → Chunked r
    → returned (read_all_limited [] 0 r limit) ≡ within limit (contents r)
read_all_limited_reads r limit h c =
    read_all_from [] r limit h (omega arith) c ∙ ap (within limit) (after-nil (contents r))
