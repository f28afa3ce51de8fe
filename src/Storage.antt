-- ===== src/Storage.antt =====
-- The object storage: backend/internal/storage/minio.go. The MinIO client is a parameter.
use suzuran.Prelude.{ℕ, zero, suc, String, str_append, str_eq, List, [], ◌∷◌, ◌==◌, if◌then◌else◌}
use suzuran.Prelude.Int.{ℤ}
use suzuran.Prelude.Result.{Result, ok, err}
use suzuran.Prelude.Exec.{Exec, pure, ◌>>=◌}
use suzuran.Prelude.Text.{Text}

-- storage.FileInfo, without the time
pub record FileInfo : Type 0 where
  pub object_key : String
  pub size : ℕ
  pub content_type : String

pub record UploadResult : Type 0 where
  pub object_key : String
  pub url : String
  pub size : ℕ

-- minio.Client upon one bucket: the size of what was put, the content and its size, a URL for some
-- nanoseconds, and the objects under a prefix, each one or the error of the listing
pub record Client : Type 1 where
  pub Bucket : Type 0
  pub put : String → Text → String → Exec Bucket ℕ
  pub get : String → Bucket → Result (Text × ℕ)
  pub presign : String → ℤ → Bucket → Result String
  pub remove : String → Exec Bucket (Unit {0})
  pub list : String → Bucket → List (Result FileInfo)

-- "orgs/%d/files/"; `decimal` is fmt's %d
abbrev pub org_prefix : (ℕ → String) → ℕ → String
org_prefix decimal org = str_append "orgs/" (str_append (decimal org) "/files/")

abbrev and_file : FileInfo → Result (List FileInfo) → Result (List FileInfo)
and_file f (ok fs) = ok (f ∷ fs)
and_file f (err x) = err x

-- Files are taken from the listing until there are enough of them.
abbrev pub take_files : ℕ → List (Result FileInfo) → Result (List FileInfo)
take_files k [] = ok []
take_files k (err x ∷ t) = err x
take_files zero (ok f ∷ t) = ok (f ∷ [])
take_files (suc zero) (ok f ∷ t) = ok (f ∷ [])
take_files (suc (suc k)) (ok f ∷ t) = and_file f (take_files (suc k) t)

module _ (c : Client) (decimal : ℕ → String) where
  unfoldable pub upload_file : ℕ → ℕ → String → Text → String → Exec c.Bucket UploadResult
  upload_file nanoseconds org name content kind = do
    let key =
        str_append (org_prefix decimal org) (str_append (decimal nanoseconds) (str_append "_" name))
    size ← c.put key content kind
    pure (record { object_key = key; url = str_append "/api/files/" key; size = size })

  unfoldable pub upload_file_raw : String → Text → String → Exec c.Bucket UploadResult
  upload_file_raw key content kind = do
    size ← c.put key content kind
    pure (record { object_key = key; url = ""; size = size })

  unfoldable pub download_file : String → Exec c.Bucket (Text × ℕ)
  download_file key b = (c.get key b, b)

  unfoldable pub get_presigned_url : String → ℤ → Exec c.Bucket String
  get_presigned_url key expiry b = (c.presign key expiry b, b)

  unfoldable pub delete_file : String → Exec c.Bucket (Unit {0})
  delete_file key = c.remove key

  unfoldable pub list_files : ℕ → String → ℕ → Exec c.Bucket (List FileInfo)
  list_files org prefix limit b = (
    take_files (if limit == 0 then 100 else limit) (
        c.list
          (if str_eq prefix ""
            then org_prefix decimal org
            else str_append (org_prefix decimal org) prefix)
          b),
    b,
  )
