-- ===== src/Mcp/Catalog/Files.antt =====
-- backend/internal/mcp/tools/file_tools.go
use suzuran.Prelude.{ℕ, ◌*◌, ◌^◌, ◌%◌, Option, none, some, String, List, [], ◌∷◌}
use suzuran.Prelude.Error.{bad_base64}
use suzuran.Prelude.Int.{ℤ, int64_of, at_least_zero}
use suzuran.Prelude.Result.{Result, ok, err}
use suzuran.Prelude.Exec.{Exec, pure, lift, ◌>>=◌, ◌>>◌}
use suzuran.Prelude.Text.{Text}
use suzuran.Storage.{
  Client, FileInfo, UploadResult, upload_file, get_presigned_url, delete_file, list_files,
}
use suzuran.Mcp.Request.{
  Numbers, Request, Tool, get_int_arg, get_string_arg, get_optional_int_arg,
  get_optional_string_arg, returning,
}

pub data FileReply : Type 0 where
  uploaded : UploadResult → FileReply
  presigned : String → ℕ → FileReply
  files : ℕ → List FileInfo → FileReply
  done : FileReply

-- `time.Duration(k) * time.Minute`, in nanoseconds
abbrev pub minutes : ℕ → ℤ
minutes k = int64_of (k * (60 * 10 ^ 9) % 2 ^ 64)

abbrev decoded : Option Text → Result Text
decoded none = err bad_base64
decoded (some t) = ok t

module _ (c : Client) (n : Numbers) (decimal : ℕ → String) (decode_base64 : String → Option Text)
    (nanoseconds : ℕ) where
  abbrev Handler : Type 0
  Handler = Request n → Exec c.Bucket FileReply

  unfoldable pub handle_file_upload : Handler
  handle_file_upload r = do
    org ← lift (get_int_arg n r.args "orgId")
    name ← lift (get_string_arg n r.args "fileName")
    base64 ← lift (get_string_arg n r.args "fileBase64")
    kind ← lift (get_string_arg n r.args "contentType")
    content ← lift (decoded (decode_base64 base64))
    result ← upload_file c decimal nanoseconds org name content kind
    pure (uploaded result)

  unfoldable pub handle_file_download : Handler
  handle_file_download r = do
    key ← lift (get_string_arg n r.args "objectKey")
    url ←
        get_presigned_url c decimal key (minutes (get_optional_int_arg n r.args "expiryMinutes" 60))
    pure (presigned url (get_optional_int_arg n r.args "expiryMinutes" 60))

  unfoldable pub handle_file_delete : Handler
  handle_file_delete r = do
    key ← lift (get_string_arg n r.args "objectKey")
    delete_file c decimal key
    pure done

  unfoldable pub handle_file_list : Handler
  handle_file_list r = do
    org ← lift (get_int_arg n r.args "orgId")
    found ←
        list_files c decimal org (get_optional_string_arg n r.args "prefix" "")
          (at_least_zero (get_optional_int_arg n r.args "limit" 100))
    pure (files org found)

  unfoldable pub handle_file_presigned_url : Handler
  handle_file_presigned_url r = do
    key ← lift (get_string_arg n r.args "objectKey")
    url ←
        get_presigned_url c decimal key (minutes (get_optional_int_arg n r.args "expiryMinutes" 60))
    pure (presigned url (get_optional_int_arg n r.args "expiryMinutes" 60))

  abbrev pub FileTool : Type 0
  FileTool = Tool n c.Bucket FileReply

  abbrev pub file_upload : FileTool
  file_upload = record {
    name = "file.upload";
    required_scope = "file.write";
    properties =
        ("orgId", "integer")
        ∷ ("fileName", "string")
        ∷ ("fileBase64", "string")
        ∷ ("contentType", "string")
        ∷ [];
    required = "orgId" ∷ "fileName" ∷ "fileBase64" ∷ "contentType" ∷ [];
    handler = λ r. returning (handle_file_upload r);
  }

  abbrev pub file_download : FileTool
  file_download = record {
    name = "file.download";
    required_scope = "file.read";
    properties = ("objectKey", "string") ∷ ("expiryMinutes", "integer") ∷ [];
    required = "objectKey" ∷ [];
    handler = λ r. returning (handle_file_download r);
  }

  abbrev pub file_delete : FileTool
  file_delete = record {
    name = "file.delete";
    required_scope = "file.write";
    properties = ("objectKey", "string") ∷ [];
    required = "objectKey" ∷ [];
    handler = λ r. returning (handle_file_delete r);
  }

  abbrev pub file_list : FileTool
  file_list = record {
    name = "file.list";
    required_scope = "file.read";
    properties = ("orgId", "integer") ∷ ("prefix", "string") ∷ ("limit", "integer") ∷ [];
    required = "orgId" ∷ [];
    handler = λ r. returning (handle_file_list r);
  }

  abbrev pub file_presigned_url : FileTool
  file_presigned_url = record {
    name = "file.presigned_url";
    required_scope = "file.read";
    properties = ("objectKey", "string") ∷ ("expiryMinutes", "integer") ∷ [];
    required = "objectKey" ∷ [];
    handler = λ r. returning (handle_file_presigned_url r);
  }

  abbrev pub file_tools : List FileTool
  file_tools = file_upload ∷ file_download ∷ file_delete ∷ file_list ∷ file_presigned_url ∷ []
