-- ===== src/Data/Names.antt =====
-- The checks of backend/internal/service/data_service.go on names, types and raw statements.
use suzuran.Prelude.{
  ℕ, Bool, true, false, not, ◌&&◌, ◌||◌, Option, none, some, String, List, [], ◌∷◌, ◌++◌, length,
  ltb, leb, ◌==◌, if◌then◌else◌,
}
use suzuran.Prelude.Error.{
  table_name_empty, table_name_too_long, bad_table_name, unsupported_type, foreign_table,
}
use suzuran.Prelude.Result.{Result, ok, reject_if, ◌>>◌}
use suzuran.Prelude.Text.{Text, text_eq, has_prefix, is_space, trim, cut}
use suzuran.Data.Model.{Env}

abbrev pub is_lower : ℕ → Bool
is_lower c = leb b'a' c && leb c b'z'

abbrev pub is_upper : ℕ → Bool
is_upper c = leb b'A' c && leb c b'Z'

abbrev pub is_digit : ℕ → Bool
is_digit c = leb b'0' c && leb c b'9'

-- ^[a-z0-9_]+$
abbrev all_named : Text → Bool
all_named [] = true
all_named (c ∷ t) = (is_lower c || is_digit c || c == b'_') && all_named t

unfoldable pub validate_table_name : Text → Result (Unit {0})
validate_table_name name = do
  reject_if (length name == 0) table_name_empty
  reject_if (ltb 63 (length name)) table_name_too_long
  reject_if (not (all_named name)) bad_table_name
  ok tt

-- [^a-zA-Z0-9]+ becomes one underscore; `inside` says that the run has begun.
abbrev pub is_alphanumeric : ℕ → Bool
is_alphanumeric c = is_lower c || is_upper c || is_digit c

abbrev pub squeeze : Bool → Text → Text
squeeze inside [] = []
squeeze inside (c ∷ t) =
    let rest = squeeze (not (is_alphanumeric c)) t in
    if is_alphanumeric c then c ∷ rest else if inside then rest else b'_' ∷ rest

unfoldable pub sanitize_app_id : Text → Text
sanitize_app_id id = squeeze false id

-- `%s_%s`
abbrev pub physical_name : Text → Text → Text
physical_name app table = sanitize_app_id app ++ b'_' ∷ table

abbrev pub one_of : (String → Text) → List String → Text → Bool
one_of bytes [] t = false
one_of bytes (s ∷ l) t = text_eq (bytes s) t || one_of bytes l t

-- the text up to the first space
abbrev pub first_field : Text → Text
first_field [] = []
first_field (c ∷ t) = let rest = first_field t in if c == b' ' then [] else c ∷ rest

abbrev is_quote : ℕ → Bool
is_quote c = c == b'"' || c == 39

module _ (e : Env) where
  abbrev pub allowed_types : List String
  allowed_types =
      "text" ∷ "string" ∷ "integer" ∷ "int" ∷ "boolean" ∷ "bool" ∷ "timestamp" ∷ "datetime"
      ∷ "jsonb" ∷ "json" ∷ "numeric" ∷ "decimal" ∷ "float" ∷ "date" ∷ []

  unfoldable pub validate_column_type : Text → Result (Unit {0})
  validate_column_type kind =
      reject_if (not (one_of e.bytes allowed_types (e.to_lower kind))) unsupported_type

  -- The table that the first occurrence of the keyword names belongs to the application.
  abbrev pub names_own : Text → Option (Text × Text) → Bool
  names_own prefix none = true
  names_own prefix (some (before, rest)) =
      has_prefix (trim is_quote (first_field (trim is_space rest))) prefix

  abbrev pub check_keywords : Text → Text → List String → Result (Unit {0})
  check_keywords sql prefix [] = ok tt
  check_keywords sql prefix (k ∷ keywords) = do
    reject_if (not (names_own prefix (cut (e.bytes k) sql))) foreign_table
    check_keywords sql prefix keywords

  unfoldable pub validate_raw_sql : Text → Text → Result (Unit {0})
  validate_raw_sql sql app =
      check_keywords (e.to_lower sql) (sanitize_app_id app)
        ("from " ∷ "into " ∷ "update " ∷ "join " ∷ [])
