-- ===== src/Data/Model.antt =====
-- backend/internal/model/data_table.go, and what the data service uses of PostgreSQL and of Go: a
-- text is the list of its bytes, and a JSON value is a value of the parameter `Value`.
use suzuran.Prelude.{ℕ, String, Bool, Option, List}
use suzuran.Prelude.Exec.{Exec}
use suzuran.Prelude.Text.{Text}
use suzuran.Gorm.{Gorm}

pub record Env : Type 1 where
  pub gorm : Gorm
  pub Value : Type 0
  -- an `int` as a value, the JSON form of maps and slices, and fmt's %v
  pub of_int : ℕ → Value
  pub marshal : Value → Value
  pub show : Value → Text
  pub bytes : String → Text
  -- fmt's %d
  pub decimal : ℕ → Text
  -- strings.ToLower
  pub to_lower : Text → Text
  -- the database behind gorm's Exec and Raw, with the values of the placeholders
  pub Engine : Type 0
  pub Row : Type 0
  pub exec : Text → List Value → Exec Engine ℕ
  pub query_rows : Text → List Value → Exec Engine (List Row)
  pub scan_int : Text → List Value → Exec Engine ℕ

-- a column of the type that the user wrote
pub record DataColumn (e : Env) : Type 0 where
  pub name : Text
  pub kind : Text  -- json "type"
  pub nullable : Bool
  pub primary_key : Bool
  pub default_value : Option e.Value

pub record DataTable (e : Env) : Type 0 where
  pub id : ℕ
  pub app_id : Text
  pub org_id : ℕ
  pub logical_name : Text
  pub columns : List (DataColumn e)
