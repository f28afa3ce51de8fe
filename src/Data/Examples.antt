-- ===== src/Data/Examples.antt =====
-- The data service at a database that counts statements.
use suzuran.Prelude.{
  ℕ, suc, ◌≡◌, refl, true, false, none, some, [], ◌∷◌, ◌++◌, str_eq, if◌then◌else◌, arith,
}
use suzuran.Prelude.Result.{ok}
use suzuran.Prelude.Text.{Text, cut, trim, is_space}
use suzuran.Gorm.Memory.{memory, memory-IsGorm}
use suzuran.Data.Model.{Env, DataColumn, DataTable}
use suzuran.Data.Names.{validate_raw_sql, sanitize_app_id}
use suzuran.Data.Statements.{Data, pg_quote}
use suzuran.Data.Quoting.{is_name, read_identifier, read_identifier-pg_quote}
use suzuran.Data.Service.{
  Store, insert, batch_insert, query, update, delete, count, add_column, describe_table, drop_table,
}
use suzuran.Data.Ownership.{Refused, unowned-Refused}

-- "from "
abbrev from_bytes : Text
from_bytes = b'f' ∷ b'r' ∷ b'o' ∷ b'm' ∷ b' ' ∷ []

abbrev pub env : Env
env = record {
  gorm = memory;
  Value = ℕ;
  of_int = λ n. n;
  marshal = λ n. n;
  show = λ n. n ∷ [];
  bytes = λ s. if str_eq s "from " then from_bytes else 0 ∷ [];
  decimal = λ n. n ∷ [];
  to_lower = λ t. t;
  Engine = ℕ;
  Row = ℕ;
  exec = λ sql values n. (ok 1, suc n);
  query_rows = λ sql values n. (ok [], suc n);
  scan_int = λ sql values n. (ok 1, suc n);
}

-- The table "t" of the application "a" belongs to organisation 1.
abbrev owned : DataTable env
owned = record { id = 1; app_id = b'a' ∷ []; org_id = 1; logical_name = b't' ∷ []; columns = [] }

abbrev store : Store env
store = record { tables = owned ∷ []; engine = 0 }

abbrev column : DataColumn env
column = record {
  name = b'c' ∷ [];
  kind = b'i' ∷ [];
  nullable = true;
  primary_key = false;
  default_value = none;
}

-- a"b
abbrev quoted : Text
quoted = b'a' ∷ b'"' ∷ b'b' ∷ []

read_identifier-pg_quote_example :
    read_identifier (pg_quote quoted ++ b' ' ∷ [])
    ≡ (if is_name quoted then some (quoted, b' ' ∷ []) else none)
read_identifier-pg_quote_example = read_identifier-pg_quote quoted (b' ' ∷ []) (ground arith)

abbrev row : Data env
row = (b'c' ∷ [], 7) ∷ []

abbrev filters : Data env
filters = (b'd' ∷ [], 8) ∷ (b'e' ∷ [], 9) ∷ []

unowned-Refused_example :
    Refused store (insert env (b'a' ∷ []) 2 (b't' ∷ []) row store)
    × Refused store (batch_insert env (b'a' ∷ []) 2 (b't' ∷ []) (row ∷ []) store)
    × Refused store (query env (b'a' ∷ []) 2 (b't' ∷ []) filters [] 0 0 store)
    × Refused store (update env (b'a' ∷ []) 2 (b't' ∷ []) filters row store)
    × Refused store (delete env (b'a' ∷ []) 2 (b't' ∷ []) filters store)
    × Refused store (count env (b'a' ∷ []) 2 (b't' ∷ []) filters store)
    × Refused store (add_column env (b'a' ∷ []) 2 (b't' ∷ []) column store)
    × Refused store (describe_table env (b'a' ∷ []) 2 (b't' ∷ []) store)
    × Refused store (drop_table env (b'a' ∷ []) 2 (b't' ∷ []) store)
unowned-Refused_example =
    unowned-Refused env memory-IsGorm (b'a' ∷ []) 2 (b't' ∷ []) store refl filters row (row ∷ []) []
      0 0 column

-- Only the first table after a keyword is looked at: "from a_t, from b".
second_unchecked :
    validate_raw_sql env
      (from_bytes ++ b'a' ∷ b'_' ∷ b't' ∷ b' ' ∷ (from_bytes ++ b'b' ∷ []))
      (b'a' ∷ [])
    ≡ ok tt
unfolding validate_raw_sql sanitize_app_id cut trim is_space
second_unchecked = refl
