-- ===== src/Mcp/Catalog/Columns.antt =====
-- The arguments of backend/internal/mcp/tools/data_tools.go that are objects and arrays: rows,
-- filters, parameters and columns.
use suzuran.Prelude.{◌&&◌, Bool, true, false, Option, none, some, String, List, [], ◌∷◌}
use suzuran.Prelude.Error.{bad_column, bad_row, panicked}
use suzuran.Prelude.Result.{Result, ok, err, ◌>>=◌}
use suzuran.Data.Model.{Env, DataColumn}
use suzuran.Data.Statements.{Data}
use suzuran.Mcp.Request.{
  Numbers, Json, null, object, Elements, nothing, element, empty, entry, Args,
  get_optional_bool_arg, maybe_bool, or_default, member_as, as_string, find_member,
}

-- `m[key].(string)` without a second result panics on anything else.
abbrev or_panic : Option String → Result String
or_panic none = err panicked
or_panic (some s) = ok s

-- `value_of` is the value that the database gets for a decoded value.
module _ (e : Env) (n : Numbers) (value_of : Json n.Number → e.Value) where
  abbrev pub data_of : Args n → Data e
  data_of empty = []
  data_of (entry k v t) = (e.bytes k, value_of v) ∷ data_of t

  abbrev pub values_of : Elements n.Number → List e.Value
  values_of nothing = []
  values_of (element v l) = value_of v ∷ values_of l

  -- a map or a slice that is not there is nil

  abbrev pub filters_or_none : Option (Json n.Number) → Data e
  filters_or_none (some (object m)) = data_of m
  filters_or_none _ = []

  abbrev pub values_or_none : Option (Json n.Number) → List e.Value
  values_or_none (some (Json.array l)) = values_of l
  values_or_none _ = []

  -- null is nil, which is no default
  abbrev default_of : Option (Json n.Number) → Option e.Value
  default_of none = none
  default_of (some null) = none
  default_of (some v) = some (value_of v)

  -- A column; only that of CreateTable may be a primary key.
  abbrev pub column_of : Bool → Args n → Result (DataColumn e)
  column_of keyed m = do
    name ← or_panic (member_as as_string (find_member "name" m))
    kind ← or_panic (member_as as_string (find_member "type" m))
    ok (record {
      name = e.bytes name;
      kind = e.bytes kind;
      nullable = get_optional_bool_arg n m "nullable" true;
      primary_key = keyed && or_default false (maybe_bool n m "primaryKey");
      default_value = default_of (find_member "defaultValue" m);
    })

  abbrev pub columns_of : Elements n.Number → Result (List (DataColumn e))
  columns_of nothing = ok []
  columns_of (element (object m) l) = do
    col ← column_of true m
    cols ← columns_of l
    ok (col ∷ cols)
  columns_of (element _ l) = err bad_column

  abbrev pub rows_of : Elements n.Number → Result (List (Data e))
  rows_of nothing = ok []
  rows_of (element (object m) l) = do found ← rows_of l; ok (data_of m ∷ found)
  rows_of (element _ l) = err bad_row
