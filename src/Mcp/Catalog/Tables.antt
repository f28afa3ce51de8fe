-- ===== src/Mcp/Catalog/Tables.antt =====
-- backend/internal/mcp/tools/data_tools.go
use suzuran.Prelude.{ℕ, false, List}
use suzuran.Prelude.Int.{at_least_zero}
use suzuran.Prelude.Exec.{Exec, pure, lift, ◌>>=◌, ◌>>◌}
use suzuran.Data.Model.{Env, DataTable}
use suzuran.Data.Service.{
  Store, create_table, drop_table, list_tables, describe_table, insert, batch_insert, query, update,
  delete, count, add_column, exec_raw,
}
use suzuran.Mcp.Catalog.Columns.{
  data_of, column_of, columns_of, rows_of, filters_or_none, values_or_none,
}
use suzuran.Mcp.Request.{
  Numbers, Json, Request, get_int_arg, get_string_arg, get_optional_int_arg,
  get_optional_string_arg, get_object, get_array, find_member, get_app_id,
}

pub data DataReply (e : Env) : Type 0 where
  tables : List (DataTable e) → DataReply e
  table : DataTable e → DataReply e
  inserted : ℕ → DataReply e
  all_inserted : List ℕ → DataReply e
  rows : List e.Row → DataReply e
  counted : ℕ → DataReply e
  done : DataReply e

-- `value_of` is the value that the database gets for a decoded value.
module _ (e : Env) (n : Numbers) (value_of : Json n.Number → e.Value) where
  abbrev Handler : Type 0
  Handler = Request n → Exec (Store e) (DataReply e)

  unfoldable pub handle_create_table : Handler
  handle_create_table r = do
    org ← lift (get_int_arg n r.args "orgId")
    name ← lift (get_string_arg n r.args "tableName")
    items ← lift (get_array n r.args "columns")
    cols ← lift (columns_of e n value_of items)
    app ← lift (get_app_id r.caller)
    create_table e app org (e.bytes name) cols
    pure done

  unfoldable pub handle_drop_table : Handler
  handle_drop_table r = do
    org ← lift (get_int_arg n r.args "orgId")
    name ← lift (get_string_arg n r.args "tableName")
    app ← lift (get_app_id r.caller)
    drop_table e app org (e.bytes name)
    pure done

  unfoldable pub handle_list_tables : Handler
  handle_list_tables r = do
    org ← lift (get_int_arg n r.args "orgId")
    app ← lift (get_app_id r.caller)
    found ← list_tables e app org
    pure (tables found)

  unfoldable pub handle_describe_table : Handler
  handle_describe_table r = do
    org ← lift (get_int_arg n r.args "orgId")
    name ← lift (get_string_arg n r.args "tableName")
    app ← lift (get_app_id r.caller)
    found ← describe_table e app org (e.bytes name)
    pure (table found)

  unfoldable pub handle_insert : Handler
  handle_insert r = do
    org ← lift (get_int_arg n r.args "orgId")
    name ← lift (get_string_arg n r.args "tableName")
    row ← lift (get_object n r.args "data")
    app ← lift (get_app_id r.caller)
    id ← insert e app org (e.bytes name) (data_of e n value_of row)
    pure (inserted id)

  unfoldable pub handle_batch_insert : Handler
  handle_batch_insert r = do
    org ← lift (get_int_arg n r.args "orgId")
    name ← lift (get_string_arg n r.args "tableName")
    items ← lift (get_array n r.args "rows")
    found ← lift (rows_of e n value_of items)
    app ← lift (get_app_id r.caller)
    ids ← batch_insert e app org (e.bytes name) found
    pure (all_inserted ids)

  unfoldable pub handle_query : Handler
  handle_query r = do
    org ← lift (get_int_arg n r.args "orgId")
    name ← lift (get_string_arg n r.args "tableName")
    app ← lift (get_app_id r.caller)
    found ←
        query e app org (e.bytes name) (filters_or_none e n value_of (find_member "where" r.args))
          (e.bytes (get_optional_string_arg n r.args "orderBy" ""))
          (at_least_zero (get_optional_int_arg n r.args "limit" 100))
          (at_least_zero (get_optional_int_arg n r.args "offset" 0))
    pure (rows found)

  unfoldable pub handle_update : Handler
  handle_update r = do
    org ← lift (get_int_arg n r.args "orgId")
    name ← lift (get_string_arg n r.args "tableName")
    filters ← lift (get_object n r.args "where")
    row ← lift (get_object n r.args "data")
    app ← lift (get_app_id r.caller)
    k ← update e app org (e.bytes name) (data_of e n value_of filters) (data_of e n value_of row)
    pure (counted k)

  unfoldable pub handle_delete : Handler
  handle_delete r = do
    org ← lift (get_int_arg n r.args "orgId")
    name ← lift (get_string_arg n r.args "tableName")
    filters ← lift (get_object n r.args "where")
    app ← lift (get_app_id r.caller)
    k ← delete e app org (e.bytes name) (data_of e n value_of filters)
    pure (counted k)

  unfoldable pub handle_count : Handler
  handle_count r = do
    org ← lift (get_int_arg n r.args "orgId")
    name ← lift (get_string_arg n r.args "tableName")
    app ← lift (get_app_id r.caller)
    k ← count e app org (e.bytes name) (filters_or_none e n value_of (find_member "where" r.args))
    pure (counted k)

  unfoldable pub handle_add_column : Handler
  handle_add_column r = do
    org ← lift (get_int_arg n r.args "orgId")
    name ← lift (get_string_arg n r.args "tableName")
    item ← lift (get_object n r.args "column")
    col ← lift (column_of e n value_of false item)
    app ← lift (get_app_id r.caller)
    add_column e app org (e.bytes name) col
    pure done

  unfoldable pub handle_exec_raw : Handler
  handle_exec_raw r = do
    org ← lift (get_int_arg n r.args "orgId")
    sql ← lift (get_string_arg n r.args "sql")
    app ← lift (get_app_id r.caller)
    found ←
        exec_raw e app org (e.bytes sql) (values_or_none e n value_of (find_member "params" r.args))
    pure (rows found)
