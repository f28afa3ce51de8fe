-- ===== src/Mcp/Catalog/Isolation/DataTools.antt =====
-- The tools of backend/internal/mcp/tools/data_tools.go take the application from the context.
use suzuran.Prelude.{◌≡◌, refl, none, All}
use suzuran.Prelude.Text.{Text}
use suzuran.Data.Model.{Env}
use suzuran.Mcp.Access.{Context}
use suzuran.Mcp.Request.{Numbers, Json, Args, inject_auth_context}
use suzuran.Mcp.Promises.{Declines, Declines-returning, Stops-app, stops_rules, ◌also◌}
use suzuran.Mcp.Catalog.Tables.{
  handle_create_table, handle_drop_table, handle_list_tables, handle_describe_table, handle_insert,
  handle_batch_insert, handle_query, handle_update, handle_delete, handle_count, handle_add_column,
  handle_exec_raw,
}
use suzuran.Mcp.Catalog.TableTools.{data_tools}

module _ (e : Env) (n : Numbers) (value_of : Json n.Number → e.Value) where
  without_app :
      (keys : Context) (header : Text) → (inject_auth_context keys none header).app_id ≡ none
  unfolding inject_auth_context
  without_app keys header = refl

  -- No code sets the key "app_id" of a request; without it, every tool for the tables of applications
  -- declines every call, whatever its arguments, and changes nothing.
  pub data_tools-Declines :
      (keys : Context) (header : Text) (args : Args n)
      → All
          (λ t.
            Declines
              (t.handler (record { caller = inject_auth_context keys none header; args = args })))
          (data_tools e n value_of)
  unfolding handle_create_table handle_drop_table handle_list_tables handle_describe_table
      handle_insert handle_batch_insert handle_query handle_update handle_delete handle_count
      handle_add_column handle_exec_raw
  data_tools-Declines keys header args =
      let absent = without_app keys header in
      Declines-returning _ (search (stops_rules, Stops-app, absent) depth 9)
      also Declines-returning _ (search (stops_rules, Stops-app, absent) depth 9)
      also Declines-returning _ (search (stops_rules, Stops-app, absent) depth 9)
      also Declines-returning _ (search (stops_rules, Stops-app, absent) depth 9)
      also Declines-returning _ (search (stops_rules, Stops-app, absent) depth 9)
      also Declines-returning _ (search (stops_rules, Stops-app, absent) depth 9)
      also Declines-returning _ (search (stops_rules, Stops-app, absent) depth 9)
      also Declines-returning _ (search (stops_rules, Stops-app, absent) depth 9)
      also Declines-returning _ (search (stops_rules, Stops-app, absent) depth 9)
      also Declines-returning _ (search (stops_rules, Stops-app, absent) depth 9)
      also Declines-returning _ (search (stops_rules, Stops-app, absent) depth 9)
      also Declines-returning _ (search (stops_rules, Stops-app, absent) depth 9)
      also tt
