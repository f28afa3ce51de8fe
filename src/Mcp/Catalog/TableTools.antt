-- ===== src/Mcp/Catalog/TableTools.antt =====
-- The tools that RegisterTools of backend/internal/mcp/tools/data_tools.go registers.
use suzuran.Prelude.{List, [], ◌∷◌}
use suzuran.Data.Model.{Env}
use suzuran.Data.Service.{Store}
use suzuran.Mcp.Request.{Numbers, Json, Tool, returning}
use suzuran.Mcp.Catalog.Tables.{
  DataReply, handle_add_column, handle_batch_insert, handle_count, handle_create_table,
  handle_delete, handle_describe_table, handle_drop_table, handle_exec_raw, handle_insert,
  handle_list_tables, handle_query, handle_update,
}

module _ (e : Env) (n : Numbers) (value_of : Json n.Number → e.Value) where
  abbrev pub DataTool : Type 0
  DataTool = Tool n (Store e) (DataReply e)

  abbrev pub data_create_table : DataTool
  data_create_table = record {
    name = "data.create_table";
    required_scope = "data.write";
    properties = ("orgId", "integer") ∷ ("tableName", "string") ∷ ("columns", "array") ∷ [];
    required = "orgId" ∷ "tableName" ∷ "columns" ∷ [];
    handler = λ r. returning (handle_create_table e n value_of r);
  }

  abbrev pub data_drop_table : DataTool
  data_drop_table = record {
    name = "data.drop_table";
    required_scope = "data.write";
    properties = ("orgId", "integer") ∷ ("tableName", "string") ∷ [];
    required = "orgId" ∷ "tableName" ∷ [];
    handler = λ r. returning (handle_drop_table e n value_of r);
  }

  abbrev pub data_list_tables : DataTool
  data_list_tables = record {
    name = "data.list_tables";
    required_scope = "data.read";
    properties = ("orgId", "integer") ∷ [];
    required = "orgId" ∷ [];
    handler = λ r. returning (handle_list_tables e n value_of r);
  }

  abbrev pub data_describe_table : DataTool
  data_describe_table = record {
    name = "data.describe_table";
    required_scope = "data.read";
    properties = ("orgId", "integer") ∷ ("tableName", "string") ∷ [];
    required = "orgId" ∷ "tableName" ∷ [];
    handler = λ r. returning (handle_describe_table e n value_of r);
  }

  abbrev pub data_insert : DataTool
  data_insert = record {
    name = "data.insert";
    required_scope = "data.write";
    properties = ("orgId", "integer") ∷ ("tableName", "string") ∷ ("data", "object") ∷ [];
    required = "orgId" ∷ "tableName" ∷ "data" ∷ [];
    handler = λ r. returning (handle_insert e n value_of r);
  }

  abbrev pub data_batch_insert : DataTool
  data_batch_insert = record {
    name = "data.batch_insert";
    required_scope = "data.write";
    properties = ("orgId", "integer") ∷ ("tableName", "string") ∷ ("rows", "array") ∷ [];
    required = "orgId" ∷ "tableName" ∷ "rows" ∷ [];
    handler = λ r. returning (handle_batch_insert e n value_of r);
  }

  abbrev pub data_query : DataTool
  data_query = record {
    name = "data.query";
    required_scope = "data.read";
    properties =
        ("orgId", "integer")
        ∷ ("tableName", "string")
        ∷ ("where", "object")
        ∷ ("orderBy", "string")
        ∷ ("limit", "integer")
        ∷ ("offset", "integer")
        ∷ [];
    required = "orgId" ∷ "tableName" ∷ [];
    handler = λ r. returning (handle_query e n value_of r);
  }

  abbrev pub data_update : DataTool
  data_update = record {
    name = "data.update";
    required_scope = "data.write";
    properties =
        ("orgId", "integer")
        ∷ ("tableName", "string")
        ∷ ("where", "object")
        ∷ ("data", "object")
        ∷ [];
    required = "orgId" ∷ "tableName" ∷ "where" ∷ "data" ∷ [];
    handler = λ r. returning (handle_update e n value_of r);
  }

  abbrev pub data_delete : DataTool
  data_delete = record {
    name = "data.delete";
    required_scope = "data.write";
    properties = ("orgId", "integer") ∷ ("tableName", "string") ∷ ("where", "object") ∷ [];
    required = "orgId" ∷ "tableName" ∷ "where" ∷ [];
    handler = λ r. returning (handle_delete e n value_of r);
  }

  abbrev pub data_count : DataTool
  data_count = record {
    name = "data.count";
    required_scope = "data.read";
    properties = ("orgId", "integer") ∷ ("tableName", "string") ∷ ("where", "object") ∷ [];
    required = "orgId" ∷ "tableName" ∷ [];
    handler = λ r. returning (handle_count e n value_of r);
  }

  abbrev pub data_add_column : DataTool
  data_add_column = record {
    name = "data.add_column";
    required_scope = "data.write";
    properties = ("orgId", "integer") ∷ ("tableName", "string") ∷ ("column", "object") ∷ [];
    required = "orgId" ∷ "tableName" ∷ "column" ∷ [];
    handler = λ r. returning (handle_add_column e n value_of r);
  }

  abbrev pub data_exec_raw : DataTool
  data_exec_raw = record {
    name = "data.exec_raw";
    required_scope = "data.write";
    properties = ("orgId", "integer") ∷ ("sql", "string") ∷ ("params", "array") ∷ [];
    required = "orgId" ∷ "sql" ∷ [];
    handler = λ r. returning (handle_exec_raw e n value_of r);
  }

  abbrev pub data_tools : List DataTool
  data_tools =
      data_create_table ∷ data_drop_table ∷ data_list_tables ∷ data_describe_table ∷ data_insert
      ∷ data_batch_insert ∷ data_query ∷ data_update ∷ data_delete ∷ data_count ∷ data_add_column
      ∷ data_exec_raw ∷ []
