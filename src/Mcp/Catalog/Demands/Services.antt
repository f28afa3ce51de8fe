-- ===== src/Mcp/Catalog/Demands/Services.antt =====
-- The arguments that the tools for workflows and for the tables of applications require.
use suzuran.Prelude.{ℕ, All}
use suzuran.Data.Model
use suzuran.Workflow.Store.{Env}
use suzuran.Mcp.Request.{Numbers, Json}
use suzuran.Mcp.Promises.{Demands, Demand-returning, Demand-answering, stops_rules, ◌also◌}
use suzuran.Mcp.Catalog.Workflows.{
  Decoding, handle_define, handle_get_definition, handle_list_definitions, handle_archive,
  handle_start, handle_get_instance, handle_list_instances, handle_cancel, act_on,
}
use suzuran.Mcp.Catalog.WorkflowTools.{workflow_tools}
use suzuran.Mcp.Catalog.Tables.{
  handle_create_table, handle_drop_table, handle_list_tables, handle_describe_table, handle_insert,
  handle_batch_insert, handle_query, handle_update, handle_delete, handle_count, handle_add_column,
  handle_exec_raw,
}
use suzuran.Mcp.Catalog.TableTools.{data_tools}

pub workflow_tools-Demands :
    (e : Env) (c : Decoding e) (fuel now : ℕ) → All Demands (workflow_tools e c fuel now)
unfolding handle_define handle_get_definition handle_list_definitions handle_archive handle_start
    handle_get_instance handle_list_instances handle_cancel act_on
workflow_tools-Demands e c fuel now =
    (Demand-answering _ _ (λ r h. search stops_rules)
      also Demand-answering _ _ (λ r h. search stops_rules)
      also Demand-answering _ _ (λ r h. search stops_rules)
      also tt)
    also (Demand-answering _ _ (λ r h. search stops_rules)
        also Demand-answering _ _ (λ r h. search stops_rules)
        also tt)
    also (Demand-answering _ _ (λ r h. search stops_rules) also tt)
    also (Demand-answering _ _ (λ r h. search stops_rules)
        also Demand-answering _ _ (λ r h. search stops_rules)
        also tt)
    also (Demand-answering _ _ (λ r h. search stops_rules)
        also Demand-answering _ _ (λ r h. search stops_rules)
        also tt)
    also (Demand-answering _ _ (λ r h. search stops_rules)
        also Demand-answering _ _ (λ r h. search stops_rules)
        also tt)
    also (Demand-answering _ _ (λ r h. search stops_rules) also tt)
    also (Demand-answering _ _ (λ r h. search stops_rules)
        also Demand-answering _ _ (λ r h. search stops_rules)
        also tt)
    also tt
    also (Demand-answering _ _ (λ r h. search stops_rules)
        also Demand-answering _ _ (λ r h. search stops_rules)
        also tt)
    also (Demand-answering _ _ (λ r h. search stops_rules)
        also Demand-answering _ _ (λ r h. search stops_rules)
        also tt)
    also tt

pub data_tools-Demands :
    (e : Model.Env) (n : Numbers) (value_of : Json n.Number → e.Value)
    → All Demands (data_tools e n value_of)
unfolding handle_create_table handle_drop_table handle_list_tables handle_describe_table
    handle_insert handle_batch_insert handle_query handle_update handle_delete handle_count
    handle_add_column handle_exec_raw
data_tools-Demands e n value_of =
    (Demand-returning _ _ (λ r h. search stops_rules)
      also Demand-returning _ _ (λ r h. search stops_rules)
      also Demand-returning _ _ (λ r h. search stops_rules)
      also tt)
    also (Demand-returning _ _ (λ r h. search stops_rules)
        also Demand-returning _ _ (λ r h. search stops_rules)
        also tt)
    also (Demand-returning _ _ (λ r h. search stops_rules) also tt)
    also (Demand-returning _ _ (λ r h. search stops_rules)
        also Demand-returning _ _ (λ r h. search stops_rules)
        also tt)
    also (Demand-returning _ _ (λ r h. search stops_rules)
        also Demand-returning _ _ (λ r h. search stops_rules)
        also Demand-returning _ _ (λ r h. search stops_rules)
        also tt)
    also (Demand-returning _ _ (λ r h. search stops_rules)
        also Demand-returning _ _ (λ r h. search stops_rules)
        also Demand-returning _ _ (λ r h. search stops_rules)
        also tt)
    also (Demand-returning _ _ (λ r h. search stops_rules)
        also Demand-returning _ _ (λ r h. search stops_rules)
        also tt)
    also (Demand-returning _ _ (λ r h. search stops_rules)
        also Demand-returning _ _ (λ r h. search stops_rules)
        also Demand-returning _ _ (λ r h. search stops_rules)
        also Demand-returning _ _ (λ r h. search stops_rules)
        also tt)
    also (Demand-returning _ _ (λ r h. search stops_rules)
        also Demand-returning _ _ (λ r h. search stops_rules)
        also Demand-returning _ _ (λ r h. search stops_rules)
        also tt)
    also (Demand-returning _ _ (λ r h. search stops_rules)
        also Demand-returning _ _ (λ r h. search stops_rules)
        also tt)
    also (Demand-returning _ _ (λ r h. search stops_rules)
        also Demand-returning _ _ (λ r h. search stops_rules)
        also Demand-returning _ _ (λ r h. search stops_rules)
        also tt)
    also (Demand-returning _ _ (λ r h. search stops_rules)
        also Demand-returning _ _ (λ r h. search stops_rules)
        also tt)
    also tt
