-- ===== src/Mcp/Catalog/ReadOnly/Services.antt =====
-- The tools for workflows, for the tables of applications and for applications whose scope is one for
-- reading.
use suzuran.Prelude.{inl, inr, ℕ, refl, List, All}
use suzuran.Prelude.Exec.{Exec}
use suzuran.Prelude.Exec.Reads.{Reads, reads_rules, Reads-bind, Reads-elim}
use suzuran.Data.Model
use suzuran.Data.Service
use suzuran.Data.Service.{
  list_tables, describe_table, query, count, list_tables_by_app, get_table_metadata, exec_query,
  exec_count,
}
use suzuran.Workflow.Store.{
  Env, Store, get_definition, list_definitions, list_instances, list_tasks_by_assignee,
  get_instance, list_tasks_by_instance,
}
use suzuran.Workflow.Service.{get_instance_history}
use suzuran.Prelude.Text.{Text}
use suzuran.Mcp.Request.{Numbers, Json}
use suzuran.Mcp.Promises.{ReadsOnly, Reads-returning, Reads-answering, ◌also◌}
use suzuran.Mcp.Catalog.Workflows.{
  Decoding, handle_get_definition, handle_list_definitions, handle_get_instance,
  handle_list_instances, handle_list_tasks,
}
use suzuran.Mcp.Catalog.WorkflowTools.{workflow_tools}
use suzuran.Mcp.Catalog.Tables.{
  handle_list_tables, handle_describe_table, handle_query, handle_count,
}
use suzuran.Mcp.Catalog.TableTools.{data_tools}

Reads-history : (e : Env) (org id : ℕ) → Reads (λ (s : Store e). s) (get_instance_history e org id)
unfolding get_instance_history get_instance list_tasks_by_instance
Reads-history e org id =
    Reads-bind _ _ (search reads_rules)
      (λ found. Reads-elim found _ _ (search reads_rules) (λ inst. search reads_rules))

pub workflow_tools-ReadsOnly :
    (e : Env) (c : Decoding e) (fuel now : ℕ)
    → All (ReadsOnly (λ (s : Store e). s)) (workflow_tools e c fuel now)
unfolding handle_get_definition handle_list_definitions handle_get_instance handle_list_instances
    handle_list_tasks get_definition list_definitions list_instances list_tasks_by_assignee
workflow_tools-ReadsOnly e c fuel now =
    inl refl
    also inr (λ r. Reads-answering _ (search reads_rules))
    also inr (λ r. Reads-answering _ (search reads_rules))
    also inl refl
    also inl refl
    also inr (λ r. Reads-answering _ (search (reads_rules, Reads-history)))
    also inr (λ r. Reads-answering _ (search reads_rules))
    also inl refl
    also inr (λ r. Reads-answering _ (search reads_rules))
    also inl refl
    also inl refl
    also tt

-- The database with the tables of the applications runs the statement of a query, which is a SELECT.
module _ (e : Model.Env) where
  abbrev pub metadata : Service.Store e → List (Model.DataTable e)
  metadata s = s.tables

  Reads-engine : {A : Type 0} (m : Exec e.Engine A) → Reads metadata (Service.on_engine e m)
  Reads-engine m = record { leaves = λ s. refl }

  Reads-table :
      (app : Text) (name : Text) (org : ℕ)
      → Reads metadata (Service.get_table_metadata e app name org)
  unfolding get_table_metadata
  Reads-table app name org = search reads_rules

  pub data_tools-ReadsOnly :
      (n : Numbers) (value_of : Json n.Number → e.Value)
      → All (ReadsOnly metadata) (data_tools e n value_of)
  unfolding handle_list_tables handle_describe_table handle_query handle_count list_tables
      describe_table query count list_tables_by_app exec_query exec_count
  data_tools-ReadsOnly n value_of =
      inl refl
      also inl refl
      also inr (λ r. Reads-returning _ (search reads_rules))
      also inr (λ r. Reads-returning _ (search (reads_rules, Reads-table)))
      also inl refl
      also inl refl
      also inr (λ r. Reads-returning _ (search (reads_rules, Reads-engine, Reads-table) depth 8))
      also inl refl
      also inl refl
      also inr (λ r. Reads-returning _ (search (reads_rules, Reads-engine, Reads-table) depth 8))
      also inl refl
      also inl refl
      also tt
