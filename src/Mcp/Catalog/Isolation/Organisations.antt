-- ===== src/Mcp/Catalog/Isolation/Organisations.antt =====
-- The tools of backend/internal/mcp/tools whose schema requires `orgId`.
use suzuran.Prelude.{ℕ, ◌≡◌, ◌⊎◌, inl, inr, refl, false, Option, String, All}
use suzuran.Prelude.Error.{Error}
use suzuran.Prelude.Result.{Result-cases, ok, err}
use suzuran.Prelude.Exec.{Exec}
use suzuran.Prelude.Exec.Reads.{Reads-lift, Stops, Stops-first, Stops-later}
use suzuran.Prelude.Text.{Text}
use suzuran.Gorm.{Gorm}
use suzuran.Org.Tables
use suzuran.Storage.{Client}
use suzuran.Workflow.Store as Workflow
use suzuran.Data.Model
use suzuran.App.Store as AppStore
use suzuran.Mcp.Access.{member}
use suzuran.Mcp.Request.{Numbers, Json, Args, Request, Tool, get_int_arg, returning, answering}
use suzuran.Mcp.Promises.{Declines, Declines-returning, Declines-answering, Stops-err, ◌also◌}
use suzuran.Mcp.Catalog.Depts.{dept_tools, handle_dept_list, handle_dept_tree, handle_dept_create}
use suzuran.Mcp.Catalog.Orgs.{org_tools, handle_org_get, handle_org_update, handle_org_delete}
use suzuran.Mcp.Catalog.Users.{
  user_tools, handle_list_members, handle_create_member, handle_update_member, handle_remove_member,
}
use suzuran.Mcp.Catalog.Files.{file_tools, handle_file_upload, handle_file_list}
use suzuran.Mcp.Catalog.Audits.{audit_tools, handle_audit_log}
use suzuran.Mcp.Catalog.Workflows.{
  Decoding, handle_define, handle_get_definition, handle_list_definitions, handle_archive,
  handle_start, handle_get_instance, handle_list_instances, handle_cancel, act_on,
}
use suzuran.Mcp.Catalog.WorkflowTools.{workflow_tools}
use suzuran.Mcp.Catalog.Tables.{
  handle_create_table, handle_drop_table, handle_list_tables, handle_describe_table, handle_insert,
  handle_batch_insert, handle_query, handle_update, handle_delete, handle_count, handle_add_column,
  handle_exec_raw,
}
use suzuran.Mcp.Catalog.TableTools.{data_tools}
use suzuran.Mcp.Catalog.Apps.{Creation, handle_import, handle_list}
use suzuran.Mcp.Catalog.AppTools.{app_tools}

-- The schema requires no organisation; or a call names one, or it is declined.
abbrev pub NamesOrg : {n : Numbers} {S R : Type 0} → Tool n S R → Type 0
NamesOrg {n} t =
    (member "orgId" t.required ≡ false)
    ⊎ ((r : Request n) → ((k : ℕ) × (get_int_arg n r.args "orgId" ≡ ok k)) ⊎ Declines (t.handler r))

module _ {n : Numbers} {S R : Type 0} where
  NamesOrg-returning :
      (m : Request n → Exec S R)
      → ((r : Request n) (x : Error) → get_int_arg n r.args "orgId" ≡ err x → Stops (m r))
      → (r : Request n)
      → ((k : ℕ) × (get_int_arg n r.args "orgId" ≡ ok k)) ⊎ Declines (returning (m r))
  NamesOrg-returning m h r = elim (Result-cases (get_int_arg n r.args "orgId")) [
    | inl found ↦ inl found
    | inr (x, q) ↦ inr (Declines-returning (m r) (h r x q))
  ]

  NamesOrg-answering :
      (m : Request n → Exec S R)
      → ((r : Request n) (x : Error) → get_int_arg n r.args "orgId" ≡ err x → Stops (m r))
      → (r : Request n)
      → ((k : ℕ) × (get_int_arg n r.args "orgId" ≡ ok k)) ⊎ Declines (answering (m r))
  NamesOrg-answering m h r = elim (Result-cases (get_int_arg n r.args "orgId")) [
    | inl found ↦ inl found
    | inr (x, q) ↦ inr (Declines-answering (m r) (h r x q))
  ]

ruleset org_rules = (Stops-first, Stops-later, Stops-err, Reads-lift)

pub dept_tools-NamesOrg : (g : Gorm) (n : Numbers) → All NamesOrg (dept_tools g n)
unfolding handle_dept_list handle_dept_tree handle_dept_create
dept_tools-NamesOrg g n =
    inr (NamesOrg-returning _ (λ r x q. search org_rules))
    also inl refl
    also inr (NamesOrg-returning _ (λ r x q. search org_rules))
    also inr (NamesOrg-returning _ (λ r x q. search org_rules))
    also inl refl
    also inl refl
    also inl refl
    also tt

pub org_tools-NamesOrg : (g : Gorm) (n : Numbers) → All NamesOrg (org_tools g n)
unfolding handle_org_get handle_org_update handle_org_delete
org_tools-NamesOrg g n =
    inr (NamesOrg-answering _ (λ r x q. search org_rules))
    also inl refl
    also inl refl
    also inr (NamesOrg-answering _ (λ r x q. search org_rules))
    also inr (NamesOrg-answering _ (λ r x q. search org_rules))
    also tt

pub user_tools-NamesOrg : (e : Tables.Env) (n : Numbers) → All NamesOrg (user_tools e n)
unfolding handle_list_members handle_create_member handle_update_member handle_remove_member
user_tools-NamesOrg e n =
    inr (NamesOrg-returning _ (λ r x q. search org_rules))
    also inr (NamesOrg-returning _ (λ r x q. search org_rules))
    also inr (NamesOrg-returning _ (λ r x q. search org_rules))
    also inr (NamesOrg-returning _ (λ r x q. search org_rules))
    also tt

pub file_tools-NamesOrg :
    (c : Client) (n : Numbers) (decimal : ℕ → String) (decode_base64 : String → Option Text)
    (nanoseconds : ℕ)
    → All NamesOrg (file_tools c n decimal decode_base64 nanoseconds)
unfolding handle_file_upload handle_file_list
file_tools-NamesOrg c n decimal decode_base64 nanoseconds =
    inr (NamesOrg-returning _ (λ r x q. search org_rules))
    also inl refl
    also inl refl
    also inr (NamesOrg-returning _ (λ r x q. search org_rules))
    also inl refl
    also tt

pub audit_tools-NamesOrg :
    (g : Gorm) (n : Numbers) (D : Type 0) (metadata_of : Args n → D)
    (parse_time : String → Option ℕ) (now : ℕ)
    → All NamesOrg (audit_tools g n D metadata_of parse_time now)
unfolding handle_audit_log
audit_tools-NamesOrg g n D metadata_of parse_time now =
    inl refl also inr (NamesOrg-returning _ (λ r x q. search org_rules)) also tt

pub workflow_tools-NamesOrg :
    (e : Workflow.Env) (c : Decoding e) (fuel now : ℕ) → All NamesOrg (workflow_tools e c fuel now)
unfolding handle_define handle_get_definition handle_list_definitions handle_archive handle_start
    handle_get_instance handle_list_instances handle_cancel act_on
workflow_tools-NamesOrg e c fuel now =
    inr (NamesOrg-answering _ (λ r x q. search org_rules))
    also inr (NamesOrg-answering _ (λ r x q. search org_rules))
    also inr (NamesOrg-answering _ (λ r x q. search org_rules))
    also inr (NamesOrg-answering _ (λ r x q. search org_rules))
    also inr (NamesOrg-answering _ (λ r x q. search org_rules))
    also inr (NamesOrg-answering _ (λ r x q. search org_rules))
    also inr (NamesOrg-answering _ (λ r x q. search org_rules))
    also inr (NamesOrg-answering _ (λ r x q. search org_rules))
    also inl refl
    also inr (NamesOrg-answering _ (λ r x q. search org_rules))
    also inr (NamesOrg-answering _ (λ r x q. search org_rules))
    also tt

pub data_tools-NamesOrg :
    (e : Model.Env) (n : Numbers) (value_of : Json n.Number → e.Value)
    → All NamesOrg (data_tools e n value_of)
unfolding handle_create_table handle_drop_table handle_list_tables handle_describe_table
    handle_insert handle_batch_insert handle_query handle_update handle_delete handle_count
    handle_add_column handle_exec_raw
data_tools-NamesOrg e n value_of =
    inr (NamesOrg-returning _ (λ r x q. search org_rules))
    also inr (NamesOrg-returning _ (λ r x q. search org_rules))
    also inr (NamesOrg-returning _ (λ r x q. search org_rules))
    also inr (NamesOrg-returning _ (λ r x q. search org_rules))
    also inr (NamesOrg-returning _ (λ r x q. search org_rules))
    also inr (NamesOrg-returning _ (λ r x q. search org_rules))
    also inr (NamesOrg-returning _ (λ r x q. search org_rules))
    also inr (NamesOrg-returning _ (λ r x q. search org_rules))
    also inr (NamesOrg-returning _ (λ r x q. search org_rules))
    also inr (NamesOrg-returning _ (λ r x q. search org_rules))
    also inr (NamesOrg-returning _ (λ r x q. search org_rules))
    also inr (NamesOrg-returning _ (λ r x q. search org_rules))
    also tt

pub app_tools-NamesOrg :
    (e : AppStore.Env) (n : Numbers) (c : Creation) → All NamesOrg (app_tools e n c)
unfolding handle_import handle_list
app_tools-NamesOrg e n c =
    inr (NamesOrg-returning _ (λ r x q. search org_rules))
    also inr (NamesOrg-returning _ (λ r x q. search org_rules))
    also inl refl
    also inl refl
    also inl refl
    also inl refl
    also inl refl
    also inl refl
    also inl refl
    also inl refl
    also inl refl
    also inl refl
    also inl refl
    also inl refl
    also inl refl
    also inl refl
    also inl refl
    also inl refl
    also tt
