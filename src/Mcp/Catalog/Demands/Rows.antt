-- ===== src/Mcp/Catalog/Demands/Rows.antt =====
-- The arguments that the tools for departments, organisations, members, files and the audit log
-- require.
use suzuran.Prelude.{ℕ, Option, String, All}
use suzuran.Prelude.Text.{Text}
use suzuran.Gorm.{Gorm}
use suzuran.Org.Tables.{Env}
use suzuran.Storage.{Client}
use suzuran.Mcp.Request.{Numbers, Args}
use suzuran.Mcp.Promises.{Demands, Demand-returning, Demand-answering, stops_rules, ◌also◌}
use suzuran.Mcp.Catalog.Depts.{
  dept_tools, handle_dept_list, handle_dept_get, handle_dept_tree, handle_dept_create,
  handle_dept_update, handle_dept_delete, handle_dept_set_manager,
}
use suzuran.Mcp.Catalog.Orgs.{
  org_tools, handle_org_get, handle_org_create, handle_org_update, handle_org_delete,
}
use suzuran.Mcp.Catalog.Users.{
  user_tools, handle_list_members, handle_create_member, handle_update_member, handle_remove_member,
}
use suzuran.Mcp.Catalog.Files.{
  file_tools, handle_file_upload, handle_file_download, handle_file_delete, handle_file_list,
  handle_file_presigned_url,
}
use suzuran.Mcp.Catalog.Audits.{audit_tools, handle_audit_log}

pub dept_tools-Demands : (g : Gorm) (n : Numbers) → All Demands (dept_tools g n)
unfolding handle_dept_list handle_dept_get handle_dept_tree handle_dept_create handle_dept_update
    handle_dept_delete handle_dept_set_manager
dept_tools-Demands g n =
    (Demand-returning _ _ (λ r h. search stops_rules) also tt)
    also (Demand-returning _ _ (λ r h. search stops_rules) also tt)
    also (Demand-returning _ _ (λ r h. search stops_rules) also tt)
    also (Demand-returning _ _ (λ r h. search stops_rules)
        also Demand-returning _ _ (λ r h. search stops_rules)
        also tt)
    also (Demand-returning _ _ (λ r h. search stops_rules) also tt)
    also (Demand-returning _ _ (λ r h. search stops_rules) also tt)
    also (Demand-returning _ _ (λ r h. search stops_rules)
        also Demand-returning _ _ (λ r h. search stops_rules)
        also tt)
    also tt

pub org_tools-Demands : (g : Gorm) (n : Numbers) → All Demands (org_tools g n)
unfolding handle_org_get handle_org_create handle_org_update handle_org_delete
org_tools-Demands g n =
    (Demand-answering _ _ (λ r h. search stops_rules) also tt)
    also tt
    also (Demand-answering _ _ (λ r h. search stops_rules) also tt)
    also (Demand-answering _ _ (λ r h. search stops_rules) also tt)
    also (Demand-answering _ _ (λ r h. search stops_rules) also tt)
    also tt

pub user_tools-Demands : (e : Env) (n : Numbers) → All Demands (user_tools e n)
unfolding handle_list_members handle_create_member handle_update_member handle_remove_member
user_tools-Demands e n =
    (Demand-returning _ _ (λ r h. search stops_rules) also tt)
    also (Demand-returning _ _ (λ r h. search stops_rules)
        also Demand-returning _ _ (λ r h. search stops_rules)
        also Demand-returning _ _ (λ r h. search stops_rules)
        also tt)
    also (Demand-returning _ _ (λ r h. search stops_rules)
        also Demand-returning _ _ (λ r h. search stops_rules)
        also tt)
    also (Demand-returning _ _ (λ r h. search stops_rules)
        also Demand-returning _ _ (λ r h. search stops_rules)
        also tt)
    also tt

pub file_tools-Demands :
    (c : Client) (n : Numbers) (decimal : ℕ → String) (decode_base64 : String → Option Text)
    (nanoseconds : ℕ)
    → All Demands (file_tools c n decimal decode_base64 nanoseconds)
unfolding handle_file_upload handle_file_download handle_file_delete handle_file_list
    handle_file_presigned_url
file_tools-Demands c n decimal decode_base64 nanoseconds =
    (Demand-returning _ _ (λ r h. search stops_rules)
      also Demand-returning _ _ (λ r h. search stops_rules)
      also Demand-returning _ _ (λ r h. search stops_rules)
      also Demand-returning _ _ (λ r h. search stops_rules)
      also tt)
    also (Demand-returning _ _ (λ r h. search stops_rules) also tt)
    also (Demand-returning _ _ (λ r h. search stops_rules) also tt)
    also (Demand-returning _ _ (λ r h. search stops_rules) also tt)
    also (Demand-returning _ _ (λ r h. search stops_rules) also tt)
    also tt

pub audit_tools-Demands :
    (g : Gorm) (n : Numbers) (D : Type 0) (metadata_of : Args n → D)
    (parse_time : String → Option ℕ) (now : ℕ)
    → All Demands (audit_tools g n D metadata_of parse_time now)
unfolding handle_audit_log
audit_tools-Demands g n D metadata_of parse_time now =
    tt
    also (Demand-returning _ _ (λ r h. search stops_rules)
        also Demand-returning _ _ (λ r h. search stops_rules)
        also Demand-returning _ _ (λ r h. search stops_rules)
        also tt)
    also tt
