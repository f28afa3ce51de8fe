-- ===== src/Mcp/Catalog/ReadOnly/Rows.antt =====
-- The tools for departments, organisations, members, files and the audit log whose scope is one for
-- reading.
use suzuran.Prelude.{ℕ, refl, inl, inr, Option, String, List, All}
use suzuran.Prelude.Exec.Reads.{Reads, reads_rules}
use suzuran.Gorm.{Gorm}
use suzuran.Org.Model.{Org, Department}
use suzuran.Org.Tables.{Env, Db, get_bonds_of_org, get_bonds_with_users}
use suzuran.Org.Members.{list_members}
use suzuran.Org.Directory.{get_org_by_id, get_org_row, list_orgs, list_org_rows}
use suzuran.Org.Departments.Service.{get_dept_by_id, get_depts_by_org_id, build_tree}
use suzuran.Mcp.Request.{Numbers}
use suzuran.Mcp.Promises.{ReadsOnly, Reads-returning, Reads-answering, ◌also◌}
use suzuran.Mcp.Catalog.Depts.{dept_tools, handle_dept_list, handle_dept_get, handle_dept_tree}
use suzuran.Mcp.Catalog.Orgs.{org_tools, handle_org_get, handle_org_list}
use suzuran.Mcp.Catalog.Users.{user_tools, handle_list_members}
use suzuran.Mcp.Catalog.Files.{
  file_tools, handle_file_download, handle_file_list, handle_file_presigned_url,
}
use suzuran.Mcp.Catalog.Audits.{audit_tools, handle_audit_query}
use suzuran.Mcp.Request.{Args}
use suzuran.Storage.{Client, get_presigned_url, list_files}
use suzuran.Audit
use suzuran.Prelude.Text.{Text}

module _ (g : Gorm) (n : Numbers) where
  pub dept_tools-ReadsOnly : All (ReadsOnly (λ (s : List Department). s)) (dept_tools g n)
  unfolding handle_dept_list handle_dept_get handle_dept_tree get_dept_by_id get_depts_by_org_id
      build_tree
  dept_tools-ReadsOnly =
      inr (λ r. Reads-returning _ (search reads_rules))
      also inr (λ r. Reads-returning _ (search reads_rules))
      also inr (λ r. Reads-returning _ (search reads_rules))
      also inl refl
      also inl refl
      also inl refl
      also inl refl
      also tt

  pub org_tools-ReadsOnly : All (ReadsOnly (λ (s : List Org). s)) (org_tools g n)
  unfolding handle_org_get handle_org_list get_org_by_id list_orgs get_org_row list_org_rows
  org_tools-ReadsOnly =
      inr (λ r. Reads-answering _ (search reads_rules))
      also inr (λ r. Reads-answering _ (search reads_rules))
      also inl refl
      also inl refl
      also inl refl
      also tt

Reads-members : (e : Env) (org : ℕ) → Reads (λ (s : Db). s) (list_members e org)
unfolding list_members get_bonds_with_users get_bonds_of_org
Reads-members e org = search reads_rules

pub user_tools-ReadsOnly :
    (e : Env) (n : Numbers) → All (ReadsOnly (λ (s : Db). s)) (user_tools e n)
unfolding handle_list_members
user_tools-ReadsOnly e n =
    inr (λ r. Reads-returning _ (search (reads_rules, Reads-members)))
    also inl refl
    also inl refl
    also inl refl
    also tt

pub file_tools-ReadsOnly :
    (c : Client) (n : Numbers) (decimal : ℕ → String) (decode_base64 : String → Option Text)
    (nanoseconds : ℕ)
    → All (ReadsOnly (λ (s : c.Bucket). s)) (file_tools c n decimal decode_base64 nanoseconds)
unfolding handle_file_download handle_file_list handle_file_presigned_url get_presigned_url
    list_files
file_tools-ReadsOnly c n decimal decode_base64 nanoseconds =
    inl refl
    also inr (λ r. Reads-returning _ (search reads_rules))
    also inl refl
    also inr (λ r. Reads-returning _ (search reads_rules))
    also inr (λ r. Reads-returning _ (search reads_rules))
    also tt

pub audit_tools-ReadsOnly :
    (g : Gorm) (n : Numbers) (D : Type 0) (metadata_of : Args n → D)
    (parse_time : String → Option ℕ) (now : ℕ)
    → All (ReadsOnly (λ (s : Audit.Store D). s)) (audit_tools g n D metadata_of parse_time now)
unfolding handle_audit_query
audit_tools-ReadsOnly g n D metadata_of parse_time now =
    inr (λ r. Reads-returning _ (search reads_rules)) also inl refl also tt
