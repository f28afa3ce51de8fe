-- ===== src/Mcp/Catalog/Server.antt =====
-- RegisterAllTools of backend/internal/mcp/tools/register.go: the tools of all parts of the server, and
-- what holds of every one of them.
use suzuran.Prelude.{ℕ, Bool, Option, String, List, [], ◌++◌, map, All, if◌then◌else◌}
use suzuran.Prelude.Text.{Text}
use suzuran.Gorm.{Gorm}
use suzuran.Org.Model.{Department, Org}
use suzuran.Org.Tables
use suzuran.Workflow.Store
use suzuran.Data.Model
use suzuran.App.Store as AppStore
use suzuran.Audit
use suzuran.Storage.{Client}
use suzuran.Mcp.Request.{Numbers, Json, Args, Tool}
use suzuran.Mcp.Promises.{ReadsOnly, Demands}
use suzuran.Mcp.Catalog.Depts.{dept_tools}
use suzuran.Mcp.Catalog.Orgs.{org_tools}
use suzuran.Mcp.Catalog.Users.{user_tools}
use suzuran.Mcp.Catalog.Workflows.{Decoding, numbers}
use suzuran.Mcp.Catalog.WorkflowTools.{workflow_tools}
use suzuran.Mcp.Catalog.Apps.{Creation}
use suzuran.Mcp.Catalog.AppTools.{app_tools}
use suzuran.Mcp.Catalog.TableTools.{data_tools}
use suzuran.Mcp.Catalog.Audits.{audit_tools}
use suzuran.Mcp.Catalog.Files.{file_tools}
use suzuran.Mcp.Catalog.ReadOnly.Rows.{
  dept_tools-ReadsOnly, org_tools-ReadsOnly, user_tools-ReadsOnly, file_tools-ReadsOnly,
  audit_tools-ReadsOnly,
}
use suzuran.Mcp.Catalog.ReadOnly.Services.{metadata, workflow_tools-ReadsOnly, data_tools-ReadsOnly}
use suzuran.Mcp.Catalog.ReadOnly.Apps.{rows, app_tools-ReadsOnly}
use suzuran.Mcp.Catalog.Demands.Rows.{
  dept_tools-Demands, org_tools-Demands, user_tools-Demands, file_tools-Demands,
  audit_tools-Demands,
}
use suzuran.Mcp.Catalog.Demands.Services.{workflow_tools-Demands, data_tools-Demands}
use suzuran.Mcp.Catalog.Demands.Apps.{app_tools-Demands}

-- The services that the server is built with, and which of the optional ones there are.
pub record Services : Type 1 where
  pub gorm : Gorm
  pub members : Tables.Env
  pub workflows : Store.Env
  pub decoding : Decoding workflows
  pub fuel : ℕ
  pub now : ℕ
  pub tables : Model.Env
  pub value_of : Json workflows.float.Carrier → tables.Value
  pub apps : AppStore.Env
  pub creation : Creation
  pub storage : Client
  pub decimal : ℕ → String
  pub decode_base64 : String → Option Text
  pub Metadata : Type 0
  pub metadata_of : Args (numbers workflows decoding fuel now) → Metadata
  pub parse_time : String → Option ℕ
  pub has_storage : Bool
  pub has_workflows : Bool
  pub has_tables : Bool
  pub has_apps : Bool

-- the name and the scope under which a tool is registered
abbrev pub registered : {n : Numbers} {S R : Type 0} → Tool n S R → String × String
registered t = (t.name, t.required_scope)

module _ (v : Services) where
  abbrev pub n : Numbers
  n = numbers v.workflows v.decoding v.fuel v.now

  unfoldable pub register_all_tools : List (String × String)
  register_all_tools =
      map registered (org_tools v.gorm n)
      ++ (map registered (user_tools v.members n)
          ++ (map registered (dept_tools v.gorm n)
              ++ ((if v.has_storage
                    then map registered (file_tools v.storage n v.decimal v.decode_base64 v.now)
                    else [])
                  ++ (map registered
                        (audit_tools v.gorm n v.Metadata v.metadata_of v.parse_time v.now)
                      ++ ((if v.has_workflows
                            then map registered (workflow_tools v.workflows v.decoding v.fuel v.now)
                            else [])
                          ++ ((if v.has_tables
                                then map registered (data_tools v.tables n v.value_of)
                                else [])
                              ++ (if v.has_apps
                                  then map registered (app_tools v.apps n v.creation)
                                  else [])))))))

  -- what ReadsOnly says, of every tool
  abbrev pub EveryReadsOnly : Type 0
  EveryReadsOnly =
      All (ReadsOnly (λ (s : List Department). s)) (dept_tools v.gorm n)
      × All (ReadsOnly (λ (s : List Org). s)) (org_tools v.gorm n)
      × All (ReadsOnly (λ (s : Tables.Db). s)) (user_tools v.members n)
      × All (ReadsOnly (λ (s : v.storage.Bucket). s))
          (file_tools v.storage n v.decimal v.decode_base64 v.now)
      × All (ReadsOnly (λ (s : Audit.Store v.Metadata). s))
          (audit_tools v.gorm n v.Metadata v.metadata_of v.parse_time v.now)
      × All (ReadsOnly (λ (s : Store.Store v.workflows). s))
          (workflow_tools v.workflows v.decoding v.fuel v.now)
      × All (ReadsOnly (metadata v.tables)) (data_tools v.tables n v.value_of)
      × All (ReadsOnly (rows {e = v.apps})) (app_tools v.apps n v.creation)

  -- what Demands says, of every tool
  abbrev pub EveryDemands : Type 0
  EveryDemands =
      All Demands (dept_tools v.gorm n)
      × All Demands (org_tools v.gorm n)
      × All Demands (user_tools v.members n)
      × All Demands (file_tools v.storage n v.decimal v.decode_base64 v.now)
      × All Demands (audit_tools v.gorm n v.Metadata v.metadata_of v.parse_time v.now)
      × All Demands (workflow_tools v.workflows v.decoding v.fuel v.now)
      × All Demands (data_tools v.tables n v.value_of)
      × All Demands (app_tools v.apps n v.creation)

  -- A tool either requires another scope than those for reading, or its handler leaves what it works
  -- on as it is, whoever calls it with whichever arguments, also when it fails: the departments, the
  -- organisations, the users and their bonds, the objects of the storage, the audit log, all that the
  -- workflow engine stores, the metadata of the tables of applications, or the applications with
  -- their deployments and distributions. The row that the wrapper of the handler adds to the audit
  -- log for each call that it admits is apart from this.
  pub all_tools-ReadsOnly : EveryReadsOnly
  all_tools-ReadsOnly = (
    dept_tools-ReadsOnly v.gorm n,
    org_tools-ReadsOnly v.gorm n,
    user_tools-ReadsOnly v.members n,
    file_tools-ReadsOnly v.storage n v.decimal v.decode_base64 v.now,
    audit_tools-ReadsOnly v.gorm n v.Metadata v.metadata_of v.parse_time v.now,
    workflow_tools-ReadsOnly v.workflows v.decoding v.fuel v.now,
    data_tools-ReadsOnly v.tables n v.value_of,
    app_tools-ReadsOnly v.apps n v.creation,
  )

  -- A call of a tool has every argument that the tool's schema requires, or it is declined, by an error
  -- or by an error response, and changes nothing.
  pub all_tools-Demands : EveryDemands
  all_tools-Demands = (
    dept_tools-Demands v.gorm n,
    org_tools-Demands v.gorm n,
    user_tools-Demands v.members n,
    file_tools-Demands v.storage n v.decimal v.decode_base64 v.now,
    audit_tools-Demands v.gorm n v.Metadata v.metadata_of v.parse_time v.now,
    workflow_tools-Demands v.workflows v.decoding v.fuel v.now,
    data_tools-Demands v.tables n v.value_of,
    app_tools-Demands v.apps n v.creation,
  )
