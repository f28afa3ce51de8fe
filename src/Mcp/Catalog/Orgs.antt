-- ===== src/Mcp/Catalog/Orgs.antt =====
-- backend/internal/mcp/tools/org_tools.go
use suzuran.Prelude.{List, [], ◌∷◌}
use suzuran.Prelude.Error.{org_not_found}
use suzuran.Prelude.Exec.{Exec, pure, lift, require, ◌>>=◌, ◌>>◌}
use suzuran.Gorm.{Gorm}
use suzuran.Org.Model.{Org}
use suzuran.Org.Directory.{get_org_by_id, list_orgs, create_org, update_org, delete_org}
use suzuran.Mcp.Access.{require_role}
use suzuran.Mcp.Request.{
  Numbers, Request, Tool, get_int_arg, get_string_arg, get_optional_string_arg, answering,
}

pub data OrgReply : Type 0 where
  org : Org → OrgReply
  orgs : List Org → OrgReply
  done : OrgReply

module _ (g : Gorm) (n : Numbers) where
  abbrev Handler : Type 0
  Handler = Request n → Exec (List Org) OrgReply

  unfoldable pub handle_org_get : Handler
  handle_org_get r = do
    id ← lift (get_int_arg n r.args "orgId")
    found ← get_org_by_id g id
    x ← require org_not_found found
    pure (org x)

  unfoldable pub handle_org_list : Handler
  handle_org_list r = do
    lift (require_role r.caller.auth ("provider" ∷ []))
    found ← list_orgs g
    pure (orgs found)

  unfoldable pub handle_org_create : Handler
  handle_org_create r = do
    lift (require_role r.caller.auth ("provider" ∷ []))
    name ← lift (get_string_arg n r.args "name")
    x ← create_org g name (get_optional_string_arg n r.args "description" "")
    pure (org x)

  unfoldable pub handle_org_update : Handler
  handle_org_update r = do
    lift (require_role r.caller.auth ("provider" ∷ []))
    id ← lift (get_int_arg n r.args "orgId")
    update_org g id (get_optional_string_arg n r.args "name" "")
        (get_optional_string_arg n r.args "description" "")
    pure done

  unfoldable pub handle_org_delete : Handler
  handle_org_delete r = do
    lift (require_role r.caller.auth ("provider" ∷ []))
    id ← lift (get_int_arg n r.args "orgId")
    delete_org g id
    pure done

  abbrev pub OrgTool : Type 0
  OrgTool = Tool n (List Org) OrgReply

  abbrev pub org_get : OrgTool
  org_get = record {
    name = "org.get";
    required_scope = "org.read";
    properties = ("orgId", "integer") ∷ [];
    required = "orgId" ∷ [];
    handler = λ r. answering (handle_org_get r);
  }

  abbrev pub org_list : OrgTool
  org_list = record {
    name = "org.list";
    required_scope = "org.read";
    properties = [];
    required = [];
    handler = λ r. answering (handle_org_list r);
  }

  abbrev pub org_create : OrgTool
  org_create = record {
    name = "org.create";
    required_scope = "org.write";
    properties = ("name", "string") ∷ ("description", "string") ∷ [];
    required = "name" ∷ [];
    handler = λ r. answering (handle_org_create r);
  }

  abbrev pub org_update : OrgTool
  org_update = record {
    name = "org.update";
    required_scope = "org.write";
    properties = ("orgId", "integer") ∷ ("name", "string") ∷ ("description", "string") ∷ [];
    required = "orgId" ∷ [];
    handler = λ r. answering (handle_org_update r);
  }

  abbrev pub org_delete : OrgTool
  org_delete = record {
    name = "org.delete";
    required_scope = "org.write";
    properties = ("orgId", "integer") ∷ [];
    required = "orgId" ∷ [];
    handler = λ r. answering (handle_org_delete r);
  }

  abbrev pub org_tools : List OrgTool
  org_tools = org_get ∷ org_list ∷ org_create ∷ org_update ∷ org_delete ∷ []
