-- ===== src/Mcp/Catalog/Depts.antt =====
-- backend/internal/mcp/tools/dept_tools.go
use suzuran.Prelude.{ℕ, Option, none, some, String, List, [], ◌∷◌, str_eq, ◌==◌, if◌then◌else◌}
use suzuran.Prelude.Error.{dept_not_found}
use suzuran.Prelude.Exec.{Exec, pure, lift, require, ◌>>=◌, ◌>>◌}
use suzuran.Gorm.{Gorm}
use suzuran.Org.Model.{Department}
use suzuran.Org.Departments.Build.{DepartmentNodes}
use suzuran.Org.Departments.Service.{
  create_dept, get_dept_by_id, get_depts_by_org_id, update_dept, delete_dept, set_manager,
  build_tree,
}
use suzuran.Mcp.Request.{
  Numbers, Args, Request, Tool, get_int_arg, get_string_arg, get_optional_int_arg,
  get_optional_string_arg, maybe_int, maybe_string, or_default, returning,
}

-- what a tool answers with
pub data DeptReply : Type 0 where
  departments : List Department → DeptReply
  department : Department → DeptReply
  tree : DepartmentNodes → DeptReply
  done : DeptReply

-- `if name, ok := ...; ok && name != ""`
abbrev pub unless_empty : String → Option String → String
unless_empty old none = old
unless_empty old (some new) = if str_eq new "" then old else new

abbrev pub or_old {ℓ} : {A : Type ℓ} → Option A → Option A → Option A
or_old old none = old
or_old old (some a) = some a

-- gorm gives a level of 0 the default of its column
abbrev or_column_default : ℕ → ℕ
or_column_default level = if level == 0 then 1 else level

module _ (g : Gorm) (n : Numbers) where
  abbrev Handler : Type 0
  Handler = Request n → Exec (List Department) DeptReply

  unfoldable pub handle_dept_list : Handler
  handle_dept_list r = do
    org ← lift (get_int_arg n r.args "orgId")
    depts ← get_depts_by_org_id g org
    pure (departments depts)

  unfoldable pub handle_dept_get : Handler
  handle_dept_get r = do
    id ← lift (get_int_arg n r.args "deptId")
    found ← get_dept_by_id g id
    dept ← require dept_not_found found
    pure (department dept)

  unfoldable pub handle_dept_tree : Handler
  handle_dept_tree r = do
    org ← lift (get_int_arg n r.args "orgId")
    nodes ← build_tree g org
    pure (tree nodes)

  abbrev pub asked_dept : Args n → ℕ → String → ℕ → Department
  asked_dept args org name id = record {
    id = id;
    org_id = org;
    name = name;
    parent_id = maybe_int n args "parentId";
    level = or_column_default (get_optional_int_arg n args "level" 1);
    manager_user_id = none;
    description = get_optional_string_arg n args "description" "";
    dingtalk_dept_id = none;
    sort_order = 0;
  }

  unfoldable pub handle_dept_create : Handler
  handle_dept_create r = do
    org ← lift (get_int_arg n r.args "orgId")
    name ← lift (get_string_arg n r.args "name")
    created ← create_dept g (asked_dept r.args org name)
    pure (department created)

  abbrev pub changed_dept : Args n → Department → Department
  changed_dept args d = record d {
    name = unless_empty d.name (maybe_string n args "name");
    description = or_default d.description (maybe_string n args "description");
    level = or_default d.level (maybe_int n args "level");
    parent_id = or_old d.parent_id (maybe_int n args "parentId");
  }

  unfoldable pub handle_dept_update : Handler
  handle_dept_update r = do
    id ← lift (get_int_arg n r.args "deptId")
    found ← get_dept_by_id g id
    dept ← require dept_not_found found
    update_dept g (changed_dept r.args dept)
    pure done

  unfoldable pub handle_dept_delete : Handler
  handle_dept_delete r = do id ← lift (get_int_arg n r.args "deptId"); delete_dept g id; pure done

  unfoldable pub handle_dept_set_manager : Handler
  handle_dept_set_manager r = do
    id ← lift (get_int_arg n r.args "deptId")
    manager ← lift (get_int_arg n r.args "managerUserId")
    set_manager g id manager
    pure done

  abbrev pub DeptTool : Type 0
  DeptTool = Tool n (List Department) DeptReply

  abbrev pub dept_list : DeptTool
  dept_list = record {
    name = "dept.list";
    required_scope = "org.read";
    properties = ("orgId", "integer") ∷ [];
    required = "orgId" ∷ [];
    handler = λ r. returning (handle_dept_list r);
  }

  abbrev pub dept_get : DeptTool
  dept_get = record {
    name = "dept.get";
    required_scope = "org.read";
    properties = ("deptId", "integer") ∷ [];
    required = "deptId" ∷ [];
    handler = λ r. returning (handle_dept_get r);
  }

  abbrev pub dept_tree : DeptTool
  dept_tree = record {
    name = "dept.tree";
    required_scope = "org.read";
    properties = ("orgId", "integer") ∷ [];
    required = "orgId" ∷ [];
    handler = λ r. returning (handle_dept_tree r);
  }

  abbrev pub dept_create : DeptTool
  dept_create = record {
    name = "dept.create";
    required_scope = "org.write";
    properties =
        ("orgId", "integer")
        ∷ ("name", "string")
        ∷ ("parentId", "integer")
        ∷ ("level", "integer")
        ∷ ("description", "string")
        ∷ [];
    required = "orgId" ∷ "name" ∷ [];
    handler = λ r. returning (handle_dept_create r);
  }

  abbrev pub dept_update : DeptTool
  dept_update = record {
    name = "dept.update";
    required_scope = "org.write";
    properties =
        ("deptId", "integer")
        ∷ ("name", "string")
        ∷ ("parentId", "integer")
        ∷ ("level", "integer")
        ∷ ("description", "string")
        ∷ [];
    required = "deptId" ∷ [];
    handler = λ r. returning (handle_dept_update r);
  }

  abbrev pub dept_delete : DeptTool
  dept_delete = record {
    name = "dept.delete";
    required_scope = "org.write";
    properties = ("deptId", "integer") ∷ [];
    required = "deptId" ∷ [];
    handler = λ r. returning (handle_dept_delete r);
  }

  abbrev pub dept_set_manager : DeptTool
  dept_set_manager = record {
    name = "dept.set_manager";
    required_scope = "org.write";
    properties = ("deptId", "integer") ∷ ("managerUserId", "integer") ∷ [];
    required = "deptId" ∷ "managerUserId" ∷ [];
    handler = λ r. returning (handle_dept_set_manager r);
  }

  abbrev pub dept_tools : List DeptTool
  dept_tools =
      dept_list ∷ dept_get ∷ dept_tree ∷ dept_create ∷ dept_update ∷ dept_delete ∷ dept_set_manager
      ∷ []
