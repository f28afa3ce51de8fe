-- ===== src/Mcp/Catalog/Users.antt =====
-- backend/internal/mcp/tools/user_tools.go
use suzuran.Prelude.{false, List, [], ◌∷◌}
use suzuran.Prelude.Exec.{Exec, pure, lift, ◌>>=◌, ◌>>◌}
use suzuran.Org.Tables.{Env, Db}
use suzuran.Org.Members.{MemberView, list_members, create_member, update_member, remove_member}
use suzuran.Mcp.Request.{
  Numbers, Request, Tool, get_int_arg, get_string_arg, get_optional_string_arg,
  get_optional_bool_arg, maybe_int, maybe_bool, get_user_id, returning,
}

pub data UserReply : Type 0 where
  members : List MemberView → UserReply
  member : MemberView → UserReply
  done : UserReply

module _ (e : Env) (n : Numbers) where
  abbrev Handler : Type 0
  Handler = Request n → Exec Db UserReply

  unfoldable pub handle_list_members : Handler
  handle_list_members r = do
    org ← lift (get_int_arg n r.args "orgId")
    found ← list_members e org
    pure (members found)

  unfoldable pub handle_create_member : Handler
  handle_create_member r = do
    org ← lift (get_int_arg n r.args "orgId")
    phone ← lift (get_string_arg n r.args "phone")
    name ← lift (get_string_arg n r.args "name")
    m ←
        create_member e org phone name (get_optional_string_arg n r.args "email" "")
          (get_optional_string_arg n r.args "username" "")
          (get_optional_string_arg n r.args "password" "")
          (get_optional_string_arg n r.args "position" "")
          (get_optional_bool_arg n r.args "isAdmin" false) (maybe_int n r.args "departmentId")
          (get_optional_bool_arg n r.args "isDepartmentManager" false)
    pure (member m)

  unfoldable pub handle_update_member : Handler
  handle_update_member r = do
    org ← lift (get_int_arg n r.args "orgId")
    user ← lift (get_int_arg n r.args "userId")
    m ←
        update_member e org user (get_optional_string_arg n r.args "name" "")
          (get_optional_string_arg n r.args "email" "")
          (get_optional_string_arg n r.args "position" "") (maybe_bool n r.args "isAdmin")
          (maybe_int n r.args "departmentId") (maybe_bool n r.args "isDepartmentManager")
    pure (member m)

  unfoldable pub handle_remove_member : Handler
  handle_remove_member r = do
    org ← lift (get_int_arg n r.args "orgId")
    user ← lift (get_int_arg n r.args "userId")
    current ← lift (get_user_id r.caller)
    remove_member e org user current
    pure done

  abbrev pub UserTool : Type 0
  UserTool = Tool n Db UserReply

  abbrev pub user_list_members : UserTool
  user_list_members = record {
    name = "user.list_members";
    required_scope = "org.read";
    properties = ("orgId", "integer") ∷ [];
    required = "orgId" ∷ [];
    handler = λ r. returning (handle_list_members r);
  }

  abbrev pub user_create_member : UserTool
  user_create_member = record {
    name = "user.create_member";
    required_scope = "org.write";
    properties =
        ("orgId", "integer")
        ∷ ("phone", "string")
        ∷ ("name", "string")
        ∷ ("email", "string")
        ∷ ("position", "string")
        ∷ ("isAdmin", "boolean")
        ∷ ("departmentId", "integer")
        ∷ ("isDepartmentManager", "boolean")
        ∷ [];
    required = "orgId" ∷ "phone" ∷ "name" ∷ [];
    handler = λ r. returning (handle_create_member r);
  }

  abbrev pub user_update_member : UserTool
  user_update_member = record {
    name = "user.update_member";
    required_scope = "org.write";
    properties =
        ("orgId", "integer")
        ∷ ("userId", "integer")
        ∷ ("name", "string")
        ∷ ("email", "string")
        ∷ ("position", "string")
        ∷ ("isAdmin", "boolean")
        ∷ ("departmentId", "integer")
        ∷ ("isDepartmentManager", "boolean")
        ∷ [];
    required = "orgId" ∷ "userId" ∷ [];
    handler = λ r. returning (handle_update_member r);
  }

  abbrev pub user_remove_member : UserTool
  user_remove_member = record {
    name = "user.remove_member";
    required_scope = "org.write";
    properties = ("orgId", "integer") ∷ ("userId", "integer") ∷ [];
    required = "orgId" ∷ "userId" ∷ [];
    handler = λ r. returning (handle_remove_member r);
  }

  abbrev pub user_tools : List UserTool
  user_tools = user_list_members ∷ user_create_member ∷ user_update_member ∷ user_remove_member ∷ []
