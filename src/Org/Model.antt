-- ===== src/Org/Model.antt =====
-- The rows of backend/internal/model: org.go, user.go, org_user_bond.go and department.go. The
-- columns `created_at` and `updated_at` and the preloaded associations are left out.
use suzuran.Prelude.{ℕ, String, Option, Bool}

pub record OrgUserBond : Type 0 where
  pub id : ℕ
  pub org_id : ℕ
  pub user_id : ℕ
  pub department_id : Option ℕ
  pub is_admin : Bool
  pub is_department_manager : Bool

pub record Org : Type 0 where
  pub id : ℕ
  pub name : String
  pub description : String

pub record User : Type 0 where
  pub id : ℕ
  pub phone : String
  pub email : String
  pub email_verified : Bool
  pub name : String
  pub avatar_url : String
  pub position : String
  pub username : Option String
  pub password_hash : Option String
  pub dingtalk_user_id : Option String
  pub dingtalk_union_id : Option String
  pub dingtalk_open_id : Option String
  pub is_active : Bool

pub record Department : Type 0 where
  pub id : ℕ
  pub org_id : ℕ
  pub name : String
  pub parent_id : Option ℕ
  pub level : ℕ
  pub manager_user_id : Option ℕ
  pub description : String
  pub dingtalk_dept_id : Option ℕ
  pub sort_order : ℕ
