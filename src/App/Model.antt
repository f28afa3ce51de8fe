-- ===== src/App/Model.antt =====
-- The rows of backend/internal/model/application.go, application_deployment.go and
-- application_distribution.go; `created_at` and `updated_at`, the
-- logs of a deployment and the routes of an application, which no code reads, are left out.
use suzuran.Prelude.{ℕ, String, Bool, List}
use suzuran.Prelude.Int.{ℤ}

pub record Application : Type 0 where
  pub id : String
  pub org_id : ℕ
  pub name : String
  pub version : String
  pub runtime : String
  pub entrypoint : String
  pub port : ℤ
  pub cpu_quota : String
  pub memory_quota : String
  pub db_conn_quota : ℕ
  pub mcp_scopes : List String
  pub source_key : String
  pub status : String
  pub container_id : String
  pub oauth_token : String

pub record ApplicationDistribution : Type 0 where
  pub id : ℕ
  pub app_id : String
  pub org_id : ℕ

pub record ApplicationAdmin : Type 0 where
  pub id : ℕ
  pub app_id : String
  pub org_id : ℕ
  pub user_id : ℕ

pub record ApplicationDeployment : Type 0 where
  pub id : String
  pub application_id : String
  pub version : String
  pub image_tag : String
  pub status : String
  pub container_id : String
  pub completed : Bool
