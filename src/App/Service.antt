-- ===== src/App/Service.antt =====
-- backend/internal/service/application_service.go, and ImportApp of app_import_service.go.
pub mod Imports
use suzuran.Prelude.{
  ℕ, Bool, true, false, not, ◌&&◌, Option, none, some, String, List, [], ◌∷◌, length, str_eq,
  str_append, ltb, ◌==◌, if◌then◌else◌,
}
use suzuran.Prelude.Error.{
  app_not_found, name_required, runtime_required, port_out_of_range, runtime_unavailable,
  empty_package, package_too_large, no_code_package, storage_unavailable, app_exists,
}
use suzuran.Prelude.Int.{ℤ, pos}
use suzuran.Prelude.Exec.{Exec, pure, raise, lift, require, raise_if, ignoring, ◌>>=◌, ◌>>◌}
use suzuran.Prelude.Text.{Text}
use suzuran.App.Model.{Application, ApplicationDeployment}
use suzuran.App.Package.{AppManifest, in_port_range, max_zip_size, parse_app_zip}
use suzuran.App.Store.{
  Env, Store, on_objects, create_app_row, get_app, list_by_org_id, update_app_row, exists_by_name,
  update_source_key, delete_app_row, list_by_application_id,
}
use suzuran.App.Runtime.Manager as Manager

pub record CreateAppRequest : Type 0 where
  pub name : String
  pub version : String
  pub runtime : String
  pub entrypoint : String
  pub port : ℤ
  pub cpu_quota : String
  pub memory_quota : String
  pub db_conn_quota : ℕ
  pub mcp_scopes : List String

pub record UpdateAppRequest : Type 0 where
  pub name : Option String
  pub version : Option String
  pub runtime : Option String
  pub entrypoint : Option String
  pub port : Option ℤ
  pub cpu_quota : Option String
  pub memory_quota : Option String
  pub db_conn_quota : Option ℕ
  pub mcp_scopes : Option (List String)

abbrev pub or_old {ℓ} : {A : Type ℓ} → Option A → A → A
or_old none old = old
or_old (some new) old = new

-- the row of UpdateApp
abbrev pub updated : UpdateAppRequest → Application → Application
updated req app = record app {
  name = or_old req.name app.name;
  version = or_old req.version app.version;
  runtime = or_old req.runtime app.runtime;
  entrypoint = or_old req.entrypoint app.entrypoint;
  port = or_old req.port app.port;
  cpu_quota = or_old req.cpu_quota app.cpu_quota;
  memory_quota = or_old req.memory_quota app.memory_quota;
  db_conn_quota = or_old req.db_conn_quota app.db_conn_quota;
  mcp_scopes = or_old req.mcp_scopes app.mcp_scopes;
}

-- the row of CreateApp; `id` is what uuid.New returns
abbrev pub new_app : String → ℕ → CreateAppRequest → Application
new_app id org req = record {
  id = id;
  org_id = org;
  name = req.name;
  version = req.version;
  runtime = req.runtime;
  entrypoint = req.entrypoint;
  port = req.port;
  cpu_quota = req.cpu_quota;
  memory_quota = req.memory_quota;
  db_conn_quota = req.db_conn_quota;
  mcp_scopes = req.mcp_scopes;
  source_key = "";
  status = "created";
  container_id = "";
  oauth_token = "";
}

-- a missing resource is ""
abbrev resource : String → List (String × String) → String
resource k [] = ""
resource k ((name, value) ∷ t) = if str_eq name k then value else resource k t

abbrev pub request_of : AppManifest → CreateAppRequest
request_of m = record {
  name = m.name;
  version = m.version;
  runtime = m.runtime;
  entrypoint = m.entrypoint;
  port = m.port;
  cpu_quota = resource "cpu" m.resources;
  memory_quota = resource "memory" m.resources;
  db_conn_quota = 0;
  mcp_scopes = m.mcp_scopes;
}

module _ (e : Env) where
  unfoldable pub create_app : String → ℕ → CreateAppRequest → Exec (Store e) Application
  create_app id org req = do
    raise_if (str_eq req.name "") name_required
    raise_if (str_eq req.runtime "") runtime_required
    raise_if (not (in_port_range req.port)) port_out_of_range
    create_app_row e (new_app id org req)
    pure (new_app id org req)

  unfoldable pub get_existing : String → Exec (Store e) Application
  get_existing id = do found ← get_app e id; require app_not_found found

  unfoldable pub list_apps : ℕ → Exec (Store e) (List Application)
  list_apps org = list_by_org_id e org

  unfoldable pub update_app : String → UpdateAppRequest → Exec (Store e) Application
  update_app id req = do
    app ← get_existing id
    update_app_row e (updated req app)
    pure (updated req app)

  -- The container goes first, and an error of that is dropped.
  unfoldable pub delete_app : String → Exec (Store e) (Unit {0})
  delete_app id = do
    app ← get_existing id
    if not (str_eq app.container_id "") && e.has_runtime
        then ignoring (Manager.delete_app e id) (delete_app_row e id)
        else delete_app_row e id

  abbrev with_runtime : {A : Type 0} → Exec (Store e) A → Exec (Store e) A
  with_runtime m = do raise_if (not e.has_runtime) runtime_unavailable; m

  unfoldable pub deploy_app : String → String → String → Exec (Store e) ApplicationDeployment
  deploy_app key id token = do
    app ← get_existing id
    with_runtime (Manager.deploy_app e key (record app { oauth_token = token }))

  unfoldable pub start_app : String → Exec (Store e) (Unit {0})
  start_app id = with_runtime (Manager.start_app e id)

  unfoldable pub stop_app : String → Exec (Store e) (Unit {0})
  stop_app id = with_runtime (Manager.stop_app e id)

  unfoldable pub restart_app : String → Exec (Store e) (Unit {0})
  restart_app id = with_runtime (Manager.restart_app e id)

  unfoldable pub get_app_status : String → Exec (Store e) String
  get_app_status id = with_runtime (Manager.get_app_status e id)

  unfoldable pub get_app_logs : String → ℤ → Exec (Store e) Text
  get_app_logs id tail = with_runtime (Manager.get_app_logs e id tail)

  unfoldable pub get_deployments : String → Exec (Store e) (List ApplicationDeployment)
  get_deployments id = list_by_application_id e id

  -- the version that the manifest brings, when it differs
  unfoldable pub sync_version : AppManifest → Application → Exec (Store e) Application
  sync_version m app =
      if not (str_eq m.version "") && not (str_eq m.version app.version)
      then (do
        update_app_row e (record app { version = m.version })
        pure (record app { version = m.version }))
      else pure app

  unfoldable pub update_code : String → Text → Exec (Store e) Application
  update_code id zip = do
    app ← get_existing id
    raise_if (length zip == 0) empty_package
    raise_if (ltb max_zip_size (length zip)) package_too_large
    raise_if (str_eq app.source_key "") no_code_package
    raise_if (not e.has_storage) storage_unavailable
    m ← lift (parse_app_zip e.formats zip)
    on_objects e (e.files.upload app.source_key zip)
    sync_version m app

  -- `orgs/%d/apps/%s/code.zip`
  abbrev pub object_key : ℕ → String → String
  object_key org id =
      str_append "orgs/"
        (str_append (e.decimal (pos org)) (str_append "/apps/" (str_append id "/code.zip")))

  -- The upload, which is taken back when it fails, and the key on the row.
  unfoldable pub store_package : ℕ → Text → Application → Exec (Store e) Application
  store_package org zip app = do
    Manager.on_error (on_objects e (e.files.upload (object_key org app.id) zip))
        (delete_app_row e app.id)
    update_source_key e app.id (object_key org app.id)
    pure (record app { source_key = object_key org app.id })

  -- Without a storage the row is taken back.
  unfoldable pub keep_package : ℕ → Text → Application → Exec (Store e) Application
  keep_package org zip app =
      if e.has_storage
      then store_package org zip app
      else ignoring (delete_app_row e app.id) (raise storage_unavailable)

  unfoldable pub import_app : String → ℕ → Text → Exec (Store e) Application
  import_app id org zip = do
    raise_if (length zip == 0) empty_package
    raise_if (ltb max_zip_size (length zip)) package_too_large
    m ← lift (parse_app_zip e.formats zip)
    exists ← exists_by_name e org m.name
    raise_if exists app_exists
    app ← create_app id org (request_of m)
    keep_package org zip app
