-- ===== src/App/Runtime/Manager.antt =====
-- backend/internal/runtime/manager.go and sandbox.go: the life of an application's container.
use suzuran.Prelude.{
  zero, false, not, Option, none, some, String, List, [], ◌∷◌, ◌++◌, str_eq, str_append,
  if◌then◌else◌,
}
use suzuran.Prelude.Error.{app_not_found, no_docker, no_container, no_address}
use suzuran.Prelude.Int.{ℤ, pos, negsuc}
use suzuran.Prelude.Result.{Result, ok, err}
use suzuran.Prelude.Exec.{Exec, pure, raise_if, ignoring, ◌>>=◌, ◌>>◌}
use suzuran.Prelude.Text.{Text}
use suzuran.App.Model.{Application, ApplicationDeployment}
use suzuran.App.Store.{
  Env, Store, ContainerConfig, on_engine, get_app, update_status, create_deployment,
  update_deployment_status, update_container_id,
}
use suzuran.App.Runtime.Quota.{parse_cpu_quota, parse_memory_quota}
use suzuran.App.Runtime.Extract.{prepare_code_package}

pub record Sandbox : Type 0 where
  pub container_id : String
  pub network_id : String
  pub volumes : List String

abbrev pub app_net : String → String
app_net id = str_append "app-" (str_append id "-net")

-- `:/workspace`
abbrev mount : Text
mount = b':' ∷ b'/' ∷ b'w' ∷ b'o' ∷ b'r' ∷ b'k' ∷ b's' ∷ b'p' ∷ b'a' ∷ b'c' ∷ b'e' ∷ []

-- `if err != nil { _ = cleanup; return err }`
abbrev pub cleaned {ℓ} : {S A B : Type ℓ} → Result A → Exec S B → Exec S A
cleaned (ok a) cleanup s = (ok a, s)
cleaned (err x) cleanup s = (err x, (cleanup s).1)

unfoldable pub on_error {ℓ} : {S A B : Type ℓ} → Exec S A → Exec S B → Exec S A
on_error m cleanup s = cleaned (m s).0 cleanup (m s).1

module _ (e : Env) where
  -- `err != nil || app == nil` is one message.
  abbrev found : Result (Option Application) → Result Application
  found (ok (some a)) = ok a
  found _ = err app_not_found

  unfoldable pub find_app : String → Exec (Store e) Application
  find_app id s = (found (get_app e id s).0, s)

  unfoldable pub create_sandbox : Application → Exec (Store e) Sandbox
  create_sandbox app = do
    raise_if (not e.has_docker) no_docker
    network ← on_engine e (
        e.docker.create_network (app_net app.id) (
          ("app-id", app.id)
          ∷ ("org-id", e.decimal (pos app.org_id))
          ∷ ("managed-by", "suzuran-cloud")
          ∷ []))
    pure (record { container_id = ""; network_id = network; volumes = [] })

  unfoldable pub remove_volumes : List String → Exec (Store e) (Unit {0})
  remove_volumes [] = pure tt
  remove_volumes (v ∷ volumes) =
      ignoring (on_engine e (e.docker.remove_volume v)) (remove_volumes volumes)

  abbrev pub remove_network : String → Exec (Store e) (Unit {0})
  remove_network id = if str_eq id "" then pure tt else on_engine e (e.docker.remove_network id)

  unfoldable pub destroy_sandbox : Sandbox → Exec (Store e) (Unit {0})
  destroy_sandbox sandbox =
      if e.has_docker
      then ignoring (remove_network sandbox.network_id) (remove_volumes sandbox.volumes)
      else pure tt

  abbrev pub binds_of : Text → List Text
  binds_of [] = []
  binds_of (c ∷ dir) = ((c ∷ dir) ++ mount) ∷ []

  unfoldable pub container_config : Application → Sandbox → Text → ContainerConfig
  container_config app sandbox dir = record {
    name = str_append "app-" app.id;
    image = app.runtime;
    cmd = "sh" ∷ "-c" ∷ str_append "cd /workspace && " app.entrypoint ∷ [];
    env =
        str_append "APP_ID=" app.id
        ∷ str_append "ORG_ID=" (e.decimal (pos app.org_id))
        ∷ "MCP_ENDPOINT=http://backend:8888/mcp"
        ∷ str_append "PORT=" (e.decimal app.port)
        ∷ str_append "OAUTH_TOKEN=" app.oauth_token
        ∷ [];
    exposed_port = str_append (e.decimal app.port) "/tcp";
    nano_cpus = parse_cpu_quota e.quantity (e.bytes app.cpu_quota);
    memory = parse_memory_quota e.quantity (e.bytes app.memory_quota);
    security_opt = "no-new-privileges" ∷ [];
    binds = binds_of dir;
    networks = (app_net app.id, sandbox.network_id) ∷ ("suzuran-net", "") ∷ [];
  }

  unfoldable pub create_and_start_container : Application → Sandbox → Text → Exec (Store e) String
  create_and_start_container app sandbox dir = do
    id ← on_engine e (e.docker.create (container_config app sandbox dir))
    on_error (on_engine e (e.docker.start id)) (on_engine e (e.docker.remove id))
    pure id

  -- the deployment that DeployApp records first
  abbrev pub new_deployment : String → Application → ApplicationDeployment
  new_deployment key app = record {
    id = key;
    application_id = app.id;
    version = app.version;
    image_tag = app.runtime;
    status = "building";
    container_id = "";
    completed = false;
  }

  -- A failure marks the deployment.
  abbrev pub or_failed : {A : Type 0} → String → Exec (Store e) A → Exec (Store e) A
  or_failed key m = on_error m (update_deployment_status e key "failed")

  -- step 5 of DeployApp; the errors of the three updates are dropped
  unfoldable pub record_running :
      String → Application → String → Exec (Store e) ApplicationDeployment
  record_running key app container = ignoring (update_container_id e key container) (
      ignoring (update_deployment_status e key "running") (
        ignoring (update_status e app.id "running" container) (
          pure (record (new_deployment key app) { container_id = container; status = "running" }))))

  -- steps 1 to 4; `key` is what generateID returns
  unfoldable pub launch : String → Application → Exec (Store e) String
  launch key app = do
    or_failed key (on_engine e (e.docker.pull app.runtime))
    dir ← or_failed key (prepare_code_package e app)
    sandbox ← or_failed key (create_sandbox app)
    or_failed key (on_error (create_and_start_container app sandbox dir) (destroy_sandbox sandbox))

  unfoldable pub deploy_app : String → Application → Exec (Store e) ApplicationDeployment
  deploy_app key app = do
    raise_if (not e.has_docker) no_docker
    create_deployment e (new_deployment key app)
    container ← launch key app
    record_running key app container

  -- the application, when it has a container
  unfoldable pub contained : String → Exec (Store e) Application
  contained id = do
    raise_if (not e.has_docker) no_docker
    app ← find_app id
    raise_if (str_eq app.container_id "") no_container
    pure app

  unfoldable pub start_app : String → Exec (Store e) (Unit {0})
  start_app id = do
    app ← contained id
    on_engine e (e.docker.start app.container_id)
    update_status e id "running" app.container_id

  unfoldable pub stop_app : String → Exec (Store e) (Unit {0})
  stop_app id = do
    app ← contained id
    on_engine e (e.docker.stop app.container_id 10)
    update_status e id "stopped" app.container_id

  unfoldable pub restart_app : String → Exec (Store e) (Unit {0})
  restart_app id = do
    app ← contained id
    on_engine e (e.docker.restart app.container_id 10)
    update_status e id "running" app.container_id

  abbrev pub remove_container : String → Exec (Store e) (Unit {0})
  remove_container id = if str_eq id "" then pure tt else on_engine e (e.docker.remove id)

  unfoldable pub delete_app : String → Exec (Store e) (Unit {0})
  delete_app id = do
    raise_if (not e.has_docker) no_docker
    app ← find_app id
    ignoring (remove_container app.container_id) (
        ignoring
          (destroy_sandbox
            (record { container_id = app.container_id; network_id = app_net id; volumes = [] }))
          (update_status e id "deleted" ""))

  -- An engine that does not answer leaves the status of the row.
  abbrev or_row : String → Result String → Result String
  or_row status (ok t) = ok t
  or_row status (err x) = ok status

  abbrev inspected : Application → Exec (Store e) String
  inspected app s =
      let (r, t) = on_engine e (e.docker.inspect app.container_id) s in (or_row app.status r, t)

  unfoldable pub get_app_status : String → Exec (Store e) String
  get_app_status id = do
    raise_if (not e.has_docker) no_docker
    app ← find_app id
    if str_eq app.container_id "" then pure app.status else inspected app

  abbrev tail_of : ℤ → ℤ
  tail_of (pos zero) = pos 100
  tail_of (negsuc n) = pos 100
  tail_of (pos n) = pos n

  unfoldable pub get_app_logs : String → ℤ → Exec (Store e) Text
  get_app_logs id tail = do
    app ← contained id
    on_engine e (e.docker.logs app.container_id (tail_of tail))

  -- The address on the network of this name, or the first one that is not empty.
  abbrev address_on : String → List (String × String) → Option String
  address_on name [] = none
  address_on name ((n, address) ∷ t) = if str_eq n name then some address else address_on name t

  abbrev any_address : List (String × String) → Option String
  any_address [] = none
  any_address ((n, address) ∷ t) = if str_eq address "" then any_address t else some address

  abbrev pick_address : String → List (String × String) → Result String
  pick_address name t = elim (address_on name t) [
    | some address ↦ ok address
    | none ↦ elim (any_address t) [ some address ↦ ok address | none ↦ err no_address ]
  ]

  unfoldable pub get_container_ip : String → String → Exec (Store e) String
  get_container_ip container name = do
    raise_if (not e.has_docker) no_docker
    networks ← on_engine e (e.docker.addresses container)
    λ s. (pick_address name networks, s)
