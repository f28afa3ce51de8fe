-- ===== src/App/Store.antt =====
-- What the application service and the runtime share: the database rows, the object storage, the
-- disk and the Docker engine, and backend/internal/repository/application_repository.go and
-- application_deployment_repository.go over it. Docker, the object storage, the file system and the
-- formats of archives are parameters.
use suzuran.Prelude.{
  ℕ, Bool, ◌&&◌, ◌||◌, Option, none, some, String, List, find?, length, ltb, str_eq, ◌==◌,
}
use suzuran.Prelude.Int.{ℤ}
use suzuran.Prelude.Result.{Result, ok, err}
use suzuran.Prelude.Exec.{Exec}
use suzuran.Prelude.Text.{Text}
use suzuran.Gorm.{Gorm}
use suzuran.App.Model.{Application, ApplicationDeployment}
use suzuran.App.Package.{Formats, Reads}

-- what createAndStartContainer hands to Docker
pub record ContainerConfig : Type 0 where
  pub name : String
  pub image : String
  pub cmd : List String
  pub env : List String
  pub exposed_port : String
  pub nano_cpus : ℤ
  pub memory : ℤ
  pub security_opt : List String
  pub binds : List Text
  -- the networks by name, with the id where one is given
  pub networks : List (String × String)

-- runtime.DockerClient, as far as the manager calls it. A call may change the engine.
pub record Docker : Type 1 where
  pub Engine : Type 0
  pub pull : String → Exec Engine (Unit {0})
  pub create : ContainerConfig → Exec Engine String
  pub start : String → Exec Engine (Unit {0})
  pub stop : String → ℕ → Exec Engine (Unit {0})
  pub restart : String → ℕ → Exec Engine (Unit {0})
  pub remove : String → Exec Engine (Unit {0})
  pub inspect : String → Exec Engine String
  -- the addresses of a container by network
  pub addresses : String → Exec Engine (List (String × String))
  pub logs : String → ℤ → Exec Engine Text
  pub create_network : String → List (String × String) → Exec Engine String
  pub remove_network : String → Exec Engine (Unit {0})
  pub remove_volume : String → Exec Engine (Unit {0})

-- storage.FileStorage, and what the manager uses of the package `os`
pub record Files : Type 1 where
  pub Objects : Type 0
  pub upload : String → Text → Exec Objects (Unit {0})
  pub download : String → Exec Objects Text
  pub Disk : Type 0
  pub remove_all : Text → Exec Disk (Unit {0})
  pub mkdir_all : Text → Exec Disk (Unit {0})
  -- the file is created or truncated, and the content copied
  pub write_file : Text → Reads → Exec Disk (Unit {0})

-- float64 in quotas: ParseFloat, the product with a constant, and the conversion to int64
pub record Quantity : Type 1 where
  pub Carrier : Type 0
  pub parse : Text → Option Carrier
  pub times : Carrier → ℕ → Carrier
  pub truncate : Carrier → ℤ

pub record Env : Type 1 where
  pub gorm : Gorm
  pub docker : Docker
  pub files : Files
  pub formats : Formats
  pub quantity : Quantity
  -- `m.docker != nil`, `s.runtime != nil`, `s.storage != nil`
  pub has_docker : Bool
  pub has_runtime : Bool
  pub has_storage : Bool
  pub bytes : String → Text
  -- fmt's %d
  pub decimal : ℤ → String

pub record Store (e : Env) : Type 0 where
  pub apps : List Application
  pub deployments : List ApplicationDeployment
  pub engine : e.docker.Engine
  pub objects : e.files.Objects
  pub disk : e.files.Disk

abbrev pub has_app_id : String → Application → Bool
has_app_id id a = str_eq a.id id

abbrev pub with_status : String → String → Application → Application
with_status status container a = record a { status = status; container_id = container }

abbrev pub has_deployment_id : String → ApplicationDeployment → Bool
has_deployment_id id d = str_eq d.id id

-- A deployment that runs or failed is completed.
abbrev pub with_deployment_status : String → ApplicationDeployment → ApplicationDeployment
with_deployment_status status d = record d {
  status = status;
  completed = str_eq status "running" || str_eq status "failed" || d.completed;
}

module _ (e : Env) where
  -- A call of Docker, the object storage or the disk.
  abbrev pub on_engine : {A : Type 0} → Exec e.docker.Engine A → Exec (Store e) A
  on_engine m s = let (r, t) = m s.engine in (r, record s { engine = t })

  abbrev pub on_objects : {A : Type 0} → Exec e.files.Objects A → Exec (Store e) A
  on_objects m s = let (r, t) = m s.objects in (r, record s { objects = t })

  abbrev pub on_disk : {A : Type 0} → Exec e.files.Disk A → Exec (Store e) A
  on_disk m s = let (r, t) = m s.disk in (r, record s { disk = t })

  -- ApplicationRepository

  unfoldable pub create_app_row : Application → Exec (Store e) (Unit {0})
  create_app_row app s = let (r, t) = e.gorm.insert app s.apps in (r, record s { apps = t })

  unfoldable pub get_app : String → Exec (Store e) (Option Application)
  get_app id s = (e.gorm.first (has_app_id id) s.apps, s)

  unfoldable pub list_by_org_id : ℕ → Exec (Store e) (List Application)
  list_by_org_id org s = (e.gorm.find (λ a. a.org_id == org) s.apps, s)

  abbrev upsert_app :
      Application → Option Application → List Application → Result (Unit {0}) × List Application
  upsert_app app (some a) t = e.gorm.update (has_app_id app.id) (λ a. app) t
  upsert_app app none t = e.gorm.insert app t

  -- Save: the row with this id is written, and inserted when it is not there.
  unfoldable pub update_app_row : Application → Exec (Store e) (Unit {0})
  update_app_row app s =
      let (r, t) = upsert_app app (find? (has_app_id app.id) s.apps) s.apps in
      (r, record s { apps = t })

  abbrev counted : Result (List Application) → Result Bool
  counted (ok rows) = ok (ltb 0 (length rows))
  counted (err x) = err x

  unfoldable pub exists_by_name : ℕ → String → Exec (Store e) Bool
  exists_by_name org name s =
      (counted (e.gorm.find (λ a. a.org_id == org && str_eq a.name name) s.apps), s)

  unfoldable pub update_source_key : String → String → Exec (Store e) (Unit {0})
  update_source_key id key s =
      let (r, t) = e.gorm.update (has_app_id id) (λ a. record a { source_key = key }) s.apps in
      (r, record s { apps = t })

  unfoldable pub delete_app_row : String → Exec (Store e) (Unit {0})
  delete_app_row id s =
      let (r, t) = e.gorm.delete (has_app_id id) s.apps in (r, record s { apps = t })

  unfoldable pub update_status : String → String → String → Exec (Store e) (Unit {0})
  update_status id status container s =
      let (r, t) = e.gorm.update (has_app_id id) (with_status status container) s.apps in
      (r, record s { apps = t })

  -- ApplicationDeploymentRepository

  unfoldable pub create_deployment : ApplicationDeployment → Exec (Store e) (Unit {0})
  create_deployment d s =
      let (r, t) = e.gorm.insert d s.deployments in (r, record s { deployments = t })

  unfoldable pub get_deployment : String → Exec (Store e) (Option ApplicationDeployment)
  get_deployment id s = (e.gorm.first (has_deployment_id id) s.deployments, s)

  unfoldable pub list_by_application_id : String → Exec (Store e) (List ApplicationDeployment)
  list_by_application_id app s = (e.gorm.find (λ d. str_eq d.application_id app) s.deployments, s)

  unfoldable pub update_deployment_status : String → String → Exec (Store e) (Unit {0})
  update_deployment_status id status s =
      let (r, t) =
        e.gorm.update (has_deployment_id id) (with_deployment_status status) s.deployments in
      (r, record s { deployments = t })

  unfoldable pub update_container_id : String → String → Exec (Store e) (Unit {0})
  update_container_id id container s =
      let (r, t) =
        e.gorm.update (has_deployment_id id) (λ d. record d { container_id = container })
          s.deployments in
      (r, record s { deployments = t })
