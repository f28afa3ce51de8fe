-- ===== src/Mcp/Catalog/Apps.antt =====
-- backend/internal/mcp/tools/app_tools.go. The identifier that a call creates, and the decoder of
-- base64, are parameters.
use suzuran.Prelude.{
  ℕ, ◌+◌, ◌*◌, ◌/◌, not, Option, none, some, String, List, [], ◌∷◌, length, ltb, ◌==◌,
  if◌then◌else◌,
}
use suzuran.Prelude.Error.{access_denied, package_too_long, bad_base64}
use suzuran.Prelude.Int.{ℤ, int64_of}
use suzuran.Prelude.Result.{Result, ok, err}
use suzuran.Prelude.Exec.{Exec, pure, lift, raise_if, ◌>>=◌, ◌>>◌}
use suzuran.Prelude.Text.{Text}
use suzuran.App.Model.{Application, ApplicationDeployment}
use suzuran.App.Distribution.{
  Db, DistributionView, distribute_app, undistribute_app, set_app_admin, remove_app_admin,
  list_distributions,
}
use suzuran.App.Package.{max_zip_size}
use suzuran.App.Store.{Env, Store}
use suzuran.App.Service.{
  UpdateAppRequest, import_app, list_apps, get_existing, update_app, delete_app, update_code,
  deploy_app, start_app, stop_app, restart_app, get_app_status, get_app_logs, get_deployments,
}
use suzuran.Mcp.Access.{require_role}
use suzuran.Mcp.Request.{
  Numbers, text, Elements, nothing, element, Args, Caller, Request, get_int_arg, get_string_arg,
  get_optional_int_arg, maybe_int, maybe_string, member_as, as_array, find_member, get_org_id,
  get_token,
}

-- what a call brings besides its arguments
pub record Creation : Type 0 where
  pub id : String
  pub string_of : Text → String
  pub decode_base64 : String → Option Text

-- The rows of applications are those that the distributions refer to.
pub record World (e : Env) : Type 0 where
  pub apps : Store e
  pub sharing : Db

pub data AppReply : Type 0 where
  application : Application → AppReply
  applications : List Application → AppReply
  deployment : ApplicationDeployment → AppReply
  deployments : List ApplicationDeployment → AppReply
  status_of : String → AppReply
  logs : Text → AppReply
  distributions : List DistributionView → AppReply
  done : AppReply

abbrev as_port : Option ℕ → Option ℤ
as_port none = none
as_port (some p) = some (int64_of p)

-- the elements that are texts
abbrev pub strings : {F : Type 0} → Elements F → List String
strings nothing = []
strings (element (text s) l) = s ∷ strings l
strings (element _ l) = strings l

abbrev as_scopes : {F : Type 0} → Option (Elements F) → Option (List String)
as_scopes none = none
as_scopes (some l) = some (strings l)

module _ (e : Env) (n : Numbers) (c : Creation) where
  abbrev pub on_apps : {A : Type 0} → Exec (Store e) A → Exec (World e) A
  on_apps act w = let (r, t) = act w.apps in (r, record w { apps = t })

  -- The service of distributions works on the same rows of applications, and only on these: the rows
  -- that `sharing` has of its own are not read.
  abbrev pub on_distributions : {A : Type 0} → Exec Db A → Exec (World e) A
  on_distributions act w =
      let (r, t) = act (record w.sharing { apps = w.apps.apps }) in
      (
        r,
        record {
          apps = record w.apps { apps = t.apps };
          sharing = record t { apps = w.sharing.apps };
        },
      )

  unfoldable pub require_app_org : Caller → String → Exec (World e) (Unit {0})
  require_app_org caller id = do
    org ← lift (get_org_id caller)
    app ← on_apps (get_existing e id)
    raise_if (not (app.org_id == org)) access_denied

  abbrev decoded : Option Text → Result Text
  decoded none = err bad_base64
  decoded (some zip) = ok zip

  unfoldable pub decode_zip_arg : String → Result Text
  decode_zip_arg base64 =
      if ltb (max_zip_size * 4 / 3 + 8) (length (e.bytes base64))
      then err package_too_long
      else decoded (c.decode_base64 base64)

  abbrev Handler : Type 0
  Handler = Request n → Exec (World e) AppReply

  unfoldable pub handle_import : Handler
  handle_import r = do
    org ← lift (get_int_arg n r.args "orgId")
    base64 ← lift (get_string_arg n r.args "zipBase64")
    zip ← lift (decode_zip_arg base64)
    app ← on_apps (import_app e c.id org zip)
    pure (application app)

  unfoldable pub handle_list : Handler
  handle_list r = do
    org ← lift (get_int_arg n r.args "orgId")
    found ← on_apps (list_apps e org)
    pure (applications found)

  unfoldable pub handle_get : Handler
  handle_get r = do
    id ← lift (get_string_arg n r.args "appId")
    require_app_org r.caller id
    app ← on_apps (get_existing e id)
    pure (application app)

  abbrev pub asked_update : Args n → UpdateAppRequest
  asked_update args = record {
    name = maybe_string n args "name";
    version = maybe_string n args "version";
    runtime = maybe_string n args "runtime";
    entrypoint = maybe_string n args "entrypoint";
    port = as_port (maybe_int n args "port");
    cpu_quota = maybe_string n args "cpuQuota";
    memory_quota = maybe_string n args "memoryQuota";
    db_conn_quota = maybe_int n args "dbConnQuota";
    mcp_scopes = as_scopes (member_as as_array (find_member "mcpScopes" args));
  }

  unfoldable pub handle_update : Handler
  handle_update r = do
    id ← lift (get_string_arg n r.args "appId")
    require_app_org r.caller id
    app ← on_apps (update_app e id (asked_update r.args))
    pure (application app)

  unfoldable pub handle_delete : Handler
  handle_delete r = do
    id ← lift (get_string_arg n r.args "appId")
    require_app_org r.caller id
    on_apps (delete_app e id)
    pure done

  unfoldable pub handle_update_code : Handler
  handle_update_code r = do
    id ← lift (get_string_arg n r.args "appId")
    require_app_org r.caller id
    base64 ← lift (get_string_arg n r.args "zipBase64")
    zip ← lift (decode_zip_arg base64)
    app ← on_apps (update_code e id zip)
    pure (application app)

  unfoldable pub handle_deploy : Handler
  handle_deploy r = do
    id ← lift (get_string_arg n r.args "appId")
    require_app_org r.caller id
    token ← lift (get_token r.caller)
    made ← on_apps (deploy_app e c.id id (c.string_of token))
    pure (deployment made)

  unfoldable pub handle_start : Handler
  handle_start r = do
    id ← lift (get_string_arg n r.args "appId")
    require_app_org r.caller id
    on_apps (start_app e id)
    pure done

  unfoldable pub handle_stop : Handler
  handle_stop r = do
    id ← lift (get_string_arg n r.args "appId")
    require_app_org r.caller id
    on_apps (stop_app e id)
    pure done

  unfoldable pub handle_restart : Handler
  handle_restart r = do
    id ← lift (get_string_arg n r.args "appId")
    require_app_org r.caller id
    on_apps (restart_app e id)
    pure done

  unfoldable pub handle_status : Handler
  handle_status r = do
    id ← lift (get_string_arg n r.args "appId")
    require_app_org r.caller id
    status ← on_apps (get_app_status e id)
    pure (status_of status)

  unfoldable pub handle_logs : Handler
  handle_logs r = do
    id ← lift (get_string_arg n r.args "appId")
    require_app_org r.caller id
    found ← on_apps (get_app_logs e id (int64_of (get_optional_int_arg n r.args "tail" 100)))
    pure (logs found)

  unfoldable pub handle_deployments : Handler
  handle_deployments r = do
    id ← lift (get_string_arg n r.args "appId")
    require_app_org r.caller id
    found ← on_apps (get_deployments e id)
    pure (deployments found)

  unfoldable pub handle_distribute : Handler
  handle_distribute r = do
    id ← lift (get_string_arg n r.args "appId")
    target ← lift (get_int_arg n r.args "targetOrgId")
    lift (require_role r.caller.auth ("provider" ∷ []))
    require_app_org r.caller id
    on_distributions (distribute_app e.gorm id target)
    pure done

  unfoldable pub handle_undistribute : Handler
  handle_undistribute r = do
    id ← lift (get_string_arg n r.args "appId")
    target ← lift (get_int_arg n r.args "targetOrgId")
    lift (require_role r.caller.auth ("provider" ∷ []))
    require_app_org r.caller id
    on_distributions (undistribute_app e.gorm id target)
    pure done

  unfoldable pub handle_list_distributions : Handler
  handle_list_distributions r = do
    id ← lift (get_string_arg n r.args "appId")
    require_app_org r.caller id
    found ← on_distributions (list_distributions e.gorm id)
    pure (distributions found)

  unfoldable pub handle_set_admin : Handler
  handle_set_admin r = do
    id ← lift (get_string_arg n r.args "appId")
    target ← lift (get_int_arg n r.args "targetOrgId")
    user ← lift (get_int_arg n r.args "userId")
    lift (require_role r.caller.auth ("provider" ∷ []))
    require_app_org r.caller id
    on_distributions (set_app_admin e.gorm id target user)
    pure done

  unfoldable pub handle_remove_admin : Handler
  handle_remove_admin r = do
    id ← lift (get_string_arg n r.args "appId")
    target ← lift (get_int_arg n r.args "targetOrgId")
    user ← lift (get_int_arg n r.args "userId")
    lift (require_role r.caller.auth ("provider" ∷ []))
    require_app_org r.caller id
    on_distributions (remove_app_admin e.gorm id target user)
    pure done
