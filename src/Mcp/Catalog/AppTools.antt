-- ===== src/Mcp/Catalog/AppTools.antt =====
-- The tools that RegisterTools of backend/internal/mcp/tools/app_tools.go registers.
use suzuran.Prelude.{List, [], ◌∷◌}
use suzuran.App.Store.{Env}
use suzuran.Mcp.Request.{Numbers, Tool, returning}
use suzuran.Mcp.Catalog.Apps.{
  Creation, World, AppReply, handle_delete, handle_deploy, handle_deployments, handle_distribute,
  handle_get, handle_import, handle_list, handle_list_distributions, handle_logs,
  handle_remove_admin, handle_restart, handle_set_admin, handle_start, handle_status, handle_stop,
  handle_undistribute, handle_update, handle_update_code,
}

module _ (e : Env) (n : Numbers) (c : Creation) where
  abbrev pub AppTool : Type 0
  AppTool = Tool n (World e) AppReply

  abbrev pub app_import : AppTool
  app_import = record {
    name = "app.import";
    required_scope = "org.write";
    properties = ("orgId", "integer") ∷ ("zipBase64", "string") ∷ [];
    required = "orgId" ∷ "zipBase64" ∷ [];
    handler = λ r. returning (handle_import e n c r);
  }

  abbrev pub app_list : AppTool
  app_list = record {
    name = "app.list";
    required_scope = "org.read";
    properties = ("orgId", "integer") ∷ [];
    required = "orgId" ∷ [];
    handler = λ r. returning (handle_list e n c r);
  }

  abbrev pub app_get : AppTool
  app_get = record {
    name = "app.get";
    required_scope = "org.read";
    properties = ("appId", "string") ∷ [];
    required = "appId" ∷ [];
    handler = λ r. returning (handle_get e n c r);
  }

  abbrev pub app_update : AppTool
  app_update = record {
    name = "app.update";
    required_scope = "org.write";
    properties =
        ("appId", "string")
        ∷ ("name", "string")
        ∷ ("version", "string")
        ∷ ("runtime", "string")
        ∷ ("entrypoint", "string")
        ∷ ("port", "integer")
        ∷ ("cpuQuota", "string")
        ∷ ("memoryQuota", "string")
        ∷ ("dbConnQuota", "integer")
        ∷ ("mcpScopes", "array")
        ∷ [];
    required = "appId" ∷ [];
    handler = λ r. returning (handle_update e n c r);
  }

  abbrev pub app_delete : AppTool
  app_delete = record {
    name = "app.delete";
    required_scope = "org.write";
    properties = ("appId", "string") ∷ [];
    required = "appId" ∷ [];
    handler = λ r. returning (handle_delete e n c r);
  }

  abbrev pub app_update_code : AppTool
  app_update_code = record {
    name = "app.update_code";
    required_scope = "org.write";
    properties = ("appId", "string") ∷ ("zipBase64", "string") ∷ [];
    required = "appId" ∷ "zipBase64" ∷ [];
    handler = λ r. returning (handle_update_code e n c r);
  }

  abbrev pub app_deploy : AppTool
  app_deploy = record {
    name = "app.deploy";
    required_scope = "org.write";
    properties = ("appId", "string") ∷ [];
    required = "appId" ∷ [];
    handler = λ r. returning (handle_deploy e n c r);
  }

  abbrev pub app_start : AppTool
  app_start = record {
    name = "app.start";
    required_scope = "org.write";
    properties = ("appId", "string") ∷ [];
    required = "appId" ∷ [];
    handler = λ r. returning (handle_start e n c r);
  }

  abbrev pub app_stop : AppTool
  app_stop = record {
    name = "app.stop";
    required_scope = "org.write";
    properties = ("appId", "string") ∷ [];
    required = "appId" ∷ [];
    handler = λ r. returning (handle_stop e n c r);
  }

  abbrev pub app_restart : AppTool
  app_restart = record {
    name = "app.restart";
    required_scope = "org.write";
    properties = ("appId", "string") ∷ [];
    required = "appId" ∷ [];
    handler = λ r. returning (handle_restart e n c r);
  }

  abbrev pub app_status : AppTool
  app_status = record {
    name = "app.status";
    required_scope = "org.read";
    properties = ("appId", "string") ∷ [];
    required = "appId" ∷ [];
    handler = λ r. returning (handle_status e n c r);
  }

  abbrev pub app_logs : AppTool
  app_logs = record {
    name = "app.logs";
    required_scope = "org.read";
    properties = ("appId", "string") ∷ ("tail", "integer") ∷ [];
    required = "appId" ∷ [];
    handler = λ r. returning (handle_logs e n c r);
  }

  abbrev pub app_deployments : AppTool
  app_deployments = record {
    name = "app.deployments";
    required_scope = "org.read";
    properties = ("appId", "string") ∷ [];
    required = "appId" ∷ [];
    handler = λ r. returning (handle_deployments e n c r);
  }

  abbrev pub app_distribute : AppTool
  app_distribute = record {
    name = "app.distribute";
    required_scope = "org.write";
    properties = ("appId", "string") ∷ ("targetOrgId", "integer") ∷ [];
    required = "appId" ∷ "targetOrgId" ∷ [];
    handler = λ r. returning (handle_distribute e n c r);
  }

  abbrev pub app_undistribute : AppTool
  app_undistribute = record {
    name = "app.undistribute";
    required_scope = "org.write";
    properties = ("appId", "string") ∷ ("targetOrgId", "integer") ∷ [];
    required = "appId" ∷ "targetOrgId" ∷ [];
    handler = λ r. returning (handle_undistribute e n c r);
  }

  abbrev pub app_list_distributions : AppTool
  app_list_distributions = record {
    name = "app.list_distributions";
    required_scope = "org.read";
    properties = ("appId", "string") ∷ [];
    required = "appId" ∷ [];
    handler = λ r. returning (handle_list_distributions e n c r);
  }

  abbrev pub app_set_admin : AppTool
  app_set_admin = record {
    name = "app.set_admin";
    required_scope = "org.write";
    properties = ("appId", "string") ∷ ("targetOrgId", "integer") ∷ ("userId", "integer") ∷ [];
    required = "appId" ∷ "targetOrgId" ∷ "userId" ∷ [];
    handler = λ r. returning (handle_set_admin e n c r);
  }

  abbrev pub app_remove_admin : AppTool
  app_remove_admin = record {
    name = "app.remove_admin";
    required_scope = "org.write";
    properties = ("appId", "string") ∷ ("targetOrgId", "integer") ∷ ("userId", "integer") ∷ [];
    required = "appId" ∷ "targetOrgId" ∷ "userId" ∷ [];
    handler = λ r. returning (handle_remove_admin e n c r);
  }

  abbrev pub app_tools : List AppTool
  app_tools =
      app_import ∷ app_list ∷ app_get ∷ app_update ∷ app_delete ∷ app_update_code ∷ app_deploy
      ∷ app_start ∷ app_stop ∷ app_restart ∷ app_status ∷ app_logs ∷ app_deployments
      ∷ app_distribute ∷ app_undistribute ∷ app_list_distributions ∷ app_set_admin
      ∷ app_remove_admin ∷ []
