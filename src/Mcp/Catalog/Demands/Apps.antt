-- ===== src/Mcp/Catalog/Demands/Apps.antt =====
-- The arguments that the tools for applications require.
use suzuran.Prelude.{ap, String, All}
use suzuran.Prelude.Exec.{Exec}
use suzuran.Prelude.Exec.Reads.{Reads, reads_rules}
use suzuran.App.Store.{Env, Store, get_app}
use suzuran.App.Service.{get_existing}
use suzuran.Mcp.Request.{Numbers, Caller}
use suzuran.Mcp.Promises.{Demands, Demand-returning, stops_rules, ◌also◌}
use suzuran.Mcp.Catalog.Apps.{
  Creation, World, on_apps, require_app_org, handle_import, handle_list, handle_get, handle_update,
  handle_delete, handle_update_code, handle_deploy, handle_start, handle_stop, handle_restart,
  handle_status, handle_logs, handle_deployments, handle_distribute, handle_undistribute,
  handle_list_distributions, handle_set_admin, handle_remove_admin,
}
use suzuran.Mcp.Catalog.AppTools.{app_tools}

module _ (e : Env) (n : Numbers) (c : Creation) where
  Reads-on_apps :
      {A : Type 0} (m : Exec (Store e) A)
      → Reads (λ (s : Store e). s) m
      → Reads (λ (w : World e). w) (on_apps e n c m)
  Reads-on_apps m h = record { leaves = λ w. ap (λ t. record w { apps = t }) (h.leaves w.apps) }

  Reads-existing : (id : String) → Reads (λ (s : Store e). s) (get_existing e id)
  unfolding get_existing get_app
  Reads-existing id = search reads_rules

  Reads-require_app_org :
      (caller : Caller) (id : String) → Reads (λ (w : World e). w) (require_app_org e n c caller id)
  unfolding require_app_org
  Reads-require_app_org caller id = search (reads_rules, Reads-on_apps, Reads-existing)

  pub app_tools-Demands : All Demands (app_tools e n c)
  unfolding handle_import handle_list handle_get handle_update handle_delete handle_update_code
      handle_deploy handle_start handle_stop handle_restart handle_status handle_logs
      handle_deployments handle_distribute handle_undistribute handle_list_distributions
      handle_set_admin handle_remove_admin
  app_tools-Demands =
      (Demand-returning _ _ (λ r h. search stops_rules)
        also Demand-returning _ _ (λ r h. search stops_rules)
        also tt)
      also (Demand-returning _ _ (λ r h. search stops_rules) also tt)
      also (Demand-returning _ _ (λ r h. search stops_rules) also tt)
      also (Demand-returning _ _ (λ r h. search stops_rules) also tt)
      also (Demand-returning _ _ (λ r h. search stops_rules) also tt)
      also (Demand-returning _ _ (λ r h. search stops_rules)
          also Demand-returning _ _ (λ r h. search (stops_rules, Reads-require_app_org))
          also tt)
      also (Demand-returning _ _ (λ r h. search stops_rules) also tt)
      also (Demand-returning _ _ (λ r h. search stops_rules) also tt)
      also (Demand-returning _ _ (λ r h. search stops_rules) also tt)
      also (Demand-returning _ _ (λ r h. search stops_rules) also tt)
      also (Demand-returning _ _ (λ r h. search stops_rules) also tt)
      also (Demand-returning _ _ (λ r h. search stops_rules) also tt)
      also (Demand-returning _ _ (λ r h. search stops_rules) also tt)
      also (Demand-returning _ _ (λ r h. search stops_rules)
          also Demand-returning _ _ (λ r h. search stops_rules)
          also tt)
      also (Demand-returning _ _ (λ r h. search stops_rules)
          also Demand-returning _ _ (λ r h. search stops_rules)
          also tt)
      also (Demand-returning _ _ (λ r h. search stops_rules) also tt)
      also (Demand-returning _ _ (λ r h. search stops_rules)
          also Demand-returning _ _ (λ r h. search stops_rules)
          also Demand-returning _ _ (λ r h. search stops_rules)
          also tt)
      also (Demand-returning _ _ (λ r h. search stops_rules)
          also Demand-returning _ _ (λ r h. search stops_rules)
          also Demand-returning _ _ (λ r h. search stops_rules)
          also tt)
      also tt
