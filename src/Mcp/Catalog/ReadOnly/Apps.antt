-- ===== src/Mcp/Catalog/ReadOnly/Apps.antt =====
-- The tools for applications whose scope is one for reading.
use suzuran.Prelude.{inl, inr, refl, ap, String, List, [], ◌∷◌, All}
use suzuran.Prelude.Int.{ℤ}
use suzuran.Prelude.Exec.{Exec}
use suzuran.Prelude.Exec.Reads.{Reads, reads_rules, Reads-bind, Reads-pure}
use suzuran.App.Model.{Application, ApplicationDeployment, ApplicationDistribution}
use suzuran.App.Distribution.{
  Db, list_distributions, distribution_views, list_distributions_by_app, list_admins,
}
use suzuran.App.Store.{Env, Store, on_engine, get_app, list_by_org_id, list_by_application_id}
use suzuran.App.Service.{get_existing, list_apps, get_app_status, get_app_logs, get_deployments}
use suzuran.App.Runtime.Manager
use suzuran.App.Runtime.Manager.{find_app, contained}
use suzuran.Mcp.Request.{Numbers, Caller, Request}
use suzuran.Mcp.Promises.{ReadsOnly, Reads-returning, ◌also◌}
use suzuran.Mcp.Catalog.Apps.{
  Creation, World, on_apps, on_distributions, require_app_org, handle_list, handle_get,
  handle_status, handle_logs, handle_deployments, handle_list_distributions,
}
use suzuran.Mcp.Catalog.AppTools.{app_tools}

-- Of the applications' own store the rows; what Docker makes of a query is its own.
abbrev app_rows : {e : Env} → Store e → List Application × List ApplicationDeployment
app_rows s = (s.apps, s.deployments)

abbrev pub rows : {e : Env} → World e → (List Application × List ApplicationDeployment) × Db
rows w = (app_rows w.apps, w.sharing)

module _ (e : Env) where
  Reads-docker :
      {A : Type 0} (m : Exec e.docker.Engine A) → Reads (app_rows {e = e}) (on_engine e m)
  Reads-docker m = record { leaves = λ s. refl }

  Reads-existing : (id : String) → Reads (app_rows {e = e}) (get_existing e id)
  unfolding get_existing get_app
  Reads-existing id = search reads_rules

  Reads-contained : (id : String) → Reads (app_rows {e = e}) (contained e id)
  unfolding contained find_app
  Reads-contained id = search reads_rules

  Reads-status : (id : String) → Reads (app_rows {e = e}) (get_app_status e id)
  unfolding get_app_status Manager.get_app_status find_app
  Reads-status id = search reads_rules

  Reads-logs : (id : String) (tail : ℤ) → Reads (app_rows {e = e}) (get_app_logs e id tail)
  unfolding get_app_logs Manager.get_app_logs
  Reads-logs id tail = search (reads_rules, Reads-docker, Reads-contained)

  Reads-views :
      (app : String) (dists : List ApplicationDistribution)
      → Reads (λ (s : Db). s) (distribution_views e.gorm app dists)
  unfolding distribution_views list_admins
  Reads-views app [] = search reads_rules
  Reads-views app (d ∷ dists) = Reads-bind _ _ (search reads_rules) (λ name.
      Reads-bind _ _ (search reads_rules) (λ admins.
        Reads-bind _ _ (search reads_rules)
          (λ views. Reads-bind _ _ (Reads-views app dists) (λ rest. Reads-pure _))))

  Reads-list_distributions : (app : String) → Reads (λ (s : Db). s) (list_distributions e.gorm app)
  unfolding list_distributions list_distributions_by_app
  Reads-list_distributions app = search (reads_rules, Reads-views)

  module _ (n : Numbers) (c : Creation) where
    Reads-on_apps :
        {A : Type 0} (m : Exec (Store e) A)
        → Reads (app_rows {e = e}) m
        → Reads (rows {e = e}) (on_apps e n c m)
    Reads-on_apps m h = record { leaves = λ w. ap (λ r. (r, w.sharing)) (h.leaves w.apps) }

    Reads-on_distributions :
        {A : Type 0} (m : Exec Db A)
        → Reads (λ (s : Db). s) m
        → Reads (rows {e = e}) (on_distributions e n c m)
    Reads-on_distributions m h = record {
      leaves = λ w.
          ap (λ (t : Db). ((t.apps, w.apps.deployments), record t { apps = w.sharing.apps }))
            (h.leaves (record w.sharing { apps = w.apps.apps }));
    }

    Reads-require_app_org :
        (caller : Caller) (id : String) → Reads (rows {e = e}) (require_app_org e n c caller id)
    unfolding require_app_org
    Reads-require_app_org caller id = search (reads_rules, Reads-on_apps, Reads-existing)

    Reads-app_list : (r : Request n) → Reads (rows {e = e}) (handle_list e n c r)
    unfolding handle_list list_apps list_by_org_id
    Reads-app_list r = search (reads_rules, Reads-on_apps)

    Reads-app_get : (r : Request n) → Reads (rows {e = e}) (handle_get e n c r)
    unfolding handle_get
    Reads-app_get r = search (reads_rules, Reads-on_apps, Reads-require_app_org, Reads-existing)

    Reads-app_status : (r : Request n) → Reads (rows {e = e}) (handle_status e n c r)
    unfolding handle_status
    Reads-app_status r = search (reads_rules, Reads-on_apps, Reads-require_app_org, Reads-status)

    Reads-app_logs : (r : Request n) → Reads (rows {e = e}) (handle_logs e n c r)
    unfolding handle_logs
    Reads-app_logs r = search (reads_rules, Reads-on_apps, Reads-require_app_org, Reads-logs)

    Reads-app_deployments : (r : Request n) → Reads (rows {e = e}) (handle_deployments e n c r)
    unfolding handle_deployments get_deployments list_by_application_id
    Reads-app_deployments r = search (reads_rules, Reads-on_apps, Reads-require_app_org)

    Reads-app_list_distributions :
        (r : Request n) → Reads (rows {e = e}) (handle_list_distributions e n c r)
    unfolding handle_list_distributions
    Reads-app_list_distributions r =
        search
          (reads_rules, Reads-on_distributions, Reads-require_app_org, Reads-list_distributions)

    pub app_tools-ReadsOnly : All (ReadsOnly (rows {e = e})) (app_tools e n c)
    app_tools-ReadsOnly =
        inl refl
        also inr (λ r. Reads-returning _ (Reads-app_list r))
        also inr (λ r. Reads-returning _ (Reads-app_get r))
        also inl refl
        also inl refl
        also inl refl
        also inl refl
        also inl refl
        also inl refl
        also inl refl
        also inr (λ r. Reads-returning _ (Reads-app_status r))
        also inr (λ r. Reads-returning _ (Reads-app_logs r))
        also inr (λ r. Reads-returning _ (Reads-app_deployments r))
        also inl refl
        also inl refl
        also inr (λ r. Reads-returning _ (Reads-app_list_distributions r))
        also inl refl
        also inl refl
        also tt
