-- ===== src/Mcp/Catalog/Isolation/Owners.antt =====
-- requireAppOrg of backend/internal/mcp/tools/app_tools.go, and the tools that call it.
use suzuran.Prelude.{
  ◌≡◌, ◌⊎◌, inl, inr, refl, ap, ◌∙◌, false, Option, some, String, All, ◌==◌, ==_iff, arith,
  Option-cases, Bool-cases,
}
use suzuran.Prelude.Error.{Error, app_not_found, no_org_id, access_denied}
use suzuran.Prelude.Result.{Result, Result-cases, ok, err}
use suzuran.Prelude.Exec.{Exec, lift, ◌>>=◌}
use suzuran.App.Model.{Application}
use suzuran.App.Store.{Env, has_app_id, get_app}
use suzuran.App.Service.{get_existing}
use suzuran.Mcp.Access.{member}
use suzuran.Mcp.Request.{Numbers, Request, get_org_id, get_string_arg, returning}
use suzuran.Mcp.Promises.{◌also◌}
use suzuran.Mcp.Catalog.Apps.{
  Creation, World, AppReply, require_app_org, handle_get, handle_update, handle_delete,
  handle_update_code, handle_deploy, handle_start, handle_stop, handle_restart, handle_status,
  handle_logs, handle_deployments, handle_distribute, handle_undistribute,
  handle_list_distributions, handle_set_admin, handle_remove_admin,
}
use suzuran.Mcp.Catalog.AppTools.{app_tools}

-- The call is about this application, which belongs to the organisation of the caller.
pub record Owns (e : Env) (n : Numbers) (r : Request n) (w : World e) : Type 0 where
  pub id : String
  pub app : Application
  pub named : get_string_arg n r.args "appId" ≡ ok id
  pub stored : e.gorm.first (has_app_id id) w.apps.apps ≡ ok (some app)
  pub same_org : r.caller.auth.org_id ≡ some app.org_id

-- From the store `s`, either `P` holds, or `m` fails and changes nothing.
pub record Decides {S A : Type 0} (P : Type 0) (m : Exec S A) (s : S) : Type 0 where
  pub decided : P ⊎ ((x : Error) × (m s ≡ (err x, s)))

module _ {S A B : Type 0} {P : Type 0} where
  Decides-lift :
      (r : Result A) (f : A → Exec S B) (s : S)
      → ((a : A) → r ≡ ok a → Decides P (f a) s)
      → Decides P (lift r >>= f) s
  unfolding ◌>>=◌
  Decides-lift (ok a) f s h = h a refl
  Decides-lift (err x) f s h = record { decided = inr (x, refl) }

module _ {S A : Type 0} {P : Type 0} where
  Decides-returning : (m : Exec S A) (s : S) → Decides P m s → Decides P (returning m) s
  unfolding returning ◌>>=◌
  Decides-returning m s h = elim h.decided [
    | inl p ↦ record { decided = inl p }
    | inr (x, q) ↦ record { decided = inr (x, rw q refl) }
  ]

module _ (e : Env) (n : Numbers) (c : Creation) where
  Decides-owner :
      {B : Type 0} (r : Request n) (id : String) (f : Unit {0} → Exec (World e) B) (w : World e)
      → get_string_arg n r.args "appId" ≡ ok id
      → Decides (Owns e n r w) (require_app_org e n c r.caller id >>= f) w
  unfolding require_app_org get_existing get_app get_org_id ◌>>=◌
  Decides-owner r id f w named = elim (Option-cases r.caller.auth.org_id) [
    | inl q ↦ record { decided = inr (no_org_id, rw q refl) }
    | inr (org, q) ↦ elim (Result-cases (e.gorm.first (has_app_id id) w.apps.apps)) [
      | inr (x, p) ↦ record { decided = inr (x, rw (q, p) refl) }
      | inl (found, p) ↦ elim (Option-cases found) [
        | inl z ↦ record { decided = inr (app_not_found, rw (q, p, z) refl) }
        | inr (app, z) ↦ elim (Bool-cases (app.org_id == org)) [
          | inr b ↦ record { decided = inr (access_denied, rw (q, p, z, b) refl) }
          | inl b ↦
              let same : org ≡ app.org_id = ground (arith, ==_iff app.org_id org) in
              record {
                decided = inl (record {
                  id = id;
                  app = app;
                  named = named;
                  stored = p ∙ ap (λ (t : Option Application). ok t) z;
                  same_org = q ∙ ap (λ t. some t) same;
                });
              }
        ]
      ]
    ]
  ]

  Decides-named :
      (r : Request n) (w : World e) (f : String → Unit {0} → Exec (World e) AppReply)
      → Decides
          (Owns e n r w)
          (returning (do
            id ← lift (get_string_arg n r.args "appId")
            require_app_org e n c r.caller id >>= f id))
          w
  Decides-named r w f =
      Decides-returning _ w (Decides-lift _ _ w (λ id q. Decides-owner r id (f id) w q))

  -- Every tool for applications that takes an application's identifier either fails and changes
  -- nothing, or the application is stored and belongs to the organisation of the caller.
  pub app_tools-Decides :
      (r : Request n) (w : World e)
      → All
          (λ t. (member "appId" t.required ≡ false) ⊎ Decides (Owns e n r w) (t.handler r) w)
          (app_tools e n c)
  unfolding handle_get handle_update handle_delete handle_update_code handle_deploy handle_start
      handle_stop handle_restart handle_status handle_logs handle_deployments handle_distribute
      handle_undistribute handle_list_distributions handle_set_admin handle_remove_admin
  app_tools-Decides r w =
      inl refl
      also inl refl
      also inr (Decides-named r w _)
      also inr (Decides-named r w _)
      also inr (Decides-named r w _)
      also inr (Decides-named r w _)
      also inr (Decides-named r w _)
      also inr (Decides-named r w _)
      also inr (Decides-named r w _)
      also inr (Decides-named r w _)
      also inr (Decides-named r w _)
      also inr (Decides-named r w _)
      also inr (Decides-named r w _)
      also inr (
          Decides-returning _ w (
            Decides-lift _ _ w (λ id q.
              Decides-lift _ _ w (λ _ _. Decides-lift _ _ w (λ _ _. Decides-owner r id _ w q)))))
      also inr (
          Decides-returning _ w (
            Decides-lift _ _ w (λ id q.
              Decides-lift _ _ w (λ _ _. Decides-lift _ _ w (λ _ _. Decides-owner r id _ w q)))))
      also inr (Decides-named r w _)
      also inr (
          Decides-returning _ w (
            Decides-lift _ _ w (λ id q. Decides-lift _ _ w (λ _ _.
              Decides-lift _ _ w (λ _ _. Decides-lift _ _ w (λ _ _. Decides-owner r id _ w q))))))
      also inr (
          Decides-returning _ w (
            Decides-lift _ _ w (λ id q. Decides-lift _ _ w (λ _ _.
              Decides-lift _ _ w (λ _ _. Decides-lift _ _ w (λ _ _. Decides-owner r id _ w q))))))
      also tt
