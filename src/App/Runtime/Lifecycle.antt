-- ===== src/App/Runtime/Lifecycle.antt =====
-- The calls of backend/internal/runtime/manager.go refine the machine of `Steps`.
use mathlib.Core.Option.{some-injective}
use suzuran.Prelude.{
  ◌≡◌, ◌≢◌, ◌⊎◌, inl, inr, refl, sym, ap, subst, ◌∙◌, none, some, String, List, find?, str_eq,
  str_eq_iff, Bool-cases, arith,
}
use suzuran.Prelude.Error.{Error, no_docker, app_not_found, no_container}
use suzuran.Prelude.Result.{Result-cases, ok, err}
use suzuran.Prelude.Exec.{Exec, Ensures, ignoring, ◌>>=◌}
use suzuran.Prelude.Exec.Rules.{Ensures-raise_if}
use suzuran.Gorm.{IsGorm, update_where}
use suzuran.App.Model.{Application}
use suzuran.App.Store.{
  Env, Store, has_app_id, with_status, on_engine, get_app, update_status, update_container_id,
  update_deployment_status,
}
use suzuran.App.Runtime.Untouched.{
  IsDocker, Rows, remove_container-Leaves, destroy_sandbox-Leaves, create_deployment-Leaves,
  launch_leaves,
}
use suzuran.App.Runtime.Manager.{
  deploy_app, start_app, stop_app, restart_app, delete_app, contained, find_app, remove_container,
  record_running,
}
use suzuran.App.Runtime.Steps.{
  Phase, phase_of, phase, Call, deploy, start, stop, restart, delete, subject, Step, deploys,
  starts, stops, restarts, deletes, Moves, Sets, Moves-Sets,
}

module _ (e : Env) where
  -- the store after a call
  unfoldable pub perform : Call → Store e → Store e
  perform (deploy key app) s = (deploy_app e key app s).1
  perform (start id) s = (start_app e id s).1
  perform (stop id) s = (stop_app e id s).1
  perform (restart id) s = (restart_app e id s).1
  perform (delete id) s = (delete_app e id s).1

module _ (e : Env) (law : IsGorm e.gorm) where
  update_status_sets :
      (id status container : String) (s : Store e)
      → ((update_status e id status container s).1.apps ≡ s.apps)
        ⊎ ((update_status e id status container s).1.apps
            ≡ update_where (has_app_id id) (with_status status container) s.apps)
  unfolding update_status
  update_status_sets id status container s =
      elim (law.update_law (has_app_id id) (with_status status container) s.apps) [
        | inl q ↦ inl (rw q refl)
        | inr q ↦ inr (rw q refl)
      ]

  -- A call of Docker, then the status.
  then_status_sets :
      (m : Exec e.docker.Engine (Unit {0})) (id status container : String) (s : Store e)
      → (((on_engine e m >>= λ _. update_status e id status container) s).1.apps ≡ s.apps)
        ⊎ (((on_engine e m >>= λ _. update_status e id status container) s).1.apps
            ≡ update_where (has_app_id id) (with_status status container) s.apps)
  unfolding ◌>>=◌
  then_status_sets m id status container s = elim (Result-cases (m s.engine).0) [
    | inr (x, q) ↦ inl (rw q refl)
    | inl (tt, q) ↦
        rw q (update_status_sets id status container (record s { engine = (m s.engine).1 }))
  ]

  contained-cases :
      (id : String) (s : Store e)
      → ((x : Error) × (contained e id s ≡ (err x, s)))
        ⊎ ((app : Application) × (contained e id s ≡ (ok app, s))
            × (find? (has_app_id id) s.apps ≡ some app)
            × (app.container_id ≢ ""))
  unfolding contained find_app get_app ◌>>=◌
  contained-cases id s = elim (Bool-cases e.has_docker) [
    | inr d ↦ inl (no_docker, rw d refl)
    | inl d ↦ elim (Result-cases (e.gorm.first (has_app_id id) s.apps)) [
      | inr (x, q) ↦ inl (app_not_found, rw (d, q) refl)
      | inl (none, q) ↦ inl (app_not_found, rw (d, q) refl)
      | inl (some app, q) ↦
          let row : find? (has_app_id id) s.apps ≡ some app =
            ground (arith, law.first_law (has_app_id id) s.apps) in
          elim (Bool-cases (str_eq app.container_id "")) [
            | inl c ↦ inl (no_container, rw (d, q) (rw c refl))
            | inr c ↦ inr (
              app,
              rw (d, q) (rw c refl),
              row,
              λ bad. let no : ⊥ = ground (arith, (str_eq_iff app.container_id "").1 bad, c) in no,
            )
          ]
    ]
  ]

  -- The phase of a row that was found.
  found_phase :
      (id : String) (t : List Application) (app : Application) (p : Phase)
      → find? (has_app_id id) t ≡ some app
      → phase id t ≡ some p
      → p ≡ (app.status, app.container_id)
  found_phase id t app p row h =
      some-injective p (app.status, app.container_id) (sym h ∙ ap phase_of row)

  -- StartApp, StopApp and RestartApp: a call of Docker on the container of the row, and a status.
  switch-Sets :
      (c : Call) (m : String → Exec e.docker.Engine (Unit {0})) (status : String)
      → ((s id : String) → id ≢ "" → Step c (s, id) (status, id))
      → (s : Store e)
      → Sets c s.apps
          (((contained e (subject c)) >>= λ app. on_engine e (m app.container_id) >>= λ _.
              update_status e (subject c) status app.container_id)
            s).1.apps
  unfolding ◌>>=◌
  switch-Sets c m status step s = elim (contained-cases (subject c) s) [
    | inl (x, q) ↦ inl (rw q refl)
    | inr (app, q, row, named) ↦
        rw q (elim (then_status_sets (m app.container_id) (subject c) status app.container_id s) [
          | inl r ↦ inl r
          | inr r ↦ inr (
            status,
            app.container_id,
            r,
            λ p h.
                subst (λ x. Step c x (status, app.container_id))
                  (sym (found_phase (subject c) s.apps app p row h))
                  (step app.status app.container_id named),
          )
        ])
  ]

  -- A status that is set after what left the rows alone.
  status-Sets :
      (c : Call) (status container : String) (t : List Application) (s : Store e)
      → s.apps ≡ t
      → ((p : Phase) → Step c p (status, container))
      → Sets c t (update_status e (subject c) status container s).1.apps
  status-Sets c status container t s rows step =
      elim (update_status_sets (subject c) status container s) [
        | inl q ↦ inl (q ∙ rows)
        | inr q ↦ inr (
          status,
          container,
          q ∙ ap (update_where (has_app_id (subject c)) (with_status status container)) rows,
          λ p h. step p,
        )
      ]

  Sets-bind :
      {A B : Type 0} {Q : A → Type 0} (c : Call) (t : List Application) (m : Exec (Store e) A)
      (f : A → Exec (Store e) B)
      → Ensures (Rows e t) Q m
      → ((a : A) → Q a → (s : Store e) → s.apps ≡ t → Sets c t (f a s).1.apps)
      → (s : Store e) → s.apps ≡ t
      → Sets c t ((m >>= f) s).1.apps
  unfolding ◌>>=◌
  Sets-bind {Q = Q} c t m f hm hf s rows = elim (Result-cases (m s).0) [
    | inr (x, q) ↦ rw q (inl (hm.keeps s rows))
    | inl (a, q) ↦ rw q (hf a (hm.returns s rows a q) (m s).1 (hm.keeps s rows))
  ]

  pub delete_app-Sets :
      (id : String) (s : Store e) → Sets (delete id) s.apps (delete_app e id s).1.apps
  unfolding delete_app find_app get_app ignoring ◌>>=◌
  delete_app-Sets id s = elim (Bool-cases e.has_docker) [
    | inr d ↦ inl (rw d refl)
    | inl d ↦ elim (Result-cases (e.gorm.first (has_app_id id) s.apps)) [
      | inr (x, q) ↦ inl (rw (d, q) refl)
      | inl (none, q) ↦ inl (rw (d, q) refl)
      | inl (some app, q) ↦
          let removed : (remove_container e app.container_id s).1.apps ≡ s.apps =
            (remove_container-Leaves e s.apps app.container_id).keeps s refl in
          rw d (
            rw q (
              status-Sets (delete id) "deleted" "" s.apps _
                ((destroy_sandbox-Leaves e s.apps _).keeps _ removed) (deletes id)))
    ]
  ]

  module _ (docker : IsDocker e.docker) where
    record_running-Sets :
        (key : String) (app : Application) (id : String)
        → id ≢ ""
        → (t : List Application) (s : Store e) → s.apps ≡ t
        → Sets (deploy key app) t (record_running e key app id s).1.apps
    unfolding record_running ignoring update_container_id update_deployment_status ◌>>=◌
    record_running-Sets key app id named t s rows =
        status-Sets (deploy key app) "running" id t _ rows (λ p. deploys key app p id named)

    pub deploy_app-Sets :
        (key : String) (app : Application) (s : Store e)
        → Sets (deploy key app) s.apps (deploy_app e key app s).1.apps
    unfolding deploy_app
    deploy_app-Sets key app s =
        Sets-bind (deploy key app) s.apps _ _ (Ensures-raise_if _ _)
          (λ _ _ s1 r1.
            Sets-bind (deploy key app) s.apps _ _ (create_deployment-Leaves e s.apps _)
              (λ _ _ s2 r2.
                Sets-bind (deploy key app) s.apps _ _ (launch_leaves e s.apps docker key app)
                  (λ id named s3 r3. record_running-Sets key app id named s.apps s3 r3) s2 r2)
              s1 r1)
          s refl

    perform-Sets : (c : Call) (s : Store e) → Sets c s.apps (perform e c s).apps
    unfolding perform start_app stop_app restart_app
    perform-Sets (deploy key app) s = deploy_app-Sets key app s
    perform-Sets (start id) s = switch-Sets (start id) e.docker.start "running" (starts id) s
    perform-Sets (stop id) s =
        switch-Sets (stop id) (λ i. e.docker.stop i 10) "stopped" (stops id) s
    perform-Sets (restart id) s =
        switch-Sets (restart id) (λ i. e.docker.restart i 10) "running" (restarts id) s
    perform-Sets (delete id) s = delete_app-Sets id s

    -- The runtime refines the machine of `Step`: whatever a call of DeployApp, StartApp, StopApp,
    -- RestartApp or DeleteApp does, whether it fails or not, the status and the container that the
    -- row of its application shows make a step of this call, every other row shows the same as
    -- before, and no row appears or disappears. Docker names every container that it creates.
    pub perform-Moves :
        (c : Call) (k : String) (s : Store e)
        → Moves c k (phase k s.apps) (phase k (perform e c s).apps)
    perform-Moves c k s = Moves-Sets c s.apps (perform e c s).apps k (perform-Sets c s)
