-- ===== src/App/Runtime/Untouched.antt =====
-- The part of backend/internal/runtime/manager.go that leaves the application rows alone: all of
-- DeployApp before its last step.
use suzuran.Prelude.{◌≡◌, ◌≢◌, String, List, [], ◌∷◌, str_eq}
use suzuran.Prelude.Result.{Result, ok, err}
use suzuran.Prelude.Exec.{Exec, Ensures, Anything, ignoring}
use suzuran.Prelude.Exec.Rules.{
  Ensures-bind, Ensures-pure, Ensures-raise_if, Ensures-require, Ensures-if,
}
use suzuran.Prelude.Text.{Text}
use suzuran.App.Model.{Application}
use suzuran.App.Package.{ZipEntry}
use suzuran.App.Store.{
  Env, Store, Docker, on_engine, on_objects, on_disk, create_deployment, update_deployment_status,
}
use suzuran.App.Runtime.Extract.{
  write_entry, unpack, extract_entry, extract_entries, extract_zip, prepare_code_package,
}
use suzuran.App.Runtime.Manager.{
  Sandbox, cleaned, on_error, create_sandbox, remove_volumes, remove_network, remove_container,
  destroy_sandbox, create_and_start_container, launch,
}

-- Docker gives every container an identifier.
pub record IsDocker (d : Docker) : Type 0 where
  pub created_named : (c : _) (x : d.Engine) (id : String) → (d.create c x).0 ≡ ok id → id ≢ ""

module _ {S A B : Type 0} where
  keeps-cleaned :
      (P : S → Type 0) (r : Result A) (cleanup : Exec S B) (s : S)
      → P s
      → P (cleanup s).1
      → P (cleaned r cleanup s).1
  keeps-cleaned P (ok a) cleanup s h k = h
  keeps-cleaned P (err x) cleanup s h k = k

  returns-cleaned :
      (r : Result A) (cleanup : Exec S B) (s : S) (a : A)
      → (cleaned r cleanup s).0 ≡ ok a
      → r ≡ ok a
  returns-cleaned (ok a) cleanup s b h = h
  returns-cleaned (err x) cleanup s b h = h

module _ {S A B : Type 0} {P : S → Type 0} where
  pub Ensures-on_error :
      {Q : A → Type 0} {R : B → Type 0} (m : Exec S A) (cleanup : Exec S B)
      → Ensures P Q m
      → Ensures P R cleanup
      → Ensures P Q (on_error m cleanup)
  unfolding on_error
  Ensures-on_error m cleanup hm hc = record {
    keeps = λ s h.
        keeps-cleaned P (m s).0 cleanup (m s).1 (hm.keeps s h) (hc.keeps (m s).1 (hm.keeps s h));
    returns = λ s h a q. hm.returns s h a (returns-cleaned (m s).0 cleanup (m s).1 a q);
  }

  pub Ensures-ignoring :
      {Q : A → Type 0} {R : B → Type 0} (m : Exec S A) (k : Exec S B)
      → Ensures P Q m
      → Ensures P R k
      → Ensures P R (ignoring m k)
  unfolding ignoring
  Ensures-ignoring m k hm hk = record {
    keeps = λ s h. hk.keeps (m s).1 (hm.keeps s h);
    returns = λ s h. hk.returns (m s).1 (hm.keeps s h);
  }

module _ (e : Env) (t : List Application) where
  -- the rows of the applications are `t`
  abbrev pub Rows : Store e → Type 0
  Rows s = s.apps ≡ t

  abbrev pub Leaves : {A : Type 0} → Exec (Store e) A → Type 0
  Leaves m = Ensures Rows Anything m

  pub on_engine-Leaves : {A : Type 0} (m : Exec e.docker.Engine A) → Leaves (on_engine e m)
  on_engine-Leaves m = record { keeps = λ s h. h; returns = λ s h a q. tt }

  on_objects-Leaves : {A : Type 0} (m : Exec e.files.Objects A) → Leaves (on_objects e m)
  on_objects-Leaves m = record { keeps = λ s h. h; returns = λ s h a q. tt }

  on_disk-Leaves : {A : Type 0} (m : Exec e.files.Disk A) → Leaves (on_disk e m)
  on_disk-Leaves m = record { keeps = λ s h. h; returns = λ s h a q. tt }

  update_deployment_status-Leaves :
      (key : String) → Leaves (update_deployment_status e key "failed")
  unfolding update_deployment_status
  update_deployment_status-Leaves key = record { keeps = λ s h. h; returns = λ s h a q. tt }

  pub create_deployment-Leaves : (d : _) → Leaves (create_deployment e d)
  unfolding create_deployment
  create_deployment-Leaves d = record { keeps = λ s h. h; returns = λ s h a q. tt }

  write_entry-Leaves : (dest : Text) (entry : ZipEntry) → Leaves (write_entry e dest entry)
  unfolding write_entry
  write_entry-Leaves dest entry =
      Ensures-bind (on_disk-Leaves _)
        (λ _ _. Ensures-bind (Ensures-require _ entry.content) (λ c _. on_disk-Leaves _))

  unpack-Leaves : (dest : Text) (entry : ZipEntry) → Leaves (unpack e dest entry)
  unpack-Leaves dest entry =
      Ensures-if entry.is_dir _ _ (λ _. on_disk-Leaves _) (λ _. write_entry-Leaves dest entry)

  extract_entries-Leaves :
      (dir : Text) (entries : List ZipEntry) → Leaves (extract_entries e dir entries)
  unfolding extract_entries extract_entry
  extract_entries-Leaves dir [] = Ensures-pure tt tt
  extract_entries-Leaves dir (entry ∷ entries) =
      Ensures-bind
        (Ensures-bind (Ensures-raise_if _ _)
          (λ _ _. Ensures-bind (Ensures-raise_if _ _) (λ _ _. unpack-Leaves _ entry)))
        (λ _ _. extract_entries-Leaves dir entries)

  prepare_code_package-Leaves : (app : Application) → Leaves (prepare_code_package e app)
  unfolding prepare_code_package extract_zip
  prepare_code_package-Leaves app = Ensures-bind (Ensures-raise_if _ _) (λ _ _.
      Ensures-bind (Ensures-raise_if _ _) (λ _ _. Ensures-bind (on_objects-Leaves _) (λ zip _.
        Ensures-bind (on_disk-Leaves _) (λ _ _. Ensures-bind (on_disk-Leaves _) (λ _ _.
          Ensures-bind
            (Ensures-bind (Ensures-require _ _) (λ entries _. extract_entries-Leaves _ entries))
            (λ _ _. Ensures-pure _ tt))))))

  create_sandbox-Leaves : (app : Application) → Leaves (create_sandbox e app)
  unfolding create_sandbox
  create_sandbox-Leaves app =
      Ensures-bind (Ensures-raise_if _ _)
        (λ _ _. Ensures-bind (on_engine-Leaves _) (λ n _. Ensures-pure _ tt))

  remove_volumes-Leaves : (volumes : List String) → Leaves (remove_volumes e volumes)
  unfolding remove_volumes
  remove_volumes-Leaves [] = Ensures-pure tt tt
  remove_volumes-Leaves (v ∷ volumes) =
      Ensures-ignoring _ _ (on_engine-Leaves (e.docker.remove_volume v))
        (remove_volumes-Leaves volumes)

  remove_network-Leaves : (id : String) → Leaves (remove_network e id)
  remove_network-Leaves id =
      Ensures-if (str_eq id "") _ _ (λ _. Ensures-pure tt tt) (λ _. on_engine-Leaves _)

  pub remove_container-Leaves : (id : String) → Leaves (remove_container e id)
  remove_container-Leaves id =
      Ensures-if (str_eq id "") _ _ (λ _. Ensures-pure tt tt) (λ _. on_engine-Leaves _)

  pub destroy_sandbox-Leaves : (sandbox : Sandbox) → Leaves (destroy_sandbox e sandbox)
  unfolding destroy_sandbox
  destroy_sandbox-Leaves sandbox =
      Ensures-if e.has_docker _ _
        (λ _.
          Ensures-ignoring _ _ (remove_network-Leaves sandbox.network_id)
            (remove_volumes-Leaves sandbox.volumes))
        (λ _. Ensures-pure tt tt)

  module _ (docker : IsDocker e.docker) where
    abbrev pub Named : String → Type 0
    Named id = id ≢ ""

    create_leaves : (c : _) → Ensures Rows Named (on_engine e (e.docker.create c))
    create_leaves c = record {
      keeps = λ s h. h;
      returns = λ s h id q. docker.created_named c s.engine id q;
    }

    start_leaves :
        (app : Application) (sandbox : Sandbox) (dir : Text)
        → Ensures Rows Named (create_and_start_container e app sandbox dir)
    unfolding create_and_start_container
    start_leaves app sandbox dir = Ensures-bind (create_leaves _) (λ id named.
        Ensures-bind
          (Ensures-on_error _ _ (on_engine-Leaves (e.docker.start id))
            (on_engine-Leaves (e.docker.remove id)))
          (λ _ _. Ensures-pure id named))

    pub launch_leaves : (key : String) (app : Application) → Ensures Rows Named (launch e key app)
    unfolding launch
    launch_leaves key app =
        Ensures-bind
          (Ensures-on_error _ _ (on_engine-Leaves _) (update_deployment_status-Leaves key))
          (λ _ _.
            Ensures-bind
              (Ensures-on_error _ _ (prepare_code_package-Leaves app)
                (update_deployment_status-Leaves key))
              (λ dir _.
                Ensures-bind
                  (Ensures-on_error _ _ (create_sandbox-Leaves app)
                    (update_deployment_status-Leaves key))
                  (λ box _.
                    Ensures-on_error _ _
                      (Ensures-on_error _ _ (start_leaves app box dir) (destroy_sandbox-Leaves box))
                      (update_deployment_status-Leaves key))))
