-- ===== src/Workflow/Service/Acted.antt =====
-- Which tasks an operation leaves alone: all but a pending task of the organisation that its own
-- assignee acts upon.
use suzuran.Prelude.{
  ℕ, zero, suc, ◌≡◌, ◌≢◌, ◌⊎◌, refl, ap, String, Bool, true, false, not, Option, none, some, List,
  [], ◌∷◌, str_eq, str_eq_iff, arith, ◌==◌, ◌&&◌,
}
use suzuran.Prelude.Int.{ℤ, pos, int_eq}
use suzuran.Prelude.Exec.{Exec, Ensures, Anything, ◌>>=◌}
use suzuran.Prelude.Exec.Rules.{
  Ensures-pure, Ensures-raise, Ensures-lift, Ensures-require, Ensures-if, Ensures-raise_if,
  Ensures-bind,
}
use suzuran.Gorm.{IsGorm}
use suzuran.Gorm.Rows.{Holds, Holds-save, Holds-create, Holds-first}
use suzuran.Workflow.Model.{
  AssigneeSpec, WorkflowDef, WorkflowStep, StepKind, start, approval, condition, end, unknown,
  Variables, WorkflowTask, Notice,
}
use suzuran.Workflow.Validate.{kind_of}
use suzuran.Workflow.Store.{
  Env, Store, Definition, Instance, get_definition, create_instance, get_instance, save_instance,
  create_task, get_task, save_task, get_bonds, notify, create_definition, set_definition_status,
}
use suzuran.Workflow.Service.{
  Decision, resolve_role_assignees, resolve_assignees, create_tasks, create_approval_tasks, visit,
  advance, define_workflow, archive_definition, start_instance, cancel_instance, route, act_on_task,
}

not-false : (b : Bool) → not b ≡ false → b ≡ true
not-false b h = ground arith

pub int_eq-eq : (a b : ℤ) → int_eq a b ≡ true → a ≡ b
int_eq-eq (pos a) b h = ground arith
int_eq-eq a b h = ground arith

module _ (e : Env) (law : IsGorm e.gorm) (k : ℕ) (x : WorkflowTask) where
  -- The tasks have distinct keys, and the one with the key `k` is `x`.
  abbrev pub HoldsTask : Store e → Type 0
  HoldsTask s = Holds (λ t. t.id) k x s.tasks

  module _ {A : Type 0} (m : Exec (Store e) A)
      (same : (s : Store e) → (m s).1.tasks ≡ s.tasks) where
    untouched : Ensures HoldsTask (Anything {A = A}) m
    untouched = record { keeps = λ s h. rw (same s) h; returns = λ s h a q. tt }

  saves_task : (t : WorkflowTask) → t.id ≢ k → Ensures HoldsTask Anything (save_task e t)
  unfolding save_task
  saves_task t ne = record {
    keeps = λ s h. Holds-save e.gorm law (λ i. i.id) k x s.tasks t ne h;
    returns = λ s h a q. tt;
  }

  gets_task :
      (org id : ℕ)
      → Ensures HoldsTask
          (λ found. (t : WorkflowTask) → found ≡ some t → (t.org_id ≡ org) × (t.id ≡ k → t ≡ x))
          (get_task e org id)
  unfolding get_task
  gets_task org id = record {
    keeps = λ s h. h;
    returns = λ s h found q t at.
        let (test, same) =
          Holds-first e.gorm law (λ i. i.id) k x s.tasks (λ i. i.org_id == org && i.id == id) t
            (rw at at q) h in
        (ground (arith, test), same);
  }

  creates_task :
      (mk : ℕ → WorkflowTask)
      → ((n : ℕ) → (mk n).id ≡ n)
      → Ensures HoldsTask Anything (create_task e mk)
  unfolding create_task
  creates_task mk keyed = record {
    keeps = λ s h. Holds-create e.gorm law (λ i. i.id) k x s.tasks mk keyed h;
    returns = λ s h a q. tt;
  }

  saves_instance : (j : Instance e) → Ensures HoldsTask Anything (save_instance e j)
  saves_instance j = untouched _ (unfold save_instance in λ s. refl)

  creates_instance : (mk : ℕ → Instance e) → Ensures HoldsTask Anything (create_instance e mk)
  creates_instance mk = untouched _ (unfold create_instance in λ s. refl)

  pub gets_instance : (org id : ℕ) → Ensures HoldsTask Anything (get_instance e org id)
  gets_instance org id = untouched _ (unfold get_instance in λ s. refl)

  gets_definition : (org id : ℕ) → Ensures HoldsTask Anything (get_definition e org id)
  gets_definition org id = untouched _ (unfold get_definition in λ s. refl)

  creates_definition : (mk : ℕ → Definition e) → Ensures HoldsTask Anything (create_definition e mk)
  creates_definition mk = untouched _ (unfold create_definition in λ s. refl)

  notifies : (n : Notice) → Ensures HoldsTask Anything (notify e n)
  notifies n = untouched _ (unfold notify in λ s. ground arith)

  resolves :
      (org : ℕ) (a : Option AssigneeSpec) → Ensures HoldsTask Anything (resolve_assignees e org a)
  resolves org none = untouched _ (unfold resolve_assignees ◌>>=◌ in λ s. refl)
  resolves org (some a) =
      untouched _
        (unfold resolve_assignees resolve_role_assignees get_bonds ◌>>=◌ in λ s. ground arith)

  creates_tasks :
      (step : WorkflowStep) (j : Instance e) (users : List ℤ)
      → Ensures HoldsTask Anything (create_tasks e step j users)
  unfolding create_tasks
  creates_tasks step j [] = Ensures-pure tt tt
  creates_tasks step j (u ∷ users) =
      Ensures-bind (creates_task _ (λ n. refl))
        λ _ _. Ensures-bind (notifies _) λ _ _. creates_tasks step j users

  visits :
      (kind : StepKind) (rec : String → Instance e → Exec (Store e) (Instance e)) (now : ℕ)
      (step : WorkflowStep) (j : Instance e)
      → ((name : String) (i : Instance e) → Ensures HoldsTask Anything (rec name i))
      → Ensures HoldsTask Anything (visit e kind rec now step j)
  unfolding visit create_approval_tasks
  visits start rec now step j again = Ensures-bind (saves_instance _) λ _ _. again _ _
  visits condition rec now step j again =
      Ensures-bind (saves_instance _) λ _ _. Ensures-bind (Ensures-lift _) λ next _. again next _
  visits approval rec now step j again = Ensures-bind (saves_instance _) λ _ _.
      Ensures-bind
        (Ensures-bind (resolves j.org_id step.assignee) λ users _. creates_tasks step _ users)
        λ _ _. Ensures-pure _ tt
  visits end rec now step j again = Ensures-bind (saves_instance _) λ _ _. Ensures-pure _ tt
  visits unknown rec now step j again = Ensures-raise _

  advances :
      (fuel now : ℕ) (wf : WorkflowDef) (name : String) (j : Instance e)
      → Ensures HoldsTask Anything (advance e fuel now wf name j)
  unfolding advance
  advances zero now wf name j = Ensures-raise _
  advances (suc fuel) now wf name j =
      Ensures-bind (Ensures-require _ _)
        λ step _. visits (kind_of step) _ now step j (λ n i. advances fuel now wf n i)

  pub define_workflow-keeps_task :
      (org user : ℕ) (name description : String) (json : Option e.Json)
      → Ensures HoldsTask Anything (define_workflow e org user name description json)
  unfolding define_workflow
  define_workflow-keeps_task org user name description json =
      Ensures-bind (Ensures-lift _)
        λ wf _. Ensures-bind (Ensures-lift _) λ _ _. creates_definition _

  pub archive_definition-keeps_task :
      (org id : ℕ) → Ensures HoldsTask Anything (archive_definition e org id)
  archive_definition-keeps_task org id =
      untouched _ (unfold archive_definition set_definition_status in λ s. refl)

  pub start_instance-keeps_task :
      (fuel now org def_id user : ℕ) (vars : Variables e.float.Carrier)
      → Ensures HoldsTask Anything (start_instance e fuel now org def_id user vars)
  unfolding start_instance
  start_instance-keeps_task fuel now org def_id user vars =
      Ensures-bind (gets_definition org def_id) λ found _.
        Ensures-bind (Ensures-require _ found) λ def _. Ensures-bind (Ensures-raise_if _ _) λ _ _.
          Ensures-bind (Ensures-lift _) λ wf _.
            Ensures-bind (Ensures-require _ _)
              λ first _. Ensures-bind (creates_instance _) λ j _. advances fuel now wf first.next j

  pub cancel_instance-keeps_task :
      (now org id user : ℕ) (is_admin : Bool)
      → Ensures HoldsTask Anything (cancel_instance e now org id user is_admin)
  unfolding cancel_instance
  cancel_instance-keeps_task now org id user is_admin =
      Ensures-bind (gets_instance org id) λ found _. Ensures-bind (Ensures-require _ found) λ j _.
        Ensures-bind (Ensures-raise_if _ _)
          λ _ _. Ensures-bind (Ensures-raise_if _ _) λ _ _. saves_instance _

  pub routes :
      (fuel now org : ℕ) (task : WorkflowTask) (decision : Decision) (j : Instance e)
      → Ensures HoldsTask Anything (route e fuel now org task decision j)
  unfolding route
  routes fuel now org task decision j = Ensures-bind (gets_definition org j.definition_id) λ fd _.
      Ensures-bind (Ensures-require _ fd) λ def _. Ensures-bind (Ensures-lift _) λ wf _.
        Ensures-bind (Ensures-require _ _)
          λ step _. Ensures-bind (Ensures-lift _) λ next _. advances fuel now wf next j

  module _ (org user : ℕ)
      (closed : (x.org_id ≢ org) ⊎ (x.status ≢ "pending") ⊎ (x.assignee_id ≢ pos user)) where
    -- A pending task of the user, in the organisation, is another row.
    is_other :
        (t : WorkflowTask)
        → t.org_id ≡ org
        → str_eq t.status "pending" ≡ true
        → int_eq t.assignee_id (pos user) ≡ true
        → t ≢ x
    is_other t at pending mine same = ground (
      arith,
      ap (λ (u : WorkflowTask). u.org_id) same,
      ap (λ (u : WorkflowTask). u.status) same,
      ap (λ (u : WorkflowTask). u.assignee_id) same,
      str_eq_iff t.status "pending",
      int_eq-eq t.assignee_id (pos user),
      closed,
    )

    pub act_on_task-keeps_task :
        (fuel now task_id : ℕ) (comment : String) (decision : Decision)
        → Ensures HoldsTask Anything (act_on_task e fuel now org task_id user comment decision)
    unfolding act_on_task
    act_on_task-keeps_task fuel now task_id comment decision =
        Ensures-bind (gets_task org task_id) λ found q.
          Ensures-bind (Ensures-require _ found) λ t at.
            Ensures-bind (Ensures-raise_if _ _) λ _ pending.
              Ensures-bind (Ensures-raise_if _ _) λ _ mine.
                Ensures-bind
                  (saves_task _ (λ same.
                    is_other t (q t at).0 (not-false _ pending) (not-false _ mine)
                      ((q t at).1 same)))
                  λ _ _. Ensures-bind (gets_instance org t.instance_id) λ holder _.
                    Ensures-bind (Ensures-require _ holder) λ j _.
                      Ensures-if (str_eq j.status "running") _ _
                        (λ _. routes fuel now org t decision j) (λ _. Ensures-pure j tt)
