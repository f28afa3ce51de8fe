-- ===== src/Workflow/Service/Settled.antt =====
-- Which instances an operation leaves alone: all that belong to another organisation, and all that
-- are no longer running.
use suzuran.Prelude.{
  ℕ, zero, suc, ◌≡◌, ◌≢◌, ◌⊎◌, refl, String, Bool, true, false, not, Option, none, some, List, [],
  ◌∷◌, str_eq, str_eq_iff, arith, ◌==◌, ◌&&◌, ◌∙◌, ap, sym, inl, inr,
}
use suzuran.Prelude.Int.{ℤ}
use suzuran.Prelude.Exec.{Exec, Ensures, Anything, ◌>>=◌}
use suzuran.Prelude.Exec.Rules.{
  Ensures-pure, Ensures-raise, Ensures-lift, Ensures-require, Ensures-if, Ensures-raise_if,
  Ensures-bind,
}
use suzuran.Gorm.{IsGorm}
use suzuran.Gorm.Rows.{Holds, Holds-save, Holds-create, Holds-next_id, Holds-first}
use suzuran.Workflow.Model.{
  AssigneeSpec, WorkflowDef, WorkflowStep, StepKind, start, approval, condition, end, unknown,
  Variables, WorkflowTask, Notice,
}
use suzuran.Workflow.Validate.{kind_of}
use suzuran.Workflow.Store.{
  Env, Store, Definition, Instance, create_definition, get_definition, set_definition_status,
  create_instance, get_instance, save_instance, create_task, get_task, save_task, get_bonds, notify,
}
use suzuran.Workflow.Service.{
  Decision, resolve_role_assignees, resolve_assignees, create_tasks, create_approval_tasks, visit,
  advance, define_workflow, archive_definition, start_instance, cancel_instance, route, act_on_task,
}

not-false : (b : Bool) → not b ≡ false → b ≡ true
not-false b h = ground arith

module _ (e : Env) (law : IsGorm e.gorm) (k : ℕ) (x : Instance e) where
  -- The instances have distinct keys, and the one with the key `k` is `x`.
  abbrev pub HoldsInstance : Store e → Type 0
  HoldsInstance s = Holds (λ j. j.id) k x s.instances

  module _ {A : Type 0} (m : Exec (Store e) A)
      (same : (s : Store e) → (m s).1.instances ≡ s.instances) where
    -- An action that does not touch the instances.
    untouched : Ensures HoldsInstance (Anything {A = A}) m
    untouched = record { keeps = λ s h. rw (same s) h; returns = λ s h a q. tt }

  saves : (j : Instance e) → j.id ≢ k → Ensures HoldsInstance Anything (save_instance e j)
  unfolding save_instance
  saves j ne = record {
    keeps = λ s h. Holds-save e.gorm law (λ i. i.id) k x s.instances j ne h;
    returns = λ s h a q. tt;
  }

  gets_instance :
      (org id : ℕ)
      → Ensures HoldsInstance
          (λ found. (j : Instance e) → found ≡ some j → (j.org_id ≡ org) × (j.id ≡ k → j ≡ x))
          (get_instance e org id)
  unfolding get_instance
  gets_instance org id = record {
    keeps = λ s h. h;
    returns = λ s h found q j at.
        let (test, same) =
          Holds-first e.gorm law (λ i. i.id) k x s.instances (λ i. i.org_id == org && i.id == id) j
            (rw at at q) h in
        (ground (arith, test), same);
  }

  creates :
      (mk : ℕ → Instance e)
      → ((n : ℕ) → (mk n).id ≡ n)
      → Ensures HoldsInstance (λ j. j.id ≢ k) (create_instance e mk)
  unfolding create_instance
  creates mk keyed = record {
    keeps = λ s h. Holds-create e.gorm law (λ i. i.id) k x s.instances mk keyed h;
    returns = λ s h j made.
        let other = Holds-next_id e.gorm law (λ i. i.id) k x s.instances h in
        elim (law.create_law (λ i. i.id) mk s.instances) [
          | inl q ↦ cc
          | inr q ↦ ground (arith, other, keyed (e.gorm.next_id (λ i. i.id) s.instances))
        ];
  }

  gets_definition : (org id : ℕ) → Ensures HoldsInstance Anything (get_definition e org id)
  gets_definition org id = untouched _ (unfold get_definition in λ s. refl)

  creates_definition :
      (mk : ℕ → Definition e) → Ensures HoldsInstance Anything (create_definition e mk)
  creates_definition mk = untouched _ (unfold create_definition in λ s. refl)

  gets_task : (org id : ℕ) → Ensures HoldsInstance Anything (get_task e org id)
  gets_task org id = untouched _ (unfold get_task in λ s. refl)

  saves_task : (t : WorkflowTask) → Ensures HoldsInstance Anything (save_task e t)
  saves_task t = untouched _ (unfold save_task in λ s. refl)

  creates_task : (mk : ℕ → WorkflowTask) → Ensures HoldsInstance Anything (create_task e mk)
  creates_task mk = untouched _ (unfold create_task in λ s. refl)

  notifies : (n : Notice) → Ensures HoldsInstance Anything (notify e n)
  notifies n = untouched _ (unfold notify in λ s. ground arith)

  resolves :
      (org : ℕ) (a : Option AssigneeSpec)
      → Ensures HoldsInstance Anything (resolve_assignees e org a)
  resolves org none = untouched _ (unfold resolve_assignees ◌>>=◌ in λ s. refl)
  resolves org (some a) =
      untouched _
        (unfold resolve_assignees resolve_role_assignees get_bonds ◌>>=◌ in λ s. ground arith)

  creates_tasks :
      (step : WorkflowStep) (j : Instance e) (users : List ℤ)
      → Ensures HoldsInstance Anything (create_tasks e step j users)
  unfolding create_tasks
  creates_tasks step j [] = Ensures-pure tt tt
  creates_tasks step j (u ∷ users) =
      Ensures-bind (creates_task _)
        λ _ _. Ensures-bind (notifies _) λ _ _. creates_tasks step j users

  creates_approval_tasks :
      (step : WorkflowStep) (j : Instance e)
      → Ensures HoldsInstance Anything (create_approval_tasks e step j)
  unfolding create_approval_tasks
  creates_approval_tasks step j =
      Ensures-bind (resolves j.org_id step.assignee) λ users _. creates_tasks step j users

  visits :
      (kind : StepKind) (rec : String → Instance e → Exec (Store e) (Instance e)) (now : ℕ)
      (step : WorkflowStep) (j : Instance e)
      → j.id ≢ k
      → ((name : String) (i : Instance e) → i.id ≢ k → Ensures HoldsInstance Anything (rec name i))
      → Ensures HoldsInstance Anything (visit e kind rec now step j)
  unfolding visit
  visits start rec now step j ne again = Ensures-bind (saves _ ne) λ _ _. again _ _ ne
  visits condition rec now step j ne again =
      Ensures-bind (saves _ ne) λ _ _. Ensures-bind (Ensures-lift _) λ next _. again next _ ne
  visits approval rec now step j ne again =
      Ensures-bind (saves _ ne)
        λ _ _. Ensures-bind (creates_approval_tasks _ _) λ _ _. Ensures-pure _ tt
  visits end rec now step j ne again = Ensures-bind (saves _ ne) λ _ _. Ensures-pure _ tt
  visits unknown rec now step j ne again = Ensures-raise _

  advances :
      (fuel now : ℕ) (wf : WorkflowDef) (name : String) (j : Instance e)
      → j.id ≢ k
      → Ensures HoldsInstance Anything (advance e fuel now wf name j)
  unfolding advance
  advances zero now wf name j ne = Ensures-raise _
  advances (suc fuel) now wf name j ne =
      Ensures-bind (Ensures-require _ _)
        λ step _. visits (kind_of step) _ now step j ne (λ n i. advances fuel now wf n i)

  -- A workflow operation never touches the instance `x`: starting another one does not.
  pub start_instance-Ensures :
      (fuel now org def_id user : ℕ) (vars : Variables e.float.Carrier)
      → Ensures HoldsInstance Anything (start_instance e fuel now org def_id user vars)
  unfolding start_instance
  start_instance-Ensures fuel now org def_id user vars =
      Ensures-bind (gets_definition org def_id) λ found _.
        Ensures-bind (Ensures-require _ found) λ def _. Ensures-bind (Ensures-raise_if _ _) λ _ _.
          Ensures-bind (Ensures-lift _) λ wf _. Ensures-bind (Ensures-require _ _) λ first _.
            Ensures-bind (creates _ (λ n. refl)) λ j ne. advances fuel now wf first.next j ne

  pub define_workflow-Ensures :
      (org user : ℕ) (name description : String) (json : Option e.Json)
      → Ensures HoldsInstance Anything (define_workflow e org user name description json)
  unfolding define_workflow
  define_workflow-Ensures org user name description json =
      Ensures-bind (Ensures-lift _)
        λ wf _. Ensures-bind (Ensures-lift _) λ _ _. creates_definition _

  pub archive_definition-Ensures :
      (org id : ℕ) → Ensures HoldsInstance Anything (archive_definition e org id)
  archive_definition-Ensures org id =
      untouched _ (unfold archive_definition set_definition_status in λ s. refl)

  module _ (org : ℕ) (settled : (x.org_id ≢ org) ⊎ (x.status ≢ "running")) where
    -- A running instance of the organisation is another row.
    moves :
        (found : Option (Instance e)) (j : Instance e)
        → ((i : Instance e) → found ≡ some i → (i.org_id ≡ org) × (i.id ≡ k → i ≡ x))
        → found ≡ some j
        → str_eq j.status "running" ≡ true
        → j.id ≢ k
    moves found j q at running same =
        let e1 = ap (λ (i : Instance e). i.org_id) ((q j at).1 same) in
        let e2 = ap (λ (i : Instance e). i.status) ((q j at).1 same) in
        elim settled [
          | inl other ↦ other (sym e1 ∙ (q j at).0)
          | inr over ↦ over (sym e2 ∙ (str_eq_iff j.status "running").0 running)
        ]

    pub cancel_instance-Ensures :
        (now id user : ℕ) (is_admin : Bool)
        → Ensures HoldsInstance Anything (cancel_instance e now org id user is_admin)
    unfolding cancel_instance
    cancel_instance-Ensures now id user is_admin = Ensures-bind (gets_instance org id) λ found q.
        Ensures-bind (Ensures-require _ found) λ j at.
          Ensures-bind (Ensures-raise_if _ _) λ _ running.
            Ensures-bind (Ensures-raise_if _ _) λ _ _. saves _ (moves found j q at (ground arith))

    pub act_on_task-Ensures :
        (fuel now task_id user : ℕ) (comment : String) (decision : Decision)
        → Ensures HoldsInstance Anything (act_on_task e fuel now org task_id user comment decision)
    unfolding act_on_task route
    act_on_task-Ensures fuel now task_id user comment decision =
        Ensures-bind (gets_task org task_id) λ found _.
          Ensures-bind (Ensures-require _ found) λ task _.
            Ensures-bind (Ensures-raise_if _ _) λ _ _. Ensures-bind (Ensures-raise_if _ _) λ _ _.
              Ensures-bind (saves_task _) λ _ _.
                Ensures-bind (gets_instance org task.instance_id) λ holder q.
                  Ensures-bind (Ensures-require _ holder) λ j at.
                    Ensures-if (str_eq j.status "running") _ _
                      (λ running. Ensures-bind (gets_definition org j.definition_id) λ fd _.
                        Ensures-bind (Ensures-require _ fd) λ def _.
                          Ensures-bind (Ensures-lift _) λ wf _.
                            Ensures-bind (Ensures-require _ _) λ step _.
                              Ensures-bind (Ensures-lift _)
                                λ next _. advances fuel now wf next j (moves holder j q at running))
                      (λ _. Ensures-pure j tt)
