-- ===== src/Workflow/Store.antt =====
-- backend/internal/repository/workflow_repository.go: the statements on the three tables. Every
-- query of a definition or an instance carries the organisation.
use suzuran.Prelude.{
  ℕ, String, Bool, ◌&&◌, true, Option, List, ◌∷◌, reverse, str_eq, ◌==◌, if◌then◌else◌,
}
use suzuran.Prelude.Int.{ℤ, int_eq}
use suzuran.Prelude.Result.{ok, ◌>>=◌}
use suzuran.Prelude.Exec.{Exec}
use suzuran.Gorm.{Gorm}
use suzuran.Org.Model.{OrgUserBond}
use suzuran.Workflow.Model.{
  WorkflowDef, WorkflowDefinition, WorkflowInstance, WorkflowTask, Notice, Db,
}
use suzuran.Workflow.Evaluator.{Float64}

-- What the engine stands on: the database, float64, `encoding/json`, and which of the optional
-- collaborators the service was built with.
pub record Env : Type 1 where
  pub gorm : Gorm
  pub float : Float64
  pub Json : Type 0
  pub unmarshal : Json → Option WorkflowDef
  pub has_bond_repo : Bool
  pub has_notifier : Bool

module _ (e : Env) where
  abbrev pub Store : Type 0
  Store = Db e.Json e.float.Carrier

  abbrev pub Definition : Type 0
  Definition = WorkflowDefinition e.Json

  abbrev pub Instance : Type 0
  Instance = WorkflowInstance e.float.Carrier

  -- WorkflowDefinitionRepository

  unfoldable pub create_definition : (ℕ → Definition) → Exec Store Definition
  create_definition mk s =
      let (r, t) = e.gorm.create (λ d. d.id) mk s.definitions in (r, record s { definitions = t })

  unfoldable pub get_definition : ℕ → ℕ → Exec Store (Option Definition)
  get_definition org id s = (e.gorm.first (λ d. d.org_id == org && d.id == id) s.definitions, s)

  -- the newest first
  unfoldable pub list_definitions : ℕ → Exec Store (List Definition)
  list_definitions org s =
      ((do ds ← e.gorm.find (λ d. d.org_id == org) s.definitions; ok (reverse ds)), s)

  unfoldable pub set_definition_status : ℕ → ℕ → String → Exec Store (Unit {0})
  set_definition_status org id status s =
      let (r, t) =
        e.gorm.update (λ d. d.org_id == org && d.id == id) (λ d. record d { status = status })
          s.definitions in
      (r, record s { definitions = t })

  -- WorkflowInstanceRepository

  unfoldable pub create_instance : (ℕ → Instance) → Exec Store Instance
  create_instance mk s =
      let (r, t) = e.gorm.create (λ i. i.id) mk s.instances in (r, record s { instances = t })

  unfoldable pub get_instance : ℕ → ℕ → Exec Store (Option Instance)
  get_instance org id s = (e.gorm.first (λ i. i.org_id == org && i.id == id) s.instances, s)

  -- An empty status asks for all.
  unfoldable pub list_instances : ℕ → String → Exec Store (List Instance)
  list_instances org status s = (
    (do
      is ←
          e.gorm.find
            (λ i. i.org_id == org && (if str_eq status "" then true else str_eq i.status status))
            s.instances
      ok (reverse is)),
    s,
  )

  unfoldable pub save_instance : Instance → Exec Store (Unit {0})
  save_instance i s =
      let (r, t) = e.gorm.save (λ j. j.id) i s.instances in (r, record s { instances = t })

  -- WorkflowTaskRepository

  unfoldable pub create_task : (ℕ → WorkflowTask) → Exec Store WorkflowTask
  create_task mk s =
      let (r, t) = e.gorm.create (λ x. x.id) mk s.tasks in (r, record s { tasks = t })

  unfoldable pub get_task : ℕ → ℕ → Exec Store (Option WorkflowTask)
  get_task org id s = (e.gorm.first (λ x. x.org_id == org && x.id == id) s.tasks, s)

  unfoldable pub list_tasks_by_assignee : ℤ → String → Exec Store (List WorkflowTask)
  list_tasks_by_assignee user status s = (
    (do
      ts ←
          e.gorm.find
            (λ x.
              int_eq x.assignee_id user
              && (if str_eq status "" then true else str_eq x.status status))
            s.tasks
      ok (reverse ts)),
    s,
  )

  unfoldable pub list_tasks_by_instance : ℕ → ℕ → Exec Store (List WorkflowTask)
  list_tasks_by_instance org inst s =
      (e.gorm.find (λ x. x.org_id == org && x.instance_id == inst) s.tasks, s)

  unfoldable pub save_task : WorkflowTask → Exec Store (Unit {0})
  save_task x s = let (r, t) = e.gorm.save (λ y. y.id) x s.tasks in (r, record s { tasks = t })

  -- OrgUserBondRepository.GetByOrgID
  unfoldable pub get_bonds : ℕ → Exec Store (List OrgUserBond)
  get_bonds org s = (e.gorm.find (λ b. b.org_id == org) s.bonds, s)

  -- NotificationService.SendApprovalNotification, whose failure the engine ignores
  unfoldable pub notify : Notice → Exec Store (Unit {0})
  notify n s = (ok tt, if e.has_notifier then record s { notices = n ∷ s.notices } else s)
