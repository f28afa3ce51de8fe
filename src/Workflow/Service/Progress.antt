-- ===== src/Workflow/Service/Progress.antt =====
-- Where `advance` of workflow_service.go comes to an end.
use suzuran.Prelude.{
  ℕ, zero, suc, ◌<◌, ◌≡◌, ◌≢◌, inl, inr, refl, ap, String, Option, none, some, List, [], ◌∷◌, All,
  All-zip, find?, str_eq, str_eq_iff, ◌==◌, Bool-cases, arith,
}
use suzuran.Prelude.Int.{ℤ}
use suzuran.Prelude.Error.{
  Error, unfinished, step_not_found, unknown_type, approval_without_assignee,
}
use suzuran.Prelude.Result.{ok, err}
use suzuran.Prelude.Exec.{Exec, ◌>>=◌}
use suzuran.Prelude.Exec.Fails.{
  FailsOnly, FailsOnly-pure, FailsOnly-bind, FailsOnly-bind_lift, FailsOnly-bind_require,
}
use suzuran.Gorm.{IsGorm}
use suzuran.Workflow.Model.{
  AssigneeSpec, ConditionSpec, WorkflowDef, WorkflowStep, StepKind, start, approval, condition, end,
  unknown, Variables, WorkflowTask, Notice,
}
use suzuran.Workflow.Validate.{kind_of, find_step}
use suzuran.Workflow.Validate.WellFormed.{
  HasStep, IsShaped, IsShapedAs, IsLinked, ConditionLinked, IsWellFormed,
}
use suzuran.Workflow.Evaluator.Errors.{IsConditionError, evaluate_condition_fails}
use suzuran.Workflow.Store.{Env, Store, Instance, save_instance, create_task, get_bonds, notify}
use suzuran.Workflow.Service.{
  evaluate_conditions, resolve_role_assignees, resolve_assignees, create_tasks,
  create_approval_tasks, visit, advance,
}

-- An error that the definition is not to blame for by its shape: no missing step, no unknown type,
-- no approval without assignee, and no run without end.
abbrev pub IsExternal : Error → Type 0
IsExternal unfinished = ⊥
IsExternal (step_not_found name) = ⊥
IsExternal unknown_type = ⊥
IsExternal approval_without_assignee = ⊥
IsExternal _ = Unit

-- The steps that `advance` passes without a human action lead to a lower rank.
abbrev pub ConditionFalls : (String → ℕ) → ℕ → ConditionSpec → Type 0
ConditionFalls rank r c =
    (c.when ≢ [] → rank c.goto < r) × (c.otherwise ≢ "" → rank c.otherwise < r)

abbrev pub FallsAs : StepKind → (String → ℕ) → WorkflowStep → Type 0
FallsAs start rank s = rank s.next < rank s.name
FallsAs condition rank s = All (ConditionFalls rank (rank s.name)) s.conditions
FallsAs _ rank s = Unit

abbrev pub IsAcyclic : (String → ℕ) → WorkflowDef → Type 0
IsAcyclic rank wf = All (λ s. FallsAs (kind_of s) rank s) wf.steps

IsCondition-IsExternal : (x : Error) → IsConditionError x → IsExternal x
IsCondition-IsExternal x h = ground arith

-- A step that is found has its name and what holds of all steps.
find_step-All :
    (P : WorkflowStep → Type 0) (steps : List WorkflowStep) (name : String)
    → HasStep steps name
    → All P steps
    → (s : WorkflowStep) × (find? (λ s. str_eq s.name name) steps ≡ some s) × (s.name ≡ name) × P s
find_step-All P [] name h a = absurd h
find_step-All P (s ∷ steps) name h a = elim (Bool-cases (str_eq s.name name)) [
  | inl e ↦ (s, rw e, (str_eq_iff s.name name).0 e, a.0)
  | inr e ↦
      let rest : HasStep steps name = ground (arith, h, str_eq_iff s.name name) in
      let (t, q, n, p) = find_step-All P steps name rest a.1 in (t, rw e q, n, p)
]

module _ (e : Env) (law : IsGorm e.gorm) where
  saves : (i : Instance e) → FailsOnly IsExternal (save_instance e i)
  unfolding save_instance
  saves i = record { failure = λ s x q. ground (arith, law.save_law (λ j. j.id) i s.instances) }

  creates : (mk : ℕ → WorkflowTask) → FailsOnly IsExternal (create_task e mk)
  unfolding create_task
  creates mk = record { failure = λ s x q. ground (arith, law.create_law (λ t. t.id) mk s.tasks) }

  notifies : (n : Notice) → FailsOnly IsExternal (notify e n)
  unfolding notify
  notifies n = record { failure = λ s x q. cc }

  resolves : (org : ℕ) (a : AssigneeSpec) → FailsOnly IsExternal (resolve_assignees e org (some a))
  unfolding resolve_assignees resolve_role_assignees get_bonds ◌>>=◌
  resolves org a = record {
    failure = λ s x q. ground (arith, law.find_law (λ b. b.org_id == org) s.bonds);
  }

  creates_tasks :
      (step : WorkflowStep) (i : Instance e) (users : List ℤ)
      → FailsOnly IsExternal (create_tasks e step i users)
  unfolding create_tasks
  creates_tasks step i [] = FailsOnly-pure tt
  creates_tasks step i (u ∷ users) =
      FailsOnly-bind (creates _) λ _. FailsOnly-bind (notifies _) λ _. creates_tasks step i users

  evaluate_conditions_fails :
      (cs : List ConditionSpec) (vars : Variables e.float.Carrier) (x : Error)
      → evaluate_conditions e cs vars ≡ err x
      → IsExternal x
  unfolding evaluate_conditions
  evaluate_conditions_fails [] vars x h = ground arith
  evaluate_conditions_fails (c ∷ cs) vars x h = ground (
    arith,
    evaluate_conditions_fails cs vars x,
    evaluate_condition_fails e.float c.when vars x,
    IsCondition-IsExternal x,
  )

  -- The branch that is taken has what all branches have.
  evaluate_conditions-target :
      (P : String → Type 0) (cs : List ConditionSpec) (vars : Variables e.float.Carrier)
      (next : String)
      → All (λ c. (c.when ≢ [] → P c.goto) × (c.otherwise ≢ "" → P c.otherwise)) cs
      → evaluate_conditions e cs vars ≡ ok next
      → P next
  unfolding evaluate_conditions
  evaluate_conditions-target P [] vars next a h = ground arith
  evaluate_conditions-target P (c ∷ cs) vars next a h =
      ground (arith, evaluate_conditions-target P cs vars next, str_eq_iff c.otherwise "")

  module _ (wf : WorkflowDef) (rank : String → ℕ) where
    -- A target that exists and has a lower rank than `r`.
    abbrev IsBelow : ℕ → String → Type 0
    IsBelow r name = HasStep wf.steps name × (rank name < r)

    IsBelow-targets :
        (r : ℕ) (cs : List ConditionSpec)
        → All (ConditionLinked wf.steps) cs
        → All (ConditionFalls rank r) cs
        → All
            (λ c. (c.when ≢ [] → IsBelow r c.goto) × (c.otherwise ≢ "" → IsBelow r c.otherwise))
            cs
    IsBelow-targets r [] l f = tt
    IsBelow-targets r (c ∷ cs) l f =
        (((λ h. (l.0.0 h, f.0.0 h)), (λ h. (l.0.1 h, f.0.1 h))), IsBelow-targets r cs l.1 f.1)

    visits :
        (kind : StepKind) (rec : String → Instance e → Exec (Store e) (Instance e)) (now : ℕ)
        (step : WorkflowStep) (i : Instance e)
        → IsShapedAs kind step
        → (kind ≡ start → HasStep wf.steps step.next)
        → All (ConditionLinked wf.steps) step.conditions
        → FallsAs kind rank step
        → ((name : String) (j : Instance e)
            → IsBelow (rank step.name) name
            → FailsOnly IsExternal (rec name j))
        → FailsOnly IsExternal (visit e kind rec now step i)
    unfolding visit create_approval_tasks
    visits start rec now step i shaped next linked falls again =
        FailsOnly-bind (saves _) λ _. again _ _ (next refl, falls)
    visits condition rec now step i shaped next linked falls again = FailsOnly-bind (saves _) λ _.
        FailsOnly-bind_lift _ _ (λ x q. evaluate_conditions_fails step.conditions _ x q)
          (λ name q. again name _ (
            evaluate_conditions-target (IsBelow (rank step.name)) step.conditions _ name
              (IsBelow-targets _ step.conditions linked falls) q))
    visits approval rec now step i shaped next linked falls again =
        FailsOnly-bind (saves _)
          λ _. FailsOnly-bind (approves step.assignee shaped) λ _. FailsOnly-pure _
      where
        approves :
            (a : Option AssigneeSpec)
            → a ≢ none
            → FailsOnly IsExternal (do
              users ← resolve_assignees e i.org_id a
              create_tasks e step (record i { current_step = step.name }) users)
        approves none given = absurd (given refl)
        approves (some a) given =
            FailsOnly-bind (resolves i.org_id a) λ users. creates_tasks step _ users
    visits end rec now step i shaped next linked falls again =
        FailsOnly-bind (saves _) λ _. FailsOnly-pure _
    visits unknown rec now step i shaped next linked falls again = absurd shaped

    -- In a well-formed definition whose start and condition steps lead to steps of a lower rank, a
    -- run from a step of a rank below the fuel comes to an end, and an error that it ends with is
    -- not that a step is missing, that its type is unknown or that an approval has no assignee.
    pub advance_ends :
        (fuel now : ℕ) (name : String) (i : Instance e)
        → IsWellFormed wf
        → IsAcyclic rank wf
        → HasStep wf.steps name
        → rank name < fuel
        → FailsOnly IsExternal (advance e fuel now wf name i)
    unfolding advance
    advance_ends zero now name i well acyclic has lt = absurd (omega arith)
    advance_ends (suc fuel) now name i well acyclic has lt =
        let (s, found, named, ((shaped, linked), falls)) =
          find_step-All (λ s. (IsShaped s × IsLinked wf.steps s) × FallsAs (kind_of s) rank s)
            wf.steps name has
            (All-zip (λ s. IsShaped s × IsLinked wf.steps s) (λ s. FallsAs (kind_of s) rank s)
              wf.steps (All-zip IsShaped (IsLinked wf.steps) wf.steps well.shaped well.linked)
              acyclic) in
        FailsOnly-bind_require _ _ s _ (unfold find_step in found) (
          visits (kind_of s) _ now s i shaped linked.0 linked.3 falls (λ target j below.
            advance_ends fuel now target j well acyclic below.0 (rank_step s target named below.1)))
      where
        rank_step :
            (s : WorkflowStep) (target : String)
            → s.name ≡ name
            → rank target < rank s.name
            → rank target < fuel
        rank_step s target named below =
            let same : rank s.name ≡ rank name = ap rank named in omega arith
