-- ===== src/Workflow/Service.antt =====
-- backend/internal/service/workflow_service.go. `now` is what time.Now() returns during the call.
-- `advance` calls itself as long as it meets start and condition steps; the model gives it `fuel`,
-- and a run that this does not finish is `unfinished`.
pub mod Settled
pub mod Acted
pub mod Guards
pub mod Stuck
pub mod Progress
use suzuran.Prelude.{
  ℕ, zero, suc, String, Bool, true, false, not, ◌&&◌, Option, none, some, List, [], ◌∷◌, str_eq,
  ◌==◌, if◌then◌else◌,
}
use suzuran.Prelude.Int.{ℤ, pos, int_eq, atoi}
use suzuran.Prelude.Error.{
  Error, unfinished, no_start, unknown_type, definition_not_found, definition_not_active,
  instance_not_found, not_running, not_allowed, task_not_found, already_acted, not_assigned,
  no_on_approve, no_on_reject, step_not_found, nil_dereference, bad_assignee_value,
  unknown_assignee_type, no_bond_repository, no_role_users, no_branch, approval_without_assignee,
}
use suzuran.Prelude.Result
use suzuran.Prelude.Result.{Result, ok, err}
use suzuran.Prelude.Exec.{Exec, pure, raise, lift, require, raise_if, ◌>>=◌, ◌>>◌}
use suzuran.Org.Model.{OrgUserBond}
use suzuran.Prelude.Text.{Text}
use suzuran.Workflow.Model.{
  AssigneeSpec, ConditionSpec, WorkflowDef, WorkflowStep, StepKind, start, approval, condition, end,
  unknown, Variables, WorkflowDefinition, WorkflowInstance, WorkflowTask, Notice,
}
use suzuran.Workflow.Validate.{
  kind_of, find_step, validate_definition, decode_definition, is_nil, is_none,
}
use suzuran.Workflow.Evaluator.{evaluate_condition}
use suzuran.Workflow.Store.{
  Env, Store, Definition, Instance, create_definition, get_definition, list_definitions,
  set_definition_status, create_instance, get_instance, list_instances, save_instance, create_task,
  get_task, list_tasks_by_assignee, list_tasks_by_instance, save_task, get_bonds, notify,
}

-- the two words that ApproveTask and RejectTask pass on
pub data Decision : Type 0 where
  approved rejected : Decision

abbrev pub decision_text : Decision → String
decision_text approved = "approved"
decision_text rejected = "rejected"

-- the target of the branch that a decision takes
unfoldable pub branch_of : Decision → WorkflowStep → Result String
branch_of approved step = elim step.on_approve [ none ↦ err no_on_approve | some goto ↦ ok goto ]
branch_of rejected step = elim step.on_reject [ none ↦ err no_on_reject | some goto ↦ ok goto ]

-- The loop of `resolveRoleAssignees`: no case of its switch adds a user.
abbrev pub role_users : Text → List OrgUserBond → List ℤ
role_users role [] = []
role_users role (b ∷ bonds) = role_users role bonds

abbrev pub or_approved : String → String
or_approved result = if str_eq result "" then "approved" else result

module _ (e : Env) where
  abbrev pub evaluate_branch : ConditionSpec → Result Bool → Result String → Result String
  evaluate_branch c (err x) later = err x
  evaluate_branch c (ok true) later = ok c.goto
  evaluate_branch c (ok false) later = later

  -- evaluateConditions: the first branch whose condition holds, or the first `otherwise`.
  unfoldable pub evaluate_conditions :
      List ConditionSpec → Variables e.float.Carrier → Result String
  evaluate_conditions [] vars = err no_branch
  evaluate_conditions (c ∷ cs) vars =
      let rest = evaluate_conditions cs vars in
      if not (is_nil c.when)
      then evaluate_branch c (evaluate_condition e.float c.when vars) rest
      else if not (str_eq c.otherwise "")
      then ok c.otherwise
      else rest

  unfoldable pub resolve_role_assignees : ℕ → Text → Exec (Store e) (List ℤ)
  resolve_role_assignees org role = do
    raise_if (not e.has_bond_repo) no_bond_repository
    bonds ← get_bonds e org
    raise_if (is_nil (role_users role bonds)) no_role_users
    pure (role_users role bonds)

  abbrev pub user_assignee : Text → Result (List ℤ)
  user_assignee value = elim (atoi value) [ none ↦ err bad_assignee_value | some id ↦ ok (id ∷ []) ]

  -- The users of an approval step.
  unfoldable pub resolve_assignees : ℕ → Option AssigneeSpec → Exec (Store e) (List ℤ)
  resolve_assignees org none = raise approval_without_assignee
  resolve_assignees org (some a) =
      if str_eq a.kind "user"
      then lift (user_assignee a.value)
      else if str_eq a.kind "role"
      then resolve_role_assignees org a.value
      else raise unknown_assignee_type

  -- createApprovalTasks: the loop over the users, which stops at the first task that is refused.
  unfoldable pub create_tasks : WorkflowStep → Instance e → List ℤ → Exec (Store e) (Unit {0})
  create_tasks step inst [] = pure tt
  create_tasks step inst (user ∷ users) = do
    create_task e (λ n. record {
      id = n;
      org_id = inst.org_id;
      instance_id = inst.id;
      step_name = step.name;
      assignee_id = user;
      status = "pending";
      comment = "";
      acted_at = none;
    })
    notify e (record { user_id = user; instance_id = inst.id })
    create_tasks step inst users

  unfoldable pub create_approval_tasks : WorkflowStep → Instance e → Exec (Store e) (Unit {0})
  create_approval_tasks step inst = do
    users ← resolve_assignees inst.org_id step.assignee
    create_tasks step inst users

  -- The cases of `advance`; `rec` is `advance` itself.
  unfoldable pub visit :
      StepKind
      → (String → Instance e → Exec (Store e) (Instance e))
      → ℕ
      → WorkflowStep
      → Instance e
      → Exec (Store e) (Instance e)
  visit start rec now step inst = do
    let i = record inst { current_step = step.name }
    save_instance e i
    rec step.next i
  visit condition rec now step inst = do
    let i = record inst { current_step = step.name }
    save_instance e i
    next ← lift (evaluate_conditions step.conditions i.variables)
    rec next i
  visit approval rec now step inst = do
    let i = record inst { current_step = step.name }
    save_instance e i
    create_approval_tasks step i
    pure i
  visit end rec now step inst = do
    let i = record inst {
      current_step = step.name;
      status = or_approved step.result;
      completed_at = some now;
    }
    save_instance e i
    pure i
  visit unknown rec now step inst = raise unknown_type

  unfoldable pub advance : ℕ → ℕ → WorkflowDef → String → Instance e → Exec (Store e) (Instance e)
  advance zero now wf name inst = raise unfinished
  advance (suc fuel) now wf name inst = do
    step ← require (step_not_found name) (find_step wf name)
    visit (kind_of step) (advance fuel now wf) now step inst

  -- Definition operations

  unfoldable pub define_workflow :
      ℕ → ℕ → String → String → Option e.Json → Exec (Store e) (Definition e)
  define_workflow org user name description json = do
    wf ← lift (decode_definition e.unmarshal json)
    lift (validate_definition wf)
    create_definition e (λ n. record {
      id = n;
      org_id = org;
      name = name;
      description = description;
      definition = json;
      version = 1;
      status = "active";
      created_by = user;
    })

  unfoldable pub archive_definition : ℕ → ℕ → Exec (Store e) (Unit {0})
  archive_definition org id = set_definition_status e org id "archived"

  -- Instance operations

  unfoldable pub start_instance :
      ℕ → ℕ → ℕ → ℕ → ℕ → Variables e.float.Carrier → Exec (Store e) (Instance e)
  start_instance fuel now org def_id user variables = do
    found ← get_definition e org def_id
    def ← require definition_not_found found
    raise_if (not (str_eq def.status "active")) definition_not_active
    wf ← lift (decode_definition e.unmarshal def.definition)
    first ← require no_start (find_step wf "start")
    inst ← create_instance e (λ n. record {
      id = n;
      org_id = org;
      definition_id = def_id;
      status = "running";
      current_step = first.name;
      variables = variables;
      created_by = user;
      completed_at = none;
    })
    advance fuel now wf first.next inst

  -- Nil stands for an instance that is not there.
  unfoldable pub get_instance_history :
      ℕ → ℕ → Exec (Store e) (Option (Instance e × List WorkflowTask))
  get_instance_history org id = do
    found ← get_instance e org id
    elim found [
      | none ↦ pure none
      | some inst ↦ (do tasks ← list_tasks_by_instance e org id; pure (some (inst, tasks)))
    ]

  unfoldable pub cancel_instance : ℕ → ℕ → ℕ → ℕ → Bool → Exec (Store e) (Unit {0})
  cancel_instance now org id user is_admin = do
    found ← get_instance e org id
    inst ← require instance_not_found found
    raise_if (not (str_eq inst.status "running")) not_running
    raise_if (not is_admin && not (inst.created_by == user)) not_allowed
    save_instance e (record inst { status = "cancelled"; completed_at = some now })

  -- Task actions

  -- The part of `actOnTask` that moves a running instance along the branch of the decision.
  unfoldable pub route :
      ℕ → ℕ → ℕ → WorkflowTask → Decision → Instance e → Exec (Store e) (Instance e)
  route fuel now org task decision inst = do
    found ← get_definition e org inst.definition_id
    def ← require nil_dereference found
    wf ← lift (decode_definition e.unmarshal def.definition)
    step ← require (step_not_found task.step_name) (find_step wf task.step_name)
    next ← lift (branch_of decision step)
    advance fuel now wf next inst

  unfoldable pub act_on_task : ℕ → ℕ → ℕ → ℕ → ℕ → String → Decision → Exec (Store e) (Instance e)
  act_on_task fuel now org task_id user comment decision = do
    found ← get_task e org task_id
    task ← require task_not_found found
    raise_if (not (str_eq task.status "pending")) already_acted
    raise_if (not (int_eq task.assignee_id (pos user))) not_assigned
    save_task e
        (record task { status = decision_text decision; comment = comment; acted_at = some now })
    holder ← get_instance e org task.instance_id
    inst ← require instance_not_found holder
    if str_eq inst.status "running" then route fuel now org task decision inst else pure inst

  unfoldable pub approve_task : ℕ → ℕ → ℕ → ℕ → ℕ → String → Exec (Store e) (Instance e)
  approve_task fuel now org task_id user comment =
      act_on_task fuel now org task_id user comment approved

  unfoldable pub reject_task : ℕ → ℕ → ℕ → ℕ → ℕ → String → Exec (Store e) (Instance e)
  reject_task fuel now org task_id user comment =
      act_on_task fuel now org task_id user comment rejected
