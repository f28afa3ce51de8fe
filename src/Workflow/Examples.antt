-- ===== src/Workflow/Examples.antt =====
-- The theorems of the workflow engine at the sample workflow, and runs of it.
use suzuran.Prelude.{
  ℕ, ◌≡◌, ◌≢◌, inl, refl, String, true, some, List, [], ◌∷◌, map, ◌↔◌, arith, str_eq, str_eq_iff,
  if◌then◌else◌,
}
use suzuran.Prelude.Int.{pos, atoi}
use suzuran.Prelude.Error.{Error}
use suzuran.Prelude.Result.{ok, err}
use suzuran.Prelude.Exec.{◌>>=◌}
use suzuran.Gorm.Memory.{memory-IsGorm}
use suzuran.Prelude.Text.{trim, is_space, cut}
use suzuran.Workflow.Model.{WorkflowTask, number}
use suzuran.Workflow.Validate.{
  kind_of, find_step, validate_definition, check_names, exists, check_shapes, check_shape,
  check_gotos, check_conditions, decode_definition,
}
use suzuran.Workflow.Validate.WellFormed.{IsWellFormed, validate_definition_iff}
use suzuran.Workflow.Evaluator.{
  symbol, compare, lookup, resolve_operand, to_float, evaluate_condition,
}
use suzuran.Workflow.Store.{
  Instance, get_definition, create_instance, get_instance, save_instance, create_task, get_task,
  save_task, notify,
}
use suzuran.Workflow.Service.{
  approved, branch_of, route, evaluate_conditions, advance, act_on_task, start_instance, visit,
  create_approval_tasks, create_tasks, resolve_assignees,
}
use suzuran.Workflow.Service.Guards.{MayAct, decided, act_on_task_refused, act_on_task_records}
use suzuran.Workflow.Service.Progress.{IsExternal, advance_ends}
use suzuran.Prelude.Exec.Fails.{FailsOnly}
use suzuran.Workflow.History.{
  Call, start, cancel, replay, HasInstance, HasTask, replay-settled, replay-isolated,
  replay-acted_once,
}
use suzuran.Workflow.Samples.{env, days, leave, started, waiting, over, pending, acted, busy, calls}

accepts_leave : validate_definition leave ≡ ok tt
unfolding validate_definition check_names exists kind_of check_shapes check_shape check_gotos
    check_conditions
accepts_leave = refl

validate_definition_iff_example : (validate_definition leave ≡ ok tt) ↔ IsWellFormed leave
validate_definition_iff_example = validate_definition_iff leave

-- Five days take the instance to the boss, whose task is pending.
waits_for_boss :
    let s = (start_instance env 9 100 2 1 5 ((days, number 5) ∷ []) started).1 in
    (map (λ (i : Instance env). i.current_step) s.instances ≡ "boss" ∷ [])
    × (map (λ (t : WorkflowTask). t.assignee_id) s.tasks ≡ pos 7 ∷ [])
    × (map (λ (t : WorkflowTask). t.status) s.tasks ≡ "pending" ∷ [])
unfolding start_instance get_definition decode_definition find_step create_instance advance visit
    kind_of save_instance create_approval_tasks create_tasks create_task resolve_assignees notify
    evaluate_conditions evaluate_condition trim is_space cut symbol compare resolve_operand lookup
    to_float atoi ◌>>=◌
waits_for_boss = (refl, refl, refl)

not_running : over.status ≢ "running"
not_running = ground (arith, str_eq_iff "cancelled" "running")

not_pending : acted.status ≢ "pending"
not_pending = ground (arith, str_eq_iff "rejected" "pending")

holds_over : HasInstance env 2 over busy
holds_over = record { unique = omega arith; held = refl }

holds_waiting : HasInstance env 1 waiting busy
holds_waiting = record { unique = omega arith; held = refl }

holds_pending : HasTask env 1 pending busy
holds_pending = record { unique = omega arith; held = refl }

holds_acted : HasTask env 2 acted busy
holds_acted = record { unique = omega arith; held = refl }

replay-settled_example : HasInstance env 2 over (replay env calls busy)
replay-settled_example = replay-settled env memory-IsGorm 2 over calls busy not_running holds_over

abbrev foreign : List (Call env)
foreign = cancel 3 102 1 9 true ∷ start 3 9 103 1 9 [] ∷ []

replay-isolated_example : HasInstance env 1 waiting (replay env foreign busy)
replay-isolated_example =
    replay-isolated env memory-IsGorm 1 waiting foreign busy (omega arith) holds_waiting

replay-acted_once_example : HasTask env 2 acted (replay env calls busy)
replay-acted_once_example =
    replay-acted_once env memory-IsGorm 2 acted calls busy not_pending holds_acted

act_on_task_refused_example :
    (y : Error) × (act_on_task env 9 100 2 1 8 "" approved busy ≡ (err y, busy))
act_on_task_refused_example =
    act_on_task_refused env memory-IsGorm 9 100 2 8 "" approved pending busy holds_pending
      (λ h. ground arith)

boss_approves :
    (act_on_task env 9 100 2 1 7 "fine" approved busy).0
    ≡ ok (record waiting { current_step = "done"; status = "approved"; completed_at = some 100 })
unfolding act_on_task route get_task save_task get_instance get_definition decode_definition
    find_step branch_of advance visit kind_of save_instance ◌>>=◌
boss_approves = refl

act_on_task_records_example :
    MayAct 2 7 pending
    × HasTask env 1
        (decided env memory-IsGorm 9 100 2 7 "fine" approved pending)
        (act_on_task env 9 100 2 1 7 "fine" approved busy).1
act_on_task_records_example =
    act_on_task_records env memory-IsGorm 9 100 2 7 "fine" approved pending busy _ holds_pending
      boss_approves

-- how far a step is from a human action or an end
abbrev distance : String → ℕ
distance name = if str_eq name "start" then 2 else if str_eq name "long" then 1 else 0

advance_ends_example : FailsOnly IsExternal (advance env 9 100 leave "start" waiting)
unfolding kind_of
advance_ends_example =
    advance_ends env memory-IsGorm leave distance 9 100 "start" waiting
      ((validate_definition_iff leave).0 accepts_leave) (omega arith) (inl refl) (omega arith)
