-- ===== src/Workflow/Validate.antt =====
-- backend/internal/service/workflow_validate.go. The source collects the steps in a map by name and
-- ranges over it in an order that Go leaves open; the model goes through it in the order of the
-- steps, so which of several faults is reported may differ, and whether one is reported may not.
pub mod WellFormed
use suzuran.Prelude.{
  ℕ, suc, ◌+◌, String, Bool, true, false, not, ◌&&◌, ◌||◌, Option, none, some, List, [], ◌∷◌, find?,
  str_eq, ltb, ◌==◌, if◌then◌else◌,
}
use suzuran.Prelude.Error.{
  Error, no_steps, no_start, many_starts, unnamed_step, duplicate_step, start_without_next,
  unknown_type, approval_without_assignee, end_without_result, condition_without_branches,
  unknown_next, empty_definition, undecodable,
}
use suzuran.Prelude.Result.{Result, ok, err, ◌>>=◌, ◌>>◌, reject_if}
use suzuran.Prelude.Text.{Text}
use suzuran.Workflow.Model.{
  WorkflowDef, WorkflowStep, ConditionSpec, StepKind, start, approval, condition, end, unknown,
}

-- `switch step.Type`
unfoldable pub kind_of : WorkflowStep → StepKind
kind_of s =
    if str_eq s.kind "start"
    then start
    else if str_eq s.kind "approval"
    then approval
    else if str_eq s.kind "condition"
    then condition
    else if str_eq s.kind "end"
    then end
    else unknown

-- `step.Type == "..."`
abbrev pub same_kind : StepKind → StepKind → Bool
same_kind start start = true
same_kind approval approval = true
same_kind condition condition = true
same_kind end end = true
same_kind unknown unknown = true
same_kind _ _ = false

abbrev pub is_kind : StepKind → WorkflowStep → Bool
is_kind k s = same_kind k (kind_of s)

-- the step with the given name, or nil
unfoldable pub find_step : WorkflowDef → String → Option WorkflowStep
find_step wf name = find? (λ s. str_eq s.name name) wf.steps

-- the membership test on the keys of the map `names`
unfoldable pub exists : List WorkflowStep → String → Bool
exists [] name = false
exists (s ∷ names) name = str_eq s.name name || exists names name

abbrev pub is_nil {ℓ} : {A : Type ℓ} → List A → Bool
is_nil [] = true
is_nil (x ∷ xs) = false

abbrev pub is_none {ℓ} : {A : Type ℓ} → Option A → Bool
is_none none = true
is_none (some x) = false

-- The first loop: names are given and distinct, and a start step has a next. `seen` is the map so
-- far, and the result is `startCount`.
unfoldable pub check_names : List WorkflowStep → List WorkflowStep → ℕ → Result ℕ
check_names seen [] starts = ok starts
check_names seen (s ∷ steps) starts = do
  reject_if (str_eq s.name "") unnamed_step
  reject_if (exists seen s.name) duplicate_step
  reject_if (is_kind start s && str_eq s.next "") start_without_next
  check_names (s ∷ seen) steps (if is_kind start s then starts + 1 else starts)

-- The second loop: each step has what its type wants.
unfoldable pub check_shape : WorkflowStep → Result (Unit {0})
check_shape s = do
  reject_if (is_kind unknown s) unknown_type
  reject_if (is_kind approval s && is_none s.assignee) approval_without_assignee
  reject_if (is_kind end s && str_eq s.result "") end_without_result
  reject_if (is_kind condition s && is_nil s.conditions) condition_without_branches

unfoldable pub check_shapes : List WorkflowStep → Result (Unit {0})
check_shapes [] = ok tt
check_shapes (s ∷ steps) = do check_shape s; check_shapes steps

abbrev pub check_branch : List WorkflowStep → Option String → Result (Unit {0})
check_branch names none = ok tt
check_branch names (some goto) = reject_if (not (exists names goto)) (unknown_next goto)

unfoldable pub check_conditions : List WorkflowStep → List ConditionSpec → Result (Unit {0})
check_conditions names [] = ok tt
check_conditions names (c ∷ cs) = do
  reject_if (not (is_nil c.when) && not (exists names c.goto)) (unknown_next c.goto)
  reject_if (not (str_eq c.otherwise "") && not (exists names c.otherwise))
      (unknown_next c.otherwise)
  check_conditions names cs

-- The third loop: every goto names a step.
unfoldable pub check_gotos : List WorkflowStep → List WorkflowStep → Result (Unit {0})
check_gotos names [] = ok tt
check_gotos names (s ∷ steps) = do
  reject_if (is_kind start s && not (exists names s.next)) (unknown_next s.next)
  check_branch names s.on_approve
  check_branch names s.on_reject
  check_conditions names s.conditions
  check_gotos names steps

unfoldable pub validate_definition : WorkflowDef → Result (Unit {0})
validate_definition wf = do
  reject_if (is_nil wf.steps) no_steps
  starts ← check_names [] wf.steps 0
  reject_if (starts == 0) no_start
  reject_if (ltb 1 starts) many_starts
  check_shapes wf.steps
  check_gotos wf.steps wf.steps

-- json.Marshal and json.Unmarshal of the stored map are `unmarshal`.
unfoldable pub decode_definition :
    {J : Type 0} → (J → Option WorkflowDef) → Option J → Result WorkflowDef
decode_definition unmarshal none = err empty_definition
decode_definition unmarshal (some raw) = elim (unmarshal raw) [
  | none ↦ err undecodable
  | some wf ↦ ok wf
]
