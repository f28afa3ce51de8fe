-- ===== src/Workflow/Validate/WellFormed.antt =====
-- What `validateDefinition` promises of a definition, stated without its loops and maps.
use suzuran.Prelude.{
  ℕ, ◌+◌, ◌≡◌, ◌≢◌, ◌↔◌, ◌⊎◌, inl, inr, String, true, Option, none, some, List, [], ◌∷◌, All,
  str_eq_iff, if◌then◌else◌, arith,
}
use suzuran.Prelude.Result.{ok, Result-cases}
use suzuran.Workflow.Model.{
  WorkflowDef, WorkflowStep, ConditionSpec, StepKind, start, approval, condition, end, unknown,
}
use suzuran.Workflow.Validate.{
  kind_of, is_kind, exists, check_names, check_shape, check_shapes, check_branch, check_conditions,
  check_gotos, validate_definition,
}

-- some step has the name
abbrev pub HasStep : List WorkflowStep → String → Type 0
HasStep [] name = ⊥
HasStep (s ∷ steps) name = (s.name ≡ name) ⊎ HasStep steps name

-- Each step has a name that no earlier one has, and a start step has a next.
abbrev pub AreNamed : List WorkflowStep → List WorkflowStep → Type 0
AreNamed seen [] = Unit
AreNamed seen (s ∷ steps) =
    (s.name ≢ "")
    × (¬ HasStep seen s.name)
    × (kind_of s ≡ start → s.next ≢ "")
    × AreNamed (s ∷ seen) steps

abbrev pub starts : List WorkflowStep → ℕ
starts [] = 0
starts (s ∷ steps) = if is_kind start s then starts steps + 1 else starts steps

-- A step has what its type wants.
abbrev pub IsShapedAs : StepKind → WorkflowStep → Type 0
IsShapedAs start s = Unit
IsShapedAs approval s = s.assignee ≢ none
IsShapedAs condition s = s.conditions ≢ []
IsShapedAs end s = s.result ≢ ""
IsShapedAs unknown s = ⊥

abbrev pub IsShaped : WorkflowStep → Type 0
IsShaped s = IsShapedAs (kind_of s) s

abbrev pub BranchLinked : List WorkflowStep → Option String → Type 0
BranchLinked steps none = Unit
BranchLinked steps (some goto) = HasStep steps goto

abbrev pub ConditionLinked : List WorkflowStep → ConditionSpec → Type 0
ConditionLinked steps c =
    (c.when ≢ [] → HasStep steps c.goto) × (c.otherwise ≢ "" → HasStep steps c.otherwise)

-- Wherever a step leads, there is a step.
abbrev pub IsLinked : List WorkflowStep → WorkflowStep → Type 0
IsLinked steps s =
    (kind_of s ≡ start → HasStep steps s.next)
    × BranchLinked steps s.on_approve
    × BranchLinked steps s.on_reject
    × All (ConditionLinked steps) s.conditions

pub record IsWellFormed (wf : WorkflowDef) : Type 0 where
  pub named : AreNamed [] wf.steps
  pub one_start : starts wf.steps ≡ 1
  pub shaped : All IsShaped wf.steps
  pub linked : All (IsLinked wf.steps) wf.steps

pub exists_iff :
    (steps : List WorkflowStep) (name : String) → (exists steps name ≡ true) ↔ HasStep steps name
unfolding exists
exists_iff [] name = ground arith
exists_iff (s ∷ steps) name = ground (arith, exists_iff steps name, str_eq_iff s.name name)

check_names_iff :
    (seen steps : List WorkflowStep) (n m : ℕ)
    → (check_names seen steps n ≡ ok m) ↔ (AreNamed seen steps × (m ≡ n + starts steps))
unfolding check_names
check_names_iff seen [] n m = ground arith
check_names_iff seen (s ∷ steps) n m = ground (
  arith,
  str_eq_iff s.name "",
  str_eq_iff s.next "",
  exists_iff seen s.name,
  check_names_iff (s ∷ seen) steps (if is_kind start s then n + 1 else n) m,
)

check_shape_iff : (s : WorkflowStep) → (check_shape s ≡ ok tt) ↔ IsShaped s
unfolding check_shape
check_shape_iff s = ground (arith, str_eq_iff s.result "")

check_shapes_iff : (steps : List WorkflowStep) → (check_shapes steps ≡ ok tt) ↔ All IsShaped steps
unfolding check_shapes
check_shapes_iff [] = ground arith
check_shapes_iff (s ∷ steps) = ground (arith, check_shape_iff s, check_shapes_iff steps)

check_branch_iff :
    (steps : List WorkflowStep) (o : Option String)
    → (check_branch steps o ≡ ok tt) ↔ BranchLinked steps o
check_branch_iff steps none = ground arith
check_branch_iff steps (some goto) = ground (arith, exists_iff steps goto)

check_conditions_iff :
    (steps : List WorkflowStep) (cs : List ConditionSpec)
    → (check_conditions steps cs ≡ ok tt) ↔ All (ConditionLinked steps) cs
unfolding check_conditions
check_conditions_iff steps [] = ground arith
check_conditions_iff steps (c ∷ cs) = ground (
  arith,
  str_eq_iff c.otherwise "",
  exists_iff steps c.goto,
  exists_iff steps c.otherwise,
  check_conditions_iff steps cs,
)

check_gotos_iff :
    (names steps : List WorkflowStep)
    → (check_gotos names steps ≡ ok tt) ↔ All (IsLinked names) steps
unfolding check_gotos
check_gotos_iff names [] = ground arith
check_gotos_iff names (s ∷ steps) = ground (
  arith,
  exists_iff names s.next,
  check_branch_iff names s.on_approve,
  check_branch_iff names s.on_reject,
  check_conditions_iff names s.conditions,
  check_gotos_iff names steps,
)

-- A definition is accepted exactly when it is well formed.
pub validate_definition_iff :
    (wf : WorkflowDef) → (validate_definition wf ≡ ok tt) ↔ IsWellFormed wf
unfolding validate_definition
validate_definition_iff wf = elim (Result-cases (check_names [] wf.steps 0)) [
  | inl (m, e) ↦ ground (
    arith,
    check_names_iff [] wf.steps 0 m,
    check_shapes_iff wf.steps,
    check_gotos_iff wf.steps wf.steps,
  )
  | inr (x, e) ↦ ground (arith, check_names_iff [] wf.steps 0 (starts wf.steps))
]
