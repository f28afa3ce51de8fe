-- ===== src/Workflow/Traps.antt =====
-- Definitions that are accepted and get stuck, and the theorems about them.
use suzuran.Prelude.{◌≡◌, ◌⊎◌, refl, [], ◌∷◌}
use suzuran.Prelude.Error.{unfinished, db}
use suzuran.Prelude.Result.{ok, err}
use suzuran.Gorm.Memory.{memory-IsGorm}
use suzuran.Workflow.Model.{WorkflowDef, WorkflowStep}
use suzuran.Workflow.Validate.{
  kind_of, find_step, validate_definition, check_names, exists, check_shapes, check_shape,
  check_gotos, check_conditions,
}
use suzuran.Workflow.Service.{evaluate_conditions, advance}
use suzuran.Workflow.Service.Stuck.{advance_loops}
use suzuran.Workflow.Samples.{env, plain, waiting, busy}

-- accepted, and never through: the condition step leads to itself
abbrev waits : WorkflowStep
waits = record (plain "wait" "condition") {
  conditions = record { when = []; goto = ""; otherwise = "wait" } ∷ [];
}

abbrev circle : WorkflowDef
circle = record {
  name = "circle";
  steps = record (plain "start" "start") { next = "wait" } ∷ waits ∷ [];
}

accepts_circle : validate_definition circle ≡ ok tt
unfolding validate_definition check_names exists kind_of check_shapes check_shape check_gotos
    check_conditions
accepts_circle = refl

advance_loops_example :
    ((advance env 9 100 circle "wait" waiting busy).0 ≡ err unfinished)
    ⊎ ((advance env 9 100 circle "wait" waiting busy).0 ≡ err db)
unfolding find_step kind_of evaluate_conditions
advance_loops_example =
    advance_loops env memory-IsGorm 9 100 circle waits waiting busy refl refl refl
