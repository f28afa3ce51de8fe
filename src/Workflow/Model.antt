-- ===== src/Workflow/Model.antt =====
-- The data of the workflow engine: backend/internal/model/workflow.go, and the structures that
-- workflow_service.go decodes a definition into. A text that the code only compares is a `String`;
-- one that it walks is the list of its bytes. The columns `created_at` and `updated_at`, which gorm
-- fills and this code never reads, are left out.
use suzuran.Prelude.Int.{ℤ}
use suzuran.Prelude.Text.{Text}
use suzuran.Org.Model.{OrgUserBond}
use suzuran.Prelude.{ℕ, String, Option, Bool, List}

pub record AssigneeSpec : Type 0 where
  pub kind : String  -- json "type"
  pub value : Text

pub record ConditionSpec : Type 0 where
  pub when : Text
  pub goto : String
  pub otherwise : String

pub record WorkflowStep : Type 0 where
  pub name : String
  pub kind : String  -- json "type"
  pub next : String
  pub assignee : Option AssigneeSpec
  pub on_approve : Option String  -- *GotoSpec, a struct of one text
  pub on_reject : Option String
  pub conditions : List ConditionSpec
  pub result : String

pub record WorkflowDef : Type 0 where
  pub name : String
  pub steps : List WorkflowStep

-- The cases of `switch step.Type`.
pub data StepKind : Type 0 where
  start approval condition end unknown : StepKind

-- A decoded JSON value, `interface{}`. Of an object or an array the code uses only the text that
-- `%v` prints, which is what `compound` holds.
pub data Value (F : Type 0) : Type 0 where
  null : Value F
  bool : Bool → Value F
  number : F → Value F
  text : Text → Value F
  compound : Text → Value F

abbrev pub Variables : Type 0 → Type 0
Variables F = List (Text × Value F)

pub record WorkflowDefinition (J : Type 0) : Type 0 where
  pub id : ℕ
  pub org_id : ℕ
  pub name : String
  pub description : String
  pub definition : Option J
  pub version : ℕ
  pub status : String
  pub created_by : ℕ

pub record WorkflowInstance (F : Type 0) : Type 0 where
  pub id : ℕ
  pub org_id : ℕ
  pub definition_id : ℕ
  pub status : String
  pub current_step : String
  pub variables : Variables F
  pub created_by : ℕ
  pub completed_at : Option ℕ

pub record WorkflowTask : Type 0 where
  pub id : ℕ
  pub org_id : ℕ
  pub instance_id : ℕ
  pub step_name : String
  pub assignee_id : ℤ
  pub status : String
  pub comment : String
  pub acted_at : Option ℕ

-- An approval notice handed to the notification service: its reader and its instance.
pub record Notice : Type 0 where
  pub user_id : ℤ
  pub instance_id : ℕ

-- The three tables of the engine, the bonds that it reads, and the notices sent so far.
pub record Db (J F : Type 0) : Type 0 where
  pub definitions : List (WorkflowDefinition J)
  pub instances : List (WorkflowInstance F)
  pub tasks : List WorkflowTask
  pub bonds : List OrgUserBond
  pub notices : List Notice
