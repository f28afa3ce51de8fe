-- ===== src/Workflow/Samples.antt =====
-- Concrete definitions, instances and calls of the workflow engine.
use suzuran.Prelude.{
  ℕ, ◌+◌, ◌-◌, ◌*◌, ◌%◌, ◌&&◌, String, true, Option, none, some, List, [], ◌∷◌, ◌++◌, ltb, leb,
  ◌==◌, if◌then◌else◌,
}
use suzuran.Prelude.Int.{pos}
use suzuran.Gorm.Memory.{memory}
use suzuran.Prelude.Text.{Text}
use suzuran.Workflow.Model.{WorkflowDef, WorkflowStep, WorkflowTask, number}
use suzuran.Workflow.Evaluator.{Float64}
use suzuran.Workflow.Store.{Env, Store, Instance}
use suzuran.Workflow.Service.{approved}
use suzuran.Workflow.History.{Call, start, act, cancel}

-- Whole numbers in place of float64, read from decimal digits.
abbrev pub parse_from : ℕ → Text → Option ℕ
parse_from n [] = some n
parse_from n (c ∷ t) =
    let rest = parse_from (n * 10 + (c - b'0')) t in if leb b'0' c && leb c b'9' then rest else none

abbrev pub parse_digits : Text → Option ℕ
parse_digits [] = none
parse_digits (c ∷ t) = parse_from 0 (c ∷ t)

abbrev pub whole : Float64
whole = record {
  Carrier = ℕ;
  lt = ltb;
  le = leb;
  eq = λ a b. a == b;
  parse = parse_digits;
  print = λ n. (b'0' + n % 10) ∷ [];
}

-- A definition is stored as it is.
abbrev pub env : Env
env = record {
  gorm = memory;
  float = whole;
  Json = WorkflowDef;
  unmarshal = λ j. some j;
  has_bond_repo = true;
  has_notifier = true;
}

abbrev pub plain : String → String → WorkflowStep
plain name kind = record {
  name = name;
  kind = kind;
  next = "";
  assignee = none;
  on_approve = none;
  on_reject = none;
  conditions = [];
  result = "";
}

abbrev pub days : Text
days = b'd' ∷ b'a' ∷ b'y' ∷ b's' ∷ []

abbrev pub days_over_3 : Text
days_over_3 = days ++ (b'>' ∷ b'3' ∷ [])

-- start, long (days > 3 to boss, otherwise to done), boss (approval by user 7), done, refused
abbrev pub leave : WorkflowDef
leave = record {
  name = "leave";
  steps =
      record (plain "start" "start") { next = "long" }
      ∷ record (plain "long" "condition") {
        conditions =
            record { when = days_over_3; goto = "boss"; otherwise = "" }
            ∷ record { when = []; goto = ""; otherwise = "done" }
            ∷ [];
      }
      ∷ record (plain "boss" "approval") {
        assignee = some (record { kind = "user"; value = b'7' ∷ [] });
        on_approve = some "done";
        on_reject = some "refused";
      }
      ∷ record (plain "done" "end") { result = "approved" }
      ∷ record (plain "refused" "end") { result = "rejected" }
      ∷ [];
}

abbrev pub started : Store env
started = record {
  definitions =
      record {
        id = 1;
        org_id = 2;
        name = "leave";
        description = "";
        definition = some leave;
        version = 1;
        status = "active";
        created_by = 5;
      }
      ∷ [];
  instances = [];
  tasks = [];
  bonds = [];
  notices = [];
}

-- An instance that waits for the boss and one that is over, with the task of each.
abbrev pub waiting : Instance env
waiting = record {
  id = 1;
  org_id = 2;
  definition_id = 1;
  status = "running";
  current_step = "boss";
  variables = (days, number 5) ∷ [];
  created_by = 5;
  completed_at = none;
}

abbrev pub over : Instance env
over = record waiting { id = 2; status = "cancelled"; completed_at = some 50 }

abbrev pub pending : WorkflowTask
pending = record {
  id = 1;
  org_id = 2;
  instance_id = 1;
  step_name = "boss";
  assignee_id = pos 7;
  status = "pending";
  comment = "";
  acted_at = none;
}

abbrev pub acted : WorkflowTask
acted = record pending { id = 2; instance_id = 2; status = "rejected"; acted_at = some 40 }

abbrev pub busy : Store env
busy = record started { instances = waiting ∷ over ∷ []; tasks = pending ∷ acted ∷ [] }

-- The boss approves, a stranger tries the old task, and somebody of another organisation cancels.
abbrev pub calls : List (Call env)
calls =
    act 2 9 100 1 7 "fine" approved
    ∷ act 2 9 101 2 7 "again" approved
    ∷ cancel 3 102 1 9 true
    ∷ start 3 9 103 1 9 []
    ∷ []
