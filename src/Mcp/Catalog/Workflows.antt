-- ===== src/Mcp/Catalog/Workflows.antt =====
-- backend/internal/mcp/tools/workflow_tools.go. The engine's fuel and the time of a call are
-- parameters.
use suzuran.Prelude.{ℕ, Bool, false, Option, none, some, String, List, [], ◌∷◌, str_eq}
use suzuran.Prelude.Error.{definition_not_found, instance_not_found}
use suzuran.Prelude.Int.{pos}
use suzuran.Prelude.Exec.{Exec, pure, lift, require, ◌>>=◌, ◌>>◌}
use suzuran.Prelude.Text.{Text}
use suzuran.Workflow.Model.{Value, null, bool, number, text, compound, Variables, WorkflowTask}
use suzuran.Workflow.Store.{
  Env, Store, Definition, Instance, get_definition, list_definitions, list_instances,
  list_tasks_by_assignee,
}
use suzuran.Workflow.Service.{
  Decision, approved, rejected, define_workflow, archive_definition, start_instance,
  get_instance_history, cancel_instance, approve_task, reject_task,
}
use suzuran.Mcp.Request.{
  Numbers, Json, Members, empty, entry, Request, get_int_arg, get_string_arg,
  get_optional_string_arg, get_object, member_as, as_object, find_member, get_user_id, user_or_zero,
}

-- What becomes of the values of a call: float64 as `int`, the bytes of a text, `%v`, and the column
-- of a definition.
pub record Decoding (e : Env) : Type 0 where
  pub to_int : e.float.Carrier → ℕ
  pub bytes : String → Text
  pub show : Json e.float.Carrier → Text
  pub json_of : Json e.float.Carrier → e.Json

pub data WorkflowReply (e : Env) : Type 0 where
  definition : Definition e → WorkflowReply e
  definitions : List (Definition e) → WorkflowReply e
  instance_of : Instance e → WorkflowReply e
  history : Instance e → List WorkflowTask → WorkflowReply e
  instances : List (Instance e) → WorkflowReply e
  tasks : List WorkflowTask → WorkflowReply e
  done : WorkflowReply e

abbrev is_provider : Option String → Bool
is_provider none = false
is_provider (some role) = str_eq role "provider"

module _ (e : Env) (c : Decoding e) (fuel now : ℕ) where
  abbrev pub numbers : Numbers
  numbers = record { Number = e.float.Carrier; to_int = c.to_int }

  abbrev pub value_of : Json e.float.Carrier → Value e.float.Carrier
  value_of Json.null = null
  value_of (Json.bool b) = bool b
  value_of (Json.number x) = number x
  value_of (Json.text s) = text (c.bytes s)
  value_of (Json.array l) = compound (c.show (Json.array l))
  value_of (Json.object m) = compound (c.show (Json.object m))

  abbrev pub variables_of : Members e.float.Carrier → Variables e.float.Carrier
  variables_of empty = []
  variables_of (entry k v t) = (c.bytes k, value_of v) ∷ variables_of t

  -- a map that is not there is nil
  abbrev variables_or_none : Option (Members e.float.Carrier) → Variables e.float.Carrier
  variables_or_none none = []
  variables_or_none (some m) = variables_of m

  abbrev Handler : Type 0
  Handler = Request numbers → Exec (Store e) (WorkflowReply e)

  unfoldable pub handle_define : Handler
  handle_define r = do
    org ← lift (get_int_arg numbers r.args "orgId")
    name ← lift (get_string_arg numbers r.args "name")
    json ← lift (get_object numbers r.args "definition")
    def ←
        define_workflow e org (user_or_zero r.caller) name
          (get_optional_string_arg numbers r.args "description" "")
          (some (c.json_of (Json.object json)))
    pure (definition def)

  unfoldable pub handle_get_definition : Handler
  handle_get_definition r = do
    org ← lift (get_int_arg numbers r.args "orgId")
    id ← lift (get_int_arg numbers r.args "definitionId")
    found ← get_definition e org id
    def ← require definition_not_found found
    pure (definition def)

  unfoldable pub handle_list_definitions : Handler
  handle_list_definitions r = do
    org ← lift (get_int_arg numbers r.args "orgId")
    found ← list_definitions e org
    pure (definitions found)

  unfoldable pub handle_archive : Handler
  handle_archive r = do
    org ← lift (get_int_arg numbers r.args "orgId")
    id ← lift (get_int_arg numbers r.args "definitionId")
    archive_definition e org id
    pure done

  unfoldable pub handle_start : Handler
  handle_start r = do
    org ← lift (get_int_arg numbers r.args "orgId")
    id ← lift (get_int_arg numbers r.args "definitionId")
    inst ←
        start_instance e fuel now org id (user_or_zero r.caller)
          (variables_or_none (member_as as_object (find_member "variables" r.args)))
    pure (instance_of inst)

  abbrev history_of : Instance e × List WorkflowTask → WorkflowReply e
  history_of (inst, found) = history inst found

  unfoldable pub handle_get_instance : Handler
  handle_get_instance r = do
    org ← lift (get_int_arg numbers r.args "orgId")
    id ← lift (get_int_arg numbers r.args "instanceId")
    found ← get_instance_history e org id
    both ← require instance_not_found found
    pure (history_of both)

  unfoldable pub handle_list_instances : Handler
  handle_list_instances r = do
    org ← lift (get_int_arg numbers r.args "orgId")
    found ← list_instances e org (get_optional_string_arg numbers r.args "status" "")
    pure (instances found)

  unfoldable pub handle_cancel : Handler
  handle_cancel r = do
    org ← lift (get_int_arg numbers r.args "orgId")
    id ← lift (get_int_arg numbers r.args "instanceId")
    cancel_instance e now org id (user_or_zero r.caller) (is_provider r.caller.auth.role)
    pure done

  unfoldable pub handle_list_tasks : Handler
  handle_list_tasks r = do
    user ← lift (get_user_id r.caller)
    found ← list_tasks_by_assignee e (pos user) (get_optional_string_arg numbers r.args "status" "")
    pure (tasks found)

  -- ApproveTask or RejectTask
  abbrev decide : Decision → ℕ → ℕ → ℕ → String → Exec (Store e) (Instance e)
  decide approved org id user comment = approve_task e fuel now org id user comment
  decide rejected org id user comment = reject_task e fuel now org id user comment

  unfoldable pub act_on : Decision → Handler
  act_on decision r = do
    org ← lift (get_int_arg numbers r.args "orgId")
    id ← lift (get_int_arg numbers r.args "taskId")
    inst ←
        decide decision org id (user_or_zero r.caller)
          (get_optional_string_arg numbers r.args "comment" "")
    pure (instance_of inst)
