-- ===== src/Mcp/Catalog/WorkflowTools.antt =====
-- The tools that RegisterTools of backend/internal/mcp/tools/workflow_tools.go registers.
use suzuran.Prelude.{ℕ, List, [], ◌∷◌}
use suzuran.Workflow.Store.{Env, Store}
use suzuran.Workflow.Service.{approved, rejected}
use suzuran.Mcp.Request.{Tool, answering}
use suzuran.Mcp.Catalog.Workflows.{
  Decoding, WorkflowReply, numbers, act_on, handle_archive, handle_cancel, handle_define,
  handle_get_definition, handle_get_instance, handle_list_definitions, handle_list_instances,
  handle_list_tasks, handle_start,
}

module _ (e : Env) (c : Decoding e) (fuel now : ℕ) where
  abbrev pub WorkflowTool : Type 0
  WorkflowTool = Tool (numbers e c fuel now) (Store e) (WorkflowReply e)

  abbrev pub workflow_define : WorkflowTool
  workflow_define = record {
    name = "workflow.define";
    required_scope = "workflow.write";
    properties =
        ("orgId", "integer")
        ∷ ("name", "string")
        ∷ ("description", "string")
        ∷ ("definition", "object")
        ∷ [];
    required = "orgId" ∷ "name" ∷ "definition" ∷ [];
    handler = λ r. answering (handle_define e c fuel now r);
  }

  abbrev pub workflow_get_definition : WorkflowTool
  workflow_get_definition = record {
    name = "workflow.get_definition";
    required_scope = "workflow.read";
    properties = ("orgId", "integer") ∷ ("definitionId", "integer") ∷ [];
    required = "orgId" ∷ "definitionId" ∷ [];
    handler = λ r. answering (handle_get_definition e c fuel now r);
  }

  abbrev pub workflow_list_definitions : WorkflowTool
  workflow_list_definitions = record {
    name = "workflow.list_definitions";
    required_scope = "workflow.read";
    properties = ("orgId", "integer") ∷ [];
    required = "orgId" ∷ [];
    handler = λ r. answering (handle_list_definitions e c fuel now r);
  }

  abbrev pub workflow_archive : WorkflowTool
  workflow_archive = record {
    name = "workflow.archive";
    required_scope = "workflow.write";
    properties = ("orgId", "integer") ∷ ("definitionId", "integer") ∷ [];
    required = "orgId" ∷ "definitionId" ∷ [];
    handler = λ r. answering (handle_archive e c fuel now r);
  }

  abbrev pub workflow_start : WorkflowTool
  workflow_start = record {
    name = "workflow.start";
    required_scope = "workflow.write";
    properties = ("orgId", "integer") ∷ ("definitionId", "integer") ∷ ("variables", "object") ∷ [];
    required = "orgId" ∷ "definitionId" ∷ [];
    handler = λ r. answering (handle_start e c fuel now r);
  }

  abbrev pub workflow_get_instance : WorkflowTool
  workflow_get_instance = record {
    name = "workflow.get_instance";
    required_scope = "workflow.read";
    properties = ("orgId", "integer") ∷ ("instanceId", "integer") ∷ [];
    required = "orgId" ∷ "instanceId" ∷ [];
    handler = λ r. answering (handle_get_instance e c fuel now r);
  }

  abbrev pub workflow_list_instances : WorkflowTool
  workflow_list_instances = record {
    name = "workflow.list_instances";
    required_scope = "workflow.read";
    properties = ("orgId", "integer") ∷ ("status", "string") ∷ [];
    required = "orgId" ∷ [];
    handler = λ r. answering (handle_list_instances e c fuel now r);
  }

  abbrev pub workflow_cancel : WorkflowTool
  workflow_cancel = record {
    name = "workflow.cancel";
    required_scope = "workflow.write";
    properties = ("orgId", "integer") ∷ ("instanceId", "integer") ∷ [];
    required = "orgId" ∷ "instanceId" ∷ [];
    handler = λ r. answering (handle_cancel e c fuel now r);
  }

  abbrev pub workflow_list_tasks : WorkflowTool
  workflow_list_tasks = record {
    name = "workflow.list_tasks";
    required_scope = "workflow.read";
    properties = ("status", "string") ∷ [];
    required = [];
    handler = λ r. answering (handle_list_tasks e c fuel now r);
  }

  abbrev pub workflow_approve : WorkflowTool
  workflow_approve = record {
    name = "workflow.approve";
    required_scope = "workflow.write";
    properties = ("orgId", "integer") ∷ ("taskId", "integer") ∷ ("comment", "string") ∷ [];
    required = "orgId" ∷ "taskId" ∷ [];
    handler = λ r. answering (act_on e c fuel now approved r);
  }

  abbrev pub workflow_reject : WorkflowTool
  workflow_reject = record {
    name = "workflow.reject";
    required_scope = "workflow.write";
    properties = ("orgId", "integer") ∷ ("taskId", "integer") ∷ ("comment", "string") ∷ [];
    required = "orgId" ∷ "taskId" ∷ [];
    handler = λ r. answering (act_on e c fuel now rejected r);
  }

  abbrev pub workflow_tools : List WorkflowTool
  workflow_tools =
      workflow_define ∷ workflow_get_definition ∷ workflow_list_definitions ∷ workflow_archive
      ∷ workflow_start ∷ workflow_get_instance ∷ workflow_list_instances ∷ workflow_cancel
      ∷ workflow_list_tasks ∷ workflow_approve ∷ workflow_reject ∷ []
