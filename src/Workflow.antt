-- ===== src/Workflow.antt =====
-- The workflow engine: backend/internal/service/workflow_service.go, workflow_validate.go and
-- workflow_evaluator.go, over backend/internal/model/workflow.go and
-- backend/internal/repository/workflow_repository.go.
pub mod Model
pub mod Validate
pub mod Evaluator
pub mod Store
pub mod Service
pub mod History
pub mod Samples
mod Examples
mod Traps
