-- ===== src/App/Runtime.antt =====
-- backend/internal/runtime: the quotas, the manager of containers and its sandboxes.
pub mod Quota
pub mod Extract
pub mod Manager
pub mod Confined
pub mod Untouched
pub mod Steps
pub mod Lifecycle
