-- ===== src/Mcp/Catalog/Isolation.antt =====
-- Who may call which tools of backend/internal/mcp/tools, beyond the check of the scope.
pub mod Calls
pub mod DataTools
pub mod Departments
pub mod Organisations
pub mod Owners
