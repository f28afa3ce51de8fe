-- ===== src/Mcp/Catalog.antt =====
-- The MCP tools of backend/internal/mcp/tools: what RegisterTools registers, and the handlers.
pub mod Depts
pub mod Orgs
pub mod Users
pub mod Workflows
pub mod WorkflowTools
pub mod Apps
pub mod AppTools
pub mod Columns
pub mod Tables
pub mod TableTools
pub mod Audits
pub mod Files
pub mod ReadOnly
pub mod Demands
pub mod Isolation
pub mod Server
