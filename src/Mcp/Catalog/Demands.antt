-- ===== src/Mcp/Catalog/Demands.antt =====
-- The arguments that the schemas of backend/internal/mcp/tools require.
pub mod Rows
pub mod Services
pub mod Apps
