-- ===== src/Mcp/Catalog/ReadOnly.antt =====
-- The tools of backend/internal/mcp/tools whose scope is one for reading.
pub mod Rows
pub mod Services
pub mod Apps
