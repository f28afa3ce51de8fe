-- ===== src/Mcp.antt =====
-- The MCP server: the gate before its tools (backend/internal/mcp/auth.go, ratelimit.go and helpers.go,
-- and the same checks of the HTTP routes in backend/internal/middleware), and the tools themselves
-- (backend/internal/mcp/tools).
pub mod Access
pub mod RateLimit
pub mod Tools
pub mod Request
pub mod Call
pub mod Promises
pub mod Catalog
mod Examples
mod Trials
