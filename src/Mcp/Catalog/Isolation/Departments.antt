-- ===== src/Mcp/Catalog/Isolation/Departments.antt =====
-- The tools of backend/internal/mcp/tools/dept_tools.go that take a department's identifier.
use suzuran.Prelude.Error.{Error}
use suzuran.Prelude.Result.{Result}
use suzuran.Gorm.{Gorm}
use suzuran.Mcp.Request.{Request}
