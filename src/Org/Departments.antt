-- ===== src/Org/Departments.antt =====
-- Departments: backend/internal/service/department_service.go over
-- backend/internal/repository/department_repository.go.
pub mod Build
pub mod Service
pub mod Order
pub mod Batch
pub mod Trees
pub mod Assembly
mod Examples
