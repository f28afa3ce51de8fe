-- ===== src/Data.antt =====
-- The tables that applications own: backend/internal/service/data_service.go over
-- backend/internal/repository/data_repository.go.
pub mod Model
pub mod Names
pub mod Statements
pub mod Quoting
pub mod Bindings
pub mod Scope
pub mod Service
pub mod Ownership
pub mod Examples
