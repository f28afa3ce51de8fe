-- ===== src/Org.antt =====
-- Organisations, their members and departments.
pub mod Model
pub mod Tables
pub mod Directory
pub mod Departments
pub mod Members
mod Examples
