-- ===== src/App.antt =====
-- Applications: their distribution to organisations, their import and their containers.
pub mod Model
pub mod Distribution
pub mod Package
pub mod Store
pub mod Runtime
pub mod Service
pub mod Samples
mod Examples
mod Trials
