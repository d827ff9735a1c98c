-- ===== src/Core.antt =====
-- The package `core`.
pub mod Candidates
pub mod Workflow
pub mod Holds
pub mod Feasibility
