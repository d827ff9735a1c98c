-- ===== src/Deployment.antt =====
-- The package `deployment`.
pub mod CommandState
pub mod ReleaseGate
pub mod Authorization
