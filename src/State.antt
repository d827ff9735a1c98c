-- ===== src/State.antt =====
-- The package `state`.
pub mod RecoveryStore
pub mod Saga
pub mod Capacity
pub mod EventStore
