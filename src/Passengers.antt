-- ===== src/Passengers.antt =====
-- The package `passengers`.
pub mod Engine
pub mod Coordinator
