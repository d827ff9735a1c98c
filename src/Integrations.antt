-- ===== src/Integrations.antt =====
-- integrations/: the boundary to the airline's systems.
pub mod Adapter
pub mod Ingestion
pub mod Health
