-- ===== src/Tests.antt =====
-- Runs of the models at concrete inputs.
mod Deployment
mod Recovery
mod Candidates
mod Saga
mod Rules
mod Holds
mod Adapter
mod Ingestion
mod Feasibility
mod Gates
mod Events
mod Moves
