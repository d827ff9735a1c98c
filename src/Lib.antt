-- ===== src/Lib.antt =====
-- SkySolver: airline disruption recovery. A recovery proposes a candidate, has it validated,
-- checked for feasibility, approved and released; the deployment then sends commands to the
-- airline's systems and compensates what fails. This library models the services that decide, as
-- state and transitions, and proves what they promise.
--
-- Parts, with the source files from the repository's root:
--   * Core/Workflow: core/durable_recovery_workflow.py, `DurableRecoveryWorkflow`. `selecting`,
--     `validating`, `checking_feasibility`, `approving` and `authorizing` are what
--     `select_candidate`, `record_validation`, `record_joint_feasibility`, `approve` and
--     `authorize_deployment` do between `_load` and `_persist`; `run` is the whole method and
--     `create` is `create`. Records has the data, Guards what a call has checked, Evidence the
--     invariant, Duties the reachable tables and Retries the repeated call.
--   * State/RecoveryStore: state/durable_recovery_store.py, `DurableRecoveryRepository`. The five
--     tables are the record `Database`, and `mutate` is one transaction on it; `existing_receipt`,
--     `get_snapshot` and `replay` have the names of the source. Consistency, Invariant and Replay
--     hold its proofs. The workflow calls it through `persist` and `load`.
--   * Core/Candidates: core/candidate_lifecycle.py and `insert` of state/candidate_repository.py.
--     The workflow takes its `ImmutableCandidate`.
--   * Deployment/CommandState: deployment/command_state.py. `perform` is a method on the aggregate
--     and Registry its registry; Lifecycle and Completion hold the proofs on one deployment,
--     Registry/Records and Registry/Runs those on the registry.
--   * State/Saga: state/reconciliation.py, the move of a resource between two partitions.
--   * Rules/Governance: rules/governance.py, the rule packages. `approving`, `shadowing`,
--     `recording`, `activating` and `restoring` are the checks and writes on one package.
--   * Rules/Engine: rules/engine.py, the legality checks; `check_leg` is the body of the loop of
--     `_check_qualifications`, `fits` the comparison of a sum of hours and `check_continuity` the
--     last check. Hours, Duty, Places and Sequence treat the sums, the duty period, the deadhead
--     places and the order of the legs, Checks the single checks, Legality and Deadheads whole
--     assignments.
--   * Core/Holds: core/resource_holds.py, the holds on aircraft and crews. Exclusion and Conflicts
--     have the invariant and the calls, Expiry what an acquisition gives or names.
--   * Core/Feasibility: core/recovery_coordinator.py, the joint gate; `check_flight` is the body of
--     its loop. Passengers/Coordinator, passengers/recovery_coordinator.py, calls it with the
--     decisions of Passengers/Engine, passengers/engine.py, and the seats of State/Capacity,
--     state/capacity_manager.py.
--   * Deployment/ReleaseGate and Deployment/Authorization: deployment/release_gate.py and
--     deployment/authorization.py.
--   * Integrations/Adapter: integrations/adapters/base.py, the circuit breaker and the boundary to
--     a carrier's system; `settle` is the `try` of `publish`. Integrations/Ingestion:
--     integrations/ingestion.py; `map_and_admit` is `ingest` from the mapper on.
--     Integrations/Health: integrations/health.py.
--   * State/EventStore: state/event_store.py, the log of crew events and its file. View is the
--     materialized view, Reconciler the moves between partitions, Helpers the constructors of
--     events.
--   * Prelude: tests, lists, dictionaries, the two ways to raise, instants. Tests: runs at concrete
--     inputs.
--
-- How code becomes a definition: a method that may raise returns a `Result`, or for a registry an
-- `Exec`, which hands back the state beside the error. Locks and row locks make each call one step,
-- so an interleaving is a sequence of calls. Identifiers, event identifiers and times that the code
-- draws are arguments. Instants are seconds with a flag for the time zone; versions, counts and
-- attempts are natural numbers; scores, which are floats in the code, are integers, and a reset
-- time of a breaker is in whole seconds. No loop needs fuel: every one runs over a list.
--
-- Not modelled: SHA-256, HMAC, the certificate, hold and signature verifiers, the artifact writer,
-- the mapper of a feed, the carrier behind an adapter, isoformat, JSON and the floating-point sums of
-- hours, which are parameters;
-- the SQL driver, HTTP handlers, message queues and cloud wiring; the optimisation and language-
-- model solvers; the front end.
pub mod Core
pub mod Deployment
pub mod Integrations
pub mod Passengers
pub mod Prelude
pub mod Rules
pub mod State
pub mod Tests
