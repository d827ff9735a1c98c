-- ===== src/Tests/Recovery.antt =====
-- A recovery from its creation to the authorized deployment, by three people
-- (core/durable_recovery_workflow.py, state/durable_recovery_store.py).
use skysolver.Prelude.{
  ℕ, String, ◌≡◌, refl, Bool, true, false, Option, none, some, [], ◌∷◌, nat_eq, string_eq, pair_eq,
}
use skysolver.Prelude.Int.{pos}
use skysolver.Prelude.Clock.{Instant}
use skysolver.Core.Workflow.{
  TransitionError, stale_state, create, deployment_authorized, assert_selected, authorizing,
  approving, checking_feasibility, certifying, validating, selecting, check, mutation, persist,
  Outcome, new_recovery, select, record_joint_feasibility, load, approve, authorize_deployment,
  record_validation, Recovery, holds_value, run, Certificate, ValidationReport, Transition,
  CommandContext,
}
use skysolver.State.RecoveryStore.{with_version}
use skysolver.State.RecoveryStore.{
  validate, MutationReceipt, WorkflowMutation, event_row, upsert, complete_command, bump_stream,
  open_stream, existing_receipt, commit_tables, commit_new, mutate, get_snapshot, CommandContent,
  Database, SnapshotRow,
}
use skysolver.Core.Candidates.{legal, ImmutableCandidate}
use skysolver.Core.Workflow.Duties.{empty, created, ran, Reached-IsSound, Reached, no_rows}
use skysolver.Prelude.Text.{strip}
use skysolver.Prelude.Dict.{insert, lookup}
use skysolver.Prelude.Result.{Result, ok, err}
use skysolver.State.RecoveryStore.Replay.{
  replay-eq-get_snapshot, row_state, mutate_again, keep_snapshot, replay,
}
use skysolver.Core.Workflow.Evidence.{IsSound}
use skysolver.State.RecoveryStore.Consistency.{IsConsistent, latest}
use skysolver.Core.Workflow.Retries.{run_again, run-IsWritten, IsWritten}
use skysolver.State.RecoveryStore.Invariant.{mutate-IsConsistent}

abbrev digest : CommandContent → String
digest c = c.command_type

abbrev Artifact : Type 0
Artifact = ImmutableCandidate (Unit {0})

abbrev candidate : Artifact
candidate = record {
  candidate_id = "CAN-1";
  candidate_version = 1;
  content_sha256 = "abc";
  artifact = record {
    bucket = "artifacts";
    key = "CAN-1";
    version_id = "1";
    content_sha256 = "abc";
    kms_key_id = "kms";
    retained_until = "2033-01-01";
    artifact_type = "candidate";
  };
  draft = record {
    tenant_id = "airline";
    recovery_id = "REC-1";
    input_snapshot_id = "SNAP-1";
    solver_tier = "tier1";
    solver_version = "1";
    ruleset_version = "2024.1";
    objective_version = "obj-1";
    state_version = 1;
    assignments = tt ∷ [];
    movement_segments = [];
    rejected_alternatives = [];
    residual_cases = [];
    metrics = record {
      legal_assignments = 1;
      unresolved_cases = 0;
      recovered_flights = 1;
      total_delay_minutes = 20;
      passenger_misconnections = 0;
      operational_cost_minor = 100;
      residual_risk_score = pos 0;
      objective_score = pos 5;
    };
    legality_certificate = some (record { valid = true; findings = [] });
    expires_at = record { seconds = 1000; aware = true };
  };
  created_at = record { seconds = 10; aware = true };
}

abbrev certificate : Certificate
certificate = record {
  tenant_id = some "airline";
  recovery_id = some "REC-1";
  candidate_id = some "CAN-1";
  state_version = some 2;
  ruleset_version = some "2024.1";
  assurance_level = some "operator_approved_certified";
  signature = some "good";
  validated_at = some "t2";
}

abbrev report : ValidationReport
report = record {
  valid = true;
  findings = [];
  certificate = some certificate;
  rules_execution = none;
}

abbrev verify_certificate : Certificate → Artifact → Bool
verify_certificate c a = holds_value c.signature "good"

abbrev verify_hold : Option String → Artifact → Bool
verify_hold hold a = holds_value hold "HLD-1"

abbrev at : ℕ → Instant
at n = record { seconds = n; aware = true }

abbrev context : String → String → String → ℕ → CommandContext
context actor role key version = record {
  tenant_id = "airline";
  actor_subject = actor;
  actor_role = role;
  idempotency_key = key;
  correlation_id = "COR-1";
  causation_id = none;
  expected_version = version;
}

abbrev step : Transition (Unit {0}) → CommandContext → String → Database Recovery → Outcome
step t ctx event db = run digest verify_certificate verify_hold t ctx "REC-1" event (at 20) db

abbrev created_db : Database Recovery
created_db =
    (create digest (context "planner" "planner" "create-0001" 0) "REC-1" "DIS-1" "P1" "obj-1" "EV-1"
      (at 10) no_rows).1

abbrev selecting_call : CommandContext
selecting_call = context "planner" "planner" "select-0001" 1

abbrev selected_db : Database Recovery
selected_db = (step (select candidate) selecting_call "EV-2" created_db).1

abbrev validated_db : Database Recovery
validated_db =
    (step (record_validation candidate report) (context "rules" "rules" "valid-0001" 2) "EV-3"
      selected_db).1

abbrev feasible_db : Database Recovery
feasible_db =
    (step (record_joint_feasibility candidate (record { deployable = true; findings = [] }) "HLD-1")
      (context "rules" "rules" "feasi-0001" 3) "EV-4" validated_db).1

abbrev approved_db : Database Recovery
approved_db =
    (step (approve candidate "  agreed ") (context "manager" "duty-manager" "appro-0001" 4) "EV-5"
      feasible_db).1

abbrev authorized_db : Database Recovery
authorized_db =
    (step (authorize_deployment candidate)
      (context "controller" "deployment-controller" "autho-0001" 5) "EV-6" approved_db).1

abbrev row_or : SnapshotRow Recovery → Option (SnapshotRow Recovery) → SnapshotRow Recovery
row_or d none = d
row_or d (some r) = r

abbrev no_row : SnapshotRow Recovery
no_row = record {
  state_version = 0;
  snapshot =
      new_recovery digest (context "planner" "planner" "create-0001" 0) "REC-1" "DIS-1" "P1" "obj-1"
        (at 10);
  last_event_id = "";
}

abbrev final_row : SnapshotRow Recovery
final_row = row_or no_row (get_snapshot "airline" "REC-1" authorized_db)

final_status : (final_row.snapshot.status ≡ deployment_authorized) × (final_row.state_version ≡ 6)
unfolding run create load get_snapshot persist mutation check selecting validating certifying
    checking_feasibility approving strip authorizing assert_selected mutate commit_new commit_tables
    validate existing_receipt open_stream bump_stream complete_command upsert event_row lookup
    insert legal new_recovery
final_status = (refl, refl)

authorized_steps : Reached verify_certificate verify_hold digest authorized_db
authorized_steps = ran (authorize_deployment candidate) _ "REC-1" "EV-6" (at 20) (
    ran (approve candidate "  agreed ") _ "REC-1" "EV-5" (at 20) (
      ran (record_joint_feasibility candidate (record { deployable = true; findings = [] }) "HLD-1")
        _ "REC-1" "EV-4" (at 20)
        (ran (record_validation candidate report) _ "REC-1" "EV-3" (at 20) (
          ran (select candidate) _ "REC-1" "EV-2" (at 20)
            (created _ "REC-1" "DIS-1" "P1" "obj-1" "EV-1" (at 10) empty)))))

Reached-IsSound_example : IsSound verify_certificate verify_hold final_row.snapshot
unfolding run create load get_snapshot persist mutation check selecting validating certifying
    checking_feasibility approving strip authorizing assert_selected mutate commit_new commit_tables
    validate existing_receipt open_stream bump_stream complete_command upsert event_row lookup
    insert legal new_recovery
Reached-IsSound_example =
    Reached-IsSound verify_certificate verify_hold digest "airline" "REC-1" final_row
      authorized_steps refl

-- The mutation of the creation, and its repetition under the same key.
abbrev creation : WorkflowMutation Recovery
creation =
    mutation (context "planner" "planner" "create-0001" 0) "REC-1"
      ("create_recovery", ("RecoveryCreated", "accepted")) no_row.snapshot (at 10)

abbrev creation_receipt : MutationReceipt Recovery
creation_receipt = record {
  event_id = "EV-1";
  state_version = 1;
  response = with_version 1 creation.response;
  replayed = false;
}

no_rows-IsConsistent : IsConsistent no_rows
unfolding lookup latest
no_rows-IsConsistent = record {
  counted = λ key. refl;
  numbered = λ key. tt;
  projected = λ key. refl;
  outbox_complete = refl;
  finished = tt;
}

mutate-IsConsistent_example : IsConsistent (mutate digest creation "EV-1" no_rows).1
mutate-IsConsistent_example =
    mutate-IsConsistent digest creation "EV-1" no_rows no_rows-IsConsistent

mutate_again_example :
    mutate digest creation "EV-9" (mutate digest creation "EV-1" no_rows).1
    ≡ (ok (record creation_receipt { replayed = true }), (mutate digest creation "EV-1" no_rows).1)
unfolding mutate validate mutation commit_new commit_tables open_stream bump_stream complete_command
    lookup insert upsert
mutate_again_example =
    mutate_again digest creation creation "EV-1" "EV-9" no_rows creation_receipt refl refl refl

replay-eq-get_snapshot_example :
    replay no_row.snapshot keep_snapshot none "airline" "REC-1"
      (mutate digest creation "EV-1" no_rows).1
    ≡ row_state no_row.snapshot
        (get_snapshot "airline" "REC-1" (mutate digest creation "EV-1" no_rows).1)
replay-eq-get_snapshot_example =
    replay-eq-get_snapshot no_row.snapshot "airline" "REC-1"
      (mutate digest creation "EV-1" no_rows).1 mutate-IsConsistent_example

abbrev receipt_or :
    MutationReceipt Recovery
    → Result TransitionError (MutationReceipt Recovery)
    → MutationReceipt Recovery
receipt_or d (ok r) = r
receipt_or d (err _) = d

abbrev selection_receipt : MutationReceipt Recovery
selection_receipt =
    receipt_or creation_receipt (step (select candidate) selecting_call "EV-2" created_db).0

run-IsWritten_example :
    IsWritten verify_certificate verify_hold digest
      (select candidate)
      selecting_call
      "REC-1"
      "EV-2"
      (at 20)
      created_db
      selected_db
unfolding run create load get_snapshot persist mutation check selecting mutate commit_new
    commit_tables validate existing_receipt open_stream bump_stream complete_command upsert
    event_row lookup insert legal new_recovery
run-IsWritten_example =
    run-IsWritten verify_certificate verify_hold digest (select candidate) selecting_call "REC-1"
      "EV-2" (at 20) created_db selection_receipt refl refl

run_again_example :
    step (select candidate) selecting_call "EV-9" selected_db ≡ (err stale_state, selected_db)
unfolding run create load get_snapshot persist mutation check selecting mutate commit_new
    commit_tables validate existing_receipt open_stream bump_stream complete_command upsert
    event_row lookup insert legal new_recovery
run_again_example =
    run_again verify_certificate verify_hold digest (select candidate) (select candidate)
      selecting_call "REC-1" "EV-2" "EV-9" (at 20) (at 20) created_db selection_receipt refl refl
