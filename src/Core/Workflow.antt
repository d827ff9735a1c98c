-- ===== src/Core/Workflow.antt =====
-- core/durable_recovery_workflow.py: the transitions of a recovery, from the first candidate to the
-- authorized deployment, over the repository of State/RecoveryStore. The certificate and the hold
-- verifier are parameters, as they are in the class; a dictionary that the code reads is a record
-- of what it reads, and an empty certificate is an absent one.
mod Records
pub mod Guards
pub mod Evidence
pub mod Duties
pub mod Retries
pub use Records.*
use skysolver.Prelude.{
  ℕ, zero, suc, ◌+◌, ◌-◌, ◌*◌, ◌≤◌, ◌<◌, String, ◌≡◌, refl, sym, ap, ◌∙◌, subst, ◌≢◌, ◌↔◌, ◌⊎◌, inl,
  inr, Bool, true, false, not, ◌&&◌, ◌||◌, Option, none, some, List, [], ◌∷◌, ◌++◌, map, arith,
  eq_iff, ltb, leb, nat_beq, nat_beq_iff, if◌then◌else◌, Eq, ◌==◌, ◌!=◌, nat_eq, string_eq, pair_eq,
  beq_refl, eq_of_beq, Bool-cases, Option-cases, is_none, is_some, length, is_empty, any, all,
  filter, length-append, contains, filter-append, All, All-append, Pointwise, Pointwise-refl,
  Pointwise-map, find_first, update_first, find_first_holds, Pointwise-update_first,
}
use skysolver.Prelude.Result.{Result, ok, err, ◌>>=◌, ◌>>◌, raise_if, or_raise}
use skysolver.Prelude.Clock.{Instant, at_or_before}
use skysolver.Prelude.Text.{strip}
use Prim.Native.String.{count}
use skysolver.Core.Candidates.{legal, CandidateMetrics, ImmutableCandidate}
use skysolver.State.RecoveryStore.{
  mutate, Database, MutationReceipt, WorkflowMutation, CommandContent, StoreError, get_snapshot,
}

module _ {Item : Type 0} where
  -- `_candidate_summary`
  unfoldable pub candidate_summary : ImmutableCandidate Item → CandidateSummary
  candidate_summary c = record {
    candidate_id = c.candidate_id;
    candidate_version = c.candidate_version;
    content_sha256 = c.content_sha256;
    input_snapshot_id = c.draft.input_snapshot_id;
    solver_tier = c.draft.solver_tier;
    solver_version = c.draft.solver_version;
    ruleset_version = c.draft.ruleset_version;
    objective_version = c.draft.objective_version;
    state_version = c.draft.state_version;
    expires_at = c.draft.expires_at;
    artifact_version_id = c.artifact.version_id;
    is_legal = legal c;
    metrics = c.draft.metrics;
  }

  -- `_assert_selected`
  unfoldable pub assert_selected :
      Recovery → ImmutableCandidate Item → Instant → Result TransitionError (Unit {0})
  assert_selected state c now = do
    raise_if (missing_id state.selected_candidate c.candidate_id c.content_sha256)
        candidate_version_mismatch
    raise_if (at_or_before c.draft.expires_at now) candidate_expired

  -- `select_candidate`, between the load and the write.
  unfoldable pub selecting :
      CommandContext → String → ImmutableCandidate Item → Instant → Recovery → Checked
  unfolding candidate_summary
  selecting ctx id c now state = do
    raise_if (c.draft.tenant_id != ctx.tenant_id || c.draft.recovery_id != id) foreign_candidate
    raise_if (c.draft.state_version != ctx.expected_version) stale_candidate
    raise_if (at_or_before c.draft.expires_at now) candidate_expired
    raise_if (not (legal c)) illegal_candidate
    raise_if (not (is state.status solving || is state.status awaiting_review)) invalid_transition
    ok (record state {
      status = awaiting_validation;
      selected_candidate = some (candidate_summary c);
      validation = none;
      joint_feasibility = none;
      hold_id = none;
      approval = none;
      is_deployment_authorized = false;
    })

  module _ (certificate_verifier : Certificate → ImmutableCandidate Item → Bool)
      (hold_verifier : Option String → ImmutableCandidate Item → Bool) where
    -- The checks of `record_validation` on a certificate.
    unfoldable pub certifying :
        CommandContext
        → String
        → ImmutableCandidate Item
        → ValidationReport
        → Certificate
        → Recovery
        → Checked
    certifying ctx id c report cert state = do
      raise_if
          (not (holds_value cert.tenant_id ctx.tenant_id)
            || (not (holds_value cert.recovery_id id)
                || not (holds_value cert.candidate_id c.candidate_id)))
          certificate_binding_invalid
      raise_if
          (not (holds_value cert.state_version ctx.expected_version)
            || not (holds_value cert.ruleset_version c.draft.ruleset_version))
          certificate_binding_invalid
      raise_if (not (holds_value cert.assurance_level "operator_approved_certified"))
          certificate_assurance_insufficient
      raise_if (not (certificate_verifier cert c)) certificate_signature_invalid
      ok (record state {
        status = awaiting_joint_feasibility;
        validation = some (record {
          certificate = cert;
          rules_execution = report.rules_execution;
          validated_at = cert.validated_at;
        });
      })

    -- `record_validation`
    unfoldable pub validating :
        CommandContext
        → String
        → ImmutableCandidate Item
        → ValidationReport
        → Instant
        → Recovery
        → Checked
    unfolding assert_selected
    validating ctx id c report now state = do
      assert_selected state c now
      raise_if (not (is state.status awaiting_validation)) invalid_transition
      raise_if (not report.valid || not (is_empty report.findings)) independent_validation_failed
      cert ← or_raise report.certificate independent_validation_failed
      certifying ctx id c report cert state

    -- `record_joint_feasibility`
    unfoldable pub checking_feasibility :
        ImmutableCandidate Item → Feasibility → String → Instant → Recovery → Checked
    unfolding assert_selected
    checking_feasibility c feasibility hold now state = do
      assert_selected state c now
      raise_if (not (is state.status awaiting_joint_feasibility)) invalid_transition
      raise_if (not feasibility.deployable || not (is_empty feasibility.findings))
          joint_feasibility_failed
      raise_if (not (hold_verifier (some hold) c)) resource_hold_invalid
      ok (record state {
        status = awaiting_approval;
        joint_feasibility = some feasibility;
        hold_id = some hold;
      })

    -- `approve`
    unfoldable pub approving :
        CommandContext → ImmutableCandidate Item → String → Instant → Recovery → Checked
    unfolding assert_selected
    approving ctx c reason now state = do
      assert_selected state c now
      raise_if (not (is state.status awaiting_approval)) invalid_transition
      raise_if (ctx.actor_role != "duty-manager") approval_role_required
      raise_if (ctx.actor_subject == state.proposed_by) segregation_of_duties
      raise_if (ltb (count (strip reason)) 3) reason_required
      ok (record state {
        status = approved;
        approval = some (record {
          actor_subject = ctx.actor_subject;
          actor_role = ctx.actor_role;
          reason = strip reason;
          approved_at = now;
          candidate_id = c.candidate_id;
          candidate_version = c.candidate_version;
        });
      })

    -- `authorize_deployment`
    unfoldable pub authorizing :
        CommandContext → ImmutableCandidate Item → Instant → Recovery → Checked
    unfolding assert_selected
    authorizing ctx c now state = do
      assert_selected state c now
      raise_if
          (not (is state.status approved)
            || (is_none state.validation || is_none state.joint_feasibility))
          deployment_prerequisites_missing
      raise_if (ctx.actor_role != "deployment-controller") deployment_role_required
      approval ← or_raise state.approval type_error
      raise_if
          (ctx.actor_subject == state.proposed_by || ctx.actor_subject == approval.actor_subject)
          segregation_of_duties
      raise_if (not (hold_verifier state.hold_id c)) resource_hold_invalid
      ok (record state {
        status = deployment_authorized;
        is_deployment_authorized = true;
        deployment_authorized_by = some ctx.actor_subject;
        deployment_authorized_at = some now;
      })

-- The calls on an existing recovery.
pub data Transition (Item : Type 0) : Type 0 where
  select : ImmutableCandidate Item → Transition Item
  record_validation : ImmutableCandidate Item → ValidationReport → Transition Item
  record_joint_feasibility : ImmutableCandidate Item → Feasibility → String → Transition Item
  approve : ImmutableCandidate Item → String → Transition Item
  authorize_deployment : ImmutableCandidate Item → Transition Item

-- The command type, the event type and the action status that each call persists.
abbrev pub labels : {Item : Type 0} → Transition Item → String × (String × String)
labels (select _) = ("select_candidate", ("CandidateSelected", "selected"))
labels (record_validation _ _) = ("record_validation", ("CandidateValidated", "validated"))
labels (record_joint_feasibility _ _ _) =
    ("record_feasibility", ("JointFeasibilityPassed", "feasible"))
labels (approve _ _) = ("approve_recovery", ("RecoveryApproved", "approved"))
labels (authorize_deployment _) = ("authorize_deployment", ("DeploymentAuthorized", "authorized"))

abbrev pub Outcome : Type 0
Outcome = Result TransitionError (MutationReceipt Recovery) × Database Recovery

abbrev pub from_store : Result StoreError (MutationReceipt Recovery) × Database Recovery → Outcome
from_store (ok r, db) = (ok r, db)
from_store (err e, db) = (err (store_error e), db)

-- The mutation that `_persist` submits.
unfoldable pub mutation :
    CommandContext
    → String
    → String × (String × String)
    → Recovery
    → Instant
    → WorkflowMutation Recovery
mutation ctx id (command_type, (event_type, status)) state now =
    let snapshot : Recovery = record state {
      state_version = ctx.expected_version + 1;
      updated_at = some now;
    } in
    record {
      tenant_id = ctx.tenant_id;
      recovery_id = id;
      expected_version = ctx.expected_version;
      idempotency_key = ctx.idempotency_key;
      command_type = command_type;
      event_type = event_type;
      actor_subject = ctx.actor_subject;
      correlation_id = ctx.correlation_id;
      causation_id = ctx.causation_id;
      partition_id = state.partition_id;
      request = ("actor_role", ctx.actor_role) ∷ [];
      snapshot = snapshot;
      response = record { action_status = status; recovery = snapshot; state_version = none };
      occurred_at = none;
    }

-- `_load`
unfoldable pub load : CommandContext → String → Database Recovery → Checked
unfolding get_snapshot
load ctx id db = do
  stored ← or_raise (get_snapshot ctx.tenant_id id db) recovery_not_found
  raise_if (stored.state_version != ctx.expected_version) stale_state
  ok stored.snapshot

module _ (digest : CommandContent → String) where
  -- `_persist`
  unfoldable pub persist :
      CommandContext
      → String
      → String × (String × String)
      → Recovery
      → String
      → Instant
      → Database Recovery
      → Outcome
  persist ctx id names state event now db =
      from_store (mutate digest (mutation ctx id names state now) event db)

  unfoldable pub new_recovery :
      CommandContext → String → String → String → String → Instant → Recovery
  new_recovery ctx id disruption partition objective now = record {
    id = id;
    tenant_id = ctx.tenant_id;
    disruption_id = disruption;
    partition_id = partition;
    objective_version = objective;
    status = solving;
    proposed_by = ctx.actor_subject;
    selected_candidate = none;
    validation = none;
    joint_feasibility = none;
    hold_id = none;
    approval = none;
    is_deployment_authorized = false;
    deployment_authorized_by = none;
    deployment_authorized_at = none;
    created_at = now;
    state_version = 0;
    updated_at = none;
  }

  -- `create`, with the fresh recovery and event identifiers as arguments.
  unfoldable pub create :
      CommandContext
      → String
      → String
      → String
      → String
      → String
      → Instant
      → Database Recovery
      → Outcome
  unfolding new_recovery
  create ctx id disruption partition objective event now db =
      if ctx.expected_version != 0
      then (err invalid_initial_version, db)
      else persist ctx id ("create_recovery", ("RecoveryCreated", "accepted"))
          (new_recovery ctx id disruption partition objective now) event now db

  module _ {Item : Type 0} (certificate_verifier : Certificate → ImmutableCandidate Item → Bool)
      (hold_verifier : Option String → ImmutableCandidate Item → Bool) where
    -- What a call makes of the stored recovery.
    unfoldable pub check : Transition Item → CommandContext → String → Instant → Recovery → Checked
    unfolding selecting validating checking_feasibility approving authorizing
    check (select c) ctx id now = selecting ctx id c now
    check (record_validation c report) ctx id now =
        validating certificate_verifier hold_verifier ctx id c report now
    check (record_joint_feasibility c f hold) ctx id now =
        checking_feasibility certificate_verifier hold_verifier c f hold now
    check (approve c reason) ctx id now =
        approving certificate_verifier hold_verifier ctx c reason now
    check (authorize_deployment c) ctx id now =
        authorizing certificate_verifier hold_verifier ctx c now

    -- Each method: load, check, persist.
    unfoldable pub run :
        Transition Item → CommandContext → String → String → Instant → Database Recovery → Outcome
    run t ctx id event now db = elim (load ctx id db >>= check t ctx id now) [
      | ok state ↦ persist ctx id (labels t) state event now db
      | err e ↦ (err e, db)
    ]
