-- ===== src/Core/Workflow/Records.antt =====
-- The records that core/durable_recovery_workflow.py reads and writes: the state of a recovery, what
-- its steps add to it, and the errors of a transition.
use skysolver.Prelude.{
  ℕ, String, Bool, true, false, ◌||◌, Option, none, some, List, Eq, ◌==◌, ◌!=◌, nat_eq, string_eq,
  pair_eq,
}
use skysolver.Prelude.Result.{Result}
use skysolver.Prelude.Clock.{Instant}
use skysolver.Core.Candidates.{CandidateMetrics}
use skysolver.State.RecoveryStore.{StoreError}

pub data RecoveryStatus : Type 0 where
  solving awaiting_review awaiting_validation awaiting_joint_feasibility awaiting_approval approved
        deployment_authorized :
      RecoveryStatus

-- How far a recovery has come.
abbrev pub stage : RecoveryStatus → ℕ
stage solving = 0
stage awaiting_review = 1
stage awaiting_validation = 2
stage awaiting_joint_feasibility = 3
stage awaiting_approval = 4
stage approved = 5
stage deployment_authorized = 6

-- `state["status"] == s`
abbrev pub is : RecoveryStatus → RecoveryStatus → Bool
is s t = stage s == stage t

pub data TransitionError : Type 0 where
  recovery_not_found stale_state invalid_initial_version foreign_candidate stale_candidate
        candidate_expired illegal_candidate invalid_transition independent_validation_failed
        certificate_binding_invalid certificate_assurance_insufficient certificate_signature_invalid
        joint_feasibility_failed resource_hold_invalid approval_role_required segregation_of_duties
        reason_required deployment_prerequisites_missing deployment_role_required
        candidate_version_mismatch type_error :
      TransitionError
  store_error : StoreError → TransitionError

pub record CommandContext : Type 0 where
  pub tenant_id : String
  pub actor_subject : String
  pub actor_role : String
  pub idempotency_key : String
  pub correlation_id : String
  pub causation_id : Option String
  pub expected_version : ℕ

pub record CandidateSummary : Type 0 where
  pub candidate_id : String
  pub candidate_version : ℕ
  pub content_sha256 : String
  pub input_snapshot_id : String
  pub solver_tier : String
  pub solver_version : String
  pub ruleset_version : String
  pub objective_version : String
  pub state_version : ℕ
  pub expires_at : Instant
  pub artifact_version_id : String
  pub is_legal : Bool
  pub metrics : CandidateMetrics

pub record Certificate : Type 0 where
  pub tenant_id : Option String
  pub recovery_id : Option String
  pub candidate_id : Option String
  pub state_version : Option ℕ
  pub ruleset_version : Option String
  pub assurance_level : Option String
  pub signature : Option String
  pub validated_at : Option String

pub record ValidationReport : Type 0 where
  pub valid : Bool
  pub findings : List String
  pub certificate : Option Certificate
  pub rules_execution : Option String

pub record Validation : Type 0 where
  pub certificate : Certificate
  pub rules_execution : Option String
  pub validated_at : Option String

pub record Feasibility : Type 0 where
  pub deployable : Bool
  pub findings : List String

pub record Approval : Type 0 where
  pub actor_subject : String
  pub actor_role : String
  pub reason : String
  pub approved_at : Instant
  pub candidate_id : String
  pub candidate_version : ℕ

pub record Recovery : Type 0 where
  pub id : String
  pub tenant_id : String
  pub disruption_id : String
  pub partition_id : String
  pub objective_version : String
  pub status : RecoveryStatus
  pub proposed_by : String
  pub selected_candidate : Option CandidateSummary
  pub validation : Option Validation
  pub joint_feasibility : Option Feasibility
  pub hold_id : Option String
  pub approval : Option Approval
  pub is_deployment_authorized : Bool
  pub deployment_authorized_by : Option String
  pub deployment_authorized_at : Option Instant
  pub created_at : Instant
  pub state_version : ℕ
  pub updated_at : Option Instant

-- `d.get(k) == v`
abbrev pub holds_value {ℓ} : {A : Type ℓ} ⦃e : Eq A⦄ → Option A → A → Bool
holds_value none v = false
holds_value (some w) v = w == v

abbrev pub missing_id : Option CandidateSummary → String → String → Bool
missing_id none id sha = true
missing_id (some c) id sha = c.candidate_id != id || c.content_sha256 != sha

abbrev pub Checked : Type 0
Checked = Result TransitionError Recovery
