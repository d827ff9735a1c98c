-- ===== src/State/Saga.antt =====
-- state/reconciliation.py: the saga that moves a resource between two partitions, and its
-- registry. The lock makes each method one step. A method raises before it writes, so an error
-- leaves the registry as it was. Identifiers and times are arguments.
pub mod Progress
pub mod Registry
use skysolver.Prelude.{
  ℕ, zero, suc, ◌+◌, ◌-◌, ◌*◌, ◌≤◌, ◌<◌, String, ◌≡◌, refl, sym, ap, ◌∙◌, subst, ◌≢◌, ◌↔◌, ◌⊎◌, inl,
  inr, Bool, true, false, not, ◌&&◌, ◌||◌, Option, none, some, List, [], ◌∷◌, ◌++◌, map, arith,
  eq_iff, ltb, leb, nat_beq, nat_beq_iff, if◌then◌else◌, Eq, ◌==◌, ◌!=◌, nat_eq, string_eq, pair_eq,
  beq_refl, eq_of_beq, Bool-cases, Option-cases, is_none, is_some, length, is_empty, any, all,
  filter, length-append, contains, filter-append, All, All-append, Pointwise, Pointwise-refl,
  Pointwise-map, find_first, update_first, find_first_holds, Pointwise-update_first,
}
use skysolver.Prelude.Result.{raise_if, ◌>>=◌, ◌>>◌}
use skysolver.Prelude.Result.{err, Result, ok}

pub data SagaError : Type 0 where
  same_partition saga_not_found stale_state invalid_transition commit_evidence_missing
        unknown_partition compensation_incomplete key_error :
      SagaError

pub data SagaStatus : Type 0 where
  requested source_reserved destination_reserved validated committing partial complete compensating
        compensated :
      SagaStatus

abbrev pub code : SagaStatus → ℕ
code requested = 0
code source_reserved = 1
code destination_reserved = 2
code validated = 3
code committing = 4
code partial = 5
code complete = 6
code compensating = 7
code compensated = 8

-- `saga.status is s`
abbrev pub is : SagaStatus → SagaStatus → Bool
is s t = code s == code t

pub record PartitionMoveSaga : Type 0 where
  pub saga_id : String
  pub tenant_id : String
  pub recovery_id : String
  pub resource_type : String
  pub resource_id : String
  pub source_partition : String
  pub destination_partition : String
  pub movement_reference : String
  pub correlation_id : String
  pub status : SagaStatus
  pub state_version : ℕ
  pub source_reservation : Option String
  pub destination_reservation : Option String
  pub legality_certificate_id : Option String
  pub movement_validation_id : Option String
  pub source_ack : Option Bool
  pub destination_ack : Option Bool
  pub findings : List String
  pub created_at : String
  pub updated_at : String

abbrev pub Step : Type 0
Step = Result SagaError PartitionMoveSaga

-- `_check`
unfoldable pub check_saga : PartitionMoveSaga → ℕ → SagaStatus → Result SagaError (Unit {0})
check_saga saga expected_version expected_status = do
  raise_if (saga.state_version != expected_version) stale_state
  raise_if (not (is saga.status expected_status)) invalid_transition

-- `_advance`
unfoldable pub advance : SagaStatus → String → PartitionMoveSaga → PartitionMoveSaga
advance status now saga = record saga {
  status = status;
  state_version = saga.state_version + 1;
  updated_at = now;
}

unfoldable pub reserve_source : ℕ → String → String → PartitionMoveSaga → Step
unfolding check_saga advance
reserve_source v reservation now saga = do
  check_saga saga v requested
  ok (advance source_reserved now (record saga { source_reservation = some reservation }))

unfoldable pub reserve_destination : ℕ → String → String → PartitionMoveSaga → Step
unfolding check_saga advance
reserve_destination v reservation now saga = do
  check_saga saga v source_reserved
  ok (advance destination_reserved now (record saga { destination_reservation = some reservation }))

-- `validate`
unfoldable pub validate_move : ℕ → String → String → List String → String → PartitionMoveSaga → Step
unfolding check_saga advance
validate_move v certificate movement findings now saga = do
  check_saga saga v destination_reserved
  if not (is_empty findings)
      then ok (advance compensating now (record saga { findings = findings }))
      else ok (
          advance validated now (record saga {
            findings = findings;
            legality_certificate_id = some certificate;
            movement_validation_id = some movement;
          }))

-- The truth value of a string that may be `None`.
abbrev pub truthy : Option String → Bool
truthy none = false
truthy (some s) = s != ""

unfoldable pub begin_commit : ℕ → String → PartitionMoveSaga → Step
unfolding check_saga advance
begin_commit v now saga = do
  check_saga saga v validated
  raise_if
      (not (
        truthy saga.source_reservation
        && (truthy saga.destination_reservation
            && (truthy saga.legality_certificate_id && truthy saga.movement_validation_id))))
      commit_evidence_missing
  ok (advance committing now saga)

-- `ack is True`
abbrev pub is_true : Option Bool → Bool
is_true none = false
is_true (some b) = b

-- The acknowledgement written to the side that it comes from.
unfoldable pub record_ack : String → Bool → PartitionMoveSaga → Step
record_ack partition accepted saga =
    if partition == saga.source_partition
    then ok (record saga { source_ack = some accepted })
    else if partition == saga.destination_partition
    then ok (record saga { destination_ack = some accepted })
    else err unknown_partition

-- The end of `acknowledge_partition`.
unfoldable pub settle : Bool → String → PartitionMoveSaga → PartitionMoveSaga
unfolding advance
settle accepted now saga =
    if not accepted
    then advance compensating now saga
    else if is_true saga.source_ack && is_true saga.destination_ack
    then advance complete now saga
    else advance partial now saga

unfoldable pub acknowledge_partition : ℕ → String → Bool → String → PartitionMoveSaga → Step
unfolding record_ack settle
acknowledge_partition v partition accepted now saga = do
  raise_if (saga.state_version != v) stale_state
  raise_if (not (is saga.status committing || is saga.status partial)) invalid_transition
  saga' ← record_ack partition accepted saga
  ok (settle accepted now saga')

unfoldable pub complete_compensation : ℕ → Bool → Bool → String → PartitionMoveSaga → Step
unfolding check_saga advance
complete_compensation v source_released destination_released now saga = do
  check_saga saga v compensating
  raise_if (not source_released || not destination_released) compensation_incomplete
  ok (advance compensated now saga)

-- The calls on one saga.
pub data Action : Type 0 where
  hold_source hold_destination : String → Action
  judge : String → String → List String → Action
  commit : Action
  acknowledge : String → Bool → Action
  finish : Bool → Bool → Action

unfoldable pub act : Action → ℕ → String → PartitionMoveSaga → Step
unfolding reserve_source reserve_destination validate_move begin_commit acknowledge_partition
    complete_compensation
act (hold_source r) v now = reserve_source v r now
act (hold_destination r) v now = reserve_destination v r now
act (judge c m findings) v now = validate_move v c m findings now
act commit v now = begin_commit v now
act (acknowledge p a) v now = acknowledge_partition v p a now
act (finish s d) v now = complete_compensation v s d now
