-- ===== src/Integrations/Adapter.antt =====
-- integrations/adapters/base.py: the circuit breaker and the boundary that every carrier adapter
-- inherits. `_fetch` and `_publish` are abstract in the class and parameters here: what they give
-- back or raise is an `Answer`. The signature verifier and the signed content are one parameter.
-- Each reading of the clock is an argument, in seconds.
pub mod Breaker
pub mod Authority
use skysolver.Prelude.{
  ℕ, zero, suc, ◌+◌, ◌-◌, ◌*◌, ◌≤◌, ◌<◌, String, ◌≡◌, refl, sym, ap, ◌∙◌, subst, ◌≢◌, ◌↔◌, ◌⊎◌, inl,
  inr, Bool, true, false, not, ◌&&◌, ◌||◌, Option, none, some, List, [], ◌∷◌, ◌++◌, map, arith,
  eq_iff, ltb, leb, before_text, nat_beq, nat_beq_iff, if◌then◌else◌, Eq, ◌==◌, ◌!=◌, nat_eq,
  string_eq, pair_eq, beq_refl, eq_of_beq, Bool-cases, Option-cases, is_none, is_some, length,
  is_empty, any, all, filter, length-append, contains, filter-append, All, All-append, Pointwise,
  Pointwise-refl, Pointwise-map, find_first, update_first, find_first_holds, Pointwise-update_first,
}
use Prim.Native.String.{count}
use skysolver.Prelude.Exec.{Exec, pure, raise, gets, modify, raise_if, or_raise, lift, ◌>>=◌, ◌>>◌}
use skysolver.Prelude.Result.{Result, ok, err, Result-cases}
use skysolver.Prelude.Sets.{sorted_set}
use skysolver.Prelude.Clock.{at_or_before, Instant}

pub data CircuitState : Type 0 where
  closed open_circuit half_open : CircuitState

abbrev pub circuit_code : CircuitState → ℕ
circuit_code closed = 0
circuit_code open_circuit = 1
circuit_code half_open = 2

pub record CircuitBreaker : Type 0 where
  pub failure_threshold : ℕ
  pub reset_seconds : ℕ
  pub failures : ℕ
  pub opened_at : Option ℕ
  pub state : CircuitState

-- `CircuitBreaker(...)`; `none` is the ValueError.
unfoldable pub new_breaker : ℕ → ℕ → Option CircuitBreaker
new_breaker threshold reset =
    if ltb threshold 1 || reset == 0
    then none
    else some (record {
      failure_threshold = threshold;
      reset_seconds = reset;
      failures = 0;
      opened_at = none;
      state = closed;
    })

abbrev pub reset_due : Option ℕ → ℕ → ℕ → Bool
reset_due none reset now = false
reset_due (some t) reset now = leb (t + reset) now

unfoldable pub allow : ℕ → CircuitBreaker → Bool × CircuitBreaker
allow now b =
    if circuit_code b.state != 1
    then (true, b)
    else if reset_due b.opened_at b.reset_seconds now
    then (true, record b { state = half_open })
    else (false, b)

unfoldable pub success : CircuitBreaker → CircuitBreaker
success b = record b { failures = 0; opened_at = none; state = closed }

unfoldable pub failure : ℕ → CircuitBreaker → CircuitBreaker
failure now b =
    if circuit_code b.state == 2 || leb b.failure_threshold (b.failures + 1)
    then (record b { failures = b.failures + 1; state = open_circuit; opened_at = some now })
    else (record b { failures = b.failures + 1 })

pub data PublishStatus : Type 0 where
  acknowledged rejected timed_out : PublishStatus

pub record ApprovalEvidence : Type 0 where
  pub actor_subject : String
  pub actor_role : String
  pub approved_at : Instant

-- `payload` is carried along and signed, and never read here.
pub record DeploymentCommand (Payload : Type 0) : Type 0 where
  pub command_id : String
  pub tenant_id : String
  pub deployment_id : String
  pub recovery_id : String
  pub candidate_id : String
  pub candidate_version : ℕ
  pub state_version : ℕ
  pub target_system : String
  pub resource_type : String
  pub resource_id : String
  pub action : String
  pub payload : Payload
  pub proposed_by : String
  pub requested_by : String
  pub approvals : List ApprovalEvidence
  pub correlation_id : String
  pub idempotency_key : String
  pub expires_at : Instant
  pub signing_key_id : String
  pub signature : String

pub record PublishResult : Type 0 where
  pub command_id : String
  pub status : PublishStatus
  pub source_system_reference : Option String
  pub acknowledged_at : Option Instant
  pub failure_code : Option String
  pub failure_detail : Option String

pub record AdapterCapabilities : Type 0 where
  pub source_system : String
  pub supported_read_contracts : List String
  pub supported_write_actions : List String

pub record AdapterPage (Payload : Type 0) : Type 0 where
  pub records : List Payload
  pub next_cursor : Option String
  pub source_timestamp : Instant
  pub contract_version : String

pub data AdapterError : Type 0 where
  expired_command other_system unsupported_action stale_version key_required invalid_signature
        approval_missing duties_not_separate proposer_publishes foreign_acknowledgement
        reference_missing unsupported_contract adapter_unavailable naive_timestamp source_error :
      AdapterError

-- What the carrier's side of an adapter does: it returns, times out, refuses for security, or
-- raises another exception.
pub data Answer (A : Type 0) : Type 0 where
  returned : A → Answer A
  source_timeout : String → Answer A
  security_error : AdapterError → Answer A
  dependency_error : String → Answer A

abbrev pub truthy : Option String → Bool
truthy none = false
truthy (some s) = s != ""

abbrev pub is_acknowledged : PublishStatus → Bool
is_acknowledged acknowledged = true
is_acknowledged rejected = false
is_acknowledged timed_out = false

-- `{a.actor_subject for a in approvals if a.actor_role == "duty-manager"}`
abbrev pub duty_managers : List ApprovalEvidence → List String
duty_managers approvals =
    map (λ a. a.actor_subject) (filter (λ a. a.actor_role == "duty-manager") approvals)

abbrev pub last_or : Option String → List String → Option String
last_or d [] = d
last_or d (x ∷ xs) = last_or (some x) xs

-- `negotiate_contract`: the greatest common version.
unfoldable pub negotiate_contract : AdapterCapabilities → List String → Result AdapterError String
negotiate_contract cap offered =
    elim (last_or none
      (sorted_set (filter (λ v. contains v cap.supported_read_contracts) offered))) [
        | none ↦ err unsupported_contract
        | some v ↦ ok v
      ]

module _ {Payload : Type 0} where
  module _ (verify : DeploymentCommand Payload → Bool) (cap : AdapterCapabilities) where
    -- `_authorize`
    unfoldable pub authorize :
        DeploymentCommand Payload → ℕ → Instant → Result AdapterError (Unit {0})
    authorize c version now =
        if not c.expires_at.aware || at_or_before c.expires_at now
        then err expired_command
        else if c.target_system != cap.source_system
        then err other_system
        else if not (contains c.action cap.supported_write_actions)
        then err unsupported_action
        else if c.state_version != version
        then err stale_version
        else if ltb (count c.idempotency_key) 8
        then err key_required
        else if not (verify c)
        then err invalid_signature
        else if is_empty (duty_managers c.approvals)
        then err approval_missing
        else if contains c.proposed_by (duty_managers c.approvals)
            || contains c.requested_by (duty_managers c.approvals)
        then err duties_not_separate
        else if c.proposed_by == c.requested_by
        then err proposer_publishes
        else ok tt

    failed : DeploymentCommand Payload → PublishStatus → String → String → PublishResult
    failed c status code detail = record {
      command_id = c.command_id;
      status = status;
      source_system_reference = none;
      acknowledged_at = none;
      failure_code = some code;
      failure_detail = some detail;
    }

    -- The body of the `try` of `publish` and its handlers; `later` is the second reading of the clock.
    unfoldable pub settle :
        DeploymentCommand Payload
        → Answer PublishResult
        → ℕ
        → Exec CircuitBreaker AdapterError PublishResult
    unfolding success failure failed
    settle c (returned r) later b =
        if r.command_id != c.command_id
        then (err foreign_acknowledgement, failure later b)
        else if is_acknowledged r.status && not (truthy r.source_system_reference)
        then (err reference_missing, failure later b)
        else (ok r, success b)
    settle c (source_timeout detail) later b =
        (ok (failed c timed_out "SOURCE_TIMEOUT" detail), failure later b)
    settle c (security_error x) later b = (err x, failure later b)
    settle c (dependency_error name) later b =
        (ok (failed c rejected "SOURCE_DEPENDENCY_ERROR" name), failure later b)

    -- `publish`; the carrier is asked only where this is reached.
    unfoldable pub publish :
        (DeploymentCommand Payload → Answer PublishResult)
        → DeploymentCommand Payload
        → ℕ
        → Instant
        → ℕ
        → ℕ
        → Exec CircuitBreaker AdapterError PublishResult
    unfolding authorize allow settle
    publish source c version now clock later b = elim (authorize c version now) [
      | err x ↦ (err x, b)
      | ok _ ↦
          let (allowed, b') = allow clock b in
          if not allowed then (err adapter_unavailable, b') else settle c (source c) later b'
    ]

  -- `fetch`
  unfoldable pub fetch :
      (String → Option String → Answer (AdapterPage Payload))
      → AdapterCapabilities
      → String
      → Option String
      → ℕ
      → ℕ
      → Exec CircuitBreaker AdapterError (AdapterPage Payload)
  unfolding allow success failure
  fetch source cap version cursor clock later b =
      if not (contains version cap.supported_read_contracts)
      then (err unsupported_contract, b)
      else let (allowed, b') = allow clock b in
        if not allowed then (err adapter_unavailable, b') else elim (source version cursor) [
          | returned page ↦
              if not page.source_timestamp.aware
              then (err naive_timestamp, failure later b')
              else (ok page, success b')
          | source_timeout _ ↦ (err source_error, failure later b')
          | security_error x ↦ (err x, failure later b')
          | dependency_error _ ↦ (err source_error, failure later b')
        ]
