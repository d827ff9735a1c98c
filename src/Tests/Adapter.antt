-- ===== src/Tests/Adapter.antt =====
-- A breaker with three failures, and two publications (integrations/adapters/base.py).
use skysolver.Prelude.{
  ℕ, ◌≤◌, ◌≡◌, refl, ap, subst, Bool, true, false, none, some, [], ◌∷◌, arith, ◌==◌, nat_eq,
  string_eq, pair_eq,
}
use skysolver.Prelude.Result.{ok, err}
use skysolver.Prelude.Clock.{Instant}
use skysolver.Integrations.Adapter.Breaker.{
  failures_refuse, react, react_all-IsSteady, allow_eventually, failed_at, IsSteady, react_all,
}
use skysolver.Integrations.Adapter.{
  success, truthy, returned, failure, settle, open_circuit, Answer, acknowledged, is_acknowledged,
  half_open, authorize, closed, PublishResult, DeploymentCommand, CircuitBreaker, allow, publish,
  AdapterError, AdapterCapabilities, new_breaker,
}
use skysolver.Integrations.Adapter.Authority.{publish-eq-ok, publish_unauthorized, IsAuthorized}

abbrev fresh : CircuitBreaker
fresh = record {
  failure_threshold = 3;
  reset_seconds = 30;
  failures = 0;
  opened_at = none;
  state = closed;
}

abbrev open_since : ℕ → CircuitBreaker
open_since t = record fresh { failures = 3; opened_at = some t; state = open_circuit }

made : new_breaker 3 30 ≡ some fresh
unfolding new_breaker
made = refl

three_failures : react_all (failed_at 1 ∷ failed_at 2 ∷ failed_at 3 ∷ []) fresh ≡ open_since 3
unfolding react_all react failure
three_failures = refl

half_opens : allow 33 (open_since 3) ≡ (true, record (open_since 3) { state = half_open })
unfolding allow
half_opens = refl

open_since-IsSteady : IsSteady (open_since 3)
open_since-IsSteady =
    subst IsSteady three_failures
      (react_all-IsSteady 3 30 fresh (failed_at 1 ∷ failed_at 2 ∷ failed_at 3 ∷ []) made)

allow_eventually_example : (t : ℕ) × ((now : ℕ) → t ≤ now → (allow now (open_since 3)).0 ≡ true)
allow_eventually_example = allow_eventually (open_since 3) open_since-IsSteady

failures_refuse_example :
    allow 32 (react_all (failed_at 1 ∷ failed_at 2 ∷ failed_at 3 ∷ []) fresh)
    ≡ (false, react_all (failed_at 1 ∷ failed_at 2 ∷ failed_at 3 ∷ []) fresh)
failures_refuse_example = failures_refuse fresh (1 ∷ 2 ∷ []) 3 32 (omega arith) (omega arith)

abbrev capabilities : AdapterCapabilities
capabilities = record {
  source_system = "crew-tracking";
  supported_read_contracts = "v1" ∷ "v2" ∷ [];
  supported_write_actions = "assign" ∷ [];
}

abbrev at_second : ℕ → Instant
at_second s = record { seconds = s; aware = true }

abbrev command : DeploymentCommand ℕ
command = record {
  command_id = "CMD-1";
  tenant_id = "airline";
  deployment_id = "DEP-1";
  recovery_id = "REC-1";
  candidate_id = "CAN-1";
  candidate_version = 1;
  state_version = 7;
  target_system = "crew-tracking";
  resource_type = "crew";
  resource_id = "CRW-1";
  action = "assign";
  payload = 0;
  proposed_by = "optimizer";
  requested_by = "publisher";
  approvals =
      record { actor_subject = "dana"; actor_role = "duty-manager"; approved_at = at_second 5 }
      ∷ [];
  correlation_id = "COR-1";
  idempotency_key = "key-00001";
  expires_at = at_second 100;
  signing_key_id = "k1";
  signature = "sig";
}

abbrev by_approver : DeploymentCommand ℕ
by_approver = record command { requested_by = "dana" }

abbrev signed_as : DeploymentCommand ℕ → Bool
signed_as c = c.signature == "sig"

abbrev acknowledgement : PublishResult
acknowledgement = record {
  command_id = "CMD-1";
  status = acknowledged;
  source_system_reference = some "SRC-9";
  acknowledged_at = some (at_second 12);
  failure_code = none;
  failure_detail = none;
}

abbrev carrier : DeploymentCommand ℕ → Answer PublishResult
carrier c = returned acknowledgement

publish_unauthorized_example :
    (x : AdapterError) × ((source : DeploymentCommand ℕ → Answer PublishResult) (clock later : ℕ)
        (b : CircuitBreaker)
      → publish signed_as capabilities source by_approver 7 (at_second 10) clock later b
        ≡ (err x, b))
publish_unauthorized_example =
    publish_unauthorized signed_as capabilities by_approver 7 (at_second 10)
      (λ a. absurd (ground (arith, a.not_by_publisher)))

published :
    publish signed_as capabilities carrier command 7 (at_second 10) 40 41 (open_since 3)
    ≡ (ok acknowledgement, fresh)
unfolding publish authorize allow settle success
published = refl

publish-eq-ok_example :
    IsAuthorized signed_as capabilities command 7 (at_second 10)
    × ((allow 40 (open_since 3)).0 ≡ true)
    × (acknowledgement.command_id ≡ command.command_id)
    × (is_acknowledged acknowledgement.status ≡ true
        → (carrier command ≡ returned acknowledgement)
          × (truthy acknowledgement.source_system_reference ≡ true)
          × ((publish signed_as capabilities carrier command 7
                (at_second 10)
                40
                41
                (open_since 3)).1
              ≡ success (allow 40 (open_since 3)).1))
publish-eq-ok_example =
    publish-eq-ok signed_as capabilities carrier command 7 (at_second 10) 40 41 (open_since 3)
      acknowledgement (ap (λ x. x.0) published)
