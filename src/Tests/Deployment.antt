-- ===== src/Tests/Deployment.antt =====
-- A deployment of two commands (deployment/command_state.py).
use skysolver.Prelude.{
  ℕ, zero, suc, String, ◌≡◌, refl, ◌≢◌, inl, true, false, none, some, [], ◌∷◌, nat_eq, string_eq,
  pair_eq, Pointwise, find_first, update_first,
}
use skysolver.Deployment.CommandState.{
  stale_state, publishing, DeploymentConflict, recomputed, answer, on_command, send,
  DeploymentAggregate, perform,
}
use skysolver.Deployment.CommandState.Registry.{call, get, save, create_again, create}
use skysolver.Deployment.CommandState.Registry.Records.{
  Reached-IsOrderly, IsOrderly, created, called, empty, empty_registry,
}
use skysolver.Deployment.CommandState.Registry.Runs.{after_version, after, returned, Call}
use skysolver.Deployment.CommandState.{Operation}
use skysolver.Prelude.{List, ◌+◌}
use skysolver.Deployment.CommandState.Registry.{
  new_command, new_commands, new_deployment, create_new, Resource, DeploymentRegistry,
  CreateRequest,
}
use skysolver.Prelude.Result.{err, ok, Result}
use skysolver.Deployment.CommandState.Lifecycle.{perform_version, perform-Follows, Follows}
use skysolver.Prelude.Dict.{insert, lookup}
use skysolver.Deployment.CommandState.Completion.{perform-IsTruthful, IsTruthful}

abbrev crew_move : Resource
crew_move = record {
  resource_type = "crew";
  resource_id = "CRW-1";
  target_system = "crew-system";
  action = "reassign";
  required = none;
  reversible = none;
}

abbrev aircraft_swap : Resource
aircraft_swap = record {
  resource_type = "aircraft";
  resource_id = "VT-ABC";
  target_system = "maintenance";
  action = "swap";
  required = some true;
  reversible = some false;
}

abbrev request : CreateRequest
request = record {
  tenant_id = "airline";
  recovery_id = "REC-1";
  candidate_id = "CAN-1";
  candidate_version = 1;
  idempotency_key = "deploy-0001";
  correlation_id = "COR-1";
  requested_by = "controller";
  resources = crew_move ∷ aircraft_swap ∷ [];
}

abbrev ids : ℕ → String
ids zero = "CMD-0"
ids (suc n) = "CMD-1"

abbrev no_deployments : DeploymentRegistry
no_deployments = record { deployments = []; idempotency = [] }

abbrev fresh : DeploymentAggregate
fresh = new_deployment request "DEP-1" ids "t0"

abbrev registry : DeploymentRegistry
registry = record {
  deployments = ("DEP-1", fresh) ∷ [];
  idempotency = (("airline", "deploy-0001"), "DEP-1") ∷ [];
}

abbrev or_old :
    DeploymentAggregate → Result DeploymentConflict DeploymentAggregate → DeploymentAggregate
or_old d (ok d') = d'
or_old d (err _) = d

abbrev published : DeploymentAggregate
published = or_old fresh (perform (send "CMD-0" "REF-0") 1 "t1" fresh)

abbrev answered : DeploymentAggregate
answered = or_old published (perform (answer "CMD-0" true "ACK-0" none none) 2 "t2" published)

-- One command has been accepted; the other still waits to be sent.
answered_status : answered.status ≡ publishing
unfolding perform on_command recomputed new_deployment new_commands new_command find_first
    update_first
answered_status = refl

perform-Follows_example : Pointwise Follows fresh.commands published.commands
unfolding perform on_command recomputed new_deployment new_commands new_command find_first
    update_first
perform-Follows_example = perform-Follows (send "CMD-0" "REF-0") 1 "t1" fresh {d' = published} refl

fresh-IsTruthful : IsTruthful fresh
unfolding new_deployment new_commands new_command
fresh-IsTruthful = record {
  complete_acknowledged = λ e. absurd (cc);
  attempted = (inl refl, (inl refl, tt));
}

perform-IsTruthful_example : IsTruthful published
unfolding perform on_command recomputed new_deployment new_commands new_command find_first
    update_first
perform-IsTruthful_example =
    perform-IsTruthful (send "CMD-0" "REF-0") 1 "t1" fresh {d' = published} fresh-IsTruthful refl

perform_version_example :
    ((d' : DeploymentAggregate)
      → perform (send "CMD-0" "REF-0") 1 "t1" fresh ≡ ok d'
      → (fresh.state_version ≡ 1) × (d'.state_version ≡ 2))
    × (fresh.state_version ≢ 1 → perform (send "CMD-0" "REF-0") 1 "t1" fresh ≡ err stale_state)
perform_version_example = perform_version (send "CMD-0" "REF-0") 1 "t1" fresh

-- Sent, sent again by a caller with the old version, and answered.
abbrev calls : List Call
calls =
    record {
      deployment_id = "DEP-1";
      operation = send "CMD-0" "REF-0";
      expected_version = 1;
      now = "t1";
    }
    ∷ record {
      deployment_id = "DEP-1";
      operation = send "CMD-1" "REF-1";
      expected_version = 1;
      now = "t1";
    }
    ∷ record {
      deployment_id = "DEP-1";
      operation = answer "CMD-0" true "ACK-0" none none;
      expected_version = 2;
      now = "t2";
    }
    ∷ []

registry_found : lookup "DEP-1" registry.deployments ≡ some fresh
unfolding lookup
registry_found = refl

calls-returned : returned "DEP-1" calls registry ≡ 2
unfolding returned call get save perform on_command recomputed new_deployment new_commands
    new_command find_first update_first lookup insert
calls-returned = refl

after_version_example :
    (d' : DeploymentAggregate) × (lookup "DEP-1" (after calls registry).deployments ≡ some d')
    × (d'.state_version ≡ fresh.state_version + returned "DEP-1" calls registry)
    × ((o : Operation) (v : ℕ) (now : String)
        → v ≢ fresh.state_version + returned "DEP-1" calls registry
        → call "DEP-1" o v now (after calls registry) ≡ (err stale_state, after calls registry))
after_version_example = after_version calls "DEP-1" registry fresh registry_found

create_again_example :
    create request "DEP-9" ids "t9" (create request "DEP-1" ids "t0" no_deployments).1
    ≡ (ok fresh, (create request "DEP-1" ids "t0" no_deployments).1)
unfolding create create_new new_deployment new_commands new_command lookup insert
create_again_example =
    create_again request request "DEP-1" "DEP-9" ids ids "t0" "t9" no_deployments fresh refl refl
      refl

Reached-IsOrderly_example :
    IsOrderly
      (call "DEP-1"
        (send "CMD-0" "REF-0")
        1
        "t1"
        (create request "DEP-1" ids "t0" empty_registry).1).1
unfolding lookup
Reached-IsOrderly_example =
    Reached-IsOrderly
      (called "DEP-1" (send "CMD-0" "REF-0") 1 "t1" (created request "DEP-1" ids "t0" refl empty))
