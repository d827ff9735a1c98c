-- ===== src/Tests/Gates.antt =====
-- A release, the roles, and the health of a source (deployment/release_gate.py,
-- deployment/authorization.py, integrations/health.py).
use skysolver.Prelude.{
  ℕ, String, ◌≡◌, refl, ◌↔◌, ◌⊎◌, Bool, true, false, none, some, [], ◌∷◌, ◌==◌, nat_eq, string_eq,
  pair_eq, is_empty, All,
}
use skysolver.Prelude.Dict.{insert, values}
use skysolver.Prelude.Clock.{Instant}
use skysolver.Integrations.Health.{
  blocks, report_unless, deployment_allowed_iff, findings_of, update, evaluate, IsHealthy, snapshot,
  DataHealthRegistry, SourceHealth,
}
use skysolver.Deployment.ReleaseGate.{
  production_blockers, allowed_iff, target_blockers, block_unless, IsProductionReady, is_pinned,
  blockers_of, evaluate_release, ReleaseEvidence,
}
use skysolver.Deployment.Authorization.{approve, role_named, allows}

abbrev evidence : ReleaseEvidence
evidence = record {
  release_id = "R-1";
  image_digest = "sha256:0123456789abcdef0123456789abcdef0123456789abcdef0123456789abcdef";
  rules_package_id = "DGCA-7";
  rules_certified = true;
  security_assessment_passed = true;
  accessibility_passed = true;
  certified_load_profile_passed = true;
  shadow_accuracy_passed = true;
  reconciliation_passed = true;
  disaster_recovery_exercised = true;
  operational_acceptance_passed = true;
  safety_board_approval_id = some "SB-1";
  security_approval_id = some "SEC-1";
  operator_approval_id = none;
}

abbrev signed_by : ReleaseEvidence → String → Bool
signed_by e s = s == "signature"

abbrev digest : ReleaseEvidence → String
digest e = e.release_id

to_production :
    (evaluate_release signed_by digest evidence "controlled-production" "signature").blockers
    ≡ "operator_approval_missing" ∷ []
unfolding evaluate_release blockers_of block_unless target_blockers production_blockers
to_production = refl

to_shadow :
    (evaluate_release signed_by digest evidence "shadow-production" "signature").allowed ≡ true
unfolding evaluate_release blockers_of block_unless target_blockers
to_shadow = refl

allowed_iff_example :
    ((evaluate_release signed_by digest evidence "shadow-production" "signature").allowed ≡ true)
    ↔ ((is_pinned evidence ≡ true)
        × (signed_by evidence "signature" ≡ true)
        × (evidence.rules_certified ≡ true)
        × (evidence.security_assessment_passed ≡ true)
        × (evidence.accessibility_passed ≡ true)
        × (evidence.certified_load_profile_passed ≡ true)
        × ((◌≡◌ {A = String} "shadow-production" "shadow-production")
            ⊎ ((◌≡◌ {A = String} "shadow-production" "controlled-production")
                × IsProductionReady evidence)))
allowed_iff_example = allowed_iff signed_by digest evidence "shadow-production" "signature"

manager_approves : allows "duty-manager" approve ≡ true
unfolding allows role_named
manager_approves = refl

abbrev at_second : ℕ → Instant
at_second s = record { seconds = s; aware = true }

abbrev crew_source : SourceHealth
crew_source = record {
  source_system = "crew-tracking";
  authoritative = true;
  required_for_solve = true;
  required_for_deployment = true;
  last_source_timestamp = none;
  last_ingested_at = some (at_second 100);
  max_freshness_seconds = 60;
  dead_letter_count = 0;
  reconciliation_drift_count = 0;
  circuit_state = "closed";
  contract_version = "v1";
}

abbrev registry : DataHealthRegistry
registry = update crew_source (record { sources = []; allow_synthetic_solve = false })

fresh_then_stale :
    ((snapshot (at_second 160) registry).deployment_allowed ≡ true)
    × ((snapshot (at_second 161) registry).deployment_allowed ≡ false)
unfolding snapshot evaluate findings_of report_unless blocks update insert
fresh_then_stale = (refl, refl)

deployment_allowed_iff_example : ((snapshot (at_second 160) registry).deployment_allowed ≡ true) ↔ (
    (is_empty (values registry.sources) ≡ false)
    × All
        (λ s. s.required_for_deployment ≡ true → IsHealthy (at_second 160) s)
        (values registry.sources))
deployment_allowed_iff_example = deployment_allowed_iff (at_second 160) registry
