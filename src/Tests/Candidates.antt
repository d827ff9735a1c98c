-- ===== src/Tests/Candidates.antt =====
-- A Tier-2 candidate beside a Tier-1 incumbent (core/candidate_lifecycle.py).
use skysolver.Prelude.{
  ℕ, String, ◌≡◌, refl, ◌↔◌, true, false, some, [], ◌∷◌, ◌++◌, nat_eq, string_eq, pair_eq,
}
use skysolver.Core.Candidates.{
  create, stored, legal, because, insert, validate, ImmutableCandidate, ArtifactReference,
  upgrade_reasons, evaluate_upgrade, Content, CandidateDraft,
}
use skysolver.Prelude.Clock.{Instant}
use skysolver.Prelude.Int.{◌-ℤ◌, pos}
use skysolver.Core.Candidates.Upgrade.{evaluate_upgrade_iff, IsUpgrade}
use skysolver.Core.Candidates.Creation.{create-eq-ok, content, IsAdmissible}

abbrev draft : String → ℕ → CandidateDraft (Unit {0})
draft tier score = record {
  tenant_id = "airline";
  recovery_id = "REC-1";
  input_snapshot_id = "SNAP-1";
  solver_tier = tier;
  solver_version = "1";
  ruleset_version = "2024.1";
  objective_version = "obj-1";
  state_version = 3;
  assignments = tt ∷ [];
  movement_segments = [];
  rejected_alternatives = [];
  residual_cases = [];
  metrics = record {
    legal_assignments = 1;
    unresolved_cases = 0;
    recovered_flights = 1;
    total_delay_minutes = 20;
    passenger_misconnections = 0;
    operational_cost_minor = 100;
    residual_risk_score = pos 0;
    objective_score = pos score;
  };
  legality_certificate = some (record { valid = true; findings = [] });
  expires_at = record { seconds = 1000; aware = true };
}

abbrev digest : Content (Unit {0}) → String
digest c = c.candidate_id

abbrev put : Content (Unit {0}) → ArtifactReference
put c = record {
  bucket = "artifacts";
  key = c.candidate_id;
  version_id = "1";
  content_sha256 = c.candidate_id;
  kms_key_id = "kms";
  retained_until = "2033-01-01";
  artifact_type = "candidate";
}

abbrev now : Instant
now = record { seconds = 10; aware = true }

abbrev candidate : String → CandidateDraft (Unit {0}) → ImmutableCandidate (Unit {0})
candidate id d = record {
  candidate_id = id;
  candidate_version = 1;
  content_sha256 = id;
  artifact = put (record { candidate_id = id; candidate_version = 1; draft = d; created_at = now });
  draft = d;
  created_at = now;
}

-- What the first creation leaves.
create-eq-ok_example :
    IsAdmissible (draft "tier1" 9) now
    × (stored {Item = Unit {0}} "airline" "CAN-1" [] ≡ false)
    × ((candidate "CAN-1" (draft "tier1" 9)).content_sha256
        ≡ digest (content (draft "tier1" 9) "CAN-1" now))
    × ((candidate "CAN-1" (draft "tier1" 9)).artifact.content_sha256
        ≡ (candidate "CAN-1" (draft "tier1" 9)).content_sha256)
    × ((candidate "CAN-1" (draft "tier1" 9)).draft ≡ draft "tier1" 9)
    × ((create digest put (draft "tier1" 9) "CAN-1" now []).1
        ≡ [] ++ candidate "CAN-1" (draft "tier1" 9) ∷ [])
unfolding create validate insert
create-eq-ok_example =
    create-eq-ok digest put (draft "tier1" 9) "CAN-1" now [] (candidate "CAN-1" (draft "tier1" 9))
      refl

evaluate_upgrade_iff_example :
    ((evaluate_upgrade
        (candidate "CAN-1" (draft "tier1" 9))
        (candidate "CAN-2" (draft "tier2" 5))
        3
        now
        (pos 1)).accepted
      ≡ true)
    ↔ IsUpgrade
        (candidate "CAN-1" (draft "tier1" 9))
        (candidate "CAN-2" (draft "tier2" 5))
        3
        now
        (pos 1)
evaluate_upgrade_iff_example =
    evaluate_upgrade_iff (candidate "CAN-1" (draft "tier1" 9)) (candidate "CAN-2" (draft "tier2" 5))
      3 now (pos 1)

upgrade_accepted :
    (evaluate_upgrade
      (candidate "CAN-1" (draft "tier1" 9))
      (candidate "CAN-2" (draft "tier2" 5))
      3
      now
      (pos 1)).accepted
    ≡ true
unfolding evaluate_upgrade upgrade_reasons because legal ◌-ℤ◌
upgrade_accepted = refl
