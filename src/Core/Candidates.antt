-- ===== src/Core/Candidates.antt =====
-- core/candidate_lifecycle.py: immutable recovery candidates, and when a Tier 2 candidate may
-- replace the incumbent. The scores, which are floats in the source, are integers in a fixed unit:
-- their sums and comparisons are exact here. SHA-256 over canonical JSON and the artifact writer
-- are parameters.
pub mod Upgrade
pub mod Creation
use skysolver.Prelude.{
  ℕ, zero, suc, ◌+◌, ◌-◌, ◌*◌, ◌≤◌, ◌<◌, String, ◌≡◌, refl, sym, ap, ◌∙◌, subst, ◌≢◌, ◌↔◌, ◌⊎◌, inl,
  inr, Bool, true, false, not, ◌&&◌, ◌||◌, Option, none, some, List, [], ◌∷◌, ◌++◌, map, arith,
  eq_iff, ltb, leb, nat_beq, nat_beq_iff, if◌then◌else◌, Eq, ◌==◌, ◌!=◌, nat_eq, string_eq, pair_eq,
  beq_refl, eq_of_beq, Bool-cases, Option-cases, is_none, is_some, length, is_empty, any, all,
  filter, length-append, contains, All, All-append, Pointwise, Pointwise-refl, Pointwise-map,
  find_first, update_first, find_first_holds, Pointwise-update_first,
}
use skysolver.Prelude.Exec.{Exec, pure, raise_if, modify, gets, ◌>>=◌, ◌>>◌}
use skysolver.Prelude.Int.{ℤ, ◌-ℤ◌, ltb_ℤ}
use skysolver.Prelude.Clock.{Instant, at_or_before}

pub data CandidateRejected : Type 0 where
  invalid_state_version candidate_expired unknown_solver_tier coverage_mismatch
        artifact_digest_mismatch candidate_exists :
      CandidateRejected

pub record CandidateMetrics : Type 0 where
  pub legal_assignments : ℕ
  pub unresolved_cases : ℕ
  pub recovered_flights : ℕ
  pub total_delay_minutes : ℕ
  pub passenger_misconnections : ℕ
  pub operational_cost_minor : ℕ
  pub residual_risk_score : ℤ
  pub objective_score : ℤ

-- What the code reads of the certificate's dictionary.
pub record LegalityClaim : Type 0 where
  pub valid : Bool
  pub findings : List String

-- `Item` is the type of the JSON dictionaries that are carried along and never read.
pub record CandidateDraft (Item : Type 0) : Type 0 where
  pub tenant_id : String
  pub recovery_id : String
  pub input_snapshot_id : String
  pub solver_tier : String
  pub solver_version : String
  pub ruleset_version : String
  pub objective_version : String
  pub state_version : ℕ
  pub assignments : List Item
  pub movement_segments : List Item
  pub rejected_alternatives : List Item
  pub residual_cases : List Item
  pub metrics : CandidateMetrics
  pub legality_certificate : Option LegalityClaim
  pub expires_at : Instant

-- `ArtifactReference` of state/immutable_artifacts.py
pub record ArtifactReference : Type 0 where
  pub bucket : String
  pub key : String
  pub version_id : String
  pub content_sha256 : String
  pub kms_key_id : String
  pub retained_until : String
  pub artifact_type : String

pub record ImmutableCandidate (Item : Type 0) : Type 0 where
  pub candidate_id : String
  pub candidate_version : ℕ
  pub content_sha256 : String
  pub artifact : ArtifactReference
  pub draft : CandidateDraft Item
  pub created_at : Instant

abbrev claim_legal : Option LegalityClaim → Bool
claim_legal none = false
claim_legal (some c) = c.valid && is_empty c.findings

-- The dictionary that is signed and stored.
pub record Content (Item : Type 0) : Type 0 where
  pub candidate_id : String
  pub candidate_version : ℕ
  pub draft : CandidateDraft Item
  pub created_at : Instant

abbrev pub known_tier : String → Bool
known_tier tier = tier == "tier1" || (tier == "tier2" || tier == "tier3")

module _ {Item : Type 0} where
  unfoldable pub legal : ImmutableCandidate Item → Bool
  legal c = claim_legal c.draft.legality_certificate

  -- `_validate`
  unfoldable pub validate :
      {S : Type 0} → CandidateDraft Item → Instant → Exec S CandidateRejected (Unit {0})
  validate draft now = do
    raise_if (ltb draft.state_version 1) invalid_state_version
    raise_if (not draft.expires_at.aware || at_or_before draft.expires_at now) candidate_expired
    raise_if (not (known_tier draft.solver_tier)) unknown_solver_tier
    raise_if (draft.metrics.legal_assignments != length draft.assignments) coverage_mismatch

  -- A row with this tenant and identifier is there.
  abbrev pub stored : String → String → List (ImmutableCandidate Item) → Bool
  stored tenant id = any (λ c. c.draft.tenant_id == tenant && c.candidate_id == id)

  -- `PostgresCandidateRepository.insert`: the insertion does nothing on a conflict and raises then.
  unfoldable pub insert :
      ImmutableCandidate Item → Exec (List (ImmutableCandidate Item)) CandidateRejected (Unit {0})
  insert c = do
    known ← gets (stored c.draft.tenant_id c.candidate_id)
    raise_if known candidate_exists
    modify (λ rows. rows ++ c ∷ [])

  module _ (digest : Content Item → String) (put : Content Item → ArtifactReference) where
    -- `create`, with the fresh identifier and the time as arguments.
    unfoldable pub create :
        CandidateDraft Item
        → String
        → Instant
        → Exec (List (ImmutableCandidate Item)) CandidateRejected (ImmutableCandidate Item)
    unfolding validate insert
    create draft id now = do
      validate draft now
      let content : Content Item = record {
        candidate_id = id;
        candidate_version = 1;
        draft = draft;
        created_at = now;
      }
      let reference = put content
      raise_if (reference.content_sha256 != digest content) artifact_digest_mismatch
      let candidate : ImmutableCandidate Item = record {
        candidate_id = id;
        candidate_version = 1;
        content_sha256 = digest content;
        artifact = reference;
        draft = draft;
        created_at = now;
      }
      insert candidate
      pure candidate

pub data Reason : Type 0 where
  proposed_candidate_is_not_tier2 different_recovery different_input_snapshot different_ruleset
        different_objective stale_state_version candidate_expired candidate_not_legal
        legal_coverage_regressed unresolved_cases_increased objective_improvement_below_threshold :
      Reason

pub record UpgradeDecision : Type 0 where
  pub accepted : Bool
  pub reasons : List Reason
  pub objective_improvement : ℤ

-- `if c: reasons.append(r)`, ahead of the reasons that follow.
unfoldable pub because : Bool → Reason → List Reason → List Reason
because c r rest = if c then r ∷ rest else rest

module _ {Item : Type 0} (incumbent proposed : ImmutableCandidate Item) where
  abbrev pub improvement : ℤ
  improvement = incumbent.draft.metrics.objective_score -ℤ proposed.draft.metrics.objective_score

  unfoldable pub upgrade_reasons : ℕ → Instant → ℤ → List Reason
  unfolding because
  upgrade_reasons current now minimum =
      because (proposed.draft.solver_tier != "tier2") proposed_candidate_is_not_tier2 (
        because (incumbent.draft.recovery_id != proposed.draft.recovery_id) different_recovery (
          because (incumbent.draft.input_snapshot_id != proposed.draft.input_snapshot_id)
            different_input_snapshot
            (because (incumbent.draft.ruleset_version != proposed.draft.ruleset_version)
              different_ruleset
              (because (incumbent.draft.objective_version != proposed.draft.objective_version)
                different_objective
                (because (proposed.draft.state_version != current) stale_state_version (
                  because (at_or_before proposed.draft.expires_at now) Reason.candidate_expired (
                    because (not (legal proposed)) candidate_not_legal (
                      because
                        (ltb proposed.draft.metrics.legal_assignments
                          incumbent.draft.metrics.legal_assignments)
                        legal_coverage_regressed
                        (because
                          (ltb incumbent.draft.metrics.unresolved_cases
                            proposed.draft.metrics.unresolved_cases)
                          unresolved_cases_increased
                          (because (ltb_ℤ improvement minimum) objective_improvement_below_threshold
                            []))))))))))

  unfoldable pub evaluate_upgrade : ℕ → Instant → ℤ → UpgradeDecision
  unfolding upgrade_reasons
  evaluate_upgrade current now minimum =
      let reasons = upgrade_reasons current now minimum in
      record { accepted = is_empty reasons; reasons = reasons; objective_improvement = improvement }
