-- ===== src/Core/Candidates/Upgrade.antt =====
-- When `evaluate_upgrade` of core/candidate_lifecycle.py accepts.
use skysolver.Prelude.{ℕ, ◌≤◌, ◌<◌, ◌≡◌, ◌↔◌, true, arith, eq_iff, nat_eq, string_eq, pair_eq}
use skysolver.Prelude.Int.{ℤ, ◌≤ℤ◌}
use skysolver.Core.Candidates.{evaluate_upgrade, improvement, legal, Instant, ImmutableCandidate}

module _ {Item : Type 0} (incumbent proposed : ImmutableCandidate Item) where
  -- The conditions of an upgrade, in the order in which the code looks at them.
  pub record IsUpgrade (current : ℕ) (now : Instant) (minimum : ℤ) : Type 0 where
    pub optimizer : proposed.draft.solver_tier ≡ "tier2"
    pub same_recovery : incumbent.draft.recovery_id ≡ proposed.draft.recovery_id
    pub same_input : incumbent.draft.input_snapshot_id ≡ proposed.draft.input_snapshot_id
    pub same_ruleset : incumbent.draft.ruleset_version ≡ proposed.draft.ruleset_version
    pub same_objective : incumbent.draft.objective_version ≡ proposed.draft.objective_version
    pub current_state : proposed.draft.state_version ≡ current
    pub alive : now.seconds < proposed.draft.expires_at.seconds
    pub is_legal : legal proposed ≡ true
    pub coverage :
        incumbent.draft.metrics.legal_assignments ≤ proposed.draft.metrics.legal_assignments
    pub unresolved :
        proposed.draft.metrics.unresolved_cases ≤ incumbent.draft.metrics.unresolved_cases
    pub better : minimum ≤ℤ improvement incumbent proposed

module _ {Item : Type 0} (incumbent proposed : ImmutableCandidate Item) (current : ℕ)
    (now : Instant) (minimum : ℤ) where
  IsUpgrade-of_accepted :
      (evaluate_upgrade incumbent proposed current now minimum).accepted ≡ true
      → IsUpgrade incumbent proposed current now minimum
  unfolding evaluate_upgrade
  IsUpgrade-of_accepted h = ground (
    arith,
    eq_iff proposed.draft.solver_tier "tier2",
    eq_iff incumbent.draft.recovery_id proposed.draft.recovery_id,
    eq_iff incumbent.draft.input_snapshot_id proposed.draft.input_snapshot_id,
    eq_iff incumbent.draft.ruleset_version proposed.draft.ruleset_version,
    eq_iff incumbent.draft.objective_version proposed.draft.objective_version,
  )

  accepted-of_IsUpgrade :
      IsUpgrade incumbent proposed current now minimum
      → (evaluate_upgrade incumbent proposed current now minimum).accepted ≡ true
  unfolding evaluate_upgrade
  accepted-of_IsUpgrade h = ground (
    arith,
    eq_iff proposed.draft.solver_tier "tier2",
    eq_iff incumbent.draft.recovery_id proposed.draft.recovery_id,
    eq_iff incumbent.draft.input_snapshot_id proposed.draft.input_snapshot_id,
    eq_iff incumbent.draft.ruleset_version proposed.draft.ruleset_version,
    eq_iff incumbent.draft.objective_version proposed.draft.objective_version,
  )

  -- An upgrade is accepted exactly when the proposal comes from Tier 2, has the recovery, input,
  -- ruleset and objective of the incumbent, was solved for the current state, has not expired, is
  -- legal, covers no fewer assignments, leaves no more cases open, and improves the objective by at
  -- least the minimum.
  pub evaluate_upgrade_iff :
      ((evaluate_upgrade incumbent proposed current now minimum).accepted ≡ true)
      ↔ IsUpgrade incumbent proposed current now minimum
  evaluate_upgrade_iff = (IsUpgrade-of_accepted, accepted-of_IsUpgrade)
