-- ===== src/Core/Workflow/Guards.antt =====
-- What each call of core/durable_recovery_workflow.py has checked when it returns, and what it
-- then has changed in the recovery.
use skysolver.Prelude.{
  ◌≤◌, String, ◌≡◌, ◌≢◌, inl, inr, Bool, true, false, Option, none, some, arith, eq_iff, nat_eq,
  string_eq, pair_eq, Option-cases, is_empty,
}
use skysolver.Core.Workflow.{
  approved, deployment_authorized, candidate_summary, strip, Approval, awaiting_approval,
  awaiting_validation, awaiting_joint_feasibility, count, stage, missing_id, legal, holds_value, ok,
  Recovery, Feasibility, ValidationReport, Instant, assert_selected, CommandContext, certifying,
  selecting, checking_feasibility, approving, authorizing, validating, ImmutableCandidate,
  Certificate,
}

module _ {Item : Type 0} (certificate_verifier : Certificate → ImmutableCandidate Item → Bool)
    (hold_verifier : Option String → ImmutableCandidate Item → Bool) where
  pub selecting-eq-ok :
      (ctx : CommandContext) (id : String) (c : ImmutableCandidate Item) (now : Instant)
      (s r : Recovery)
      → selecting ctx id c now s ≡ ok r
      → (legal c ≡ true)
        × (r ≡ record s {
          status = awaiting_validation;
          selected_candidate = some (candidate_summary c);
          validation = none;
          joint_feasibility = none;
          hold_id = none;
          approval = none;
          is_deployment_authorized = false;
        })
  unfolding selecting
  selecting-eq-ok ctx id c now s r h = ground arith

  pub certifying-eq-ok :
      (ctx : CommandContext) (id : String) (c : ImmutableCandidate Item) (report : ValidationReport)
      (cert : Certificate) (s r : Recovery)
      → certifying certificate_verifier hold_verifier ctx id c report cert s ≡ ok r
      → (holds_value cert.assurance_level "operator_approved_certified" ≡ true)
        × (certificate_verifier cert c ≡ true)
        × (r ≡ record s {
          status = awaiting_joint_feasibility;
          validation = some (record {
            certificate = cert;
            rules_execution = report.rules_execution;
            validated_at = cert.validated_at;
          });
        })
  unfolding certifying
  certifying-eq-ok ctx id c report cert s r h = ground arith

  pub validating-eq-ok :
      (ctx : CommandContext) (id : String) (c : ImmutableCandidate Item) (report : ValidationReport)
      (now : Instant) (s r : Recovery)
      → validating certificate_verifier hold_verifier ctx id c report now s ≡ ok r
      → (missing_id s.selected_candidate c.candidate_id c.content_sha256 ≡ false)
        × (stage s.status ≡ 2)
        × ((cert : Certificate) × (certifying certificate_verifier hold_verifier ctx id c report
                cert s
              ≡ ok r))
  unfolding validating assert_selected
  validating-eq-ok ctx id c report now s r h = elim (Option-cases report.certificate) [
    | inl absent ↦ absurd (ground arith)
    | inr (cert, given) ↦ (ground arith, ground arith, (cert, ground arith))
  ]

  pub checking_feasibility-eq-ok :
      (c : ImmutableCandidate Item) (f : Feasibility) (hold : String) (now : Instant)
      (s r : Recovery)
      → checking_feasibility certificate_verifier hold_verifier c f hold now s ≡ ok r
      → (missing_id s.selected_candidate c.candidate_id c.content_sha256 ≡ false)
        × (stage s.status ≡ 3)
        × (f.deployable ≡ true)
        × (is_empty f.findings ≡ true)
        × (hold_verifier (some hold) c ≡ true)
        × (r ≡ record s {
          status = awaiting_approval;
          joint_feasibility = some f;
          hold_id = some hold;
        })
  unfolding checking_feasibility assert_selected
  checking_feasibility-eq-ok c f hold now s r h = ground arith

  pub approving-eq-ok :
      (ctx : CommandContext) (c : ImmutableCandidate Item) (reason : String) (now : Instant)
      (s r : Recovery)
      → approving certificate_verifier hold_verifier ctx c reason now s ≡ ok r
      → (stage s.status ≡ 4)
        × (ctx.actor_role ≡ "duty-manager")
        × (ctx.actor_subject ≢ s.proposed_by)
        × (3 ≤ count (strip reason))
        × (r ≡ record s {
          status = approved;
          approval = some (record {
            actor_subject = ctx.actor_subject;
            actor_role = ctx.actor_role;
            reason = strip reason;
            approved_at = now;
            candidate_id = c.candidate_id;
            candidate_version = c.candidate_version;
          });
        })
  unfolding approving assert_selected
  approving-eq-ok ctx c reason now s r h =
      ground (arith, eq_iff ctx.actor_role "duty-manager", eq_iff ctx.actor_subject s.proposed_by)

  pub authorizing-eq-ok :
      (ctx : CommandContext) (c : ImmutableCandidate Item) (now : Instant) (s r : Recovery)
      → authorizing certificate_verifier hold_verifier ctx c now s ≡ ok r
      → (stage s.status ≡ 5)
        × (ctx.actor_subject ≢ s.proposed_by)
        × ((a : Approval) → s.approval ≡ some a → ctx.actor_subject ≢ a.actor_subject)
        × (r ≡ record s {
          status = deployment_authorized;
          is_deployment_authorized = true;
          deployment_authorized_by = some ctx.actor_subject;
          deployment_authorized_at = some now;
        })
  unfolding authorizing assert_selected
  authorizing-eq-ok ctx c now s r h = elim (Option-cases s.approval) [
    | inl absent ↦ absurd (ground arith)
    | inr (b, given) ↦ (
      ground arith,
      ground (arith, eq_iff ctx.actor_subject s.proposed_by),
      λ a p. ground (arith, eq_iff ctx.actor_subject b.actor_subject),
      ground arith,
    )
  ]
