-- ===== src/Core/Workflow/Evidence.antt =====
-- What a stored recovery proves about its own past (core/durable_recovery_workflow.py): from each
-- stage on, the evidence that the calls before it have checked.
use skysolver.Prelude.{
  ℕ, ◌≤◌, String, ◌≡◌, refl, sym, ap, ◌∙◌, subst, ◌≢◌, Bool, true, false, Option, some, arith,
  nat_eq, string_eq, pair_eq, is_empty,
}
use skysolver.Core.Workflow.{
  authorize_deployment, approve, record_joint_feasibility, record_validation, select, Transition,
  check, CommandContent, strip, awaiting_joint_feasibility, ValidationReport, Instant, missing_id,
  count, CommandContext, ok, holds_value, candidate_summary, Feasibility, Approval, Validation,
  stage, CandidateSummary, Recovery, ImmutableCandidate, Certificate,
}
use skysolver.Core.Workflow.Guards.{
  authorizing-eq-ok, approving-eq-ok, checking_feasibility-eq-ok, certifying-eq-ok,
  validating-eq-ok, selecting-eq-ok,
}

module _ {Item : Type 0} (certificate_verifier : Certificate → ImmutableCandidate Item → Bool)
    (hold_verifier : Option String → ImmutableCandidate Item → Bool) where
  -- A legal candidate was selected.
  pub record IsChosen (r : Recovery) : Type 0 where
    pub summary : CandidateSummary
    pub selected : r.selected_candidate ≡ some summary
    pub legal_summary : summary.is_legal ≡ true

  -- A clean certificate was verified against an artifact with the identity and the digest of the
  -- selected one.
  pub record IsCertified (r : Recovery) : Type 0 where
    pub evidence : Validation
    pub validated : r.validation ≡ some evidence
    pub assured :
        holds_value evidence.certificate.assurance_level "operator_approved_certified" ≡ true
    pub artifact : ImmutableCandidate Item
    pub verified : certificate_verifier evidence.certificate artifact ≡ true
    pub same_artifact :
        missing_id r.selected_candidate artifact.candidate_id artifact.content_sha256 ≡ false

  -- The joint feasibility had no finding, and the hold was verified for the selected artifact.
  pub record IsCleared (r : Recovery) : Type 0 where
    pub report : Feasibility
    pub feasible : r.joint_feasibility ≡ some report
    pub deployable_report : report.deployable ≡ true
    pub clean_report : is_empty report.findings ≡ true
    pub held_artifact : ImmutableCandidate Item
    pub held : hold_verifier r.hold_id held_artifact ≡ true
    pub same_held :
        missing_id r.selected_candidate held_artifact.candidate_id held_artifact.content_sha256
        ≡ false

  -- A duty manager other than the proposer approved, with a reason.
  pub record IsApproved (r : Recovery) : Type 0 where
    pub decision : Approval
    pub recorded : r.approval ≡ some decision
    pub manager : decision.actor_role ≡ "duty-manager"
    pub independent : decision.actor_subject ≢ r.proposed_by
    pub reasoned : 3 ≤ count decision.reason

  -- A third person released it, while the hold was still good.
  pub record IsReleased (r : Recovery) : Type 0 where
    pub controller : String
    pub signed : r.deployment_authorized_by ≡ some controller
    pub not_proposer : controller ≢ r.proposed_by
    pub not_approver : (a : Approval) → r.approval ≡ some a → controller ≢ a.actor_subject

  pub record IsSound (r : Recovery) : Type 0 where
    pub chosen : 2 ≤ stage r.status → IsChosen r
    pub certified : 3 ≤ stage r.status → IsCertified r
    pub cleared : 4 ≤ stage r.status → IsCleared r
    pub approved_by : 5 ≤ stage r.status → IsApproved r
    pub released : 6 ≤ stage r.status → IsReleased r
    pub flagged : r.is_deployment_authorized ≡ true → stage r.status ≡ 6

  record_validation-IsSound :
      (c : ImmutableCandidate Item) (report : ValidationReport) (cert : Certificate) (s : Recovery)
      → IsSound s
      → stage s.status ≡ 2
      → missing_id s.selected_candidate c.candidate_id c.content_sha256 ≡ false
      → holds_value cert.assurance_level "operator_approved_certified" ≡ true
      → certificate_verifier cert c ≡ true
      → IsSound (record s {
        status = awaiting_joint_feasibility;
        validation = some (record {
          certificate = cert;
          rules_execution = report.rules_execution;
          validated_at = cert.validated_at;
        });
      })
  record_validation-IsSound c report cert s sound at same assured valid =
      let before = sound.chosen (omega arith) in
      record {
        chosen = λ _. record {
          summary = before.summary;
          selected = before.selected;
          legal_summary = before.legal_summary;
        };
        certified = λ _. record {
          evidence = record {
            certificate = cert;
            rules_execution = report.rules_execution;
            validated_at = cert.validated_at;
          };
          validated = refl;
          assured = assured;
          artifact = c;
          verified = valid;
          same_artifact = same;
        };
        cleared = λ p. absurd (omega arith);
        approved_by = λ p. absurd (omega arith);
        released = λ p. absurd (omega arith);
        flagged = λ p. absurd (omega (arith, sound.flagged p));
      }

  -- The later calls leave the selection and the certificate as they are.
  IsChosen-still :
      (s r : Recovery) → r.selected_candidate ≡ s.selected_candidate → IsChosen s → IsChosen r
  IsChosen-still s r same h = record {
    summary = h.summary;
    selected = same ∙ h.selected;
    legal_summary = h.legal_summary;
  }

  IsCertified-still :
      (s r : Recovery)
      → r.selected_candidate ≡ s.selected_candidate
      → r.validation ≡ s.validation
      → IsCertified s
      → IsCertified r
  IsCertified-still s r same kept h = record {
    evidence = h.evidence;
    validated = kept ∙ h.validated;
    assured = h.assured;
    artifact = h.artifact;
    verified = h.verified;
    same_artifact =
        ap (λ o. missing_id o h.artifact.candidate_id h.artifact.content_sha256) same
        ∙ h.same_artifact;
  }

  IsCleared-still :
      (s r : Recovery)
      → r.selected_candidate ≡ s.selected_candidate
      → r.joint_feasibility ≡ s.joint_feasibility
      → r.hold_id ≡ s.hold_id
      → IsCleared s
      → IsCleared r
  IsCleared-still s r same kept hold h = record {
    report = h.report;
    feasible = kept ∙ h.feasible;
    deployable_report = h.deployable_report;
    clean_report = h.clean_report;
    held_artifact = h.held_artifact;
    held = ap (λ o. hold_verifier o h.held_artifact) hold ∙ h.held;
    same_held =
        ap (λ o. missing_id o h.held_artifact.candidate_id h.held_artifact.content_sha256) same
        ∙ h.same_held;
  }

  module _ (digest : CommandContent → String) where
    -- Every call leaves a recovery whose evidence is complete for the stage that it reaches.
    pub check-IsSound :
        (t : Transition Item) (ctx : CommandContext) (id : String) (now : Instant) (s r : Recovery)
        → IsSound s
        → check digest certificate_verifier hold_verifier t ctx id now s ≡ ok r
        → IsSound r
    unfolding check candidate_summary
    check-IsSound (select c) ctx id now s r sound h =
        let (lawful, result) =
          selecting-eq-ok certificate_verifier hold_verifier ctx id c now s r h in
        subst IsSound (sym result) (record {
          chosen = λ _. record {
            summary = candidate_summary c;
            selected = refl;
            legal_summary = lawful;
          };
          certified = λ p. absurd (omega arith);
          cleared = λ p. absurd (omega arith);
          approved_by = λ p. absurd (omega arith);
          released = λ p. absurd (omega arith);
          flagged = λ p. absurd (cc);
        })
    check-IsSound (record_validation c report) ctx id now s r sound h =
        let (same, at, (cert, checked)) =
          validating-eq-ok certificate_verifier hold_verifier ctx id c report now s r h in
        let (assured, valid, result) =
          certifying-eq-ok certificate_verifier hold_verifier ctx id c report cert s r checked in
        subst IsSound (sym result)
          (record_validation-IsSound c report cert s sound at same assured valid)
    check-IsSound (record_joint_feasibility c f hold) ctx id now s r sound h =
        let (same, at, deployable, clean, held, result) =
          checking_feasibility-eq-ok certificate_verifier hold_verifier c f hold now s r h in
        subst IsSound (sym result) (record {
          chosen = λ _. IsChosen-still s _ refl (sound.chosen (omega arith));
          certified = λ _. IsCertified-still s _ refl refl (sound.certified (omega arith));
          cleared = λ _. record {
            report = f;
            feasible = refl;
            deployable_report = deployable;
            clean_report = clean;
            held_artifact = c;
            held = held;
            same_held = same;
          };
          approved_by = λ p. absurd (omega arith);
          released = λ p. absurd (omega arith);
          flagged = λ p. absurd (omega (arith, sound.flagged p));
        })
    check-IsSound (approve c reason) ctx id now s r sound h =
        let (at, role, other, reasoned, result) =
          approving-eq-ok certificate_verifier hold_verifier ctx c reason now s r h in
        subst IsSound (sym result) (record {
          chosen = λ _. IsChosen-still s _ refl (sound.chosen (omega arith));
          certified = λ _. IsCertified-still s _ refl refl (sound.certified (omega arith));
          cleared = λ _. IsCleared-still s _ refl refl refl (sound.cleared (omega arith));
          approved_by = λ _. record {
            decision = record {
              actor_subject = ctx.actor_subject;
              actor_role = ctx.actor_role;
              reason = strip reason;
              approved_at = now;
              candidate_id = c.candidate_id;
              candidate_version = c.candidate_version;
            };
            recorded = refl;
            manager = role;
            independent = other;
            reasoned = reasoned;
          };
          released = λ p. absurd (omega arith);
          flagged = λ p. absurd (omega (arith, sound.flagged p));
        })
    check-IsSound (authorize_deployment c) ctx id now s r sound h =
        let (at, not_proposer, not_approver, result) =
          authorizing-eq-ok certificate_verifier hold_verifier ctx c now s r h in
        let before = sound.approved_by (omega arith) in
        subst IsSound (sym result) (record {
          chosen = λ _. IsChosen-still s _ refl (sound.chosen (omega arith));
          certified = λ _. IsCertified-still s _ refl refl (sound.certified (omega arith));
          cleared = λ _. IsCleared-still s _ refl refl refl (sound.cleared (omega arith));
          approved_by = λ _. record {
            decision = before.decision;
            recorded = before.recorded;
            manager = before.manager;
            independent = before.independent;
            reasoned = before.reasoned;
          };
          released = λ _. record {
            controller = ctx.actor_subject;
            signed = refl;
            not_proposer = not_proposer;
            not_approver = not_approver;
          };
          flagged = λ _. refl;
        })

    -- The two fields that are written last belong to no stage.
    pub stamped-IsSound :
        (s : Recovery) (n : ℕ) (at : Option Instant)
        → IsSound s
        → IsSound (record s { state_version = n; updated_at = at })
    stamped-IsSound s n at sound = record {
      chosen = λ p. IsChosen-still s _ refl (sound.chosen p);
      certified = λ p. IsCertified-still s _ refl refl (sound.certified p);
      cleared = λ p. IsCleared-still s _ refl refl refl (sound.cleared p);
      approved_by = λ p.
          let before = sound.approved_by p in
          record {
            decision = before.decision;
            recorded = before.recorded;
            manager = before.manager;
            independent = before.independent;
            reasoned = before.reasoned;
          };
      released = λ p.
          let before = sound.released p in
          record {
            controller = before.controller;
            signed = before.signed;
            not_proposer = before.not_proposer;
            not_approver = before.not_approver;
          };
      flagged = sound.flagged;
    }
