-- ===== src/Deployment/ReleaseGate.antt =====
-- deployment/release_gate.py: the evidence that a release needs. The signature check and the digest,
-- both over the canonical JSON of the evidence, are parameters. `KmsSignatureVerifier` is a call of
-- a cloud service.
use skysolver.Prelude.{
  String, ◌≡◌, sym, ap, ◌∙◌, ◌↔◌, ◌⊎◌, inl, inr, Bool, true, false, ◌&&◌, Option, none, some, List,
  [], ◌∷◌, ◌++◌, arith, eq_iff, if◌then◌else◌, ◌==◌, ◌!=◌, nat_eq, string_eq, pair_eq, eq_of_beq,
  Bool-cases, is_empty,
}
use Prim.Native.String.{count}
use text.Mathlib.Text.{starts_with}

pub record ReleaseEvidence : Type 0 where
  pub release_id : String
  pub image_digest : String
  pub rules_package_id : String
  pub rules_certified : Bool
  pub security_assessment_passed : Bool
  pub accessibility_passed : Bool
  pub certified_load_profile_passed : Bool
  pub shadow_accuracy_passed : Bool
  pub reconciliation_passed : Bool
  pub disaster_recovery_exercised : Bool
  pub operational_acceptance_passed : Bool
  pub safety_board_approval_id : Option String
  pub security_approval_id : Option String
  pub operator_approval_id : Option String

pub record GateDecision : Type 0 where
  pub allowed : Bool
  pub target_environment : String
  pub blockers : List String
  pub evidence_sha256 : String

abbrev pub is_given : Option String → Bool
is_given none = false
is_given (some s) = s != ""

-- `if not passed: blockers.append(code)`
unfoldable pub block_unless : Bool → String → List String
block_unless passed name = if passed then [] else name ∷ []

abbrev pub is_pinned : ReleaseEvidence → Bool
is_pinned e = starts_with e.image_digest "sha256:" && count e.image_digest == 71

unfoldable pub production_blockers : ReleaseEvidence → List String
unfolding block_unless
production_blockers e =
    block_unless e.shadow_accuracy_passed "shadow_accuracy_not_passed"
    ++ (block_unless e.reconciliation_passed "reconciliation_not_passed"
        ++ (block_unless e.disaster_recovery_exercised "disaster_recovery_not_exercised"
            ++ (block_unless e.operational_acceptance_passed "operational_acceptance_not_passed"
                ++ (block_unless (is_given e.safety_board_approval_id)
                      "safety_board_approval_missing"
                    ++ (block_unless (is_given e.security_approval_id) "security_approval_missing"
                        ++ block_unless (is_given e.operator_approval_id)
                            "operator_approval_missing")))))

unfoldable pub target_blockers : ReleaseEvidence → String → List String
unfolding production_blockers
target_blockers e target =
    if target == "controlled-production"
    then production_blockers e
    else if target != "shadow-production"
    then "target_environment_not_releasable" ∷ []
    else []

module _ (verify : ReleaseEvidence → String → Bool) (digest : ReleaseEvidence → String) where
  unfoldable pub blockers_of : ReleaseEvidence → String → String → List String
  unfolding block_unless target_blockers
  blockers_of e target signature =
      block_unless (is_pinned e) "image_not_digest_pinned"
      ++ (block_unless (verify e signature) "release_evidence_signature_invalid"
          ++ (block_unless e.rules_certified "rules_not_certified"
              ++ (block_unless e.security_assessment_passed "security_assessment_not_passed"
                  ++ (block_unless e.accessibility_passed "accessibility_not_passed"
                      ++ (block_unless e.certified_load_profile_passed
                            "certified_load_profile_not_passed"
                          ++ target_blockers e target)))))

  unfoldable pub evaluate_release : ReleaseEvidence → String → String → GateDecision
  unfolding blockers_of
  evaluate_release e target signature =
      let blockers = blockers_of e target signature in
      record {
        allowed = is_empty blockers;
        target_environment = target;
        blockers = blockers;
        evidence_sha256 = digest e;
      }

none_left :
    (b : Bool) (s : String) (rest : List String)
    → is_empty (block_unless b s ++ rest) ≡ (b && is_empty rest)
unfolding block_unless
none_left b s rest = ground arith

-- What the controlled production environment asks for.
unfoldable pub IsProductionReady : ReleaseEvidence → Type 0
IsProductionReady e =
    (e.shadow_accuracy_passed ≡ true)
    × (e.reconciliation_passed ≡ true)
    × (e.disaster_recovery_exercised ≡ true)
    × (e.operational_acceptance_passed ≡ true)
    × (is_given e.safety_board_approval_id ≡ true)
    × (is_given e.security_approval_id ≡ true)
    × (is_given e.operator_approval_id ≡ true)

production_ready :
    (e : ReleaseEvidence) → (is_empty (production_blockers e) ≡ true) ↔ IsProductionReady e
unfolding production_blockers IsProductionReady block_unless
production_ready e = ground arith

environments_apart : ¬ ◌≡◌ {A = String} "controlled-production" "shadow-production"
environments_apart h = absurd (ground (arith, eq_iff "controlled-production" "shadow-production"))

target_ready :
    (e : ReleaseEvidence) (target : String)
    → (is_empty (target_blockers e target) ≡ true) ↔ (
        (◌≡◌ {A = String} target "shadow-production")
        ⊎ ((◌≡◌ {A = String} target "controlled-production") × IsProductionReady e))
unfolding target_blockers
target_ready e target = elim (Bool-cases (target == "controlled-production")) [
  | inl controlled ↦
      let same : ◌≡◌ {A = String} target "controlled-production" =
        eq_of_beq target "controlled-production" controlled in
      (
        λ h. inr (same, (production_ready e).0 (rw (controlled, target_blockers) at h)),
        λ h.
            rw (controlled, target_blockers)
              ((production_ready e).1 (elim h [
                | inl shadow ↦ absurd (environments_apart (sym same ∙ shadow))
                | inr both ↦ both.1
              ])),
      )
  | inr other ↦ (
    λ h. inl (ground (arith, eq_iff target "shadow-production", rw (other, target_blockers) at h)),
    λ h.
        rw (other, target_blockers)
          (elim h [
            | inl shadow ↦ ground (arith, eq_iff target "shadow-production", shadow)
            | inr both ↦
                absurd (ground (arith, other, eq_iff target "controlled-production", both.0))
          ]),
  )
]

module _ (verify : ReleaseEvidence → String → Bool) (digest : ReleaseEvidence → String) where
  blockers_of_clear :
      (e : ReleaseEvidence) (target signature : String)
      → is_empty (blockers_of verify digest e target signature) ≡ (
          is_pinned e
          && (verify e signature
              && (e.rules_certified
                  && (e.security_assessment_passed
                      && (e.accessibility_passed
                          && (e.certified_load_profile_passed
                              && is_empty (target_blockers e target)))))))
  unfolding blockers_of
  blockers_of_clear e target signature =
      none_left (is_pinned e) _ _
      ∙ ap (λ b. is_pinned e && b)
          (none_left (verify e signature) _ _
            ∙ ap (λ b. verify e signature && b)
                (none_left e.rules_certified _ _
                  ∙ ap (λ b. e.rules_certified && b)
                      (none_left e.security_assessment_passed _ _
                        ∙ ap (λ b. e.security_assessment_passed && b)
                            (none_left e.accessibility_passed _ _
                              ∙ ap (λ b. e.accessibility_passed && b)
                                  (none_left e.certified_load_profile_passed _ _)))))

  -- A release is allowed exactly when its image is pinned by a digest, the signature of the evidence is
  -- valid, rules, security, accessibility and load profile have passed, and it goes to the shadow
  -- environment, or to controlled production with the seven further pieces of evidence there.
  pub allowed_iff :
      (e : ReleaseEvidence) (target signature : String)
      → ((evaluate_release verify digest e target signature).allowed ≡ true) ↔ (
          (is_pinned e ≡ true)
          × (verify e signature ≡ true)
          × (e.rules_certified ≡ true)
          × (e.security_assessment_passed ≡ true)
          × (e.accessibility_passed ≡ true)
          × (e.certified_load_profile_passed ≡ true)
          × ((◌≡◌ {A = String} target "shadow-production")
              ⊎ ((◌≡◌ {A = String} target "controlled-production") × IsProductionReady e)))
  unfolding evaluate_release
  allowed_iff e target signature =
      ground (arith, target_ready e target, blockers_of_clear e target signature)
