-- ===== src/Rules/Governance.antt =====
-- rules/governance.py: rule packages, their approvals, their shadow run and their activation. A
-- package that the registry holds is an object: a method's writes to it are writes to the
-- dictionary here, and every method raises before it writes. The HMAC and the SHA-256 of a content
-- are the parameters `sign` and `digest`; identifiers and times are arguments.
pub mod Assurance
pub mod Activation
pub mod History
use skysolver.Prelude.{
  ℕ, zero, suc, ◌+◌, ◌-◌, ◌*◌, ◌≤◌, ◌<◌, String, ◌≡◌, refl, sym, ap, ◌∙◌, subst, ◌≢◌, ◌↔◌, ◌⊎◌, inl,
  inr, Bool, true, false, not, ◌&&◌, ◌||◌, Option, none, some, List, [], ◌∷◌, ◌++◌, map, arith,
  eq_iff, ltb, leb, nat_beq, nat_beq_iff, if◌then◌else◌, Eq, ◌==◌, ◌!=◌, nat_eq, string_eq, pair_eq,
  beq_refl, eq_of_beq, Bool-cases, Option-cases, is_none, is_some, length, is_empty, any, all,
  filter, length-append, contains, filter-append, All, All-append, Pointwise, Pointwise-refl,
  Pointwise-map, find_first, update_first, find_first_holds, Pointwise-update_first,
}
use skysolver.Prelude.Dict.{values, insert, lookup, Dict}
use skysolver.Prelude.Result.{◌>>=◌, ◌>>◌, ok, err, raise_if, or_raise, Result}
use Prim.Native.String.{count}
use skysolver.Prelude.Clock.{at_or_before, before, Instant}
use skysolver.Prelude.Exec.{Exec}
use skysolver.Prelude.Text.{strip}

pub data RulePackageStatus : Type 0 where
  draft approved shadow active retired rejected : RulePackageStatus

abbrev pub code : RulePackageStatus → ℕ
code draft = 0
code approved = 1
code shadow = 2
code active = 3
code retired = 4
code rejected = 5

abbrev pub is : RulePackageStatus → RulePackageStatus → Bool
is s t = code s == code t

pub data GovernanceError : Type 0 where
  timezone_required invalid_effective_period unknown_signing_key invalid_signature version_exists
        invalid_status four_eyes_required invalid_authority duplicate_approval reason_required
        approvals_required shadow_not_active invalid_shadow_evidence invalid_artifact_digest
        shadow_evidence_required shadow_gate_failed outside_effective_period rollback_target_invalid
        no_active_ruleset package_not_found key_error :
      GovernanceError

pub record RuleApproval : Type 0 where
  pub approval_id : String
  pub actor : String
  pub authority : String
  pub reason : String
  pub approved_at : Instant

pub record ShadowEvidence : Type 0 where
  pub evidence_id : String
  pub cases_evaluated : ℕ
  pub expected_matches : ℕ
  pub unexpected_differences : ℕ
  pub blocking_findings : ℕ
  pub artifact_sha256 : String
  pub recorded_at : Instant

pub record RulePackage (Content : Type 0) : Type 0 where
  pub package_id : String
  pub tenant_id : String
  pub version : String
  pub effective_from : Instant
  pub effective_until : Option Instant
  pub submitted_by : String
  pub content : Content
  pub content_sha256 : String
  pub signature : String
  pub signing_key_id : String
  pub status : RulePackageStatus
  pub approvals : List RuleApproval
  pub shadow_evidence : Option ShadowEvidence
  pub created_at : Instant

pub record RulePackageRegistry (Content : Type 0) : Type 0 where
  pub packages : Dict String (RulePackage Content)
  pub active_by_tenant : Dict String String

-- The arguments of `submit`.
pub record Submission (Content : Type 0) : Type 0 where
  pub tenant_id : String
  pub version : String
  pub effective_from : Instant
  pub effective_until : Option Instant
  pub submitted_by : String
  pub content : Content
  pub signature : String
  pub signing_key_id : String

-- `authority in REQUIRED_AUTHORITIES`
abbrev pub required : String → Bool
required a = a == "airline-operations" || a == "regulatory-compliance"

-- `{item.authority for item in approvals} == REQUIRED_AUTHORITIES`
unfoldable pub covers_required : List RuleApproval → Bool
covers_required approvals =
    all (λ a. required a.authority) approvals
    && (any (λ a. a.authority == "airline-operations") approvals
        && any (λ a. a.authority == "regulatory-compliance") approvals)

abbrev pub until_holds : (Instant → Bool) → Option Instant → Bool
until_holds p none = false
until_holds p (some t) = p t

-- The methods that write one package.
pub data Edit : Type 0 where
  approve : String → String → String → String → Instant → Edit
  begin_shadow : Edit
  record_shadow : ShadowEvidence → Edit

abbrev pub Written : Type 0 → Type 0
Written Content = Result GovernanceError (RulePackage Content)

abbrev pub Call : Type 0 → Type 0
Call Content = Exec (RulePackageRegistry Content) GovernanceError (RulePackage Content)

module _ {Content : Type 0} where
  -- `approve`, on the package
  unfoldable pub approving :
      String → String → String → String → Instant → RulePackage Content → Written Content
  unfolding covers_required
  approving actor authority reason id now item = do
    raise_if (not (is item.status draft || is item.status approved)) invalid_status
    raise_if (actor == item.submitted_by) four_eyes_required
    raise_if (not (required authority)) invalid_authority
    raise_if (any (λ a. a.actor == actor || a.authority == authority) item.approvals)
        duplicate_approval
    raise_if (strip reason == "") reason_required
    let approvals =
        item.approvals
        ++ record {
          approval_id = id;
          actor = actor;
          authority = authority;
          reason = strip reason;
          approved_at = now;
        }
          ∷ []
    ok (record item {
      approvals = approvals;
      status = if covers_required approvals then approved else item.status;
    })

  -- `begin_shadow`
  unfoldable pub shadowing : RulePackage Content → Written Content
  shadowing item = do
    raise_if (not (is item.status approved)) approvals_required
    ok (record item { status = shadow })

  -- `record_shadow`; the counts are natural numbers here
  unfoldable pub recording : ShadowEvidence → RulePackage Content → Written Content
  recording e item = do
    raise_if (not (is item.status shadow)) shadow_not_active
    raise_if
        (e.cases_evaluated == 0
          || e.expected_matches + e.unexpected_differences != e.cases_evaluated)
        invalid_shadow_evidence
    raise_if (count e.artifact_sha256 != 64) invalid_artifact_digest
    ok (record item { shadow_evidence = some e })

  -- The checks of `activate`.
  unfoldable pub activating : Instant → RulePackage Content → Written Content
  activating now item = do
    raise_if (not (is item.status shadow)) shadow_evidence_required
    evidence ← or_raise item.shadow_evidence shadow_evidence_required
    raise_if (evidence.unexpected_differences != 0 || evidence.blocking_findings != 0)
        shadow_gate_failed
    raise_if
        (before now item.effective_from
          || until_holds (λ t. at_or_before t now) item.effective_until)
        outside_effective_period
    ok (record item { status = active })

  -- The checks of `rollback`.
  unfoldable pub restoring : String → RulePackage Content → Written Content
  restoring tenant item = do
    raise_if (item.tenant_id != tenant || not (is item.status retired)) rollback_target_invalid
    ok (record item { status = active })

  unfoldable pub edited : Edit → RulePackage Content → Written Content
  unfolding approving shadowing recording
  edited (approve actor authority reason id now) = approving actor authority reason id now
  edited begin_shadow = shadowing
  edited (record_shadow e) = recording e

  unfoldable pub get : String → RulePackageRegistry Content → Written Content
  get id g = or_raise (lookup id g.packages) package_not_found

  unfoldable pub edit : String → Edit → Call Content
  unfolding get
  edit id e g = elim (get id g >>= edited e) [
    | err x ↦ (err x, g)
    | ok item ↦ (ok item, record g { packages = insert id item g.packages })
  ]

  -- `self._packages[previous_id].status = RETIRED`, if there is a previous one.
  unfoldable pub retire :
      Option String
      → Dict String (RulePackage Content)
      → Result GovernanceError (Dict String (RulePackage Content))
  retire none packages = ok packages
  retire (some id) packages = if id == "" then ok packages else elim (lookup id packages) [
    | none ↦ err key_error
    | some p ↦ ok (insert id (record p { status = retired }) packages)
  ]

  -- The writes that `activate` and `rollback` end with.
  unfoldable pub promote : String → String → RulePackage Content → Call Content
  unfolding retire
  promote tenant id item g = elim (retire (lookup tenant g.active_by_tenant) g.packages) [
    | err x ↦ (err x, g)
    | ok packages ↦ (
      ok item,
      record {
        packages = insert id item packages;
        active_by_tenant = insert tenant item.package_id g.active_by_tenant;
      },
    )
  ]

  unfoldable pub activate : String → Instant → Call Content
  unfolding get promote
  activate id now g = elim (get id g >>= activating now) [
    | err x ↦ (err x, g)
    | ok item ↦ promote item.tenant_id id item g
  ]

  unfoldable pub rollback : String → String → Call Content
  unfolding get promote
  rollback tenant id g = elim (get id g >>= restoring tenant) [
    | err x ↦ (err x, g)
    | ok item ↦ promote tenant id item g
  ]

  -- `active`
  unfoldable pub active_package : String → RulePackageRegistry Content → Written Content
  active_package tenant g = elim (lookup tenant g.active_by_tenant) [
    | none ↦ err no_active_ruleset
    | some id ↦
        if id == "" then err no_active_ruleset else or_raise (lookup id g.packages) key_error
  ]

  module _ (signing_keys : Dict String String) (sign : Content → String → String)
      (digest : Content → String) where
    -- The checks of `submit`, and its package.
    unfoldable pub admit :
        Submission Content → String → Instant → RulePackageRegistry Content → Written Content
    admit s id now g = do
      raise_if (not s.effective_from.aware || until_holds (λ t. not t.aware) s.effective_until)
          timezone_required
      raise_if (until_holds (λ t. at_or_before t s.effective_from) s.effective_until)
          invalid_effective_period
      key ← or_raise (lookup s.signing_key_id signing_keys) unknown_signing_key
      raise_if (s.signature != sign s.content key) invalid_signature
      raise_if (any (λ p. p.tenant_id == s.tenant_id && p.version == s.version) (values g.packages))
          version_exists
      ok (record {
        package_id = id;
        tenant_id = s.tenant_id;
        version = s.version;
        effective_from = s.effective_from;
        effective_until = s.effective_until;
        submitted_by = s.submitted_by;
        content = s.content;
        content_sha256 = digest s.content;
        signature = s.signature;
        signing_key_id = s.signing_key_id;
        status = draft;
        approvals = [];
        shadow_evidence = none;
        created_at = now;
      })

    unfoldable pub submit : Submission Content → String → Instant → Call Content
    unfolding admit
    submit s id now g = elim (admit s id now g) [
      | err x ↦ (err x, g)
      | ok item ↦ (ok item, record g { packages = insert id item g.packages })
    ]
