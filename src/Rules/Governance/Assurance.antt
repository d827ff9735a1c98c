-- ===== src/Rules/Governance/Assurance.antt =====
-- What the status of a rule package says of it (rules/governance.py).
use skysolver.Prelude.{
  ◌+◌, ◌≤◌, String, ◌≡◌, sym, subst, ◌≢◌, inl, inr, Bool, true, false, not, ◌&&◌, ◌||◌, Option,
  none, some, List, [], ◌∷◌, ◌++◌, arith, eq_iff, if◌then◌else◌, ◌==◌, nat_eq, string_eq, pair_eq,
  Option-cases, any, all, All, All-append,
}
use skysolver.Rules.Governance.{
  shadow, active, recording, shadowing, restoring, activating, begin_shadow, approved,
  record_shadow, approve, covers_required, ok, count, required, Edit, code, approving, RulePackage,
  ShadowEvidence, RuleApproval, edited,
}
use skysolver.Prelude.Clock.{Instant}
use skysolver.Prelude.Text.{strip}

-- Two approvals that are independent of one another.
abbrev pub Independent : RuleApproval → RuleApproval → Type 0
Independent a b = (a.actor ≢ b.actor) × (a.authority ≢ b.authority)

abbrev pub AllIndependent : List RuleApproval → Type 0
AllIndependent [] = Unit
AllIndependent (a ∷ rest) = All (Independent a) rest × AllIndependent rest

abbrev pub ByOthers : String → RuleApproval → Type 0
ByOthers submitter a = (a.actor ≢ submitter) × (required a.authority ≡ true) × (a.reason ≢ "")

AllIndependent-append :
    (l : List RuleApproval) (b : RuleApproval)
    → AllIndependent l
    → All (λ a. Independent a b) l
    → AllIndependent (l ++ b ∷ [])
AllIndependent-append [] b h i = (tt, tt)
AllIndependent-append (a ∷ l) b h i =
    (All-append (Independent a) l (b ∷ []) h.0 (i.0, tt), AllIndependent-append l b h.1 i.1)

unknown_Independent :
    (l : List RuleApproval) (b : RuleApproval)
    → any (λ a. a.actor == b.actor || a.authority == b.authority) l ≡ false
    → All (λ a. Independent a b) l
unknown_Independent [] b h = tt
unknown_Independent (a ∷ l) b h = (
  (ground (arith, eq_iff a.actor b.actor), ground (arith, eq_iff a.authority b.authority)),
  unknown_Independent l b (ground arith),
)

any-append :
    (f : RuleApproval → Bool) (l : List RuleApproval) (b : RuleApproval)
    → any f (l ++ b ∷ []) ≡ (any f l || f b)
any-append f [] b = ground arith
any-append f (a ∷ l) b = rw (any-append f l b) (ground arith)

all-append :
    (f : RuleApproval → Bool) (l : List RuleApproval) (b : RuleApproval)
    → all f (l ++ b ∷ []) ≡ (all f l && f b)
all-append f [] b = ground arith
all-append f (a ∷ l) b = rw (all-append f l b) (ground arith)

-- A further approval by a required authority takes nothing away.
covers_required-append :
    (l : List RuleApproval) (b : RuleApproval)
    → required b.authority ≡ true
    → covers_required l ≡ true
    → covers_required (l ++ b ∷ []) ≡ true
unfolding covers_required
covers_required-append l b r h = rw (any-append (λ a. a.authority == "airline-operations") l b) (
    rw (any-append (λ a. a.authority == "regulatory-compliance") l b)
      (rw (all-append (λ a. required a.authority) l b) (ground arith)))

-- A clean shadow run.
abbrev pub is_clean : Option ShadowEvidence → Bool
is_clean none = false
is_clean (some e) =
    not (e.cases_evaluated == 0)
    && (e.expected_matches == e.cases_evaluated
        && (e.unexpected_differences == 0
            && (e.blocking_findings == 0 && count e.artifact_sha256 == 64)))

abbrev pub is_counted : Option ShadowEvidence → Bool
is_counted none = true
is_counted (some e) =
    not (e.cases_evaluated == 0)
    && (e.expected_matches + e.unexpected_differences == e.cases_evaluated
        && count e.artifact_sha256 == 64)

module _ {Content : Type 0} where
  pub record IsAssured (p : RulePackage Content) : Type 0 where
    pub by_others : All (ByOthers p.submitted_by) p.approvals
    pub independent : AllIndependent p.approvals
    pub covered : 1 ≤ code p.status → covers_required p.approvals ≡ true
    pub evidenced : is_counted p.shadow_evidence ≡ true
    pub clean : 3 ≤ code p.status → is_clean p.shadow_evidence ≡ true
    pub known : code p.status ≤ 4

  approving-eq-ok :
      (actor authority reason id : String) (now : Instant) (p q : RulePackage Content)
      → approving actor authority reason id now p ≡ ok q
      → let a : RuleApproval = record {
        approval_id = id;
        actor = actor;
        authority = authority;
        reason = strip reason;
        approved_at = now;
      } in
        ByOthers p.submitted_by a
        × (any (λ x. x.actor == actor || x.authority == authority) p.approvals ≡ false)
        × (code p.status ≤ 1)
        × (q ≡ record p {
          approvals = p.approvals ++ a ∷ [];
          status = if covers_required (p.approvals ++ a ∷ []) then approved else p.status;
        })
  unfolding approving
  approving-eq-ok actor authority reason id now p q h = (
    (
      ground (arith, eq_iff actor p.submitted_by),
      ground arith,
      ground (arith, eq_iff (strip reason) ""),
    ),
    ground arith,
    ground arith,
    ground arith,
  )

  approved-IsAssured :
      (p : RulePackage Content) (a : RuleApproval)
      → IsAssured p
      → ByOthers p.submitted_by a
      → any (λ x. x.actor == a.actor || x.authority == a.authority) p.approvals ≡ false
      → code p.status ≤ 1
      → IsAssured (record p {
        approvals = p.approvals ++ a ∷ [];
        status = if covers_required (p.approvals ++ a ∷ []) then approved else p.status;
      })
  approved-IsAssured p a h other new before = record {
    by_others = All-append (ByOthers p.submitted_by) p.approvals (a ∷ []) h.by_others (other, tt);
    independent =
        AllIndependent-append p.approvals a h.independent (unknown_Independent p.approvals a new);
    covered = ground (arith, covers_required-append p.approvals a other.1, h.covered);
    evidenced = h.evidenced;
    clean = ground (arith, h.clean);
    known = ground (arith, h.known);
  }

  -- Approvals, shadow runs and their records keep the assurance of a package.
  pub edited-IsAssured :
      (e : Edit) (p q : RulePackage Content) → IsAssured p → edited e p ≡ ok q → IsAssured q
  unfolding edited shadowing recording
  edited-IsAssured (approve actor authority reason id now) p q h e =
      let (other, new, before, result) = approving-eq-ok actor authority reason id now p q e in
      subst IsAssured (sym result) (approved-IsAssured p _ h other new before)
  edited-IsAssured begin_shadow p q h e =
      subst IsAssured {x = record p { status = shadow }} (ground arith) (record {
        by_others = h.by_others;
        independent = h.independent;
        covered = λ _. h.covered (ground arith);
        evidenced = h.evidenced;
        clean = λ x. absurd (omega arith);
        known = omega arith;
      })
  edited-IsAssured (record_shadow x) p q h e =
      subst IsAssured {x = record p { shadow_evidence = some x }} (ground arith) (record {
        by_others = h.by_others;
        independent = h.independent;
        covered = h.covered;
        evidenced = ground arith;
        clean = λ y. absurd (ground arith);
        known = h.known;
      })

  -- An activation finds a clean shadow run.
  pub activating-IsAssured :
      (now : Instant) (p q : RulePackage Content)
      → IsAssured p
      → activating now p ≡ ok q
      → IsAssured q
  unfolding activating
  activating-IsAssured now p q h e = elim (Option-cases p.shadow_evidence) [
    | inl absent ↦ absurd (ground arith)
    | inr (x, given) ↦ subst IsAssured {x = record p { status = active }} (ground arith) (record {
      by_others = h.by_others;
      independent = h.independent;
      covered = λ _. h.covered (ground arith);
      evidenced = h.evidenced;
      clean = λ _. ground (arith, h.evidenced);
      known = omega arith;
    })
  ]

  pub restoring-IsAssured :
      (tenant : String) (p q : RulePackage Content)
      → IsAssured p
      → restoring tenant p ≡ ok q
      → IsAssured q
  unfolding restoring
  restoring-IsAssured tenant p q h e =
      subst IsAssured {x = record p { status = active }} (ground arith) (record {
        by_others = h.by_others;
        independent = h.independent;
        covered = λ _. h.covered (ground arith);
        evidenced = h.evidenced;
        clean = λ _. h.clean (ground arith);
        known = omega arith;
      })
