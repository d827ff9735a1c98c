-- ===== src/Integrations/Health.antt =====
-- integrations/health.py: the interlock on the freshness and quality of the sources. Ages are whole
-- seconds; counts are natural numbers.
use skysolver.Prelude.{
  ℕ, ◌+◌, ◌-◌, ◌≤◌, String, ◌≡◌, refl, ap, ◌↔◌, inl, inr, Bool, true, false, not, ◌&&◌, ◌||◌,
  Option, none, some, List, [], ◌∷◌, ◌++◌, map, arith, eq_iff, leb, if◌then◌else◌, ◌==◌, nat_eq,
  string_eq, pair_eq, Bool-cases, is_empty, any, All,
}
use skysolver.Prelude.Dict.{Dict, insert, values}
use skysolver.Prelude.Clock.{Instant}

pub record SourceHealth : Type 0 where
  pub source_system : String
  pub authoritative : Bool
  pub required_for_solve : Bool
  pub required_for_deployment : Bool
  pub last_source_timestamp : Option Instant
  pub last_ingested_at : Option Instant
  pub max_freshness_seconds : ℕ
  pub dead_letter_count : ℕ
  pub reconciliation_drift_count : ℕ
  pub circuit_state : String
  pub contract_version : String

-- The code of each finding; their severity is always blocking, and the texts are left out.
pub data HealthFinding : Type 0 where
  source_not_authoritative source_stale dead_letters_pending reconciliation_drift
        adapter_circuit_open :
      HealthFinding

pub record EvaluatedSource : Type 0 where
  pub source : SourceHealth
  pub age_seconds : Option ℕ
  pub fresh : Bool
  pub findings : List HealthFinding

pub record HealthSnapshot : Type 0 where
  pub status : String
  pub solve_allowed : Bool
  pub deployment_allowed : Bool
  pub sources : List EvaluatedSource
  pub findings : List HealthFinding
  pub evaluated_at : Instant

pub record DataHealthRegistry : Type 0 where
  pub sources : Dict String SourceHealth
  pub allow_synthetic_solve : Bool

-- `max(0, (now - last_ingested_at).total_seconds())`
abbrev pub age : Instant → Option Instant → Option ℕ
age now none = none
age now (some t) = some (now.seconds - t.seconds)

abbrev pub within : ℕ → Option ℕ → Bool
within limit none = false
within limit (some n) = leb n limit

unfoldable pub report_unless : Bool → HealthFinding → List HealthFinding
report_unless passed f = if passed then [] else f ∷ []

unfoldable pub findings_of : Instant → SourceHealth → List HealthFinding
unfolding report_unless
findings_of now s =
    report_unless s.authoritative source_not_authoritative
    ++ (report_unless (within s.max_freshness_seconds (age now s.last_ingested_at)) source_stale
        ++ (report_unless (s.dead_letter_count == 0) dead_letters_pending
            ++ (report_unless (s.reconciliation_drift_count == 0) reconciliation_drift
                ++ report_unless (s.circuit_state == "closed") adapter_circuit_open)))

unfoldable pub evaluate : Instant → SourceHealth → EvaluatedSource
unfolding findings_of
evaluate now s = record {
  source = s;
  age_seconds = age now s.last_ingested_at;
  fresh = within s.max_freshness_seconds (age now s.last_ingested_at);
  findings = findings_of now s;
}

unfoldable pub update : SourceHealth → DataHealthRegistry → DataHealthRegistry
update s g = record g { sources = insert s.source_system s g.sources }

abbrev pub all_findings : List EvaluatedSource → List HealthFinding
all_findings [] = []
all_findings (e ∷ es) = e.findings ++ all_findings es

unfoldable pub blocks : (SourceHealth → Bool) → EvaluatedSource → Bool
blocks required e = not (is_empty e.findings) && required e.source

unfoldable pub snapshot : Instant → DataHealthRegistry → HealthSnapshot
unfolding evaluate blocks
snapshot now g =
    let evaluated = map (evaluate now) (values g.sources) in
    let solve_blocked = any (blocks (λ s. s.required_for_solve)) evaluated in
    let deployment_blocked =
      any (blocks (λ s. s.required_for_deployment)) evaluated || is_empty evaluated in
    record {
      status = if is_empty (all_findings evaluated) then "healthy" else "blocked_for_operations";
      solve_allowed = g.allow_synthetic_solve || not solve_blocked;
      deployment_allowed = not deployment_blocked;
      sources = evaluated;
      findings = all_findings evaluated;
      evaluated_at = now;
    }

unfoldable pub demo_registry : DataHealthRegistry
unfolding update
demo_registry =
    update
      (record {
        source_system = "skysolver-scenario-fixture";
        authoritative = false;
        required_for_solve = true;
        required_for_deployment = true;
        last_source_timestamp = none;
        last_ingested_at = none;
        max_freshness_seconds = 0;
        dead_letter_count = 0;
        reconciliation_drift_count = 0;
        circuit_state = "closed";
        contract_version = "fixture-v1";
      })
      (record { sources = []; allow_synthetic_solve = true })

-- A source that an operation may rest on.
unfoldable pub IsHealthy : Instant → SourceHealth → Type 0
IsHealthy now s =
    (s.authoritative ≡ true)
    × ((t : Instant) × (s.last_ingested_at ≡ some t)
        × (now.seconds ≤ t.seconds + s.max_freshness_seconds))
    × (s.dead_letter_count ≡ 0)
    × (s.reconciliation_drift_count ≡ 0)
    × (◌≡◌ {A = String} s.circuit_state "closed")

within_iff :
    (limit : ℕ) (now : Instant) (o : Option Instant)
    → (within limit (age now o) ≡ true)
      ↔ ((t : Instant) × (o ≡ some t) × (now.seconds ≤ t.seconds + limit))
within_iff limit now none = (λ h. absurd (cc), λ h. absurd (ground (arith, h.1)))
within_iff limit now (some t) =
    (λ h. (t, refl, ground arith), λ h. ground (arith, h.2, ap (λ o. o) h.1))

findings_of_iff :
    (now : Instant) (s : SourceHealth) → (is_empty (findings_of now s) ≡ true) ↔ IsHealthy now s
unfolding findings_of report_unless IsHealthy
findings_of_iff now s = ground (
  arith,
  within_iff s.max_freshness_seconds now s.last_ingested_at,
  eq_iff s.circuit_state "closed",
)

blocks_iff :
    (required : SourceHealth → Bool) (now : Instant) (s : SourceHealth)
    → (blocks required (evaluate now s) ≡ false) ↔ (required s ≡ true → IsHealthy now s)
unfolding blocks evaluate
blocks_iff required now s = elim (Bool-cases (is_empty (findings_of now s))) [
  | inl clean ↦ (λ h r. (findings_of_iff now s).0 clean, λ h. ground (arith, clean))
  | inr dirty ↦ (
    λ h r. absurd (ground (arith, dirty, h, r)),
    λ h. elim (Bool-cases (required s)) [
      | inl wanted ↦ absurd (ground (arith, dirty, (findings_of_iff now s).1 (h wanted)))
      | inr idle ↦ ground (arith, idle)
    ],
  )
]

nothing_blocks :
    (required : SourceHealth → Bool) (now : Instant) (ss : List SourceHealth)
    → (any (blocks required) (map (evaluate now) ss) ≡ false)
      ↔ All (λ s. required s ≡ true → IsHealthy now s) ss
nothing_blocks required now [] = (λ h. tt, λ h. refl)
nothing_blocks required now (s ∷ ss) =
    let here = blocks_iff required now s in
    let later = nothing_blocks required now ss in
    (
      λ h. (here.0 (ground (arith, h)), later.0 (ground (arith, h))),
      λ h. ground (arith, here.1 h.0, later.1 h.1),
    )

is_empty-map :
    (f : SourceHealth → EvaluatedSource) (ss : List SourceHealth)
    → is_empty (map f ss) ≡ is_empty ss
is_empty-map f [] = refl
is_empty-map f (s ∷ ss) = refl

-- Deployment is allowed exactly when some source is known and every source that deployment requires is
-- authoritative, ingested within its freshness limit, without dead letters or drift, and on a closed
-- circuit.
pub deployment_allowed_iff :
    (now : Instant) (g : DataHealthRegistry)
    → ((snapshot now g).deployment_allowed ≡ true) ↔ (
        (is_empty (values g.sources) ≡ false)
        × All (λ s. s.required_for_deployment ≡ true → IsHealthy now s) (values g.sources))
unfolding snapshot
deployment_allowed_iff now g =
    let quiet = nothing_blocks (λ s. s.required_for_deployment) now (values g.sources) in
    let sized = is_empty-map (evaluate now) (values g.sources) in
    (
      λ h. (ground (arith, h, sized), quiet.0 (ground (arith, h))),
      λ h. ground (arith, sized, h.0, quiet.1 h.1),
    )
