-- ===== src/Tests/Rules.antt =====
-- A legal and an illegal assignment (rules/engine.py) and a rule package on its way to activation
-- (rules/governance.py).
use skysolver.Prelude.{
  ℕ, String, ◌≡◌, refl, ◌↔◌, Bool, true, false, none, some, List, [], ◌∷◌, arith, eq_iff, nat_eq,
  string_eq, pair_eq,
}
use skysolver.Rules.Engine.{
  max_fdp, check_connections, insert_leg, sorted_legs, repeats, locations, without_neo,
  qualification_named, check_continuity, check_no_deadhead_loops, check_deadhead_limits, check_leg,
  check_qualifications, check_rest_period, check_flight_time, a321, check_duty_time, a320,
  validate_assignment, can_assign, FlightLeg, Assignment, CrewMember, HourArithmetic,
}
use skysolver.Rules.Engine.Hours.{IsAccurate, IsBounded, total_of}
use skysolver.Prelude.Int.{ℤ, pos_part, neg_part}
use skysolver.Prelude.{◌+◌, ◌*◌, leb, ap, map}
use skysolver.Rules.Engine.Legality.{can_assign_iff, IsLegal}
use skysolver.Rules.Engine.Deadheads.{connecting_deadheads}
use skysolver.Rules.Governance.{
  get, retire, promote, admit, recording, shadowing, submit, approve, covers_required, approving,
  begin_shadow, record_shadow, edited, edit, activating, ShadowEvidence, RulePackageRegistry,
  activate, Submission,
}
use skysolver.Prelude.Dict.{insert, lookup, Dict}
use skysolver.Prelude.Clock.{Instant}
use skysolver.Rules.Governance.Activation.{IsGoverned}
use skysolver.Rules.Governance.History.{
  activated, written, submitted, empty, Reached, Reached-IsGoverned,
}
use skysolver.Prelude.Text.{strip}

abbrev leg : String → String → String → ℕ → ℕ → Bool → FlightLeg
leg id from to dep arr deadhead = record {
  flight_id = id;
  origin = from;
  destination = to;
  scheduled_dep = dep;
  scheduled_arr = arr;
  aircraft_type = "A321neo";
  is_deadhead = deadhead;
}

abbrev crew : CrewMember
crew = record {
  crew_id = "CRW-1";
  base_hub = "DEL";
  qualifications = a320 ∷ a321 ∷ [];
  duty_clock_start = none;
  current_location = "DEL";
  last_rest_end = some 100000;
}

abbrev shift : List FlightLeg → Assignment
shift legs = record {
  crew_id = "CRW-1";
  flight_legs = legs;
  duty_start = 140000;
  duty_start_hour = 14;
  duty_end = 160000;
}

abbrev there_and_back : Assignment
there_and_back =
    shift
      (leg "AI-2" "BOM" "DEL" 152000 159000 false ∷ leg "AI-1" "DEL" "BOM" 142000 149000 false ∷ [])

-- Hours as exact seconds, gained and lost.
abbrev exact_sum : List (ℕ × ℕ) → ℕ × ℕ
exact_sum [] = (0, 0)
exact_sum (x ∷ xs) = let rest = exact_sum xs in (x.0 + rest.0, x.1 + rest.1)

abbrev exact : HourArithmetic
exact = record {
  Hours = ℕ × ℕ;
  hours = λ x. (pos_part x, neg_part x);
  sum = exact_sum;
  at_most = λ x limit. leb x.0 (x.1 + limit * 3600);
}

exact_sum_total :
    (xs : List ℤ) → exact_sum (map exact.hours xs) ≡ (total_of pos_part xs, total_of neg_part xs)
exact_sum_total [] = refl
exact_sum_total (x ∷ xs) = ap (λ s. (pos_part x + s.0, neg_part x + s.1)) (exact_sum_total xs)

exact-IsAccurate : IsAccurate exact
exact-IsAccurate = record {
  below = λ xs limit short modest h. rw (exact_sum_total xs) (ground (arith, h));
  above = λ xs limit short modest h. rw (exact_sum_total xs) (ground (arith, h));
}

there_and_back-IsBounded : IsBounded there_and_back.flight_legs
unfolding IsBounded
there_and_back-IsBounded =
    (omega arith, ((omega arith, omega arith), ((omega arith, omega arith), tt)))

can_assign_iff_example :
    (can_assign exact crew there_and_back ≡ true) ↔ IsLegal exact crew there_and_back
can_assign_iff_example =
    can_assign_iff exact crew there_and_back exact-IsAccurate there_and_back-IsBounded

there_and_back_legal : can_assign exact crew there_and_back ≡ true
unfolding can_assign validate_assignment check_duty_time check_flight_time check_rest_period
    check_qualifications check_leg check_deadhead_limits check_no_deadhead_loops check_continuity
    qualification_named without_neo locations repeats sorted_legs insert_leg check_connections
    max_fdp
there_and_back_legal = refl

abbrev carried : Assignment
carried =
    shift
      (leg "AI-1" "DEL" "BOM" 142000 149000 true ∷ leg "AI-2" "BOM" "GOI" 152000 156000 true ∷ [])

connecting_deadheads_example : can_assign exact crew carried ≡ false
connecting_deadheads_example =
    connecting_deadheads exact crew carried (leg "AI-1" "DEL" "BOM" 142000 149000 true)
      (leg "AI-2" "BOM" "GOI" 152000 156000 true) [] refl refl refl refl

abbrev keys : Dict String String
keys = ("KEY-1", "secret") ∷ []

abbrev signed : String → String → String
signed content key = key

abbrev hashed : String → String
hashed content = content

abbrev at : ℕ → Instant
at n = record { seconds = n; aware = true }

abbrev submission : Submission String
submission = record {
  tenant_id = "airline";
  version = "2024.1";
  effective_from = at 100;
  effective_until = none;
  submitted_by = "author";
  content = "rules";
  signature = "secret";
  signing_key_id = "KEY-1";
}

abbrev evidence : ShadowEvidence
evidence = record {
  evidence_id = "EVD-1";
  cases_evaluated = 5;
  expected_matches = 5;
  unexpected_differences = 0;
  blocking_findings = 0;
  artifact_sha256 = "0123456789abcdef0123456789abcdef0123456789abcdef0123456789abcdef";
  recorded_at = at 150;
}

abbrev no_packages : RulePackageRegistry String
no_packages = record { packages = []; active_by_tenant = [] }

abbrev governed : RulePackageRegistry String
governed =
    (activate "RPK-1" (at 200)
      (edit "RPK-1" (record_shadow evidence)
        (edit "RPK-1" begin_shadow
          (edit "RPK-1" (approve "regulator" "regulatory-compliance" "checked" "APR-2" (at 120))
            (edit "RPK-1" (approve "chief" "airline-operations" "agreed" "APR-1" (at 110))
              (submit keys signed hashed submission "RPK-1" (at 90) no_packages).1).1).1).1).1).1

governed_index : lookup "airline" governed.active_by_tenant ≡ some "RPK-1"
unfolding activate activating edit edited approving covers_required shadowing recording submit admit
    promote retire get lookup insert strip
governed_index = refl

governed_steps : Reached keys signed hashed governed
unfolding lookup
governed_steps = activated "RPK-1" (at 200) (
    written "RPK-1" (record_shadow evidence) (
      written "RPK-1" begin_shadow (
        written "RPK-1" (approve "regulator" "regulatory-compliance" "checked" "APR-2" (at 120)) (
          written "RPK-1" (approve "chief" "airline-operations" "agreed" "APR-1" (at 110)) (
            submitted submission "RPK-1" (at 90) refl (ground (arith, eq_iff "RPK-1" "")) empty)))))

Reached-IsGoverned_example : IsGoverned governed
Reached-IsGoverned_example = Reached-IsGoverned keys signed hashed governed_steps
