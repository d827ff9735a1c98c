-- ===== src/Rules/Engine/Deadheads.antt =====
-- Two deadhead legs that follow one another (rules/engine.py, `_check_no_deadhead_loops`).
use skysolver.Prelude.{
  ◌≡◌, ap, ◌∙◌, true, false, List, [], ◌∷◌, arith, eq_iff, nat_eq, string_eq, pair_eq, is_empty,
}
use skysolver.Rules.Engine.{
  can_assign, FlightLeg, Assignment, locations, CrewMember, repeats, HourArithmetic,
  check_no_deadhead_loops,
}
use skysolver.Rules.Engine.Legality.{validate_assignment_is_empty}

connecting_repeats :
    (x y : FlightLeg) (legs : List FlightLeg)
    → x.is_deadhead ≡ true
    → y.is_deadhead ≡ true
    → x.destination ≡ y.origin
    → repeats [] (locations (x ∷ y ∷ legs)) ≡ true
unfolding repeats locations
connecting_repeats x y legs first second same =
    ground (arith, eq_iff x.destination y.origin, eq_iff x.origin y.origin)

refused :
    (a : Assignment)
    → repeats [] (locations a.flight_legs) ≡ true
    → is_empty (check_no_deadhead_loops a) ≡ false
unfolding check_no_deadhead_loops
refused a h = ground (arith, h)

-- When the first two legs are deadheads and the second starts where the first ends, the assignment
-- is always refused, whoever the crew member is and whatever the other legs are.
pub connecting_deadheads :
    (F : HourArithmetic) (crew : CrewMember) (a : Assignment) (x y : FlightLeg)
    (legs : List FlightLeg)
    → a.flight_legs ≡ x ∷ y ∷ legs
    → x.is_deadhead ≡ true
    → y.is_deadhead ≡ true
    → x.destination ≡ y.origin
    → can_assign F crew a ≡ false
connecting_deadheads F crew a x y legs at first second same =
    let looped =
      ap (λ l. repeats [] (locations l)) at ∙ connecting_repeats x y legs first second same in
    ground (arith, validate_assignment_is_empty F crew a, refused a looped)
