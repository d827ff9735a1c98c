-- ===== src/Rules/Engine/Legality.antt =====
-- What an assignment that `can_assign` accepts satisfies (rules/engine.py), said without the list of
-- violations.
use skysolver.Prelude.{
  ◌+◌, ◌≡◌, refl, ◌↔◌, true, not, ◌&&◌, List, [], arith, leb, nat_eq, string_eq, pair_eq, is_empty,
  All,
}
use skysolver.Rules.Engine.{
  check_continuity, check_no_deadhead_loops, check_deadhead_limits, check_qualifications,
  check_rest_period, check_flight_time, check_duty_time, validate_assignment, rested,
  check_position, check_leg_time, can_assign, sorted_legs, locations, repeats, ridden, flown, fits,
  HourArithmetic, max_fdp, Assignment, collect, check_connections, check_leg, CrewMember, FlightLeg,
}
use skysolver.Prelude.{sym, subst}
use skysolver.Rules.Engine.Sequence.{Arranged, Connected, Timed, sorted_legs_only, arranged}
use skysolver.Rules.Engine.Hours.{
  over_flown, over_ridden, Within, IsAccurate, IsBounded, flown_iff, ridden_iff,
}
use skysolver.Rules.Engine.Duty.{DutyFits, duty_iff}
use skysolver.Rules.Engine.Checks.{
  IsQualified, StartsAt, Rested, is_empty-append, is_empty-unless, collect_iff, check_leg_iff,
  check_connections_iff, check_position_iff, check_leg_time_iff, rested_iff,
}
use skysolver.Rules.Engine.Places.{AreApart, visited, loop_iff}

-- The legs in an order in which each ends after it starts, and in which they lead from where the
-- crew member is through connecting places.
abbrev pub Sequence : CrewMember → List FlightLeg → Type 0
Sequence crew given =
    (legs : List FlightLeg) × Arranged given legs
    × All Timed legs
    × StartsAt crew.current_location legs
    × Connected legs

pub record IsLegal (F : HourArithmetic) (crew : CrewMember) (a : Assignment) : Type 0 where
  pub duty : DutyFits a
  pub flight :
      Within
        (over_flown (λ x. x.scheduled_arr) a.flight_legs)
        (over_flown (λ x. x.scheduled_dep) a.flight_legs)
        9
        (fits F 9 (flown a.flight_legs))
  pub rest : Rested crew.last_rest_end a.duty_start
  pub qualified : All (IsQualified crew) a.flight_legs
  pub deadhead :
      Within
        (over_ridden (λ x. x.scheduled_arr) a.flight_legs)
        (over_ridden (λ x. x.scheduled_dep) a.flight_legs)
        8
        (fits F 8 (ridden a.flight_legs))
  pub no_loop : AreApart (visited a.flight_legs)
  pub sequence : Sequence crew a.flight_legs

-- The seven checks together, as one conjunction.
pub validate_assignment_is_empty :
    (F : HourArithmetic) (crew : CrewMember) (a : Assignment)
    → can_assign F crew a ≡ (
        (((((is_empty (check_duty_time a) && is_empty (check_flight_time F a))
                && is_empty (check_rest_period crew a))
              && is_empty (check_qualifications crew a))
            && is_empty (check_deadhead_limits F a))
          && is_empty (check_no_deadhead_loops a))
        && is_empty (check_continuity crew a))
unfolding can_assign validate_assignment
validate_assignment_is_empty F crew a =
    rw
      (
        is_empty-append, is_empty-append, is_empty-append, is_empty-append, is_empty-append,
        is_empty-append,
      )
      refl

continuity_is_empty :
    (crew : CrewMember) (a : Assignment)
    → is_empty (check_continuity crew a) ≡ (
        (is_empty (collect check_leg_time (sorted_legs a.flight_legs))
          && is_empty (check_position crew (sorted_legs a.flight_legs)))
        && is_empty (check_connections (sorted_legs a.flight_legs)))
unfolding check_continuity
continuity_is_empty crew a = rw (is_empty-append, is_empty-append) refl

single_checks :
    (F : HourArithmetic) (crew : CrewMember) (a : Assignment)
    → (is_empty (check_duty_time a) ≡ leb a.duty_end (a.duty_start + max_fdp a))
      × (is_empty (check_flight_time F a) ≡ fits F 9 (flown a.flight_legs))
      × (is_empty (check_rest_period crew a) ≡ rested crew.last_rest_end a.duty_start)
      × (is_empty (check_deadhead_limits F a) ≡ fits F 8 (ridden a.flight_legs))
      × (is_empty (check_no_deadhead_loops a) ≡ not (repeats [] (locations a.flight_legs)))
unfolding check_duty_time check_flight_time check_rest_period check_deadhead_limits
    check_no_deadhead_loops
single_checks F crew a = (
  is_empty-unless _ _ _,
  is_empty-unless _ _ _,
  is_empty-unless _ _ _,
  is_empty-unless _ _ _,
  is_empty-unless _ _ _,
)

-- The checks of the sorted legs find nothing exactly when there is a legal order.
check_continuity_iff :
    (crew : CrewMember) (a : Assignment)
    → (is_empty (check_continuity crew a) ≡ true) ↔ Sequence crew a.flight_legs
check_continuity_iff crew a =
    let legs = sorted_legs a.flight_legs in
    let timed = collect_iff check_leg_time Timed check_leg_time_iff legs in
    let placed = check_position_iff crew legs in
    let linked = check_connections_iff legs in
    rw (continuity_is_empty crew a) (
      λ h. (
        legs,
        arranged a.flight_legs,
        timed.0 (ground arith),
        placed.0 (ground arith),
        linked.0 (ground arith),
      ),
      λ (ordered, order, times, start, meet).
          let same = sym (sorted_legs_only order times meet) in
          ground (
            arith,
            timed.1 (subst (All Timed) same times),
            placed.1 (subst (StartsAt crew.current_location) same start),
            linked.1 (subst Connected same meet),
          ),
    )

check_qualifications_iff :
    (crew : CrewMember) (a : Assignment)
    → (is_empty (check_qualifications crew a) ≡ true) ↔ All (IsQualified crew) a.flight_legs
unfolding check_qualifications
check_qualifications_iff crew a =
    collect_iff (check_leg crew) (IsQualified crew) (check_leg_iff crew) a.flight_legs

-- For at most a hundred legs of at most a hundred hours, and sums of hours that are wrong by less than
-- a second, a crew member can be assigned exactly when the duty keeps within the period for its number
-- of flown legs, an hour less for a start from two to six; the flown hours are below nine and the
-- deadhead hours below eight, or just at that where the rounded sum is not above it; the rest before the
-- duty is at least ten hours; every flown leg has a known type for which the crew member is qualified;
-- the places where deadheads start and end are all different; and the legs have an order in which each
-- ends after it starts, the first starts where the crew member is, and each starts where the one before
-- ended, at least half an hour later.
pub can_assign_iff :
    (F : HourArithmetic) (crew : CrewMember) (a : Assignment)
    → IsAccurate F
    → IsBounded a.flight_legs
    → (can_assign F crew a ≡ true) ↔ IsLegal F crew a
can_assign_iff F crew a accurate bounded =
    let (duty, flight, rest, deadhead, loops) = single_checks F crew a in
    let limits = duty_iff a in
    let hours = flown_iff F a.flight_legs accurate bounded in
    let carried = ridden_iff F a.flight_legs accurate bounded in
    let quals = check_qualifications_iff crew a in
    let apart = loop_iff a.flight_legs in
    let follow = check_continuity_iff crew a in
    let resting = rested_iff crew.last_rest_end a.duty_start in
    rw (validate_assignment_is_empty F crew a) (
      rw (duty, flight, rest, deadhead, loops)
        (
          λ h. record {
            duty = limits.0 (ground arith);
            flight = hours.0 (ground arith);
            rest = resting.0 (ground arith);
            qualified = quals.0 (ground arith);
            deadhead = carried.0 (ground arith);
            no_loop = apart.0 (ground arith);
            sequence = follow.0 (ground arith);
          },
          λ h. ground (
            arith,
            limits.1 h.duty,
            hours.1 h.flight,
            resting.1 h.rest,
            quals.1 h.qualified,
            carried.1 h.deadhead,
            apart.1 h.no_loop,
            follow.1 h.sequence,
          ),
        ))
