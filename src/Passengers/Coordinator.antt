-- ===== src/Passengers/Coordinator.antt =====
-- passengers/recovery_coordinator.py: the recovery of all passengers, and the joint gate over what it
-- proposes. The joint plan is over Passengers/Engine, State/Capacity and Core/Feasibility. The dict
-- of candidate routes is a dictionary, and an airport state is not passed, as in the source.
pub mod Seats
use skysolver.Prelude.{
  ℕ, zero, suc, ◌+◌, ◌-◌, ◌*◌, ◌≤◌, ◌<◌, String, ◌≡◌, refl, sym, ap, ◌∙◌, subst, ◌≢◌, ◌↔◌, ◌⊎◌, inl,
  inr, Bool, true, false, not, ◌&&◌, ◌||◌, Option, none, some, List, [], ◌∷◌, ◌++◌, map, arith,
  eq_iff, ltb, leb, before_text, nat_beq, nat_beq_iff, if◌then◌else◌, Eq, ◌==◌, ◌!=◌, nat_eq,
  string_eq, pair_eq, beq_refl, eq_of_beq, Bool-cases, Option-cases, is_none, is_some, length,
  is_empty, any, all, filter, length-append, contains, filter-append, All, All-append, Pointwise,
  Pointwise-refl, Pointwise-map, find_first, update_first, find_first_holds, Pointwise-update_first,
}
use skysolver.Prelude.Dict.{
  Dict, lookup, insert, erase, values, keys, lookup-insert, lookup-erase, insert-insert,
  lookup-insert_self, lookup-insert_ne, All-lookup, All-insert, All-erase, insert-cases,
  lookup-erase_ne, erase-cases, lookup_unique,
}
use skysolver.Prelude.Clock.{Instant}
use skysolver.Prelude.Int.{ℤ, pos, negsuc, ◌-ℤ◌}
use skysolver.Passengers.Engine.{
  Segment, PassengerEvent, rebooked, Passenger, recover, PassengerStatus, Route,
  PassengerRecoveryDecision,
}
use skysolver.State.Capacity.{Flights, FlightCapacity}
use skysolver.Core.Feasibility.{
  evaluate_proposals, PassengerItem, FeasibilityFinding, AircraftItem, CrewItem,
}

pub record PassengerPlanItem : Type 0 where
  pub status : PassengerStatus
  pub reason : String
  pub priority_score : ℕ

pub record JointRecoveryPlan : Type 0 where
  pub crew_plan : List CrewItem
  pub passenger_plan : Dict String PassengerPlanItem
  pub aircraft_plan : Dict String AircraftItem
  pub status : String
  pub deployable : Bool
  pub findings : List FeasibilityFinding

abbrev pub routes_of : Option (List Route) → List Route
routes_of none = []
routes_of (some rs) = rs

-- The first loop: the decision of each passenger, and the events.
unfoldable pub decide_all :
    List Passenger
    → Dict String (List Route)
    → Instant
    → Dict String PassengerRecoveryDecision
    → List PassengerEvent
    → Dict String PassengerRecoveryDecision × List PassengerEvent
unfolding recover
decide_all [] routes now decisions events = (decisions, events)
decide_all (p ∷ ps) routes now decisions events =
    let (decision, events') = recover p (routes_of (lookup p.passenger_id routes)) now events in
    decide_all ps routes now (insert p.passenger_id decision decisions) events'

abbrev pub plan_of : Dict String PassengerRecoveryDecision → Dict String PassengerPlanItem
plan_of [] = []
plan_of ((id, d) ∷ ds) =
    (id, record { status = d.status; reason = d.reason; priority_score = d.priority_score })
    ∷ plan_of ds

-- `getattr(capacity, f"{cabin}_total", 0)`, and the same for `booked`.
unfoldable pub total_in : String → FlightCapacity → ℤ
total_in cabin c =
    if cabin == "economy"
    then c.economy_total
    else if cabin == "premium_economy"
    then c.premium_economy_total
    else if cabin == "business"
    then c.business_total
    else if cabin == "first"
    then c.first_total
    else pos 0

unfoldable pub booked_in : String → FlightCapacity → ℤ
booked_in cabin c =
    if cabin == "economy"
    then c.economy_booked
    else if cabin == "premium_economy"
    then c.premium_economy_booked
    else if cabin == "business"
    then c.business_booked
    else if cabin == "first"
    then c.first_booked
    else pos 0

unfoldable pub seats_available : String → Option FlightCapacity → ℤ
unfolding total_in booked_in
seats_available cabin none = pos 0
seats_available cabin (some c) = total_in cabin c -ℤ booked_in cabin c

unfoldable pub action : Flights → Passenger → Segment → PassengerItem
unfolding seats_available
action flights p s = record {
  flight_id = s.flight_id;
  seats_required = pos 1;
  seats_available = seats_available p.cabin (lookup s.flight_id flights);
  mct_feasible = true;
  party_integrity = true;
  special_services_feasible = true;
  baggage_feasible = true;
}

abbrev pub is_rebooked : PassengerStatus → Bool
is_rebooked rebooked = true
is_rebooked _ = false

-- The actions of one passenger under a decision.
unfoldable pub actions_under : Flights → Passenger → PassengerRecoveryDecision → List PassengerItem
unfolding action
actions_under flights p d =
    if not (is_rebooked d.status)
    then []
    else elim d.itinerary [ none ↦ [] | some i ↦ map (action flights p) i.segments ]

-- The second loop.
unfoldable pub passenger_actions :
    Flights → List Passenger → Dict String PassengerRecoveryDecision → List PassengerItem
unfolding actions_under
passenger_actions flights [] decisions = []
passenger_actions flights (p ∷ ps) decisions =
    elim (lookup p.passenger_id decisions) [ none ↦ [] | some d ↦ actions_under flights p d ]
    ++ passenger_actions flights ps decisions

unfoldable pub coordinate :
    Flights
    → List Passenger
    → Dict String (List Route)
    → List CrewItem
    → Dict String AircraftItem
    → Instant
    → List PassengerEvent
    → JointRecoveryPlan × List PassengerEvent
unfolding decide_all passenger_actions
coordinate flights passengers routes crew aircraft now events =
    let (decisions, events') = decide_all passengers routes now [] events in
    let feasibility =
      evaluate_proposals crew (passenger_actions flights passengers decisions) aircraft [] in
    (
      record {
        crew_plan = crew;
        passenger_plan = plan_of decisions;
        aircraft_plan = aircraft;
        status = feasibility.status;
        deployable = feasibility.deployable;
        findings = feasibility.findings;
      },
      events',
    )
