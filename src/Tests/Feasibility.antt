-- ===== src/Tests/Feasibility.antt =====
-- One flight with its crew and aircraft, and two passengers for its last seat
-- (core/recovery_coordinator.py, passengers/, state/capacity_manager.py).
use skysolver.Prelude.{
  String, ◌≡◌, refl, ◌↔◌, ◌⊎◌, inl, Bool, true, false, none, some, List, [], ◌∷◌, ◌++◌, nat_eq,
  string_eq, pair_eq, length, contains,
}
use skysolver.Core.Feasibility.{
  unless, check_airport, check_passengers, check_aircraft, check_crew, check_flight, check_flights,
  evaluate_proposals, passengers_by_flight, CrewItem, PassengerItem, AircraftItem, crew_by_flight,
  report,
}
use skysolver.Prelude.Dict.{Dict, lookup, insert, keys}
use skysolver.Prelude.Clock.{Instant}
use skysolver.Prelude.Int.{◌-ℤ◌, ℤ, pos, ◌≤ℤ◌}
use skysolver.Passengers.Engine.{
  priority_score, decide, itinerary, rank_before, ranked, rebooked, validate_itinerary, waitlisted,
  legal_itineraries, Segment, recover, Route, Passenger,
}
use skysolver.State.Capacity.{Flights, FlightCapacity}
use skysolver.Passengers.Coordinator.{
  booked_in, total_in, seats_available, actions_under, passenger_actions, action, decide_all,
  coordinate,
}
use skysolver.Passengers.Engine.Ranking.{recover_best, IsLegal, Among}
use skysolver.Core.Feasibility.Deployable.{deployable_iff, IsReady, AircraftReady, CrewReady}
use skysolver.Passengers.Coordinator.Seats.{coordinate_ready, actions}
use skysolver.Prelude.Sets.{insert_once, sorted_set}

abbrev crew : List CrewItem
crew =
    record {
      flight_id = "F-1";
      legal = true;
      roles = "captain" ∷ "first-officer" ∷ "cabin-crew" ∷ [];
      positioning_feasible = true;
    }
    ∷ []

abbrev aircraft : Dict String AircraftItem
aircraft =
    (
      "F-1",
      record {
        tail = some "VT-ABC";
        available = true;
        compatible = true;
        maintenance_clear = true;
        turn_feasible = true;
      },
    )
    ∷ []

abbrev last_seat : FlightCapacity
last_seat = record {
  flight_id = "F-1";
  economy_total = pos 180;
  premium_economy_total = pos 0;
  business_total = pos 8;
  first_total = pos 0;
  economy_booked = pos 179;
  premium_economy_booked = pos 0;
  business_booked = pos 8;
  first_booked = pos 0;
}

abbrev flights : Flights
flights = ("F-1", last_seat) ∷ []

abbrev traveller : String → Passenger
traveller id = record {
  passenger_id = id;
  cabin = "economy";
  frequent_flyer_tier = 2;
  wheelchair_required = true;
  minor = false;
  medical_requirements = [];
}

abbrev segment : Bool → Segment
segment wheelchair = record {
  flight_id = "F-1";
  requires_wheelchair = wheelchair;
  minor_restricted = false;
}

abbrev route : Bool → ℤ → Route
route wheelchair score = record { segments = segment wheelchair ∷ []; score = score; reason = "" }

-- The route with the greatest score is not legal.
abbrev choices : List Route
choices = route false (pos 3) ∷ route true (pos 9) ∷ route false (pos 5) ∷ []

abbrev now : Instant
now = record { seconds = 10; aware = true }

recovered :
    (recover (traveller "P-1") choices now []).0.itinerary
    ≡ some
        (record { passenger_id = "P-1"; segments = segment false ∷ []; score = pos 5; reason = "" })
unfolding recover legal_itineraries validate_itinerary ranked rank_before decide
recovered = refl

recover_best_example :
    (((r : Route) → Among r choices → ¬ IsLegal (traveller "P-1") r)
      × ((recover (traveller "P-1") choices now []).0.status ≡ waitlisted)
      × ((recover (traveller "P-1") choices now []).0.itinerary ≡ none))
    ⊎ ((best : Route) × Among best choices
        × IsLegal (traveller "P-1") best
        × ((r : Route) → Among r choices → IsLegal (traveller "P-1") r → r.score ≤ℤ best.score)
        × ((recover (traveller "P-1") choices now []).0.status ≡ rebooked)
        × ((recover (traveller "P-1") choices now []).0.itinerary
            ≡ some (itinerary (traveller "P-1") best)))
recover_best_example = recover_best (traveller "P-1") choices now []

abbrev both : List Passenger
both = traveller "P-1" ∷ traveller "P-2" ∷ []

abbrev routes : Dict String (List Route)
routes = ("P-1", choices) ∷ ("P-2", choices) ∷ []

-- Both passengers get the flight with one seat left, and the plan may be deployed.
both_on_last_seat : (coordinate flights both routes crew aircraft now []).0.deployable ≡ true
unfolding coordinate decide_all recover legal_itineraries validate_itinerary ranked rank_before
    decide priority_score passenger_actions actions_under action seats_available total_in booked_in
    evaluate_proposals report check_flights check_flight check_crew check_aircraft check_passengers
    check_airport unless lookup insert sorted_set insert_once ◌-ℤ◌
both_on_last_seat = refl

moved : length (actions flights both routes crew aircraft now []) ≡ 2
unfolding decide_all recover legal_itineraries validate_itinerary ranked rank_before decide
    passenger_actions actions_under lookup insert
moved = refl

abbrev seat_item : PassengerItem
seat_item = record {
  flight_id = "F-1";
  seats_required = pos 1;
  seats_available = pos 1;
  mct_feasible = true;
  party_integrity = true;
  special_services_feasible = true;
  baggage_feasible = true;
}

seat_item-Among : Among seat_item (actions flights both routes crew aircraft now [])
unfolding Among decide_all recover legal_itineraries validate_itinerary ranked rank_before decide
    passenger_actions actions_under action seats_available total_in booked_in lookup insert ◌-ℤ◌
seat_item-Among = inl refl

coordinate_ready_example :
    CrewReady (lookup "F-1" (crew_by_flight crew []))
    × AircraftReady (lookup "F-1" aircraft)
    × ((b : PassengerItem)
        → lookup "F-1" (passengers_by_flight (actions flights both routes crew aircraft now []) [])
          ≡ some b
        → (b.seats_required ≡ pos 1) × (pos 1 ≤ℤ b.seats_available))
coordinate_ready_example =
    coordinate_ready flights both routes crew aircraft now [] seat_item both_on_last_seat
      seat_item-Among

deployable_iff_example : ((report (crew_by_flight crew []) [] aircraft []).deployable ≡ true) ↔ (
    (id : String)
    → contains id (keys (crew_by_flight crew []) ++ (keys {V = PassengerItem} [] ++ keys aircraft))
      ≡ true
    → IsReady (crew_by_flight crew []) [] aircraft [] id)
deployable_iff_example = deployable_iff (crew_by_flight crew []) [] aircraft []
