-- ===== src/Core/Feasibility/Deployable.antt =====
-- What a deployable report of core/recovery_coordinator.py means for each flight.
use skysolver.Prelude.{
  String, ◌≡◌, refl, sym, ◌∙◌, subst, ◌↔◌, inl, inr, Bool, true, not, ◌&&◌, Option, none, some,
  List, [], ◌∷◌, ◌++◌, arith, ◌==◌, nat_eq, string_eq, pair_eq, beq_refl, eq_of_beq, Bool-cases,
  is_empty, filter, contains,
}
use skysolver.Prelude.Dict.{Dict, lookup, keys}
use skysolver.Prelude.Sets.{contains-sorted_set}
use Prim.Native.String.{◌++◌ as append}
use skysolver.Prelude.Int.{◌≤ℤ◌}
use skysolver.Core.Feasibility.{
  join_comma, all_flights, finding, report, check_flight, check_flights, missing_roles,
  required_crew_roles, check_airport, CrewItem, check_passengers, FeasibilityFinding, PassengerItem,
  check_crew, unless, AircraftItem, check_aircraft, AirportItem,
}

-- A legal crew of every required role that can be in position.
pub CrewReady : Option CrewItem → Type 0
CrewReady none = ⊥
CrewReady (some c) =
    (c.legal ≡ true)
    × ((r : String) → contains r required_crew_roles ≡ true → contains r c.roles ≡ true)
    × (c.positioning_feasible ≡ true)

pub AircraftReady : Option AircraftItem → Type 0
AircraftReady none = ⊥
AircraftReady (some a) =
    (a.available ≡ true)
    × (a.compatible ≡ true)
    × (a.maintenance_clear ≡ true)
    × (a.turn_feasible ≡ true)

-- Where passengers are to move: seats for the item, and four checks.
unfoldable pub PassengersReady : Option PassengerItem → Type 0
PassengersReady none = Unit
PassengersReady (some p) =
    (p.seats_required ≤ℤ p.seats_available)
    × (p.mct_feasible ≡ true)
    × (p.party_integrity ≡ true)
    × (p.special_services_feasible ≡ true)
    × (p.baggage_feasible ≡ true)

pub AirportReady : Option AirportItem → Type 0
AirportReady none = Unit
AirportReady (some a) =
    (a.gate_compatible ≡ true)
    × (a.slot_valid ≡ true)
    × (a.curfew_clear ≡ true)
    × (a.ground_resources_available ≡ true)

is_empty-append :
    (xs ys : List FeasibilityFinding) → is_empty (xs ++ ys) ≡ (is_empty xs && is_empty ys)
is_empty-append [] ys = refl
is_empty-append (x ∷ xs) ys = refl

three_clear :
    (a b c : Bool) (f g h : FeasibilityFinding)
    → (is_empty (unless a f ++ (unless b g ++ unless c h)) ≡ true)
      ↔ ((a ≡ true) × (b ≡ true) × (c ≡ true))
unfolding unless
three_clear a b c f g h = ground arith

all_roles :
    (roles wanted : List String)
    → (is_empty (filter (λ r. not (contains r roles)) wanted) ≡ true)
      ↔ ((r : String) → contains r wanted ≡ true → contains r roles ≡ true)
all_roles roles [] = (λ e r h. absurd (cc), λ h. refl)
all_roles roles (w ∷ ws) = elim (Bool-cases (contains w roles)) [
  | inl here ↦ (
    λ e r h. elim (Bool-cases (r == w)) [
      | inl same ↦ rw (eq_of_beq r w same) here
      | inr other ↦ (all_roles roles ws).0 (rw here at e) r (ground arith)
    ],
    λ h. rw here ((all_roles roles ws).1 (λ r m. h r (ground arith))),
  )
  | inr lacks ↦ (
    λ e. absurd (ground (arith, rw lacks at e)),
    λ h. absurd (ground (arith, lacks, h w (rw (beq_refl w) refl))),
  )
]

check_crew_iff :
    (id : String) (o : Option CrewItem) → (is_empty (check_crew id o) ≡ true) ↔ CrewReady o
unfolding check_crew CrewReady
check_crew_iff id none = (λ e. absurd (cc), λ r. absurd r)
check_crew_iff id (some c) =
    let clear =
      three_clear c.legal (is_empty (missing_roles c)) c.positioning_feasible
        (finding "CREW_ILLEGAL" "crew" id "Crew assignment has no valid legality certificate")
        (finding "CREW_COMPLEMENT_INCOMPLETE" "crew" id
          (append "Missing roles: " (join_comma (missing_roles c))))
        (finding "CREW_POSITIONING_IMPOSSIBLE" "crew" id
          "Crew cannot reach report point in time") in
    (
      λ e.
          let (legal, full, placed) = clear.0 e in
          (legal, (all_roles c.roles required_crew_roles).0 full, placed),
      λ r. clear.1 (r.0, (all_roles c.roles required_crew_roles).1 r.1, r.2),
    )

check_aircraft_iff :
    (id : String) (o : Option AircraftItem)
    → (is_empty (check_aircraft id o) ≡ true) ↔ AircraftReady o
unfolding check_aircraft AircraftReady unless
check_aircraft_iff id none = (λ e. absurd (cc), λ r. absurd r)
check_aircraft_iff id (some a) = ground arith

check_passengers_iff :
    (id : String) (o : Option PassengerItem)
    → (is_empty (check_passengers id o) ≡ true) ↔ PassengersReady o
unfolding check_passengers PassengersReady unless
check_passengers_iff id none = (λ e. tt, λ r. refl)
check_passengers_iff id (some p) = ground arith

check_airport_iff :
    (id : String) (o : Option AirportItem) → (is_empty (check_airport id o) ≡ true) ↔ AirportReady o
unfolding check_airport AirportReady unless
check_airport_iff id none = (λ e. tt, λ r. refl)
check_airport_iff id (some a) = ground arith

module _ (crew : Dict String CrewItem) (passengers : Dict String PassengerItem)
    (aircraft : Dict String AircraftItem) (airports : Dict String AirportItem) where
  unfoldable pub IsReady : String → Type 0
  IsReady id =
      CrewReady (lookup id crew)
      × AircraftReady (lookup id aircraft)
      × PassengersReady (lookup id passengers)
      × AirportReady (lookup id airports)

  check_flight_iff :
      (id : String)
      → (is_empty (check_flight crew passengers aircraft airports id) ≡ true) ↔ IsReady id
  unfolding check_flight IsReady
  check_flight_iff id =
      let c = check_crew id (lookup id crew) in
      let a = check_aircraft id (lookup id aircraft) in
      let p = check_passengers id (lookup id passengers) in
      let g = check_airport id (lookup id airports) in
      ground (
        arith,
        check_crew_iff id (lookup id crew),
        check_aircraft_iff id (lookup id aircraft),
        check_passengers_iff id (lookup id passengers),
        check_airport_iff id (lookup id airports),
        is_empty-append c (a ++ (p ++ g)),
        is_empty-append a (p ++ g),
        is_empty-append p g,
      )

  check_flights_iff :
      (ids : List String)
      → (is_empty (check_flights crew passengers aircraft airports ids) ≡ true)
        ↔ ((id : String) → contains id ids ≡ true → IsReady id)
  unfolding check_flights
  check_flights_iff [] = (λ e id h. absurd (cc), λ h. refl)
  check_flights_iff (i ∷ ids) = (
    λ e id h.
        let split : (is_empty (check_flight crew passengers aircraft airports i)
              && is_empty (check_flights crew passengers aircraft airports ids))
            ≡ true =
          sym (is_empty-append (check_flight crew passengers aircraft airports i) _) ∙ e in
        elim (Bool-cases (id == i)) [
          | inl same ↦
              subst IsReady (sym (eq_of_beq id i same))
                ((check_flight_iff i).0 (ground (arith, split)))
          | inr other ↦ (check_flights_iff ids).0 (ground (arith, split)) id (ground arith)
        ],
    λ h.
        is_empty-append (check_flight crew passengers aircraft airports i) _
        ∙ rw ((check_flight_iff i).1 (h i (rw (beq_refl i) refl)))
            ((check_flights_iff ids).1 (λ id m. h id (ground (arith, m)))),
  )

  -- A report lets a recovery be deployed exactly when every flight that a crew, passenger or aircraft
  -- proposal names is ready: it has a legal crew of all three roles that can be in position, an
  -- aircraft that passes its four checks, and, where passengers or an airport are given, the seats
  -- for the passenger item and a clean result of their checks.
  pub deployable_iff : ((report crew passengers aircraft airports).deployable ≡ true) ↔ (
      (id : String)
      → contains id (keys crew ++ (keys passengers ++ keys aircraft)) ≡ true
      → IsReady id)
  unfolding report
  deployable_iff = (
    λ e id m.
        (check_flights_iff (all_flights crew passengers aircraft airports)).0 e id
          (contains-sorted_set id _ ∙ m),
    λ h. (check_flights_iff (all_flights crew passengers aircraft airports)).1 (λ id m.
        h id (sym (contains-sorted_set id (keys crew ++ (keys passengers ++ keys aircraft))) ∙ m)),
  )
