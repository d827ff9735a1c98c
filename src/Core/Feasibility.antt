-- ===== src/Core/Feasibility.antt =====
-- core/recovery_coordinator.py: the joint gate over crew, aircraft, passengers and airports. An item
-- of a proposal is a record; a field that a dictionary lacks has the default that the code reads,
-- false or 0, and an airport entry that is empty counts as absent.
pub mod Deployable
use skysolver.Prelude.{
  ℕ, zero, suc, ◌+◌, ◌-◌, ◌*◌, ◌≤◌, ◌<◌, String, ◌≡◌, refl, sym, ap, ◌∙◌, subst, ◌≢◌, ◌↔◌, ◌⊎◌, inl,
  inr, Bool, true, false, not, ◌&&◌, ◌||◌, Option, none, some, List, [], ◌∷◌, ◌++◌, map, arith,
  eq_iff, ltb, leb, before_text, nat_beq, nat_beq_iff, if◌then◌else◌, Eq, ◌==◌, ◌!=◌, nat_eq,
  string_eq, pair_eq, beq_refl, eq_of_beq, Bool-cases, Option-cases, is_none, is_some, length,
  is_empty, any, all, filter, length-append, contains, filter-append, All, All-append, Pointwise,
  Pointwise-refl, Pointwise-map, find_first, update_first, find_first_holds, Pointwise-update_first,
}
use skysolver.Prelude.Dict.{
  Dict, lookup, insert, erase, values, keys, lookup-insert, lookup-erase, insert-insert,
  lookup-insert_self, lookup-insert_ne, All-lookup, All-insert, All-erase, insert-cases,
  lookup-erase_ne, erase-cases, lookup_unique,
}
use skysolver.Prelude.Sets.{sorted_set}
use skysolver.Prelude.Int.{ℤ, pos, negsuc, ltb_ℤ}
use Prim.Native.String.{◌++◌ as append}

pub record FeasibilityFinding : Type 0 where
  pub code : String
  pub resource_type : String
  pub resource_id : String
  pub message : String
  pub blocking : Bool

pub record CrewItem : Type 0 where
  pub flight_id : String
  pub legal : Bool
  pub roles : List String
  pub positioning_feasible : Bool

pub record PassengerItem : Type 0 where
  pub flight_id : String
  pub seats_required : ℤ
  pub seats_available : ℤ
  pub mct_feasible : Bool
  pub party_integrity : Bool
  pub special_services_feasible : Bool
  pub baggage_feasible : Bool

pub record AircraftItem : Type 0 where
  pub tail : Option String
  pub available : Bool
  pub compatible : Bool
  pub maintenance_clear : Bool
  pub turn_feasible : Bool

pub record AirportItem : Type 0 where
  pub gate_compatible : Bool
  pub slot_valid : Bool
  pub curfew_clear : Bool
  pub ground_resources_available : Bool

pub record Evidence : Type 0 where
  pub crew_assignments : ℕ
  pub aircraft_assignments : ℕ
  pub passenger_actions : ℕ
  pub airport_assignments : ℕ

pub record FeasibilityReport : Type 0 where
  pub status : String
  pub deployable : Bool
  pub flights_evaluated : ℕ
  pub findings : List FeasibilityFinding
  pub evidence : Evidence

-- `REQUIRED_CREW_ROLES`, in the order in which `sorted` gives them.
abbrev pub required_crew_roles : List String
required_crew_roles = "cabin-crew" ∷ "captain" ∷ "first-officer" ∷ []

abbrev pub finding : String → String → String → String → FeasibilityFinding
finding code kind id message = record {
  code = code;
  resource_type = kind;
  resource_id = id;
  message = message;
  blocking = true;
}

-- `if not passed: findings.append(...)`
unfoldable pub unless : Bool → FeasibilityFinding → List FeasibilityFinding
unless passed f = if passed then [] else f ∷ []

-- `", ".join(xs)`
abbrev pub join_comma : List String → String
join_comma [] = ""
join_comma (x ∷ xs) = elim xs [ [] ↦ x | _ ∷ _ ↦ append x (append ", " (join_comma xs)) ]

abbrev pub missing_roles : CrewItem → List String
missing_roles c = filter (λ r. not (contains r c.roles)) required_crew_roles

unfoldable pub check_crew : String → Option CrewItem → List FeasibilityFinding
unfolding unless
check_crew id none = finding "CREW_ASSIGNMENT_MISSING" "flight" id "No crew assignment exists" ∷ []
check_crew id (some c) =
    unless c.legal
      (finding "CREW_ILLEGAL" "crew" id "Crew assignment has no valid legality certificate")
    ++ (unless (is_empty (missing_roles c)) (
          finding "CREW_COMPLEMENT_INCOMPLETE" "crew" id
            (append "Missing roles: " (join_comma (missing_roles c))))
        ++ unless c.positioning_feasible (
            finding "CREW_POSITIONING_IMPOSSIBLE" "crew" id
              "Crew cannot reach report point in time"))

abbrev pub tail_or : String → Option String → String
tail_or id none = id
tail_or id (some t) = t

unfoldable pub check_aircraft : String → Option AircraftItem → List FeasibilityFinding
unfolding unless
check_aircraft id none =
    finding "AIRCRAFT_ASSIGNMENT_MISSING" "aircraft" id "No aircraft assignment exists" ∷ []
check_aircraft id (some a) =
    let tail = tail_or id a.tail in
    unless a.available (finding "AIRCRAFT_UNAVAILABLE" "aircraft" tail "Aircraft is unavailable")
    ++ (unless a.compatible (
          finding "AIRCRAFT_INCOMPATIBLE" "aircraft" tail
            "Aircraft subtype or cabin is incompatible")
        ++ (unless a.maintenance_clear (
              finding "MAINTENANCE_RESTRICTION" "aircraft" tail
                "MEL/CDL or maintenance restriction blocks operation")
            ++ unless a.turn_feasible (
                finding "TURN_TIME_INFEASIBLE" "aircraft" tail
                  "Required turn and servicing time is unavailable")))

unfoldable pub check_passengers : String → Option PassengerItem → List FeasibilityFinding
unfolding unless
check_passengers id none = []
check_passengers id (some p) =
    unless (not (ltb_ℤ p.seats_available p.seats_required)) (
      finding "PASSENGER_INVENTORY_SHORTFALL" "passenger" id
        "Confirmed seat inventory is insufficient")
    ++ (unless p.mct_feasible
          (finding "MCT_VIOLATION" "passenger" id "Minimum connection time is not met")
        ++ (unless p.party_integrity (
              finding "PNR_PARTY_SPLIT" "passenger" id "Passenger party integrity is not preserved")
            ++ (unless p.special_services_feasible (
                  finding "SSR_UNSUPPORTED" "passenger" id
                    "Required special service cannot be fulfilled")
                ++ unless p.baggage_feasible (
                    finding "BAGGAGE_CONNECTION_INFEASIBLE" "passenger" id
                      "Baggage movement is not feasible"))))

unfoldable pub check_airport : String → Option AirportItem → List FeasibilityFinding
unfolding unless
check_airport id none = []
check_airport id (some a) =
    unless a.gate_compatible
      (finding "GATE_INCOMPATIBLE" "airport" id "Gate is incompatible or occupied")
    ++ (unless a.slot_valid
          (finding "SLOT_UNAVAILABLE" "airport" id "Required airport slot is unavailable")
        ++ (unless a.curfew_clear
              (finding "CURFEW_VIOLATION" "airport" id "Operation violates an airport curfew")
            ++ unless a.ground_resources_available (
                finding "GROUND_RESOURCE_SHORTFALL" "airport" id
                  "Required ground resources are unavailable")))

-- `{item["flight_id"]: item for item in ...}`: the last item of a flight stays.
abbrev pub crew_by_flight : List CrewItem → Dict String CrewItem → Dict String CrewItem
crew_by_flight [] d = d
crew_by_flight (c ∷ cs) d = crew_by_flight cs (insert c.flight_id c d)

abbrev pub passengers_by_flight :
    List PassengerItem → Dict String PassengerItem → Dict String PassengerItem
passengers_by_flight [] d = d
passengers_by_flight (p ∷ ps) d = passengers_by_flight ps (insert p.flight_id p d)

module _ (crew : Dict String CrewItem) (passengers : Dict String PassengerItem)
    (aircraft : Dict String AircraftItem) (airports : Dict String AirportItem) where
  abbrev pub all_flights : List String
  all_flights = sorted_set (keys crew ++ (keys passengers ++ keys aircraft))

  -- The body of the loop.
  unfoldable pub check_flight : String → List FeasibilityFinding
  unfolding check_crew check_aircraft check_passengers check_airport
  check_flight id =
      check_crew id (lookup id crew)
      ++ (check_aircraft id (lookup id aircraft)
          ++ (check_passengers id (lookup id passengers) ++ check_airport id (lookup id airports)))

  unfoldable pub check_flights : List String → List FeasibilityFinding
  unfolding check_flight
  check_flights [] = []
  check_flights (id ∷ ids) = check_flight id ++ check_flights ids

  unfoldable pub report : FeasibilityReport
  unfolding check_flights
  report =
      let findings = check_flights all_flights in
      record {
        status = if is_empty findings then "feasible" else "not_feasible";
        deployable = is_empty findings;
        flights_evaluated = length all_flights;
        findings = findings;
        evidence = record {
          crew_assignments = length crew;
          aircraft_assignments = length aircraft;
          passenger_actions = length passengers;
          airport_assignments = length airports;
        };
      }

unfoldable pub evaluate_proposals :
    List CrewItem
    → List PassengerItem
    → Dict String AircraftItem
    → Dict String AirportItem
    → FeasibilityReport
unfolding report
evaluate_proposals assignments actions aircraft airports =
    report (crew_by_flight assignments []) (passengers_by_flight actions []) aircraft airports
