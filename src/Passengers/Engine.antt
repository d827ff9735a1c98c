-- ===== src/Passengers/Engine.antt =====
-- passengers/models.py, passengers/event_store.py and passengers/engine.py: the greedy recovery of
-- one passenger. Scores are floats in the code and integers here. A segment is a record; a field that
-- the dictionary lacks counts as false. The reading of the clock for an event is an argument.
pub mod Ranking
use skysolver.Prelude.{
  ℕ, zero, suc, ◌+◌, ◌-◌, ◌*◌, ◌≤◌, ◌<◌, String, ◌≡◌, refl, sym, ap, ◌∙◌, subst, ◌≢◌, ◌↔◌, ◌⊎◌, inl,
  inr, Bool, true, false, not, ◌&&◌, ◌||◌, Option, none, some, List, [], ◌∷◌, ◌++◌, map, arith,
  eq_iff, ltb, leb, before_text, nat_beq, nat_beq_iff, if◌then◌else◌, Eq, ◌==◌, ◌!=◌, nat_eq,
  string_eq, pair_eq, beq_refl, eq_of_beq, Bool-cases, Option-cases, is_none, is_some, length,
  is_empty, any, all, filter, length-append, contains, filter-append, All, All-append, Pointwise,
  Pointwise-refl, Pointwise-map, find_first, update_first, find_first_holds, Pointwise-update_first,
}
use skysolver.Prelude.Clock.{Instant}
use skysolver.Prelude.Int.{ℤ, pos, negsuc, ltb_ℤ, ◌≤ℤ◌}

pub data PassengerStatus : Type 0 where
  active rebooked waitlisted hotel_required refund_eligible completed : PassengerStatus

-- The fields that the engine and the coordinator read.
pub record Passenger : Type 0 where
  pub passenger_id : String
  pub cabin : String
  pub frequent_flyer_tier : ℕ
  pub wheelchair_required : Bool
  pub minor : Bool
  pub medical_requirements : List String

pub record Segment : Type 0 where
  pub flight_id : String
  pub requires_wheelchair : Bool
  pub minor_restricted : Bool

pub record PassengerItinerary : Type 0 where
  pub passenger_id : String
  pub segments : List Segment
  pub score : ℤ
  pub reason : String

-- A candidate route.
pub record Route : Type 0 where
  pub segments : List Segment
  pub score : ℤ
  pub reason : String

pub record PassengerRecoveryDecision : Type 0 where
  pub passenger_id : String
  pub status : PassengerStatus
  pub itinerary : Option PassengerItinerary
  pub reason : String
  pub priority_score : ℕ

pub data EventPayload : Type 0 where
  reason_of : String → EventPayload
  itinerary_of : List Segment → EventPayload

pub record PassengerEvent : Type 0 where
  pub event_type : String
  pub passenger_id : String
  pub timestamp : Instant
  pub payload : EventPayload

unfoldable pub validate_itinerary : Passenger → PassengerItinerary → List String
validate_itinerary p i =
    if is_empty i.segments
    then "itinerary is empty" ∷ []
    else (if p.wheelchair_required && any (λ s. s.requires_wheelchair) i.segments
        then "wheelchair compatibility not satisfied" ∷ []
        else [])
      ++ (if p.minor && any (λ s. s.minor_restricted) i.segments
          then "minor restriction not satisfied" ∷ []
          else [])

abbrev pub at_most : ℕ → ℕ → ℕ
at_most n m = if leb n m then n else m

abbrev pub points_if : Bool → ℕ → ℕ
points_if b n = if b then n else 0

unfoldable pub priority_score : Passenger → ℕ
priority_score p =
    at_most
      (at_most (p.frequent_flyer_tier * 5) 25
        + points_if (not (is_empty p.medical_requirements)) 20
        + points_if p.minor 10
        + points_if p.wheelchair_required 15
        + points_if (p.cabin == "business") 10
        + points_if (p.cabin == "first") 15)
      100

abbrev pub itinerary : Passenger → Route → PassengerItinerary
itinerary p r = record {
  passenger_id = p.passenger_id;
  segments = r.segments;
  score = r.score;
  reason = r.reason;
}

-- The loop of `recover` over the candidate routes.
unfoldable pub legal_itineraries : Passenger → List Route → List PassengerItinerary
unfolding validate_itinerary
legal_itineraries p [] = []
legal_itineraries p (r ∷ rs) =
    let rest = legal_itineraries p rs in
    if is_empty (validate_itinerary p (itinerary p r)) then itinerary p r ∷ rest else rest

-- `ranked.sort(key=..., reverse=True)`: stable, the greatest score first.
unfoldable pub rank_before : PassengerItinerary → List PassengerItinerary → List PassengerItinerary
rank_before i [] = i ∷ []
rank_before i (j ∷ js) =
    let rest = rank_before i js in if ltb_ℤ i.score j.score then j ∷ rest else i ∷ j ∷ js

unfoldable pub ranked : List PassengerItinerary → List PassengerItinerary
unfolding rank_before
ranked [] = []
ranked (i ∷ is) = rank_before i (ranked is)

abbrev pub reason_or : String → String → String
reason_or r d = if r == "" then d else r

abbrev pub emit :
    Passenger → String → Instant → EventPayload → List PassengerEvent → List PassengerEvent
emit p kind now payload events =
    events
    ++ (record {
      event_type = kind;
      passenger_id = p.passenger_id;
      timestamp = now;
      payload = payload;
    }
        ∷ [])

-- The end of `recover`, on the ranked itineraries.
unfoldable pub decide :
    Passenger
    → List PassengerItinerary
    → Instant
    → List PassengerEvent
    → PassengerRecoveryDecision × List PassengerEvent
unfolding priority_score
decide p [] now events = (
  record {
    passenger_id = p.passenger_id;
    status = waitlisted;
    itinerary = none;
    reason = "No legal itinerary found";
    priority_score = priority_score p;
  },
  emit p "PassengerWaitlisted" now (reason_of "no legal itinerary") events,
)
decide p (best ∷ _) now events = (
  record {
    passenger_id = p.passenger_id;
    status = rebooked;
    itinerary = some best;
    reason = reason_or best.reason "Best available itinerary";
    priority_score = priority_score p;
  },
  emit p "PassengerRebooked" now (itinerary_of best.segments) events,
)

unfoldable pub recover :
    Passenger
    → List Route
    → Instant
    → List PassengerEvent
    → PassengerRecoveryDecision × List PassengerEvent
unfolding legal_itineraries ranked decide
recover p routes now events = decide p (ranked (legal_itineraries p routes)) now events
