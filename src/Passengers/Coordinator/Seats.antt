-- ===== src/Passengers/Coordinator/Seats.antt =====
-- What a deployable joint plan of passengers/recovery_coordinator.py says of the flights that its
-- passengers move to.
use skysolver.Prelude.{
  String, ◌≡◌, refl, sym, ◌∙◌, subst, inl, inr, true, ◌||◌, some, List, [], ◌∷◌, ◌++◌, map, arith,
  ◌==◌, nat_eq, string_eq, pair_eq, beq_refl, eq_of_beq, Bool-cases, Option-cases, contains, All,
  All-append,
}
use skysolver.Prelude.Dict.{Dict, lookup, insert, values, keys, All-lookup, All-insert}
use skysolver.Prelude.Clock.{Instant}
use skysolver.Prelude.Int.{pos, ◌≤ℤ◌}
use skysolver.Passengers.Engine.Ranking.{Among}
use skysolver.Passengers.Coordinator.{
  coordinate, decide_all, is_rebooked, passenger_actions, action, actions_under,
}
use skysolver.State.Capacity.{Flights}
use skysolver.Core.Feasibility.{
  crew_by_flight, evaluate_proposals, AircraftItem, CrewItem, passengers_by_flight, PassengerItem,
}
use skysolver.Passengers.Engine.{
  PassengerEvent, Route, Segment, PassengerRecoveryDecision, Passenger,
}
use skysolver.Core.Feasibility.Deployable.{
  deployable_iff, AircraftReady, CrewReady, IsReady, PassengersReady,
}

contains-append :
    (r : String) (xs ys : List String) → contains r (xs ++ ys) ≡ (contains r xs || contains r ys)
contains-append r [] ys = refl
contains-append r (x ∷ xs) ys = rw (contains-append r xs ys) (ground arith)

contains-keys :
    (j k : String) (v : PassengerItem) (d : Dict String PassengerItem)
    → contains j (keys (insert k v d)) ≡ (j == k || contains j (keys d))
unfolding insert
contains-keys j k v [] = refl
contains-keys j k v ((i, w) ∷ d) = elim (Bool-cases (i == k)) [
  | inl same ↦ rw (eq_of_beq i k same) (rw (beq_refl k) (ground arith))
  | inr other ↦ rw other (rw (contains-keys j k v d) (ground arith))
]

kept_flight :
    (j : String) (acts : List PassengerItem) (d : Dict String PassengerItem)
    → contains j (keys d) ≡ true
    → contains j (keys (passengers_by_flight acts d)) ≡ true
kept_flight j [] d h = h
kept_flight j (a ∷ acts) d h =
    kept_flight j acts (insert a.flight_id a d)
      (contains-keys j a.flight_id a d ∙ rw h (ground arith))

named_flight :
    (a : PassengerItem) (acts : List PassengerItem) (d : Dict String PassengerItem)
    → Among a acts
    → contains a.flight_id (keys (passengers_by_flight acts d)) ≡ true
unfolding Among
named_flight a [] d m = absurd m
named_flight a (b ∷ acts) d (inl same) =
    subst
      (λ x. contains x.flight_id (keys (passengers_by_flight acts (insert b.flight_id b d))) ≡ true)
      (sym same)
      (kept_flight b.flight_id acts (insert b.flight_id b d)
        (contains-keys b.flight_id b.flight_id b d ∙ rw (beq_refl b.flight_id) refl))
named_flight a (b ∷ acts) d (inr later) = named_flight a acts (insert b.flight_id b d) later

-- The item of a flight is the item of one passenger.
Single : PassengerItem → Type 0
Single a = a.seats_required ≡ pos 1

action-Single :
    (flights : Flights) (p : Passenger) (ss : List Segment) → All Single (map (action flights p) ss)
unfolding Single action
action-Single flights p [] = tt
action-Single flights p (s ∷ ss) = (refl, action-Single flights p ss)

actions_under-Single :
    (flights : Flights) (p : Passenger) (d : PassengerRecoveryDecision)
    → All Single (actions_under flights p d)
unfolding actions_under
actions_under-Single flights p d = elim (Bool-cases (is_rebooked d.status)) [
  | inr waits ↦ rw (waits, actions_under) tt
  | inl moves ↦ elim (Option-cases d.itinerary) [
    | inl none_given ↦ rw (moves, actions_under) (rw (none_given, actions_under) tt)
    | inr (i, given) ↦
        rw (moves, actions_under) (rw (given, actions_under) (action-Single flights p i.segments))
  ]
]

passenger_actions-Single :
    (flights : Flights) (ps : List Passenger) (ds : Dict String PassengerRecoveryDecision)
    → All Single (passenger_actions flights ps ds)
unfolding passenger_actions
passenger_actions-Single flights [] ds = tt
passenger_actions-Single flights (p ∷ ps) ds = elim (Option-cases (lookup p.passenger_id ds)) [
  | inl absent ↦ rw (absent, passenger_actions) (passenger_actions-Single flights ps ds)
  | inr (d, there) ↦
      rw (there, passenger_actions)
        (All-append Single (actions_under flights p d) (passenger_actions flights ps ds)
          (actions_under-Single flights p d) (passenger_actions-Single flights ps ds))
]

passengers_by_flight-Single :
    (acts : List PassengerItem) (d : Dict String PassengerItem)
    → All Single acts
    → All Single (values d)
    → All Single (values (passengers_by_flight acts d))
passengers_by_flight-Single [] d h k = k
passengers_by_flight-Single (a ∷ acts) d h k =
    passengers_by_flight-Single acts (insert a.flight_id a d) h.1
      (All-insert Single a.flight_id a d k h.0)

module _ (flights : Flights) (passengers : List Passenger) (routes : Dict String (List Route))
    (crew : List CrewItem) (aircraft : Dict String AircraftItem) (now : Instant)
    (events : List PassengerEvent) where
  abbrev pub actions : List PassengerItem
  actions = passenger_actions flights passengers (decide_all passengers routes now [] events).0

  ready_seats :
      (id : String) (b : PassengerItem)
      → lookup id (passengers_by_flight actions []) ≡ some b
      → PassengersReady (lookup id (passengers_by_flight actions []))
      → b.seats_required ≤ℤ b.seats_available
  unfolding PassengersReady
  ready_seats id b here r = (subst PassengersReady here r).0

  -- In a plan that may be deployed, every flight on which a passenger is to move has a ready crew and a
  -- ready aircraft, and the last passenger listed for it had at least one seat. The gate asks for that
  -- one seat, however many passengers move to the flight.
  pub coordinate_ready :
      (a : PassengerItem)
      → (coordinate flights passengers routes crew aircraft now events).0.deployable ≡ true
      → Among a actions
      → CrewReady (lookup a.flight_id (crew_by_flight crew []))
        × AircraftReady (lookup a.flight_id aircraft)
        × ((b : PassengerItem)
            → lookup a.flight_id (passengers_by_flight actions []) ≡ some b
            → (b.seats_required ≡ pos 1) × (pos 1 ≤ℤ b.seats_available))
  unfolding coordinate evaluate_proposals IsReady Single
  coordinate_ready a clear m =
      let ready =
        (deployable_iff (crew_by_flight crew []) (passengers_by_flight actions []) aircraft []).0
          clear a.flight_id
          (contains-append a.flight_id (keys (crew_by_flight crew [])) _
            ∙ rw
                (contains-append a.flight_id (keys (passengers_by_flight actions []))
                  (keys aircraft))
                (rw (named_flight a actions [] m) (ground arith))) in
      (
        ready.0,
        ready.1,
        λ b here.
            let one : b.seats_required ≡ pos 1 =
              All-lookup Single a.flight_id b (passengers_by_flight actions [])
                (passengers_by_flight-Single actions []
                  (passenger_actions-Single flights passengers
                    (decide_all passengers routes now [] events).0)
                  tt)
                here in
            (one, subst (λ n. n ≤ℤ b.seats_available) one (ready_seats a.flight_id b here ready.2)),
      )
