-- ===== src/State/EventStore/Reconciler.antt =====
-- The reconciler of state/event_store.py, which completes the requested moves between partitions.
-- `fresh` gives the identifier that `uuid4` draws for the completion of a request. The rate of moves
-- is compared as a fraction, and an alert keeps its two counts in place of its text.
pub mod Moves
use skysolver.Prelude.{
  ℕ, zero, suc, ◌+◌, ◌-◌, ◌*◌, ◌≤◌, ◌<◌, String, ◌≡◌, refl, sym, ap, ◌∙◌, subst, ◌≢◌, ◌↔◌, ◌⊎◌, inl,
  inr, Bool, true, false, not, ◌&&◌, ◌||◌, Option, none, some, List, [], ◌∷◌, ◌++◌, map, arith,
  eq_iff, ltb, leb, before_text, nat_beq, nat_beq_iff, if◌then◌else◌, Eq, ◌==◌, ◌!=◌, nat_eq,
  string_eq, pair_eq, beq_refl, eq_of_beq, Bool-cases, Option-cases, is_none, is_some, length,
  is_empty, any, all, filter, length-append, contains, filter-append, All, All-append, Pointwise,
  Pointwise-refl, Pointwise-map, find_first, update_first, find_first_holds, Pointwise-update_first,
}
use skysolver.Prelude.Result.{Result, ok, err, Result-cases}
use skysolver.Prelude.Dict.{
  Dict, lookup, insert, erase, values, keys, lookup-insert, lookup-erase, insert-insert,
  lookup-insert_self, lookup-insert_ne, All-lookup, All-insert, All-erase, insert-cases,
  lookup-erase_ne, erase-cases, lookup_unique,
}
use skysolver.Prelude.Clock.{Instant}
use skysolver.State.EventStore.{
  null, legal_move_request, Value, legal_move_completed, append, EventType, CrewEvent, EventStore,
}
use skysolver.Prelude.Sets.{sorted_set}
use skysolver.State.EventStore.View.{get_or}

pub record MoveAlert : Type 0 where
  pub moves : ℕ
  pub crew : ℕ

pub record MoveReport : Type 0 where
  pub completed_moves : ℕ
  pub deferred_moves : ℕ
  pub total_crew : ℕ
  pub alerts : List MoveAlert

pub record CrossPartitionReconciler : Type 0 where
  pub event_store : EventStore
  pub alerts : List MoveAlert

-- A request without a partition raises a KeyError.
pub data MissingKey : Type 0 where
  missing_key : MissingKey

abbrev pub is_request : EventType → Bool
is_request legal_move_request = true
is_request _ = false

abbrev pub is_completion : EventType → Bool
is_completion legal_move_completed = true
is_completion _ = false

abbrev pub completes : CrewEvent → CrewEvent → Bool
completes r e =
    is_completion e.event_type
    && (e.crew_id == r.crew_id && ltb r.timestamp.seconds e.timestamp.seconds)

unfoldable pub is_completed : List CrewEvent → CrewEvent → Bool
is_completed events r = any (completes r) events

-- The requests among the events of the first argument, by all events of the second.
unfoldable pub move_requests : List CrewEvent → List CrewEvent → List CrewEvent
unfolding is_completed
move_requests [] events = []
move_requests (r ∷ rs) events =
    let rest = move_requests rs events in
    if is_request r.event_type && not (is_completed events r) then r ∷ rest else rest

abbrev pub crew_ids : List CrewEvent → List String
crew_ids [] = []
crew_ids (e ∷ es) = e.crew_id ∷ crew_ids es

abbrev pub at_least_one : ℕ → ℕ
at_least_one n = if n == 0 then 1 else n

-- `move_rate > ALERT_THRESHOLD`
abbrev pub is_over_threshold : ℕ → ℕ → Bool
is_over_threshold moves crew = ltb (15 * at_least_one crew) (100 * moves)

module _ (fresh : CrewEvent → String) where
  abbrev pub completion_event : CrewEvent → Value → Value → CrewEvent
  completion_event r from to = record {
    event_id = fresh r;
    event_type = legal_move_completed;
    crew_id = r.crew_id;
    partition_id = r.partition_id;
    timestamp = record { seconds = r.timestamp.seconds + 300; aware = r.timestamp.aware };
    payload =
        ("from_partition", from)
        ∷ ("to_partition", to)
        ∷ ("to_location", get_or null (lookup "to_location" r.payload))
        ∷ [];
    sequence = 0;
    correlation_id = "";
    causation_id = none;
  }

  unfoldable pub completion : CrewEvent → Option CrewEvent
  completion r = elim (lookup "from_partition" r.payload) [
    | none ↦ none
    | some from ↦ elim (lookup "to_partition" r.payload) [
      | none ↦ none
      | some to ↦ some (completion_event r from to)
    ]
  ]

  -- The loop over the requests.
  unfoldable pub complete_each :
      List CrewEvent → EventStore → Result MissingKey (Unit {0}) × EventStore
  unfolding completion append
  complete_each [] s = (ok tt, s)
  complete_each (r ∷ rs) s = elim (completion r) [
    | none ↦ (err missing_key, s)
    | some c ↦ complete_each rs (append c none s).1
  ]

  -- The report on a number of moves and of crew members.
  unfoldable pub summary : ℕ → CrossPartitionReconciler → MoveReport × CrossPartitionReconciler
  summary moves g =
      let total = length (sorted_set (crew_ids g.event_store.all_events)) in
      if is_over_threshold moves total
      then (let alerts = g.alerts ++ (record { moves = moves; crew = total } ∷ []) in
          (
            record {
              completed_moves = 0;
              deferred_moves = moves;
              total_crew = total;
              alerts = alerts;
            },
            record g { alerts = alerts },
          ))
      else (
        record {
          completed_moves = moves;
          deferred_moves = 0;
          total_crew = total;
          alerts = g.alerts;
        },
        g,
      )

  unfoldable pub reconcile :
      CrossPartitionReconciler → Result MissingKey MoveReport × CrossPartitionReconciler
  unfolding move_requests complete_each summary
  reconcile g =
      let requests = move_requests g.event_store.all_events g.event_store.all_events in
      let (r, s) = complete_each requests g.event_store in
      elim r [
        | err x ↦ (err x, record g { event_store = s })
        | ok _ ↦
            let (report, g') = summary (length requests) (record g { event_store = s }) in
            (ok report, g')
      ]
