-- ===== src/Tests/Moves.antt =====
-- A crew member who is assigned a flight twice and asked to move (state/event_store.py).
use skysolver.Prelude.{
  ℕ, ◌+◌, String, ◌≡◌, refl, false, Option, none, some, List, [], ◌∷◌, nat_eq, string_eq, pair_eq,
  length,
}
use skysolver.State.EventStore.Reconciler.{
  summary, completion, complete_each, completion_event, is_completed, CrossPartitionReconciler,
  MoveReport, move_requests, reconcile,
}
use skysolver.State.EventStore.{
  stream_version, add_event, null, stamp, text, new_store, CrewEvent, append,
}
use skysolver.Prelude.Result.{ok}
use skysolver.Prelude.Dict.{lookup, insert}
use skysolver.Prelude.Clock.{Instant}
use skysolver.State.EventStore.View.{
  qualification_set, change, created_view, rebuild, apply, CrewStateView,
}
use skysolver.State.EventStore.View.Assignments.{rebuild-IsDistinct, IsDistinct}
use skysolver.State.EventStore.Reconciler.Moves.{reconcile_closes, AllFresh}
use skysolver.State.EventStore.Helpers.{
  flight_assigned_event, legal_move_request_event, create_crew_event,
}
use skysolver.Prelude.Sets.{insert_once, sorted_set}

abbrev at_second : ℕ → Instant
at_second s = record { seconds = s; aware = false }

abbrev no_time : String → Option Instant
no_time s = none

abbrev history : List CrewEvent
history =
    create_crew_event (λ t. "") "E-1" (at_second 0) "CRW-1" "DEL" "DEL" ("A320" ∷ []) none none none
    ∷ flight_assigned_event "E-2" (at_second 10) "CRW-1" "DEL" "F-1" "BOM" none
    ∷ flight_assigned_event "E-3" (at_second 20) "CRW-1" "DEL" "F-1" "BOM" none
    ∷ []

abbrev crew_view : CrewStateView
crew_view = record {
  crew_id = "CRW-1";
  base_hub = text "DEL";
  current_partition = text "DEL";
  current_location = text "BOM";
  qualifications = text "A320" ∷ [];
  last_rest_end = none;
  duty_clock_start = none;
  active_assignments = text "F-1" ∷ [];
  version = 3;
}

built : lookup "CRW-1" (rebuild no_time history []).1 ≡ some crew_view
unfolding rebuild apply created_view change qualification_set create_crew_event
    flight_assigned_event lookup insert
built = refl

rebuild-IsDistinct_example : IsDistinct crew_view.active_assignments
rebuild-IsDistinct_example = rebuild-IsDistinct no_time history "CRW-1" crew_view built

abbrev request : CrewEvent
request = legal_move_request_event "E-4" (at_second 30) "CRW-1" "DEL" "DEL" "BOM" none none

abbrev reconciler : CrossPartitionReconciler
reconciler = record { event_store = (append request none new_store).1; alerts = [] }

abbrev drawn : CrewEvent → String
drawn e = "U-1"

-- The one move is above the threshold: the report defers it.
abbrev deferred : MoveReport
deferred = record {
  completed_moves = 0;
  deferred_moves = 1;
  total_crew = 1;
  alerts = record { moves = 1; crew = 1 } ∷ [];
}

reported : (reconcile drawn reconciler).0 ≡ ok deferred
unfolding reconcile move_requests is_completed complete_each completion summary append stamp
    add_event stream_version legal_move_request_event lookup insert sorted_set insert_once
reported = refl

new_ids :
    AllFresh drawn
      (move_requests reconciler.event_store.all_events reconciler.event_store.all_events)
      reconciler.event_store.event_ids
unfolding AllFresh move_requests is_completed append stamp add_event stream_version
    legal_move_request_event lookup insert
new_ids = (refl, tt)

reconcile_closes_example :
    (move_requests
        (reconcile drawn reconciler).1.event_store.all_events
        (reconcile drawn reconciler).1.event_store.all_events
      ≡ [])
    × (0 + 1
        ≡ length
            (move_requests reconciler.event_store.all_events reconciler.event_store.all_events))
reconcile_closes_example = reconcile_closes drawn reconciler deferred new_ids reported

-- A completion without a location sets the location to null.
lost_location :
    (apply no_time
      (completion_event drawn request (text "DEL") (text "BOM"))
      (("CRW-1", crew_view) ∷ [])).1
    ≡ (
      "CRW-1",
      record crew_view { current_partition = text "BOM"; current_location = null; version = 4 },
    )
      ∷ []
unfolding apply change legal_move_request_event lookup insert
lost_location = refl
