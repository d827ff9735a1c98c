-- ===== src/State/EventStore.antt =====
-- state/event_store.py: the append-only log of crew events, and its file. `isoformat` and
-- `fromisoformat` of datetime and the JSON writer and reader are parameters. A JSON value is null, a
-- text or a list of texts, which is what the helpers of the file put into a payload.
pub mod Restore
pub mod Streams
pub mod View
pub mod Reconciler
pub mod Helpers
use skysolver.Prelude.{
  ℕ, zero, suc, ◌+◌, ◌-◌, ◌*◌, ◌≤◌, ◌<◌, String, ◌≡◌, refl, sym, ap, ◌∙◌, subst, ◌≢◌, ◌↔◌, ◌⊎◌, inl,
  inr, Bool, true, false, not, ◌&&◌, ◌||◌, Option, none, some, List, [], ◌∷◌, ◌++◌, map, arith,
  eq_iff, ltb, leb, before_text, nat_beq, nat_beq_iff, if◌then◌else◌, Eq, ◌==◌, ◌!=◌, nat_eq,
  string_eq, pair_eq, beq_refl, eq_of_beq, Bool-cases, Option-cases, is_none, is_some, length,
  is_empty, any, all, filter, length-append, contains, filter-append, All, All-append, Pointwise,
  Pointwise-refl, Pointwise-map, find_first, update_first, find_first_holds, Pointwise-update_first,
}
use skysolver.Prelude.Exec.{Exec, pure, raise, gets, modify, raise_if, or_raise, lift, ◌>>=◌, ◌>>◌}
use skysolver.Prelude.Result.{Result, ok, err, Result-cases}
use skysolver.Prelude.Dict.{
  Dict, lookup, insert, erase, values, keys, lookup-insert, lookup-erase, insert-insert,
  lookup-insert_self, lookup-insert_ne, All-lookup, All-insert, All-erase, insert-cases,
  lookup-erase_ne, erase-cases, lookup_unique,
}
use skysolver.Prelude.Clock.{Instant}

pub data EventType : Type 0 where
  crew_member_created flight_assigned duty_start duty_end rest_period_start qualification_added
        legal_move_request legal_move_completed schedule_rejected :
      EventType

pub data Value : Type 0 where
  null : Value
  text : String → Value
  texts : List String → Value

pub record CrewEvent : Type 0 where
  pub event_id : String
  pub event_type : EventType
  pub crew_id : String
  pub partition_id : String
  pub timestamp : Instant
  pub payload : Dict String Value
  pub sequence : ℕ
  pub correlation_id : String
  pub causation_id : Option String

-- The dictionary of `to_dict`; `none` in the last three is a missing key, or null for the last.
pub record EventDict : Type 0 where
  pub event_id : String
  pub event_type : String
  pub crew_id : String
  pub partition_id : String
  pub timestamp : String
  pub payload : Dict String Value
  pub sequence : Option ℕ
  pub correlation_id : Option String
  pub causation_id : Option String

pub record EventStore : Type 0 where
  pub events : Dict String (List CrewEvent)
  pub all_events : List CrewEvent
  pub event_ids : List String
  pub stream_versions : Dict (String × String) ℕ

-- `ConcurrencyError`, with the expected and the found version.
pub data ConcurrencyError : Type 0 where
  expected_found : ℕ → ℕ → ConcurrencyError

abbrev pub new_store : EventStore
new_store = record { events = []; all_events = []; event_ids = []; stream_versions = [] }

abbrev pub event_type_value : EventType → String
event_type_value crew_member_created = "CREW_MEMBER_CREATED"
event_type_value flight_assigned = "FLIGHT_ASSIGNED"
event_type_value duty_start = "DUTY_START"
event_type_value duty_end = "DUTY_END"
event_type_value rest_period_start = "REST_PERIOD_START"
event_type_value qualification_added = "QUALIFICATION_ADDED"
event_type_value legal_move_request = "LEGAL_MOVE_REQUEST"
event_type_value legal_move_completed = "LEGAL_MOVE_COMPLETED"
event_type_value schedule_rejected = "SCHEDULE_REJECTED"

-- `EventType[name]`, with the KeyError as `none`.
unfoldable pub event_type_named : String → Option EventType
event_type_named s =
    if s == "CREW_MEMBER_CREATED"
    then some crew_member_created
    else if s == "FLIGHT_ASSIGNED"
    then some flight_assigned
    else if s == "DUTY_START"
    then some duty_start
    else if s == "DUTY_END"
    then some duty_end
    else if s == "REST_PERIOD_START"
    then some rest_period_start
    else if s == "QUALIFICATION_ADDED"
    then some qualification_added
    else if s == "LEGAL_MOVE_REQUEST"
    then some legal_move_request
    else if s == "LEGAL_MOVE_COMPLETED"
    then some legal_move_completed
    else if s == "SCHEDULE_REJECTED"
    then some schedule_rejected
    else none

abbrev pub or_zero : Option ℕ → ℕ
or_zero none = 0
or_zero (some n) = n

abbrev pub or_empty : Option String → String
or_empty none = ""
or_empty (some s) = s

abbrev pub or_nothing : Option (List CrewEvent) → List CrewEvent
or_nothing none = []
or_nothing (some es) = es

-- The two writes of `append` to the event.
unfoldable pub stamp : ℕ → CrewEvent → CrewEvent
stamp current e = record e {
  sequence = current + 1;
  correlation_id = if e.correlation_id == "" then e.event_id else e.correlation_id;
}

unfoldable pub stream_version : String → String → EventStore → ℕ
stream_version partition crew s = or_zero (lookup (partition, crew) s.stream_versions)

unfoldable pub add_event : CrewEvent → EventStore → EventStore
add_event e s = record {
  events = insert e.partition_id (or_nothing (lookup e.partition_id s.events) ++ (e ∷ [])) s.events;
  all_events = s.all_events ++ (e ∷ []);
  event_ids = e.event_id ∷ s.event_ids;
  stream_versions = insert (e.partition_id, e.crew_id) e.sequence s.stream_versions;
}

abbrev pub disagrees : Option ℕ → ℕ → Bool
disagrees none current = false
disagrees (some v) current = v != current

unfoldable pub append : CrewEvent → Option ℕ → Exec EventStore ConcurrencyError Bool
unfolding stream_version stamp add_event
append e expected s =
    if contains e.event_id s.event_ids
    then (ok false, s)
    else let current = stream_version e.partition_id e.crew_id s in
      if disagrees expected current
      then (err (expected_found (or_zero expected) current), s)
      else (ok true, add_event (stamp current e) s)

-- `get_crew_events` and `get_cross_partition_events`
unfoldable pub get_crew_events : String → String → EventStore → List CrewEvent
get_crew_events crew partition s =
    filter (λ e. e.crew_id == crew) (or_nothing (lookup partition s.events))

unfoldable pub get_cross_partition_events : String → EventStore → List CrewEvent
get_cross_partition_events crew s = filter (λ e. e.crew_id == crew) s.all_events

-- The order of `get_partition_stream`: by sequence, then time, then identifier.
abbrev pub goes_before : CrewEvent → CrewEvent → Bool
goes_before a b =
    ltb a.sequence b.sequence
    || (a.sequence == b.sequence
        && (ltb a.timestamp.seconds b.timestamp.seconds
            || (a.timestamp.seconds == b.timestamp.seconds && before_text a.event_id b.event_id)))

unfoldable pub place : CrewEvent → List CrewEvent → List CrewEvent
place e [] = e ∷ []
place e (x ∷ xs) = let rest = place e xs in if goes_before x e then x ∷ rest else e ∷ x ∷ xs

unfoldable pub sorted_events : List CrewEvent → List CrewEvent
unfolding place
sorted_events [] = []
sorted_events (e ∷ es) = place e (sorted_events es)

unfoldable pub get_partition_stream : String → EventStore → List CrewEvent
unfolding sorted_events
get_partition_stream partition s = sorted_events (or_nothing (lookup partition s.events))

module _ (isoformat : Instant → String) (fromisoformat : String → Option Instant) where
  unfoldable pub to_dict : CrewEvent → EventDict
  to_dict e = record {
    event_id = e.event_id;
    event_type = event_type_value e.event_type;
    crew_id = e.crew_id;
    partition_id = e.partition_id;
    timestamp = isoformat e.timestamp;
    payload = e.payload;
    sequence = some e.sequence;
    correlation_id = some e.correlation_id;
    causation_id = e.causation_id;
  }

  -- `from_dict`; `none` is an exception.
  unfoldable pub from_dict : EventDict → Option CrewEvent
  unfolding event_type_named
  from_dict d = elim (event_type_named d.event_type) [
    | none ↦ none
    | some kind ↦ elim (fromisoformat d.timestamp) [
      | none ↦ none
      | some at ↦ some (record {
        event_id = d.event_id;
        event_type = kind;
        crew_id = d.crew_id;
        partition_id = d.partition_id;
        timestamp = at;
        payload = d.payload;
        sequence = or_zero d.sequence;
        correlation_id = or_empty d.correlation_id;
        causation_id = d.causation_id;
      })
    ]
  ]

  -- The loop of `deserialize`.
  unfoldable pub append_dicts : List EventDict → EventStore → Option EventStore
  unfolding from_dict append
  append_dicts [] s = some s
  append_dicts (d ∷ ds) s = elim (from_dict d) [
    | none ↦ none
    | some e ↦ append_dicts ds (append e none s).1
  ]

  module _ {File : Type 0} (dump : List EventDict → File)
      (load : File → Option (List EventDict)) where
    -- The file that `serialize` writes, and the store that `deserialize` makes of it.
    unfoldable pub serialize : EventStore → File
    unfolding to_dict
    serialize s = dump (map to_dict s.all_events)

    unfoldable pub deserialize : File → Option EventStore
    unfolding append_dicts
    deserialize file = elim (load file) [ none ↦ none | some ds ↦ append_dicts ds new_store ]
