-- ===== src/State/EventStore/Helpers.antt =====
-- The event constructors at the end of state/event_store.py. The identifier that `uuid4` draws and the
-- time that `now` reads are arguments; the qualifications are given as texts, in the order of the set.
use skysolver.Prelude.{
  String, Option, none, some, List, [], ◌∷◌, if◌then◌else◌, ◌==◌, nat_eq, string_eq, pair_eq,
}
use skysolver.Prelude.Dict.{Dict}
use skysolver.Prelude.Clock.{Instant}
use skysolver.State.EventStore.{
  texts, text, flight_assigned, null, crew_member_created, legal_move_request, Value, CrewEvent,
  EventType,
}

abbrev pub or_now : Instant → Option Instant → Instant
or_now now none = now
or_now now (some t) = t

abbrev pub iso_or_null : (Instant → String) → Option Instant → Value
iso_or_null isoformat none = null
iso_or_null isoformat (some t) = text (isoformat t)

-- `location or hub`
abbrev pub location_or : String → Option String → String
location_or hub none = hub
location_or hub (some l) = if l == "" then hub else l

abbrev pub text_or_null : Option String → Value
text_or_null none = null
text_or_null (some s) = text s

abbrev pub new_event :
    String → EventType → String → String → Instant → Dict String Value → CrewEvent
new_event id kind crew partition at payload = record {
  event_id = id;
  event_type = kind;
  crew_id = crew;
  partition_id = partition;
  timestamp = at;
  payload = payload;
  sequence = 0;
  correlation_id = "";
  causation_id = none;
}

unfoldable pub create_crew_event :
    (Instant → String)
    → String
    → Instant
    → String
    → String
    → String
    → List String
    → Option Instant
    → Option String
    → Option Instant
    → CrewEvent
create_crew_event isoformat id now crew partition hub qualifications rest location timestamp =
    new_event id crew_member_created crew partition (or_now now timestamp) (
      ("base_hub", text hub)
      ∷ ("qualifications", texts qualifications)
      ∷ ("last_rest_end", iso_or_null isoformat rest)
      ∷ ("current_location", text (location_or hub location))
      ∷ [])

unfoldable pub flight_assigned_event :
    String → Instant → String → String → String → String → Option Instant → CrewEvent
flight_assigned_event id now crew partition flight destination timestamp =
    new_event id flight_assigned crew partition (or_now now timestamp)
      (("flight_id", text flight) ∷ ("destination", text destination) ∷ [])

unfoldable pub legal_move_request_event :
    String
    → Instant
    → String
    → String
    → String
    → String
    → Option Instant
    → Option String
    → CrewEvent
legal_move_request_event id now crew partition from to timestamp location =
    new_event id legal_move_request crew partition (or_now now timestamp) (
      ("from_partition", text from)
      ∷ ("to_partition", text to)
      ∷ ("to_location", text_or_null location)
      ∷ [])
