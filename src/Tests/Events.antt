-- ===== src/Tests/Events.antt =====
-- A crew member's stream and its file (state/event_store.py).
use skysolver.Prelude.{
  ℕ, zero, suc, String, ◌≡◌, refl, ap, Bool, true, false, Option, none, some, [], ◌∷◌,
  if◌then◌else◌, ◌==◌, nat_eq, string_eq, pair_eq, length,
}
use skysolver.Prelude.Result.{ok}
use skysolver.Prelude.Dict.{lookup, insert}
use Prim.Native.Char.{code}
use skysolver.Prelude.Clock.{Instant}
use skysolver.State.EventStore.{
  serialize, deserialize, append, duty_start, add_event, crew_member_created, text, stamp,
  get_crew_events, new_store, EventStore, CrewEvent, EventType, stream_version,
}
use skysolver.State.EventStore.Restore.{Reached, appended, empty, deserialize-serialize}
use skysolver.State.EventStore.Streams.{Reached_counts}

abbrev at_second : ℕ → Instant
at_second s = record { seconds = s; aware = false }

abbrev crew_event : String → EventType → CrewEvent
crew_event id kind = record {
  event_id = id;
  event_type = kind;
  crew_id = "CRW-1";
  partition_id = "DEL";
  timestamp = at_second 60;
  payload = ("base_hub", text "DEL") ∷ [];
  sequence = 0;
  correlation_id = "";
  causation_id = none;
}

abbrev created : CrewEvent
created = crew_event "E-1" crew_member_created

abbrev started : CrewEvent
started = crew_event "E-2" duty_start

abbrev one : EventStore
one = (append created none new_store).1

abbrev two : EventStore
two = (append started (some 1) one).1

steps : Reached two
steps = appended started (some 1) (appended created none empty)

started_appended : (append started (some 1) one).0 ≡ ok true
unfolding append stream_version stamp add_event lookup insert
started_appended = refl

Reached_counts_example :
    stream_version "DEL" "CRW-1" two ≡ length (get_crew_events "CRW-1" "DEL" two)
Reached_counts_example = Reached_counts "DEL" "CRW-1" steps

-- A way to write instants down and to read them: a first letter for the time zone, then as many
-- letters as there are seconds.
ticks : ℕ → String
ticks zero = ""
ticks (suc n) = String.◌∷◌ "s" (ticks n)

ticked : String → ℕ
ticked String.[] = zero
ticked (String.◌∷◌ c s) = suc (ticked s)

ticked-ticks : (n : ℕ) → ticked (ticks n) ≡ n
unfolding ticks ticked
ticked-ticks zero = refl
ticked-ticks (suc n) = ap suc (ticked-ticks n)

isoformat : Instant → String
isoformat t = String.◌∷◌ (if t.aware then "a" else "n") (ticks t.seconds)

fromisoformat : String → Option Instant
fromisoformat String.[] = none
fromisoformat (String.◌∷◌ c s) = some (record { seconds = ticked s; aware = code c == 97 })

iso_round_of :
    (zone : Bool) (n : ℕ)
    → fromisoformat (String.◌∷◌ (if zone then "a" else "n") (ticks n))
      ≡ some (record { seconds = n; aware = zone })
unfolding fromisoformat
iso_round_of true n = ap (λ k. some (record { seconds = k; aware = true })) (ticked-ticks n)
iso_round_of false n = ap (λ k. some (record { seconds = k; aware = false })) (ticked-ticks n)

iso_round : (t : Instant) → fromisoformat (isoformat t) ≡ some t
unfolding isoformat
iso_round t = iso_round_of t.aware t.seconds

deserialize-serialize_example :
    deserialize isoformat fromisoformat
      (λ ds. ds)
      some
      (serialize isoformat fromisoformat (λ ds. ds) some two)
    ≡ some two
deserialize-serialize_example =
    deserialize-serialize isoformat fromisoformat iso_round (λ ds. ds) some (λ ds. refl) two steps
