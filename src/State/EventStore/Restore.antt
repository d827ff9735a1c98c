-- ===== src/State/EventStore/Restore.antt =====
-- The file of state/event_store.py gives back the store that was written to it.
use skysolver.Prelude.{
  ℕ, ◌+◌, String, ◌≡◌, refl, sym, ap, ◌∙◌, subst, ◌⊎◌, inl, inr, true, false, Option, none, some,
  List, [], ◌∷◌, ◌++◌, map, arith, nat_eq, string_eq, pair_eq, Bool-cases, contains,
}
use skysolver.Prelude.Result.{ok, err}
use skysolver.Prelude.Clock.{Instant}
use skysolver.State.EventStore.{
  schedule_rejected, legal_move_completed, legal_move_request, qualification_added, or_empty,
  rest_period_start, duty_end, duty_start, flight_assigned, or_zero, crew_member_created, add_event,
  expected_found, event_type_value, EventDict, disagrees, to_dict, new_store, stream_version,
  serialize, EventType, deserialize, append, from_dict, EventStore, CrewEvent, stamp,
  event_type_named, append_dicts,
}

-- A store that appends have led to.
pub data Reached : EventStore → Type 0 where
  empty : Reached new_store
  appended : {s : EventStore} (e : CrewEvent) (v : Option ℕ) → Reached s → Reached (append e v s).1

-- How `append` ends: an event seen before, a stale version, or an event that is added.
pub append-cases :
    (e : CrewEvent) (v : Option ℕ) (s : EventStore)
    → ((contains e.event_id s.event_ids ≡ true) × (append e v s ≡ (ok false, s)))
      ⊎ (((contains e.event_id s.event_ids ≡ false)
            × (disagrees v (stream_version e.partition_id e.crew_id s) ≡ true)
            × (append e v s ≡ (
              err (expected_found (or_zero v) (stream_version e.partition_id e.crew_id s)),
              s,
            )))
          ⊎ ((contains e.event_id s.event_ids ≡ false)
              × (disagrees v (stream_version e.partition_id e.crew_id s) ≡ false)
              × (append e v s
                  ≡ (ok true, add_event (stamp (stream_version e.partition_id e.crew_id s) e) s))))
unfolding append
append-cases e v s = elim (Bool-cases (contains e.event_id s.event_ids)) [
  | inl seen ↦ inl (seen, rw (seen, append) refl)
  | inr new ↦ elim (Bool-cases (disagrees v (stream_version e.partition_id e.crew_id s))) [
    | inl stale ↦ inr (inl (new, stale, rw (new, append) (rw (stale, append) refl)))
    | inr current ↦ inr (inr (new, current, rw (new, append) (rw (current, append) refl)))
  ]
]

stamp-stamp : (n : ℕ) (e : CrewEvent) → stamp n (stamp n e) ≡ stamp n e
unfolding stamp
stamp-stamp n e = ap (λ c. record e { sequence = n + 1; correlation_id = c }) (ground arith)

-- A stored event is appended to the store before it just as it was the first time.
append-stamp :
    (e : CrewEvent) (s : EventStore)
    → contains e.event_id s.event_ids ≡ false
    → append (stamp (stream_version e.partition_id e.crew_id s) e) none s
      ≡ (ok true, add_event (stamp (stream_version e.partition_id e.crew_id s) e) s)
unfolding append stamp
append-stamp e s new =
    let n = stream_version e.partition_id e.crew_id s in
    let once : append (stamp n e) none s ≡ (ok true, add_event (stamp n (stamp n e)) s) =
      ground (arith, new) in
    once ∙ ap (λ x. (ok true, add_event x s)) (stamp-stamp n e)

replay_all : List CrewEvent → EventStore → EventStore
replay_all [] s = s
replay_all (e ∷ es) s = replay_all es (append e none s).1

replay_all-append :
    (es fs : List CrewEvent) (s : EventStore)
    → replay_all (es ++ fs) s ≡ replay_all fs (replay_all es s)
unfolding replay_all
replay_all-append [] fs s = refl
replay_all-append (e ∷ es) fs s = replay_all-append es fs (append e none s).1

Reached-replay_all : {s : EventStore} → Reached s → replay_all s.all_events new_store ≡ s
unfolding replay_all add_event
Reached-replay_all empty = refl
Reached-replay_all (appended {s = s} e v r) = elim (append-cases e v s) [
  | inl (_, same) ↦
      subst (λ t. replay_all t.1.all_events new_store ≡ t.1) (sym same) (Reached-replay_all r)
  | inr (inl (_, _, same)) ↦
      subst (λ t. replay_all t.1.all_events new_store ≡ t.1) (sym same) (Reached-replay_all r)
  | inr (inr (new, _, done)) ↦
      let e' = stamp (stream_version e.partition_id e.crew_id s) e in
      subst (λ t. replay_all t.1.all_events new_store ≡ t.1) (sym done)
        (again e' s (Reached-replay_all r) (append-stamp e s new))
]
  where
    again :
        (e : CrewEvent) (s : EventStore)
        → replay_all s.all_events new_store ≡ s
        → append e none s ≡ (ok true, add_event e s)
        → replay_all (add_event e s).all_events new_store ≡ add_event e s
    again e s before now =
        replay_all-append s.all_events (e ∷ []) new_store
        ∙ ap (λ t. (append e none t).1) before
        ∙ ap (λ x. x.1) now

event_type_round : (t : EventType) → event_type_named (event_type_value t) ≡ some t
unfolding event_type_named
event_type_round crew_member_created = refl
event_type_round flight_assigned = refl
event_type_round duty_start = refl
event_type_round duty_end = refl
event_type_round rest_period_start = refl
event_type_round qualification_added = refl
event_type_round legal_move_request = refl
event_type_round legal_move_completed = refl
event_type_round schedule_rejected = refl

module _ (isoformat : Instant → String) (fromisoformat : String → Option Instant)
    (iso_round : (t : Instant) → fromisoformat (isoformat t) ≡ some t) where
  from_dict_reads :
      (d : EventDict) (kind : EventType) (at : Instant)
      → event_type_named d.event_type ≡ some kind
      → fromisoformat d.timestamp ≡ some at
      → from_dict isoformat fromisoformat d
        ≡ some (record {
          event_id = d.event_id;
          event_type = kind;
          crew_id = d.crew_id;
          partition_id = d.partition_id;
          timestamp = at;
          payload = d.payload;
          sequence = or_zero d.sequence;
          correlation_id = or_empty d.correlation_id;
          causation_id = d.causation_id;
        })
  unfolding from_dict
  from_dict_reads d kind at named dated = ground (arith, named, dated)

  from_dict-to_dict :
      (e : CrewEvent)
      → from_dict isoformat fromisoformat (to_dict isoformat fromisoformat e) ≡ some e
  unfolding to_dict
  from_dict-to_dict e =
      from_dict_reads (to_dict isoformat fromisoformat e) e.event_type e.timestamp
        (event_type_round e.event_type) (iso_round e.timestamp)

  append_dicts_step :
      (d : EventDict) (e : CrewEvent) (ds : List EventDict) (s : EventStore)
      → from_dict isoformat fromisoformat d ≡ some e
      → append_dicts isoformat fromisoformat (d ∷ ds) s
        ≡ append_dicts isoformat fromisoformat ds (append e none s).1
  unfolding append_dicts
  append_dicts_step d e ds s h = ground (arith, h)

  restore_each :
      (es : List CrewEvent) (s : EventStore)
      → append_dicts isoformat fromisoformat (map (to_dict isoformat fromisoformat) es) s
        ≡ some (replay_all es s)
  unfolding append_dicts replay_all
  restore_each [] s = refl
  restore_each (e ∷ es) s =
      append_dicts_step (to_dict isoformat fromisoformat e) e
        (map (to_dict isoformat fromisoformat) es) s (from_dict-to_dict e)
      ∙ restore_each es (append e none s).1

  deserialize_reads :
      {File : Type 0} (dump : List EventDict → File) (load : File → Option (List EventDict))
      (ds : List EventDict) (file : File)
      → load file ≡ some ds
      → deserialize isoformat fromisoformat dump load file
        ≡ append_dicts isoformat fromisoformat ds new_store
  unfolding deserialize
  deserialize_reads dump load ds file h = ground (arith, h)

  -- Where isoformat and JSON can be read back, as Python promises, a store that appends have led to is
  -- restored from its file exactly: the streams, the order of all events, the identifiers and the
  -- versions.
  pub deserialize-serialize :
      {File : Type 0} (dump : List EventDict → File) (load : File → Option (List EventDict))
      → ((ds : List EventDict) → load (dump ds) ≡ some ds)
      → (s : EventStore) → Reached s
      → deserialize isoformat fromisoformat dump load
          (serialize isoformat fromisoformat dump load s)
        ≡ some s
  unfolding serialize
  deserialize-serialize dump load json_round s r =
      deserialize_reads dump load (map (to_dict isoformat fromisoformat) s.all_events) _
        (json_round _)
      ∙ restore_each s.all_events new_store
      ∙ ap some (Reached-replay_all r)
