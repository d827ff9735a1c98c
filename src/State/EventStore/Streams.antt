-- ===== src/State/EventStore/Streams.antt =====
-- The streams of state/event_store.py: versions count events, and an event is stored once.
use skysolver.Prelude.{
  ℕ, ◌+◌, String, ◌≡◌, refl, sym, ap, ◌∙◌, subst, ◌≢◌, inl, inr, true, false, ◌&&◌, Option, some,
  [], ◌∷◌, ◌++◌, arith, eq_iff, if◌then◌else◌, ◌==◌, nat_eq, string_eq, pair_eq, beq_refl,
  eq_of_beq, Bool-cases, length, filter, length-append, filter-append,
}
use skysolver.Prelude.Result.{ok}
use skysolver.Prelude.Dict.{lookup, lookup-insert}
use skysolver.State.EventStore.{
  or_nothing, new_store, disagrees, append, get_crew_events, CrewEvent, add_event, EventStore,
  stream_version, stamp,
}
use skysolver.State.EventStore.Restore.{empty, appended, append-cases, Reached}

stream_version-add_event :
    (e : CrewEvent) (s : EventStore) (partition crew : String)
    → stream_version partition crew (add_event e s) ≡ (
        if e.partition_id == partition && e.crew_id == crew
        then e.sequence
        else stream_version partition crew s)
unfolding stream_version add_event
stream_version-add_event e s partition crew = ground (
  arith,
  lookup-insert (partition, crew) (e.partition_id, e.crew_id) e.sequence s.stream_versions,
)

different :
    (e : CrewEvent) (partition crew : String)
    → ◌≢◌ {A = String × String} (e.partition_id, e.crew_id) (partition, crew)
    → (e.partition_id == partition && e.crew_id == crew) ≡ false
different e partition crew other =
    elim (Bool-cases (e.partition_id == partition && e.crew_id == crew)) [
      | inl both ↦
          absurd
            (other (ground (arith, both, eq_iff e.partition_id partition, eq_iff e.crew_id crew)))
      | inr apart ↦ apart
    ]

length-get_crew_events-add_event :
    (e : CrewEvent) (s : EventStore) (partition crew : String)
    → length (get_crew_events crew partition (add_event e s))
      ≡ length (get_crew_events crew partition s)
        + (if e.partition_id == partition && e.crew_id == crew then 1 else 0)
unfolding get_crew_events add_event
length-get_crew_events-add_event e s partition crew =
    elim (Bool-cases (e.partition_id == partition)) [
      | inr other ↦
          rw
            (lookup-insert partition e.partition_id
              (or_nothing (lookup e.partition_id s.events) ++ (e ∷ [])) s.events)
            (rw other (omega arith))
      | inl same ↦
          rw
            (lookup-insert partition e.partition_id
              (or_nothing (lookup e.partition_id s.events) ++ (e ∷ [])) s.events)
            (rw same (
              let old = or_nothing (lookup e.partition_id s.events) in
              let k : length (get_crew_events crew e.partition_id s)
                  ≡ length (get_crew_events crew partition s) =
                ap (λ i. length (get_crew_events crew i s))
                  (eq_of_beq e.partition_id partition same) in
              ground (
                arith,
                k,
                filter-append (λ x. x.crew_id == crew) old (e ∷ []),
                length-append (filter (λ x. x.crew_id == crew) old)
                    (filter (λ x. x.crew_id == crew) (e ∷ [])),
              )))
    ]

-- An append that returns true met the version it expected, if any, moves its own stream up by one, and
-- leaves every other stream at its version.
pub append-eq-true :
    (e : CrewEvent) (v : Option ℕ) (s : EventStore)
    → (append e v s).0 ≡ ok true
    → ((w : ℕ) → v ≡ some w → stream_version e.partition_id e.crew_id s ≡ w)
      × (stream_version e.partition_id e.crew_id (append e v s).1
          ≡ stream_version e.partition_id e.crew_id s + 1)
      × ((partition crew : String)
          → ◌≢◌ {A = String × String} (e.partition_id, e.crew_id) (partition, crew)
          → stream_version partition crew (append e v s).1 ≡ stream_version partition crew s)
unfolding stamp
append-eq-true e v s returned = elim (append-cases e v s) [
  | inl (_, same) ↦ absurd (ground (arith, sym (ap (λ y. y.0) same) ∙ returned))
  | inr (inl (_, _, same)) ↦ absurd (ground (arith, sym (ap (λ y. y.0) same) ∙ returned))
  | inr (inr (_, agreed, done)) ↦
      let n = stream_version e.partition_id e.crew_id s in
      (
        λ w h. ground (arith, subst (λ o. disagrees o n ≡ false) h agreed),
        subst (λ y. stream_version e.partition_id e.crew_id y.1 ≡ n + 1) (sym done)
            (stream_version-add_event (stamp n e) s e.partition_id e.crew_id
              ∙ rw (beq_refl e.partition_id, beq_refl e.crew_id) refl),
        λ partition crew other.
            subst (λ y. stream_version partition crew y.1 ≡ stream_version partition crew s)
              (sym done)
              (stream_version-add_event (stamp n e) s partition crew
                ∙ ground (arith, different e partition crew other)),
      )
]

-- The version of a stream is the number of its events.
Counted : EventStore → Type 0
Counted s =
    (partition crew : String)
    → stream_version partition crew s ≡ length (get_crew_events crew partition s)

new_store-Counted : Counted new_store
unfolding Counted stream_version get_crew_events lookup
new_store-Counted partition crew = refl

add_event-Counted :
    (e : CrewEvent) (s : EventStore)
    → Counted s
    → e.sequence ≡ stream_version e.partition_id e.crew_id s + 1
    → Counted (add_event e s)
unfolding Counted
add_event-Counted e s h numbered partition crew =
    stream_version-add_event e s partition crew
    ∙ elim (Bool-cases (e.partition_id == partition && e.crew_id == crew)) [
      | inl same ↦
          let p : e.partition_id ≡ partition =
            ground (arith, same, eq_iff e.partition_id partition) in
          let c : e.crew_id ≡ crew = ground (arith, same, eq_iff e.crew_id crew) in
          let k : stream_version e.partition_id e.crew_id s ≡ stream_version partition crew s =
            ap (λ i. stream_version i e.crew_id s) p ∙ ap (λ i. stream_version partition i s) c in
          ground (arith, same, k, numbered, h partition crew)
      | inr other ↦ ground (arith, other, h partition crew)
    ]
    ∙ sym (length-get_crew_events-add_event e s partition crew)

Reached-Counted : {s : EventStore} → Reached s → Counted s
unfolding stamp
Reached-Counted empty = new_store-Counted
Reached-Counted (appended {s = s} e v r) = elim (append-cases e v s) [
  | inl (_, same) ↦ subst (λ y. Counted y.1) (sym same) (Reached-Counted r)
  | inr (inl (_, _, same)) ↦ subst (λ y. Counted y.1) (sym same) (Reached-Counted r)
  | inr (inr (_, _, done)) ↦
      subst (λ y. Counted y.1) (sym done)
        (add_event-Counted (stamp (stream_version e.partition_id e.crew_id s) e) s
          (Reached-Counted r) refl)
]

-- Whatever has been appended, in whatever order and with whatever expectations: the version of each
-- stream is the number of its events in the partition.
pub Reached_counts :
    {s : EventStore} (partition crew : String)
    → Reached s
    → stream_version partition crew s ≡ length (get_crew_events crew partition s)
unfolding Counted
Reached_counts partition crew r = Reached-Counted r partition crew
