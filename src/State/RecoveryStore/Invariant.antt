-- ===== src/State/RecoveryStore/Invariant.antt =====
-- Every transaction keeps the tables consistent (state/durable_recovery_store.py).
use skysolver.Prelude.{
  ℕ, ◌+◌, String, ◌≡◌, refl, sym, ap, ◌∙◌, inl, inr, true, none, List, [], ◌∷◌, ◌++◌, arith,
  if◌then◌else◌, ◌==◌, nat_eq, string_eq, pair_eq, eq_of_beq, Bool-cases, Option-cases, length,
  filter, length-append, filter-append,
}
use mathlib.Core.List.{append-nil}
use skysolver.Prelude.Dict.{lookup, insert, lookup-insert, All-insert}
use skysolver.State.RecoveryStore.{
  mutate, command_key, version_of, upsert, stream_key, Database, EventRow, WorkflowMutation,
  event_row, CommandContent,
}
use skysolver.State.RecoveryStore.Consistency.{
  mutate-cases, Numbered-append, latest-append, Numbered, latest, is_completed, events_of,
  latest_version, projection, current_version, written, IsConsistent, belongs,
}

module _ {Snapshot : Type 0} where
  -- The event of a transaction joins the events of its own aggregate and of no other.
  events_of-written :
      (key : String × String) (events : List (EventRow Snapshot)) (m : WorkflowMutation Snapshot)
      (event : String) (n : ℕ)
      → filter (belongs key) (events ++ event_row m event n ∷ []) ≡ (
          if stream_key m == key
          then filter (belongs key) events ++ event_row m event n ∷ []
          else filter (belongs key) events)
  unfolding event_row
  events_of-written key events m event n = elim (Bool-cases (stream_key m == key)) [
    | inl same ↦ rw filter-append (rw same)
    | inr other ↦ rw filter-append (rw other (append-nil _))
  ]

  module _ (digest : CommandContent → String) (m : WorkflowMutation Snapshot) (event : String)
      (db : Database Snapshot) (h : IsConsistent db) where
    -- The upsert finds the row that it expects, so it always writes.
    upsert-written :
        upsert
          (stream_key m)
          (current_version m db)
          (projection (event_row m event (current_version m db + 1)))
          db.snapshots
        ≡ insert
            (stream_key m)
            (projection (event_row m event (current_version m db + 1)))
            db.snapshots
    unfolding upsert
    upsert-written = elim (Option-cases (lookup (stream_key m) db.snapshots)) [
      | inl absent ↦ rw (absent, upsert)
      | inr (row, e) ↦ ground (
        arith,
        h.counted (stream_key m),
        h.projected (stream_key m),
        latest_version 0 (events_of (stream_key m) db) none row (h.numbered (stream_key m))
            (λ r q. absurd (cc)) (sym (h.projected (stream_key m)) ∙ e),
      )
    ]

    abbrev new_event : EventRow Snapshot
    new_event = event_row m event (current_version m db + 1)

    abbrev own : List (EventRow Snapshot)
    own = events_of (stream_key m) db

    counted-own : length (own ++ new_event ∷ []) ≡ current_version m db + 1
    counted-own = omega (arith, length-append own (new_event ∷ []), h.counted (stream_key m))

    Numbered-own : Numbered 0 (own ++ new_event ∷ [])
    unfolding event_row
    Numbered-own =
        Numbered-append 0 own new_event (h.numbered (stream_key m))
          (omega (arith, h.counted (stream_key m)))

    -- Each field at one aggregate: its own, or another.
    module _ (key : String × String) where
      counted-written :
          length (filter (belongs key) (db.events ++ new_event ∷ []))
          ≡ version_of (lookup key (insert (stream_key m) (current_version m db + 1) db.streams))
      counted-written = elim (Bool-cases (stream_key m == key)) [
        | inl same ↦
            rw (events_of-written, lookup-insert)
              (rw same (rw (← eq_of_beq (stream_key m) key same) counted-own))
        | inr other ↦ rw (events_of-written, lookup-insert) (rw other (h.counted key))
      ]

      Numbered-written : Numbered 0 (filter (belongs key) (db.events ++ new_event ∷ []))
      Numbered-written = elim (Bool-cases (stream_key m == key)) [
        | inl same ↦
            rw events_of-written (rw same (rw (← eq_of_beq (stream_key m) key same) Numbered-own))
        | inr other ↦ rw events_of-written (rw other (h.numbered key))
      ]

      projected-written :
          lookup key
            (upsert (stream_key m) (current_version m db) (projection new_event) db.snapshots)
          ≡ latest none (filter (belongs key) (db.events ++ new_event ∷ []))
      projected-written = elim (Bool-cases (stream_key m == key)) [
        | inl same ↦
            rw (upsert-written, events_of-written, lookup-insert)
              (rw same (sym (latest-append none (filter (belongs key) db.events) new_event)))
        | inr other ↦
            rw (upsert-written, events_of-written, lookup-insert) (rw other (h.projected key))
      ]

    written-IsConsistent : IsConsistent (written digest m event db)
    unfolding written
    written-IsConsistent = record {
      counted = counted-written;
      numbered = Numbered-written;
      projected = projected-written;
      outbox_complete = ap (λ es. es ++ new_event ∷ []) h.outbox_complete;
      finished =
          All-insert (λ row. is_completed row ≡ true) (command_key m) _ db.commands h.finished refl;
    }

    -- Whatever a mutation of consistent tables asks for, committed, replayed or refused, it leaves
    -- consistent tables: streams count their events, versions have no gap, the snapshot is that of
    -- the last event, the outbox holds every event, and no command is left in processing.
    pub mutate-IsConsistent : IsConsistent (mutate digest m event db).1
    mutate-IsConsistent = elim (mutate-cases digest m event db) [
      | inl (_, _, done) ↦ rw done written-IsConsistent
      | inr (unchanged, _) ↦ rw unchanged h
    ]
