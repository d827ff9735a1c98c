-- ===== src/State/RecoveryStore/Consistency.antt =====
-- The tables after each transaction (state/durable_recovery_store.py).
use skysolver.Prelude.{
  ℕ, ◌+◌, String, ◌≡◌, refl, ◌∙◌, ◌⊎◌, inl, inr, Bool, true, false, Option, none, some, List, [],
  ◌∷◌, ◌++◌, arith, eq_iff, if◌then◌else◌, ◌==◌, nat_eq, string_eq, pair_eq, Bool-cases,
  Option-cases, length, filter, All,
}
use skysolver.Prelude.Result.{ok, err, Result-cases}
use skysolver.Prelude.Dict.{Dict, lookup, insert, values, insert-insert, lookup-insert_self}
use skysolver.State.RecoveryStore.{
  existing_receipt, validate, mutate, reserved, commit_tables, optimistic_concurrency, processing,
  complete_command, commit_new, upsert, event_row, completed, stream_key, content, bump_stream,
  version_of, command_key, open_stream, MutationReceipt, WorkflowMutation, CommandRow, EventRow,
  CommandContent, Database, SnapshotRow, with_version, Response,
}

open_stream_version :
    (key : String × String) (streams : Dict (String × String) ℕ)
    → lookup key (open_stream key streams) ≡ some (version_of (lookup key streams))
unfolding open_stream
open_stream_version key streams = ground (arith, lookup-insert_self key 0 streams)

bump_stream_open :
    (key : String × String) (streams : Dict (String × String) ℕ)
    → let n = version_of (lookup key streams) in
      bump_stream key n (open_stream key streams) ≡ some (insert key (n + 1) streams)
unfolding bump_stream open_stream
bump_stream_open key streams =
    ground (arith, lookup-insert_self key 0 streams, insert-insert key 1 0 streams)

module _ {Snapshot : Type 0} where
  abbrev pub current_version : WorkflowMutation Snapshot → Database Snapshot → ℕ
  current_version m db = version_of (lookup (stream_key m) db.streams)

  -- The events of one aggregate, oldest first.
  abbrev pub belongs : String × String → EventRow Snapshot → Bool
  belongs key e = (e.tenant_id, e.aggregate_id) == key

  abbrev pub events_of : String × String → Database Snapshot → List (EventRow Snapshot)
  events_of key db = filter (belongs key) db.events

  -- The versions count up from `n + 1`.
  abbrev pub Numbered : ℕ → List (EventRow Snapshot) → Type 0
  Numbered n [] = Unit
  Numbered n (e ∷ es) = (e.aggregate_version ≡ n + 1) × Numbered (n + 1) es

  abbrev pub projection : EventRow Snapshot → SnapshotRow Snapshot
  projection e = record {
    state_version = e.aggregate_version;
    snapshot = e.snapshot;
    last_event_id = e.event_id;
  }

  -- The row that the last event gives.
  unfoldable pub latest :
      Option (SnapshotRow Snapshot) → List (EventRow Snapshot) → Option (SnapshotRow Snapshot)
  latest row [] = row
  latest row (e ∷ es) = latest (some (projection e)) es

  abbrev pub is_completed : CommandRow Snapshot → Bool
  is_completed row = elim row.state [ processing ↦ false | completed _ _ _ ↦ true ]

  -- Stream, events, snapshot and outbox tell the same story of every aggregate, and no command is
  -- left half done.
  pub record IsConsistent (db : Database Snapshot) : Type 0 where
    pub counted :
        (key : String × String) → length (events_of key db) ≡ version_of (lookup key db.streams)
    pub numbered : (key : String × String) → Numbered 0 (events_of key db)
    pub projected :
        (key : String × String) → lookup key db.snapshots ≡ latest none (events_of key db)
    pub outbox_complete : db.outbox ≡ db.events
    pub finished : All (λ row. is_completed row ≡ true) (values db.commands)

  pub latest-append :
      (row : Option (SnapshotRow Snapshot)) (es : List (EventRow Snapshot)) (e : EventRow Snapshot)
      → latest row (es ++ e ∷ []) ≡ some (projection e)
  unfolding latest
  latest-append row [] e = refl
  latest-append row (x ∷ es) e = latest-append (some (projection x)) es e

  pub Numbered-append :
      (n : ℕ) (es : List (EventRow Snapshot)) (e : EventRow Snapshot)
      → Numbered n es
      → e.aggregate_version ≡ n + length es + 1
      → Numbered n (es ++ e ∷ [])
  Numbered-append n [] e h v = (omega arith, tt)
  Numbered-append n (x ∷ es) e h v = (h.0, Numbered-append (n + 1) es e h.1 (omega arith))

  -- The version of the last event is the number of events.
  pub latest_version :
      (n : ℕ) (es : List (EventRow Snapshot)) (start : Option (SnapshotRow Snapshot))
      (row : SnapshotRow Snapshot)
      → Numbered n es
      → ((r : SnapshotRow Snapshot) → start ≡ some r → r.state_version ≡ n)
      → latest start es ≡ some row
      → row.state_version ≡ n + length es
  unfolding latest
  latest_version n [] start row h s e = omega (arith, s row e)
  latest_version n (x ∷ es) start row h s e = omega (
    arith,
    latest_version (n + 1) es (some (projection x)) row h.1 (λ r q. ground (arith, h.0)) e,
  )

  module _ (digest : CommandContent → String) where
    -- What a transaction that commits leaves.
    unfoldable pub written :
        WorkflowMutation Snapshot → String → Database Snapshot → Database Snapshot
    written m event db = record {
      commands =
          insert (command_key m)
            (record {
              command_sha256 = digest (content m);
              state =
                  completed event (current_version m db + 1)
                    (with_version (current_version m db + 1) m.response);
            })
            db.commands;
      streams = insert (stream_key m) (current_version m db + 1) db.streams;
      events = db.events ++ event_row m event (current_version m db + 1) ∷ [];
      outbox = db.outbox ++ event_row m event (current_version m db + 1) ∷ [];
      snapshots =
          upsert (stream_key m) (current_version m db)
            (projection (event_row m event (current_version m db + 1))) db.snapshots;
    }

    abbrev pub fresh_receipt :
        WorkflowMutation Snapshot → String → Database Snapshot → MutationReceipt Snapshot
    fresh_receipt m event db = record {
      event_id = event;
      state_version = current_version m db + 1;
      response = with_version (current_version m db + 1) m.response;
      replayed = false;
    }

    complete_command_reserved :
        (m : WorkflowMutation Snapshot) (event : String) (n : ℕ) (response : Response Snapshot)
        (table : Dict (String × String) (CommandRow Snapshot))
        → complete_command (command_key m) event n response (
            insert
              (command_key m)
              (record { command_sha256 = digest (content m); state = processing })
              table)
          ≡ some (
              insert
                (command_key m)
                (record { command_sha256 = digest (content m); state = completed event n response })
                table)
    unfolding complete_command
    complete_command_reserved m event n response table =
        rw (lookup-insert_self, complete_command) (rw insert-insert)

    commit_tables_lem :
        (m : WorkflowMutation Snapshot) (event : String) (db : Database Snapshot)
        → commit_tables digest m event
            (current_version m db)
            (reserved digest m db)
            (open_stream (stream_key m) db.streams)
            db
          ≡ (ok (fresh_receipt m event db), written m event db)
    unfolding commit_tables written event_row
    commit_tables_lem m event db =
        rw (bump_stream_open (stream_key m) db.streams, commit_tables)
          (rw (
            complete_command_reserved m event (current_version m db + 1)
                (with_version (current_version m db + 1) m.response) db.commands,
            commit_tables,
          ))

    -- The statements of a transaction together: it commits exactly at the current version, and
    -- neither of its two row counts is ever 0.
    pub commit_new_lem :
        (m : WorkflowMutation Snapshot) (event : String) (db : Database Snapshot)
        → commit_new digest m event db ≡ (
            if current_version m db == m.expected_version
            then (ok (fresh_receipt m event db), written m event db)
            else (err optimistic_concurrency, db))
    unfolding commit_new
    commit_new_lem m event db =
        rw open_stream_version (ground (arith, commit_tables_lem m event db))

    -- The row that a completed command leaves.
    abbrev pub completed_row :
        WorkflowMutation Snapshot → MutationReceipt Snapshot → CommandRow Snapshot
    completed_row m r = record {
      command_sha256 = digest (content m);
      state = completed r.event_id r.state_version r.response;
    }

    existing_receipt-eq-ok :
        (m : WorkflowMutation Snapshot) (row : CommandRow Snapshot) (r : MutationReceipt Snapshot)
        → existing_receipt row (digest (content m)) ≡ ok r
        → (◌≡◌ {A = Option (CommandRow Snapshot)} (some row) (some (completed_row m r)))
          × (r.replayed ≡ true)
    unfolding existing_receipt
    existing_receipt-eq-ok m row r h =
        ground (arith, eq_iff row.command_sha256 (digest (content m)))

    -- How a call of `mutate` can end: it commits a new command at the expected version, or it
    -- leaves the tables alone; a receipt then comes from the row of the command.
    pub mutate-cases :
        (m : WorkflowMutation Snapshot) (event : String) (db : Database Snapshot)
        → ((lookup (command_key m) db.commands ≡ none)
            × (current_version m db ≡ m.expected_version)
            × (mutate digest m event db ≡ (ok (fresh_receipt m event db), written m event db)))
          ⊎ (((mutate digest m event db).1 ≡ db)
              × ((r : MutationReceipt Snapshot)
                  → (mutate digest m event db).0 ≡ ok r
                  → (lookup (command_key m) db.commands ≡ some (completed_row m r))
                    × (r.replayed ≡ true)))
    unfolding mutate
    mutate-cases m event db = elim (Result-cases (validate m)) [
      | inr (e, invalid) ↦ inr (rw (invalid, mutate), rw (invalid, mutate) (λ r h. absurd (cc)))
      | inl (u, valid) ↦ elim (Option-cases (lookup (command_key m) db.commands)) [
        | inr (row, known) ↦ inr (
          rw (valid, mutate) (rw (known, mutate)),
          rw (valid, mutate) (rw (known, mutate) (λ r h. existing_receipt-eq-ok m row r h)),
        )
        | inl fresh ↦ elim (Bool-cases (current_version m db == m.expected_version)) [
          | inl expected ↦ inl (
            fresh,
            ground arith,
            rw (valid, mutate) (rw (fresh, mutate) (commit_new_lem m event db ∙ rw expected)),
          )
          | inr stale ↦ inr (
            rw (valid, mutate) (rw (fresh, mutate) (rw (commit_new_lem m event db) (rw stale))),
            rw (valid, mutate)
                (rw (fresh, mutate)
                  (rw (commit_new_lem m event db) (rw stale (λ r h. absurd (cc))))),
          )
        ]
      ]
    ]
