-- ===== src/State/RecoveryStore/Replay.antt =====
-- Repeated commands, and the rebuilding of a recovery from its events
-- (state/durable_recovery_store.py).
use skysolver.Prelude.{
  ℕ, ◌+◌, String, ◌≡◌, refl, sym, ap, ◌∙◌, inl, inr, true, Option, none, some, List, [], ◌∷◌, arith,
  leb, if◌then◌else◌, ◌==◌, nat_eq, string_eq, pair_eq,
}
use skysolver.Prelude.Result.{ok, err}
use skysolver.Prelude.Dict.{lookup, lookup-insert_self}
use skysolver.State.RecoveryStore.{
  idempotency_conflict, content, validate, command_key, existing_receipt, MutationReceipt, Database,
  mutate, WorkflowMutation, get_snapshot, EventRow, CommandContent, SnapshotRow,
}
use skysolver.State.RecoveryStore.Consistency.{
  projection, mutate-cases, completed_row, IsConsistent, events_of, written, Numbered, latest,
}

module _ {Snapshot : Type 0} where
  module _ (digest : CommandContent → String) where
    -- A call that returned has left the row of its command, with its receipt.
    mutate_records :
        (m : WorkflowMutation Snapshot) (event : String) (db : Database Snapshot)
        (r : MutationReceipt Snapshot)
        → (mutate digest m event db).0 ≡ ok r
        → lookup (command_key m) (mutate digest m event db).1.commands
          ≡ some (completed_row digest m r)
    unfolding written
    mutate_records m event db r h = elim (mutate-cases digest m event db) [
      | inl (_, _, done) ↦
          rw done (lookup-insert_self (command_key m) _ db.commands ∙ ground (arith, done))
      | inr (unchanged, row) ↦ rw unchanged (row r h).0
    ]

    mutate_known :
        (m m' : WorkflowMutation Snapshot) (event : String) (db : Database Snapshot)
        (r : MutationReceipt Snapshot)
        → validate m' ≡ ok tt
        → lookup (command_key m') db.commands ≡ some (completed_row digest m r)
        → mutate digest m' event db ≡ (
          if digest (content m) == digest (content m')
              then ok (record r { replayed = true })
              else err idempotency_conflict,
          db,
        )
    unfolding mutate existing_receipt
    mutate_known m m' event db r v known = rw (v, mutate) (rw (known, mutate) (ground arith))

    -- After a command has returned, any valid command under the same tenant and key changes
    -- nothing: with the same content it gets the first receipt, marked as replayed, and with content
    -- of another digest it is refused.
    pub mutate_again :
        (m m' : WorkflowMutation Snapshot) (event event' : String) (db : Database Snapshot)
        (r : MutationReceipt Snapshot)
        → (mutate digest m event db).0 ≡ ok r
        → validate m' ≡ ok tt
        → command_key m' ≡ command_key m
        → mutate digest m' event' (mutate digest m event db).1 ≡ (
          if digest (content m) == digest (content m')
              then ok (record r { replayed = true })
              else err idempotency_conflict,
          (mutate digest m event db).1,
        )
    mutate_again m m' event event' db r h v k =
        mutate_known m m' event' (mutate digest m event db).1 r v (
          ap (λ key. lookup key (mutate digest m event db).1.commands) k
          ∙ mutate_records m event db r h)

  -- `ORDER BY aggregate_version`
  insert_ordered : EventRow Snapshot → List (EventRow Snapshot) → List (EventRow Snapshot)
  insert_ordered e [] = e ∷ []
  insert_ordered e (x ∷ es) =
      if leb e.aggregate_version x.aggregate_version then e ∷ x ∷ es else x ∷ insert_ordered e es

  unfoldable pub ordered : List (EventRow Snapshot) → List (EventRow Snapshot)
  unfolding insert_ordered
  ordered [] = []
  ordered (e ∷ es) = insert_ordered e (ordered es)

  -- The loop of `replay` over the rows.
  unfoldable pub fold_events :
      (Snapshot → EventRow Snapshot → Snapshot)
      → Snapshot × ℕ
      → List (EventRow Snapshot)
      → Snapshot × ℕ
  fold_events reducer acc [] = acc
  fold_events reducer acc (e ∷ es) = fold_events reducer (reducer acc.0 e, e.aggregate_version) es

  -- `dict(initial or {})`, with the empty dictionary as an argument.
  abbrev pub initial_state : Snapshot → Option Snapshot → Snapshot
  initial_state blank none = blank
  initial_state blank (some state) = state

  unfoldable pub replay :
      Snapshot
      → (Snapshot → EventRow Snapshot → Snapshot)
      → Option Snapshot
      → String
      → String
      → Database Snapshot
      → Snapshot × ℕ
  unfolding ordered fold_events
  replay blank reducer initial tenant recovery db =
      fold_events reducer (initial_state blank initial, 0)
        (ordered (events_of (tenant, recovery) db))

  ordered-Numbered : (n : ℕ) (es : List (EventRow Snapshot)) → Numbered n es → ordered es ≡ es
  unfolding ordered
  ordered-Numbered n [] h = refl
  ordered-Numbered n (e ∷ []) h = refl
  ordered-Numbered n (e ∷ x ∷ es) h = rw (ordered-Numbered (n + 1) (x ∷ es) h.1) (ground arith)

  -- The reducer that keeps the snapshot of each event.
  abbrev pub keep_snapshot : Snapshot → EventRow Snapshot → Snapshot
  keep_snapshot _ e = e.snapshot

  -- What a row tells; a recovery without one is blank, at version 0.
  abbrev pub row_state : Snapshot → Option (SnapshotRow Snapshot) → Snapshot × ℕ
  row_state blank none = (blank, 0)
  row_state blank (some row) = (row.snapshot, row.state_version)

  fold_events-latest :
      (blank : Snapshot) (start : Option (SnapshotRow Snapshot)) (es : List (EventRow Snapshot))
      → fold_events keep_snapshot (row_state blank start) es ≡ row_state blank (latest start es)
  unfolding fold_events latest
  fold_events-latest blank start [] = refl
  fold_events-latest blank start (e ∷ es) = fold_events-latest blank (some (projection e)) es

  -- In consistent tables the events alone give back the stored snapshot and its version, and the blank
  -- state at version 0 when none is stored: the projection can be lost and rebuilt.
  pub replay-eq-get_snapshot :
      (blank : Snapshot) (tenant recovery : String) (db : Database Snapshot)
      → IsConsistent db
      → replay blank keep_snapshot none tenant recovery db
        ≡ row_state blank (get_snapshot tenant recovery db)
  unfolding replay get_snapshot
  replay-eq-get_snapshot blank tenant recovery db h =
      rw (ordered-Numbered 0 (events_of (tenant, recovery) db) (h.numbered (tenant, recovery))) (
        fold_events-latest blank none (events_of (tenant, recovery) db)
        ∙ ap (row_state blank) (sym (h.projected (tenant, recovery))))
