-- ===== src/Core/Workflow/Retries.antt =====
-- What a call leaves in the snapshot table, and what a client that repeats it meets
-- (core/durable_recovery_workflow.py, `_load` before `_persist`).
use skysolver.Prelude.{
  ◌+◌, String, ◌≡◌, refl, sym, ap, ◌∙◌, ◌≢◌, inl, inr, Bool, false, Option, some, arith, nat_eq,
  string_eq, pair_eq, Option-cases,
}
use skysolver.Core.Workflow.{
  from_store, labels, stale_state, err, run, check, ok, mutation, load, persist, Transition,
  Recovery, Certificate, CommandContext,
}
use skysolver.Prelude.Clock.{Instant}
use skysolver.Core.Candidates.{ImmutableCandidate}
use skysolver.State.RecoveryStore.{
  mutate, StoreError, MutationReceipt, upsert, event_row, SnapshotRow, get_snapshot, Database,
  CommandContent,
}
use skysolver.State.RecoveryStore.Consistency.{mutate-cases, written}
use skysolver.Prelude.Dict.{lookup-insert_self, lookup}
use skysolver.Prelude.Result.{Result-cases, Result}

abbrev pub stamped : CommandContext → Instant → Recovery → Recovery
stamped ctx now s = record s { state_version = ctx.expected_version + 1; updated_at = some now }

module _ {Item : Type 0} (certificate_verifier : Certificate → ImmutableCandidate Item → Bool)
    (hold_verifier : Option String → ImmutableCandidate Item → Bool)
    (digest : CommandContent → String) where
  -- A call that returned a receipt of its own: what it loaded, what it made of that, and the row
  -- that it left.
  pub record IsWritten (t : Transition Item) (ctx : CommandContext) (id event : String)
      (now : Instant) (db after : Database Recovery) : Type 0 where
    pub before : Recovery
    pub result : Recovery
    pub loaded : load ctx id db ≡ ok before
    pub checked : check digest certificate_verifier hold_verifier t ctx id now before ≡ ok result
    pub stored :
        get_snapshot ctx.tenant_id id after
        ≡ some (record {
          state_version = ctx.expected_version + 1;
          snapshot = stamped ctx now result;
          last_event_id = event;
        })

  load-eq-ok :
      (ctx : CommandContext) (id : String) (db : Database Recovery) (s : Recovery)
      → load ctx id db ≡ ok s
      → (row : SnapshotRow Recovery) × (lookup (ctx.tenant_id, id) db.snapshots ≡ some row)
        × (row.state_version ≡ ctx.expected_version)
  unfolding load get_snapshot
  load-eq-ok ctx id db s loaded = elim (Option-cases (lookup (ctx.tenant_id, id) db.snapshots)) [
    | inl absent ↦ absurd (ground arith)
    | inr (row, found) ↦ (row, found, ground arith)
  ]

  from_store_receipt :
      (x : Result StoreError (MutationReceipt Recovery) × Database Recovery)
      (r : MutationReceipt Recovery)
      → (from_store x).0 ≡ ok r
      → x.0 ≡ ok r
  from_store_receipt (ok a, db) r h = ground arith
  from_store_receipt (err e, db) r h = absurd (cc)

  persist_row :
      (ctx : CommandContext) (id : String) (names : String × (String × String)) (s : Recovery)
      (event : String) (now : Instant) (db : Database Recovery) (old : SnapshotRow Recovery)
      (r : MutationReceipt Recovery)
      → lookup (ctx.tenant_id, id) db.snapshots ≡ some old
      → old.state_version ≡ ctx.expected_version
      → (persist digest ctx id names s event now db).0 ≡ ok r
      → r.replayed ≡ false
      → get_snapshot ctx.tenant_id id (persist digest ctx id names s event now db).1
        ≡ some (record {
          state_version = ctx.expected_version + 1;
          snapshot = stamped ctx now s;
          last_event_id = event;
        })
  unfolding persist mutation written event_row upsert get_snapshot
  persist_row ctx id names s event now db old r found version h fresh =
      elim (mutate-cases digest (mutation ctx id names s now) event db) [
        | inl (_, current, done) ↦
            rw (done, persist)
              (rw (found, upsert)
                (rw current (
                  ground (
                    arith,
                    version,
                    lookup-insert_self (ctx.tenant_id, id)
                        (record {
                          state_version = ctx.expected_version + 1;
                          snapshot = stamped ctx now s;
                          last_event_id = event;
                        })
                        db.snapshots,
                  ))))
        | inr (unchanged, row) ↦ absurd (
            ground (
              arith,
              (row r (
                  from_store_receipt (mutate digest (mutation ctx id names s now) event db) r h)).1,
            ))
      ]

  run_passed :
      (t : Transition Item) (ctx : CommandContext) (id event : String) (now : Instant)
      (db : Database Recovery) (s s' : Recovery)
      → load ctx id db ≡ ok s
      → check digest certificate_verifier hold_verifier t ctx id now s ≡ ok s'
      → run digest certificate_verifier hold_verifier t ctx id event now db
        ≡ persist digest ctx id (labels t) s' event now db
  unfolding run
  run_passed t ctx id event now db s s' loaded passed = rw (loaded, run) (rw (passed, run) refl)

  run_stale :
      (t : Transition Item) (ctx : CommandContext) (id event : String) (now : Instant)
      (db : Database Recovery) (row : SnapshotRow Recovery)
      → get_snapshot ctx.tenant_id id db ≡ some row
      → row.state_version ≢ ctx.expected_version
      → run digest certificate_verifier hold_verifier t ctx id event now db ≡ (err stale_state, db)
  unfolding run load
  run_stale t ctx id event now db row found stale = rw (found, run) (ground arith)

  -- A call that returns a receipt of its own has loaded the recovery at the expected version,
  -- passed the checks of its transition, and stored exactly what they made of it, one version up.
  pub run-IsWritten :
      (t : Transition Item) (ctx : CommandContext) (id event : String) (now : Instant)
      (db : Database Recovery) (r : MutationReceipt Recovery)
      → (run digest certificate_verifier hold_verifier t ctx id event now db).0 ≡ ok r
      → r.replayed ≡ false
      → IsWritten t ctx id event now db
          (run digest certificate_verifier hold_verifier t ctx id event now db).1
  unfolding run
  run-IsWritten t ctx id event now db r h fresh = elim (Result-cases (load ctx id db)) [
    | inr (e, missing) ↦ absurd (ground (arith, missing))
    | inl (s, loaded) ↦
        elim (Result-cases (check digest certificate_verifier hold_verifier t ctx id now s)) [
          | inr (e, refused) ↦ absurd (ground (arith, loaded, refused))
          | inl (s', passed) ↦
              let (old, found, version) = load-eq-ok ctx id db s loaded in
              record {
                before = s;
                result = s';
                loaded = loaded;
                checked = passed;
                stored = rw (run_passed t ctx id event now db s s' loaded passed) (
                    persist_row ctx id (labels t) s' event now db old r found version
                      (ap (λ x. x.0) (sym (run_passed t ctx id event now db s s' loaded passed))
                        ∙ h)
                      fresh);
              }
        ]
  ]

  -- After a call that returned a receipt of its own, any call on the same recovery with the same
  -- context, the same call repeated included, is refused as stale and changes nothing.
  pub run_again :
      (t t' : Transition Item) (ctx : CommandContext) (id event event' : String)
      (now now' : Instant) (db : Database Recovery) (r : MutationReceipt Recovery)
      → (run digest certificate_verifier hold_verifier t ctx id event now db).0 ≡ ok r
      → r.replayed ≡ false
      → let after = (run digest certificate_verifier hold_verifier t ctx id event now db).1 in
        run digest certificate_verifier hold_verifier t' ctx id event' now' after
        ≡ (err stale_state, after)
  run_again t t' ctx id event event' now now' db r h fresh =
      run_stale t' ctx id event' now' _ _ (run-IsWritten t ctx id event now db r h fresh).stored
        (λ e. absurd (omega (arith, e)))
