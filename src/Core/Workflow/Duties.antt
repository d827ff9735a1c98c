-- ===== src/Core/Workflow/Duties.antt =====
-- The stored recoveries after any sequence of calls (core/durable_recovery_workflow.py over
-- state/durable_recovery_store.py).
use skysolver.Prelude.{
  ℕ, String, ◌≡◌, refl, subst, inl, inr, Bool, Option, some, [], arith, ◌==◌, ◌!=◌, nat_eq,
  string_eq, pair_eq, Bool-cases, Option-cases, All,
}
use skysolver.State.RecoveryStore.{
  mutate, event_row, MutationReceipt, StoreError, get_snapshot, CommandContent, SnapshotRow,
  Database, upsert,
}
use skysolver.Prelude.Dict.{All-lookup, All-insert, lookup, values, Dict}
use skysolver.Core.Workflow.Evidence.{stamped-IsSound, check-IsSound, IsSound}
use skysolver.Prelude.Result.{Result, Result-cases}
use skysolver.Core.Workflow.{
  mutation, create, err, from_store, labels, check, Transition, ok, new_recovery, run, persist,
  load, CommandContext, Certificate, Recovery,
}
use skysolver.Core.Candidates.{ImmutableCandidate}
use skysolver.Prelude.Clock.{Instant}
use skysolver.State.RecoveryStore.Consistency.{mutate-cases, written}

module _ {Snapshot : Type 0} where
  All-upsert :
      (P : SnapshotRow Snapshot → Type 0) (key : String × String) (n : ℕ)
      (row : SnapshotRow Snapshot) (table : Dict (String × String) (SnapshotRow Snapshot))
      → All P (values table)
      → P row
      → All P (values (upsert key n row table))
  unfolding upsert
  All-upsert P key n row table h p = elim (Option-cases (lookup key table)) [
    | inl fresh ↦ rw (fresh, upsert) (All-insert P key row table h p)
    | inr (old, known) ↦ elim (Bool-cases (old.state_version == n)) [
      | inl same ↦ rw (known, upsert) (rw same (All-insert P key row table h p))
      | inr other ↦ rw (known, upsert) (rw other h)
    ]
  ]

abbrev pub no_rows : Database Recovery
no_rows = record { commands = []; streams = []; events = []; outbox = []; snapshots = [] }

module _ {Item : Type 0} (certificate_verifier : Certificate → ImmutableCandidate Item → Bool)
    (hold_verifier : Option String → ImmutableCandidate Item → Bool)
    (digest : CommandContent → String) where
  -- The tables that some sequence of calls leaves, whoever makes them and whatever they return.
  pub data Reached : Database Recovery → Type 0 where
    empty : Reached no_rows
    created :
        {db : Database Recovery} (ctx : CommandContext)
        (id disruption partition objective event : String) (now : Instant)
        → Reached db
        → Reached (create digest ctx id disruption partition objective event now db).1
    ran :
        {db : Database Recovery} (t : Transition Item) (ctx : CommandContext) (id event : String)
        (now : Instant)
        → Reached db
        → Reached (run digest certificate_verifier hold_verifier t ctx id event now db).1

  abbrev pub Sound : SnapshotRow Recovery → Type 0
  Sound row = IsSound certificate_verifier hold_verifier row.snapshot

  from_store_tables :
      (r : Result StoreError (MutationReceipt Recovery) × Database Recovery)
      → (from_store r).1 ≡ r.1
  from_store_tables (ok r, db) = refl
  from_store_tables (err e, db) = refl

  persist-Sound :
      (ctx : CommandContext) (id : String) (names : String × (String × String)) (s : Recovery)
      (event : String) (now : Instant) (db : Database Recovery)
      → IsSound certificate_verifier hold_verifier s
      → All Sound (values db.snapshots)
      → All Sound (values (persist digest ctx id names s event now db).1.snapshots)
  unfolding persist written mutation event_row
  persist-Sound ctx id names s event now db sound h =
      rw (from_store_tables (mutate digest (mutation ctx id names s now) event db), persist)
        (elim (mutate-cases digest (mutation ctx id names s now) event db) [
          | inl (_, _, done) ↦ rw done (
              All-upsert Sound (ctx.tenant_id, id) _ _ db.snapshots h
                (stamped-IsSound certificate_verifier hold_verifier digest s _ _ sound))
          | inr (unchanged, _) ↦ rw unchanged h
        ])

  create-Sound :
      (ctx : CommandContext) (id disruption partition objective event : String) (now : Instant)
      (db : Database Recovery)
      → All Sound (values db.snapshots)
      → All Sound
          (values (create digest ctx id disruption partition objective event now db).1.snapshots)
  unfolding create new_recovery
  create-Sound ctx id disruption partition objective event now db h =
      elim (Bool-cases (ctx.expected_version != 0)) [
        | inl later ↦ rw (later, create) h
        | inr zeroth ↦
            rw (zeroth, create)
              (persist-Sound ctx id _
                (new_recovery digest ctx id disruption partition objective now) event now db
                (record {
                  chosen = λ p. absurd (omega arith);
                  certified = λ p. absurd (omega arith);
                  cleared = λ p. absurd (omega arith);
                  approved_by = λ p. absurd (omega arith);
                  released = λ p. absurd (omega arith);
                  flagged = λ p. absurd (cc);
                })
                h)
      ]

  load-Sound :
      (ctx : CommandContext) (id : String) (db : Database Recovery) (s : Recovery)
      → All Sound (values db.snapshots)
      → load ctx id db ≡ ok s
      → IsSound certificate_verifier hold_verifier s
  unfolding load get_snapshot
  load-Sound ctx id db s h loaded = elim (Option-cases (lookup (ctx.tenant_id, id) db.snapshots)) [
    | inl absent ↦ absurd (ground arith)
    | inr (row, found) ↦
        subst (IsSound certificate_verifier hold_verifier) (ground arith)
          (All-lookup Sound (ctx.tenant_id, id) row db.snapshots h found)
  ]

  run-Sound :
      (t : Transition Item) (ctx : CommandContext) (id event : String) (now : Instant)
      (db : Database Recovery)
      → All Sound (values db.snapshots)
      → All Sound
          (values (run digest certificate_verifier hold_verifier t ctx id event now db).1.snapshots)
  unfolding run
  run-Sound t ctx id event now db h = elim (Result-cases (load ctx id db)) [
    | inr (e, missing) ↦ rw (missing, run) h
    | inl (s, loaded) ↦
        elim (Result-cases (check digest certificate_verifier hold_verifier t ctx id now s)) [
          | inr (e, refused) ↦ rw (loaded, run) (rw (refused, run) h)
          | inl (r, checked) ↦
              rw (loaded, run)
                (rw (checked, run)
                  (persist-Sound ctx id (labels t) r event now db
                    (check-IsSound certificate_verifier hold_verifier digest t ctx id now s r
                      (load-Sound ctx id db s h loaded) checked)
                    h))
        ]
  ]

  Reached-Sound : {db : Database Recovery} → Reached db → All Sound (values db.snapshots)
  Reached-Sound empty = tt
  Reached-Sound (created ctx id disruption partition objective event now reached) =
      create-Sound ctx id disruption partition objective event now _ (Reached-Sound reached)
  Reached-Sound (ran t ctx id event now reached) =
      run-Sound t ctx id event now _ (Reached-Sound reached)

  -- Whatever calls were made, by whom and in what order: a stored recovery has the evidence for
  -- its stage. From awaiting_joint_feasibility on it has a verified, operator-approved certificate
  -- of the selected legal candidate; from awaiting_approval on, a clean feasibility report and a
  -- hold that was verified for that candidate; from approved on, the reasoned approval of a duty
  -- manager who is not the proposer; and an authorized one was released by a third person.
  pub Reached-IsSound :
      {db : Database Recovery} (tenant id : String) (row : SnapshotRow Recovery)
      → Reached db
      → get_snapshot tenant id db ≡ some row
      → IsSound certificate_verifier hold_verifier row.snapshot
  unfolding get_snapshot
  Reached-IsSound {db} tenant id row reached found =
      All-lookup Sound (tenant, id) row db.snapshots (Reached-Sound reached) found
