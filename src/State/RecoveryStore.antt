-- ===== src/State/RecoveryStore.antt =====
-- state/durable_recovery_store.py: one workflow mutation as one database transaction. The five
-- tables that it touches are a record; a transaction that raises hands back the record that it
-- began with (`rollback`). Row locks (`FOR UPDATE`) make the transactions of one aggregate follow
-- one another, so a call is one step. SHA-256 over canonical JSON is the parameter `digest`.
pub mod Consistency
pub mod Invariant
pub mod Replay
use skysolver.Prelude.{
  ℕ, zero, suc, ◌+◌, ◌-◌, ◌*◌, ◌≤◌, ◌<◌, String, ◌≡◌, refl, sym, ap, ◌∙◌, subst, ◌≢◌, ◌↔◌, ◌⊎◌, inl,
  inr, Bool, true, false, not, ◌&&◌, ◌||◌, Option, none, some, List, [], ◌∷◌, ◌++◌, map, arith,
  eq_iff, ltb, leb, nat_beq, nat_beq_iff, if◌then◌else◌, Eq, ◌==◌, ◌!=◌, nat_eq, string_eq, pair_eq,
  beq_refl, eq_of_beq, Bool-cases, Option-cases, is_none, is_some, length, is_empty, any, all,
  filter, length-append, contains, All, All-append, Pointwise, Pointwise-refl, Pointwise-map,
  find_first, update_first, find_first_holds, Pointwise-update_first,
}
use skysolver.Prelude.Result.{Result, ok, err, ◌>>=◌, ◌>>◌, raise_if, or_raise}
use skysolver.Prelude.Dict.{Dict, lookup, insert}
use skysolver.Prelude.Clock.{Instant}
use Prim.Native.String.{count}

pub data StoreError : Type 0 where
  invalid_mutation idempotency_conflict mutation_in_progress optimistic_concurrency : StoreError

-- What `command_hash` is computed from.
pub record CommandContent : Type 0 where
  pub command_type : String
  pub expected_version : ℕ
  pub recovery_id : String
  pub request : List (String × String)

-- The version is written into the response by the transaction that commits.
pub record Response (Snapshot : Type 0) : Type 0 where
  pub action_status : String
  pub recovery : Snapshot
  pub state_version : Option ℕ

pub record WorkflowMutation (Snapshot : Type 0) : Type 0 where
  pub tenant_id : String
  pub recovery_id : String
  pub expected_version : ℕ
  pub idempotency_key : String
  pub command_type : String
  pub event_type : String
  pub actor_subject : String
  pub correlation_id : String
  pub causation_id : Option String
  pub partition_id : String
  pub request : List (String × String)
  pub snapshot : Snapshot
  pub response : Response Snapshot
  pub occurred_at : Option Instant

pub record MutationReceipt (Snapshot : Type 0) : Type 0 where
  pub event_id : String
  pub state_version : ℕ
  pub response : Response Snapshot
  pub replayed : Bool

pub data CommandState (Snapshot : Type 0) : Type 0 where
  processing : CommandState Snapshot
  completed : String → ℕ → Response Snapshot → CommandState Snapshot

-- workflow_command
pub record CommandRow (Snapshot : Type 0) : Type 0 where
  pub command_sha256 : String
  pub state : CommandState Snapshot

-- operational_event
pub record EventRow (Snapshot : Type 0) : Type 0 where
  pub event_id : String
  pub tenant_id : String
  pub aggregate_id : String
  pub aggregate_version : ℕ
  pub partition_key : String × (String × String)
  pub event_type : String
  pub correlation_id : String
  pub causation_id : Option String
  pub actor_subject : String
  pub snapshot : Snapshot

-- recovery_workflow_snapshot
pub record SnapshotRow (Snapshot : Type 0) : Type 0 where
  pub state_version : ℕ
  pub snapshot : Snapshot
  pub last_event_id : String

-- The commands by tenant and key, the streams and the snapshots by tenant and recovery; the outbox
-- holds the event that each envelope carries.
pub record Database (Snapshot : Type 0) : Type 0 where
  pub commands : Dict (String × String) (CommandRow Snapshot)
  pub streams : Dict (String × String) ℕ
  pub events : List (EventRow Snapshot)
  pub outbox : List (EventRow Snapshot)
  pub snapshots : Dict (String × String) (SnapshotRow Snapshot)

abbrev pub version_of : Option ℕ → ℕ
version_of none = 0
version_of (some n) = n

-- `INSERT INTO aggregate_stream ... 0 ON CONFLICT DO NOTHING`
unfoldable pub open_stream : String × String → Dict (String × String) ℕ → Dict (String × String) ℕ
open_stream key streams = elim (lookup key streams) [
  | none ↦ insert key 0 streams
  | some _ ↦ streams
]

-- `UPDATE aggregate_stream ... WHERE current_version = current`; `none` is a row count of 0.
unfoldable pub bump_stream :
    String × String → ℕ → Dict (String × String) ℕ → Option (Dict (String × String) ℕ)
bump_stream key current streams = elim (lookup key streams) [
  | none ↦ none
  | some n ↦ if n == current then some (insert key (current + 1) streams) else none
]

module _ {Snapshot : Type 0} where
  -- `WorkflowMutation.validate`; a version is a natural number here
  unfoldable pub validate : WorkflowMutation Snapshot → Result StoreError (Unit {0})
  validate m = do
    raise_if (m.tenant_id == "" || m.recovery_id == "") invalid_mutation
    raise_if (ltb (count m.idempotency_key) 8) invalid_mutation
    raise_if (elim m.occurred_at [ none ↦ false | some t ↦ not t.aware ]) invalid_mutation

  abbrev pub content : WorkflowMutation Snapshot → CommandContent
  content m = record {
    command_type = m.command_type;
    expected_version = m.expected_version;
    recovery_id = m.recovery_id;
    request = m.request;
  }

  abbrev pub command_key : WorkflowMutation Snapshot → String × String
  command_key m = (m.tenant_id, m.idempotency_key)

  abbrev pub stream_key : WorkflowMutation Snapshot → String × String
  stream_key m = (m.tenant_id, m.recovery_id)

  -- `_existing_receipt`
  unfoldable pub existing_receipt :
      CommandRow Snapshot → String → Result StoreError (MutationReceipt Snapshot)
  existing_receipt row hash = do
    raise_if (row.command_sha256 != hash) idempotency_conflict
    elim row.state [
      | processing ↦ err mutation_in_progress
      | completed event version response ↦ ok (record {
        event_id = event;
        state_version = version;
        response = response;
        replayed = true;
      })
    ]

  -- `UPDATE workflow_command ... WHERE status = 'processing'`
  unfoldable pub complete_command :
      String × String
      → String
      → ℕ
      → Response Snapshot
      → Dict (String × String) (CommandRow Snapshot)
      → Option (Dict (String × String) (CommandRow Snapshot))
  complete_command key event version response table = elim (lookup key table) [
    | none ↦ none
    | some row ↦ elim row.state [
      | processing ↦
          some (insert key (record row { state = completed event version response }) table)
      | completed _ _ _ ↦ none
    ]
  ]

  unfoldable pub event_row : WorkflowMutation Snapshot → String → ℕ → EventRow Snapshot
  event_row m event version = record {
    event_id = event;
    tenant_id = m.tenant_id;
    aggregate_id = m.recovery_id;
    aggregate_version = version;
    partition_key = (m.tenant_id, (m.partition_id, m.recovery_id));
    event_type = m.event_type;
    correlation_id = m.correlation_id;
    causation_id = m.causation_id;
    actor_subject = m.actor_subject;
    snapshot = m.snapshot;
  }

  -- `INSERT ... ON CONFLICT DO UPDATE ... WHERE state_version = current`
  unfoldable pub upsert :
      String × String
      → ℕ
      → SnapshotRow Snapshot
      → Dict (String × String) (SnapshotRow Snapshot)
      → Dict (String × String) (SnapshotRow Snapshot)
  upsert key current row table = elim (lookup key table) [
    | none ↦ insert key row table
    | some old ↦ if old.state_version == current then insert key row table else table
  ]

  -- `{**mutation.response, "state_version": new_version}`
  abbrev pub with_version : ℕ → Response Snapshot → Response Snapshot
  with_version version r = record r { state_version = some version }

  module _ (digest : CommandContent → String) where
    -- The writes of the transaction once the version has been compared.
    unfoldable pub commit_tables :
        WorkflowMutation Snapshot
        → String
        → ℕ
        → Dict (String × String) (CommandRow Snapshot)
        → Dict (String × String) ℕ
        → Database Snapshot
        → Result StoreError (MutationReceipt Snapshot) × Database Snapshot
    commit_tables m event current reserved streams db =
        elim (bump_stream (stream_key m) current streams) [
          | none ↦ (err optimistic_concurrency, db)
          | some streams' ↦
              elim (complete_command (command_key m) event (current + 1)
                (with_version (current + 1) m.response) reserved) [
                  | none ↦ (err mutation_in_progress, db)
                  | some commands' ↦ (
                    ok (record {
                      event_id = event;
                      state_version = current + 1;
                      response = with_version (current + 1) m.response;
                      replayed = false;
                    }),
                    record {
                      commands = commands';
                      streams = streams';
                      events = db.events ++ event_row m event (current + 1) ∷ [];
                      outbox = db.outbox ++ event_row m event (current + 1) ∷ [];
                      snapshots =
                          upsert (stream_key m) current
                            (record {
                              state_version = current + 1;
                              snapshot = m.snapshot;
                              last_event_id = event;
                            })
                            db.snapshots;
                    },
                  )
                ]
        ]

    abbrev pub reserved :
        WorkflowMutation Snapshot → Database Snapshot → Dict (String × String) (CommandRow Snapshot)
    reserved m db =
        insert (command_key m) (record { command_sha256 = digest (content m); state = processing })
          db.commands

    -- The transaction after the idempotency reservation, in the order of its statements.
    unfoldable pub commit_new :
        WorkflowMutation Snapshot
        → String
        → Database Snapshot
        → Result StoreError (MutationReceipt Snapshot) × Database Snapshot
    commit_new m event db =
        let streams = open_stream (stream_key m) db.streams in
        let current = version_of (lookup (stream_key m) streams) in
        if current != m.expected_version
        then (err optimistic_concurrency, db)
        else commit_tables m event current (reserved m db) streams db

    -- `mutate`, with the fresh event identifier as an argument.
    unfoldable pub mutate :
        WorkflowMutation Snapshot
        → String
        → Database Snapshot
        → Result StoreError (MutationReceipt Snapshot) × Database Snapshot
    mutate m event db = elim (validate m) [
      | err e ↦ (err e, db)
      | ok _ ↦ elim (lookup (command_key m) db.commands) [
        | none ↦ commit_new m event db
        | some row ↦ (existing_receipt row (digest (content m)), db)
      ]
    ]

  -- `get_snapshot`
  unfoldable pub get_snapshot : String → String → Database Snapshot → Option (SnapshotRow Snapshot)
  get_snapshot tenant recovery db = lookup (tenant, recovery) db.snapshots
