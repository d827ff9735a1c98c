-- ===== src/State/Saga/Registry.antt =====
-- `PartitionMoveRegistry` of state/reconciliation.py: sagas by identifier, and the identifier that
-- each idempotency key has got. `key_error` is Python's, for a key without its saga.
use skysolver.Prelude.{
  ℕ, String, ◌≡◌, refl, ap, ◌∙◌, ◌≢◌, ◌⊎◌, inl, inr, none, some, [], arith, eq_iff, if◌then◌else◌,
  ◌==◌, nat_eq, string_eq, pair_eq, Bool-cases, Option-cases, All,
}
use skysolver.State.Saga.{
  key_error, same_partition, saga_not_found, act, err, requested, SagaError, ok, Action,
  PartitionMoveSaga,
}
use skysolver.State.Saga.Progress.{act-IsHonest, IsHonest}
use skysolver.Prelude.Dict.{
  lookup-insert_self, insert, All-insert, All-lookup, values, lookup, Dict,
}
use skysolver.Prelude.Exec.{Exec}
use skysolver.Prelude.Result.{Result-cases}

pub record PartitionMoveRegistry : Type 0 where
  pub sagas : Dict String PartitionMoveSaga
  pub idempotency : Dict (String × String) String

pub record MoveRequest : Type 0 where
  pub tenant_id : String
  pub recovery_id : String
  pub resource_type : String
  pub resource_id : String
  pub source_partition : String
  pub destination_partition : String
  pub movement_reference : String
  pub correlation_id : String
  pub idempotency_key : String

unfoldable pub new_saga : MoveRequest → String → String → PartitionMoveSaga
new_saga q id now = record {
  saga_id = id;
  tenant_id = q.tenant_id;
  recovery_id = q.recovery_id;
  resource_type = q.resource_type;
  resource_id = q.resource_id;
  source_partition = q.source_partition;
  destination_partition = q.destination_partition;
  movement_reference = q.movement_reference;
  correlation_id = q.correlation_id;
  status = requested;
  state_version = 1;
  source_reservation = none;
  destination_reservation = none;
  legality_certificate_id = none;
  movement_validation_id = none;
  source_ack = none;
  destination_ack = none;
  findings = [];
  created_at = now;
  updated_at = now;
}

abbrev pub key_of : MoveRequest → String × String
key_of q = (q.tenant_id, q.idempotency_key)

-- `create`, with the fresh identifier as an argument.
unfoldable pub create :
    MoveRequest → String → String → Exec PartitionMoveRegistry SagaError PartitionMoveSaga
unfolding new_saga
create q id now g =
    if q.source_partition == q.destination_partition
    then (err same_partition, g)
    else elim (lookup (key_of q) g.idempotency) [
      | some known ↦ elim (lookup known g.sagas) [
        | none ↦ (err key_error, g)
        | some saga ↦ (ok saga, g)
      ]
      | none ↦ (
        ok (new_saga q id now),
        record {
          sagas = insert id (new_saga q id now) g.sagas;
          idempotency = insert (key_of q) id g.idempotency;
        },
      )
    ]

-- A method on the saga of an identifier: `get`, then the call on the object that the registry
-- holds.
unfoldable pub call :
    String → Action → ℕ → String → Exec PartitionMoveRegistry SagaError PartitionMoveSaga
call id a v now g = elim (lookup id g.sagas) [
  | none ↦ (err saga_not_found, g)
  | some saga ↦ elim (act a v now saga) [
    | err e ↦ (err e, g)
    | ok saga' ↦ (ok saga', record g { sagas = insert id saga' g.sagas })
  ]
]

-- How a creation ends: refused, answered by the saga of its key, or stored.
create-cases :
    (q : MoveRequest) (id now : String) (g : PartitionMoveRegistry)
    → ((e : SagaError) × (create q id now g ≡ (err e, g)))
      ⊎ (((known : String) × (saga : PartitionMoveSaga) × (lookup (key_of q) g.idempotency
              ≡ some known)
            × (lookup known g.sagas ≡ some saga)
            × (create q id now g ≡ (ok saga, g)))
          ⊎ (create q id now g ≡ (
            ok (new_saga q id now),
            record {
              sagas = insert id (new_saga q id now) g.sagas;
              idempotency = insert (key_of q) id g.idempotency;
            },
          )))
unfolding create
create-cases q id now g = elim (Bool-cases (q.source_partition == q.destination_partition)) [
  | inl same ↦ inl (same_partition, rw (same, create) refl)
  | inr apart ↦ elim (Option-cases (lookup (key_of q) g.idempotency)) [
    | inl new ↦ inr (inr (rw (apart, create) (rw (new, create) refl)))
    | inr (known, mapped) ↦ elim (Option-cases (lookup known g.sagas)) [
      | inl absent ↦
          inl (key_error, rw (apart, create) (rw (mapped, create) (rw (absent, create) refl)))
      | inr (saga, found) ↦ inr (
          inl (
            known,
            saga,
            mapped,
            found,
            rw (apart, create) (rw (mapped, create) (rw (found, create) refl)),
          ))
    ]
  ]
]

create_stores :
    (q : MoveRequest) (id now : String) (g : PartitionMoveRegistry) (saga : PartitionMoveSaga)
    → (create q id now g).0 ≡ ok saga
    → (known : String) × (lookup (key_of q) (create q id now g).1.idempotency ≡ some known)
      × (lookup known (create q id now g).1.sagas ≡ some saga)
create_stores q id now g saga h = elim (create-cases q id now g) [
  | inl (e, refused) ↦ absurd (ground (arith, refused))
  | inr (inl (known, old, mapped, found, answered)) ↦
      (known, rw answered mapped, rw answered (found ∙ ground (arith, answered)))
  | inr (inr stored) ↦ (
    id,
    rw stored (lookup-insert_self (key_of q) id g.idempotency),
    rw stored (lookup-insert_self id (new_saga q id now) g.sagas ∙ ground (arith, stored)),
  )
]

create_known :
    (q : MoveRequest) (id now known : String) (g : PartitionMoveRegistry) (saga : PartitionMoveSaga)
    → q.source_partition ≢ q.destination_partition
    → lookup (key_of q) g.idempotency ≡ some known
    → lookup known g.sagas ≡ some saga
    → create q id now g ≡ (ok saga, g)
unfolding create
create_known q id now known g saga apart mapped found =
    rw (mapped, create)
      (rw (found, create) (ground (arith, eq_iff q.source_partition q.destination_partition)))

-- A repeated creation changes nothing: under the tenant and key of one that returned, any request
-- between distinct partitions gets the saga of the first, whatever else it asks for.
pub create_move_again :
    (q q' : MoveRequest) (id id' now now' : String) (g : PartitionMoveRegistry)
    (saga : PartitionMoveSaga)
    → (create q id now g).0 ≡ ok saga
    → key_of q' ≡ key_of q
    → q'.source_partition ≢ q'.destination_partition
    → create q' id' now' (create q id now g).1 ≡ (ok saga, (create q id now g).1)
create_move_again q q' id id' now now' g saga h same apart =
    let (known, mapped, found) = create_stores q id now g saga h in
    create_known q' id' now' known (create q id now g).1 saga apart
      (ap (λ k. lookup k (create q id now g).1.idempotency) same ∙ mapped) found

pub call_move_error :
    (id : String) (a : Action) (v : ℕ) (now : String) (g : PartitionMoveRegistry) (e : SagaError)
    → (call id a v now g).0 ≡ err e
    → (call id a v now g).1 ≡ g
unfolding call
call_move_error id a v now g e h = ground arith

-- The registry after some calls.
pub data Reached : PartitionMoveRegistry → Type 0 where
  empty : Reached (record { sagas = []; idempotency = [] })
  created :
      {g : PartitionMoveRegistry} (q : MoveRequest) (id now : String)
      → Reached g
      → Reached (create q id now g).1
  called :
      {g : PartitionMoveRegistry} (id : String) (a : Action) (v : ℕ) (now : String)
      → Reached g
      → Reached (call id a v now g).1

create-IsHonest :
    (q : MoveRequest) (id now : String) (g : PartitionMoveRegistry)
    → All IsHonest (values g.sagas)
    → All IsHonest (values (create q id now g).1.sagas)
unfolding new_saga
create-IsHonest q id now g h = elim (create-cases q id now g) [
  | inl (e, refused) ↦ rw refused h
  | inr (inl (known, old, mapped, found, answered)) ↦ rw answered h
  | inr (inr stored) ↦ rw stored (
      All-insert IsHonest id (new_saga q id now) g.sagas h (record {
        backed = λ p. absurd (omega arith);
        agreed = (λ p. absurd (cc), λ p. absurd (omega (arith, p)));
        unasked = λ _. (refl, refl);
      }))
]

call-IsHonest :
    (id : String) (a : Action) (v : ℕ) (now : String) (g : PartitionMoveRegistry)
    → All IsHonest (values g.sagas)
    → All IsHonest (values (call id a v now g).1.sagas)
unfolding call
call-IsHonest id a v now g h = elim (Option-cases (lookup id g.sagas)) [
  | inl absent ↦ rw (absent, call) h
  | inr (saga, found) ↦ elim (Result-cases (act a v now saga)) [
    | inr (e, refused) ↦ rw (found, call) (rw (refused, call) h)
    | inl (saga', done) ↦
        rw (found, call)
          (rw (done, call)
            (All-insert IsHonest id saga' g.sagas h
              (act-IsHonest a v now saga saga' (All-lookup IsHonest id saga g.sagas h found) done)))
  ]
]

Reached-All : {g : PartitionMoveRegistry} → Reached g → All IsHonest (values g.sagas)
Reached-All empty = tt
Reached-All (created q id now r) = create-IsHonest q id now _ (Reached-All r)
Reached-All (called id a v now r) = call-IsHonest id a v now _ (Reached-All r)

-- After any calls, a stored saga is complete exactly when both partitions have accepted, and one
-- that commits has both reservations and both validations.
pub Reached-IsHonest :
    {g : PartitionMoveRegistry} (id : String) (saga : PartitionMoveSaga)
    → Reached g
    → lookup id g.sagas ≡ some saga
    → IsHonest saga
Reached-IsHonest {g} id saga r found = All-lookup IsHonest id saga g.sagas (Reached-All r) found
