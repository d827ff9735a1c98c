-- ===== src/Tests/Saga.antt =====
-- A crew member moves from one partition to another (state/reconciliation.py).
use skysolver.Prelude.{
  ◌≡◌, refl, ◌≢◌, true, Option, none, some, [], arith, eq_iff, nat_eq, string_eq, pair_eq,
}
use skysolver.State.Saga.Registry.{
  call, create, Reached-IsHonest, empty, created, create_move_again, called, PartitionMoveRegistry,
  new_saga, MoveRequest, Reached,
}
use skysolver.State.Saga.{
  advance, acknowledge, complete, stale_state, settle, record_ack, acknowledge_partition,
  hold_destination, begin_commit, judge, validate_move, check_saga, commit, SagaError,
  reserve_destination, reserve_source, hold_source, PartitionMoveSaga, act,
}
use skysolver.State.Saga.Progress.{act_version, act-Arrow, Arrow, IsHonest}
use skysolver.Prelude.Dict.{insert, lookup}
use skysolver.Prelude.Result.{err, ok, Result}

abbrev move : MoveRequest
move = record {
  tenant_id = "airline";
  recovery_id = "REC-1";
  resource_type = "crew";
  resource_id = "CRW-1";
  source_partition = "DEL";
  destination_partition = "BOM";
  movement_reference = "MOV-1";
  correlation_id = "COR-1";
  idempotency_key = "move-0001";
}

abbrev no_sagas : PartitionMoveRegistry
no_sagas = record { sagas = []; idempotency = [] }

abbrev fresh : PartitionMoveSaga
fresh = new_saga move "SAG-1" "t0"

abbrev or_old : PartitionMoveSaga → Result SagaError PartitionMoveSaga → PartitionMoveSaga
or_old s (ok s') = s'
or_old s (err _) = s

abbrev held : PartitionMoveSaga
held = or_old fresh (act (hold_source "RSV-1") 1 "t1" fresh)

fresh-IsHonest : IsHonest fresh
unfolding new_saga
fresh-IsHonest = record {
  backed = λ p. absurd (omega arith);
  agreed = (λ p. absurd (cc), λ p. absurd (omega (arith, p)));
  unasked = λ _. (refl, refl);
}

act-Arrow_example : Arrow fresh.status held.status
unfolding act reserve_source check_saga advance new_saga
act-Arrow_example = act-Arrow (hold_source "RSV-1") 1 "t1" fresh held fresh-IsHonest refl

act_version_example :
    ((s' : PartitionMoveSaga)
      → act (hold_source "RSV-1") 1 "t1" fresh ≡ ok s'
      → (fresh.state_version ≡ 1) × (s'.state_version ≡ 2))
    × (fresh.state_version ≢ 1 → act (hold_source "RSV-1") 1 "t1" fresh ≡ err stale_state)
act_version_example = act_version (hold_source "RSV-1") 1 "t1" fresh

abbrev finished : PartitionMoveRegistry
finished =
    (call "SAG-1" (acknowledge "BOM" true) 6 "t6"
      (call "SAG-1" (acknowledge "DEL" true) 5 "t5"
        (call "SAG-1" commit 4 "t4"
          (call "SAG-1" (judge "CRT-1" "VAL-1" []) 3 "t3"
            (call "SAG-1" (hold_destination "RSV-2") 2 "t2"
              (call "SAG-1" (hold_source "RSV-1") 1 "t1"
                (create move "SAG-1" "t0" no_sagas).1).1).1).1).1).1).1

abbrev saga_or : PartitionMoveSaga → Option PartitionMoveSaga → PartitionMoveSaga
saga_or s none = s
saga_or s (some s') = s'

abbrev moved : PartitionMoveSaga
moved = saga_or fresh (lookup "SAG-1" finished.sagas)

moved_status : moved.status ≡ complete
unfolding call create act reserve_source reserve_destination validate_move begin_commit
    acknowledge_partition record_ack settle check_saga advance new_saga lookup insert
moved_status = refl

steps : Reached finished
steps = called "SAG-1" (acknowledge "BOM" true) 6 "t6" (
    called "SAG-1" (acknowledge "DEL" true) 5 "t5" (
      called "SAG-1" commit 4 "t4" (
        called "SAG-1" (judge "CRT-1" "VAL-1" []) 3 "t3" (
          called "SAG-1" (hold_destination "RSV-2") 2 "t2"
            (called "SAG-1" (hold_source "RSV-1") 1 "t1" (created move "SAG-1" "t0" empty))))))

Reached-IsHonest_example : IsHonest moved
unfolding call create act reserve_source reserve_destination validate_move begin_commit
    acknowledge_partition record_ack settle check_saga advance new_saga lookup insert
Reached-IsHonest_example = Reached-IsHonest "SAG-1" moved steps refl

create_move_again_example :
    create move "SAG-9" "t9" (create move "SAG-1" "t0" no_sagas).1
    ≡ (ok fresh, (create move "SAG-1" "t0" no_sagas).1)
unfolding create new_saga lookup insert
create_move_again_example =
    create_move_again move move "SAG-1" "SAG-9" "t0" "t9" no_sagas fresh refl refl
      (ground (arith, eq_iff "DEL" "BOM"))
