-- ===== src/State/Saga/Progress.antt =====
-- What the status of a saga says of it (state/reconciliation.py).
use skysolver.Prelude.{
  ℕ, ◌+◌, ◌≤◌, String, ◌≡◌, sym, ap, ◌∙◌, subst, ◌≢◌, ◌↔◌, ◌⊎◌, inl, inr, Bool, true, false, ◌&&◌,
  arith, if◌then◌else◌, nat_eq, string_eq, pair_eq, is_none,
}
use skysolver.State.Saga.{
  stale_state, acknowledge_partition, settle, record_ack, commit, finish, validated, compensated,
  complete, acknowledge, partial, committing, judge, compensating, hold_destination, hold_source,
  ok, destination_reserved, source_reserved, Action, truthy, requested, code, is_true, check_saga,
  SagaStatus, PartitionMoveSaga, act,
}
use skysolver.Prelude.Result.{err, Result-cases}

-- The arrows between the statuses.
pub data Arrow : SagaStatus → SagaStatus → Type 0 where
  take_source : Arrow requested source_reserved
  take_destination : Arrow source_reserved destination_reserved
  clear : Arrow destination_reserved validated
  object : Arrow destination_reserved compensating
  start : Arrow validated committing
  one_side : Arrow committing partial
  same_side : Arrow partial partial
  both_sides : Arrow partial complete
  refuse : Arrow committing compensating
  refuse_later : Arrow partial compensating
  release : Arrow compensating compensated

-- The reservations and the validation that a commit rests on.
abbrev pub evidence : PartitionMoveSaga → Bool
evidence s =
    truthy s.source_reservation
    && (truthy s.destination_reservation
        && (truthy s.legality_certificate_id && truthy s.movement_validation_id))

abbrev pub agreement : PartitionMoveSaga → Bool
agreement s = is_true s.source_ack && is_true s.destination_ack

-- The evidence in a saga is that of its status.
pub record IsHonest (s : PartitionMoveSaga) : Type 0 where
  pub backed : 4 ≤ code s.status → code s.status ≤ 6 → evidence s ≡ true
  pub agreed : (agreement s ≡ true) ↔ (code s.status ≡ 6)
  pub unasked :
      code s.status ≤ 4 → (is_none s.source_ack ≡ true) × (is_none s.destination_ack ≡ true)

-- The saga of an acknowledgement before it settles.
acknowledge_partition-eq-ok :
    (v : ℕ) (p : String) (a : Bool) (now : String) (s s' : PartitionMoveSaga)
    → acknowledge_partition v p a now s ≡ ok s'
    → (s.state_version ≡ v)
      × ((code s.status ≡ 4) ⊎ (code s.status ≡ 5))
      × ((w : PartitionMoveSaga) × (record_ack p a s ≡ ok w) × (settle a now w ≡ s'))
unfolding acknowledge_partition
acknowledge_partition-eq-ok v p a now s s' h = elim (Result-cases (record_ack p a s)) [
  | inr (e, refused) ↦ absurd (ground arith)
  | inl (w, written) ↦ (ground arith, ground arith, (w, written, ground arith))
]

-- One side is written, and nothing else.
record_ack-eq-ok :
    (p : String) (a : Bool) (s w : PartitionMoveSaga)
    → record_ack p a s ≡ ok w
    → (w.status ≡ s.status)
      × (w.state_version ≡ s.state_version)
      × (evidence w ≡ evidence s)
      × (a ≡ false → agreement w ≡ false)
      × (is_none s.source_ack ≡ true → is_none s.destination_ack ≡ true → agreement w ≡ false)
unfolding record_ack
record_ack-eq-ok p a s w h = (ground arith, ground arith, ground arith, ground arith, ground arith)

-- An answer closes the saga when both sides have agreed, and starts the compensation when this
-- one has not.
settle_lem :
    (a : Bool) (now : String) (w : PartitionMoveSaga)
    → (code (settle a now w).status ≡ (if a then if agreement w then 6 else 5 else 7))
      × (agreement (settle a now w) ≡ agreement w)
      × (evidence (settle a now w) ≡ evidence w)
      × ((settle a now w).state_version ≡ w.state_version + 1)
unfolding settle
settle_lem a now w = (ground arith, ground arith, ground arith, ground arith)

acknowledged-IsHonest :
    (a : Bool) (now : String) (s w : PartitionMoveSaga)
    → IsHonest s
    → (code s.status ≡ 4) ⊎ (code s.status ≡ 5)
    → evidence w ≡ evidence s
    → (a ≡ false → agreement w ≡ false)
    → IsHonest (settle a now w)
acknowledged-IsHonest a now s w honest at same refused =
    let (to, agree, proof, _) = settle_lem a now w in
    record {
      backed = λ _ _. proof ∙ same ∙ honest.backed (omega arith) (omega arith);
      agreed = rw (to, agree) (ground arith);
      unasked = rw to (ground arith);
    }

-- The evidence stays that of the status, whatever call returns.
pub act-IsHonest :
    (a : Action) (v : ℕ) (now : String) (s s' : PartitionMoveSaga)
    → IsHonest s
    → act a v now s ≡ ok s'
    → IsHonest s'
unfolding act check_saga
act-IsHonest (hold_source r) v now s s' honest h = record {
  backed = ground (arith, honest.backed);
  agreed = ground (arith, honest.agreed);
  unasked = ground (arith, honest.unasked);
}
act-IsHonest (hold_destination r) v now s s' honest h = record {
  backed = ground (arith, honest.backed);
  agreed = ground (arith, honest.agreed);
  unasked = ground (arith, honest.unasked);
}
act-IsHonest (judge c m findings) v now s s' honest h = record {
  backed = ground (arith, honest.backed);
  agreed = ground (arith, honest.agreed);
  unasked = ground (arith, honest.unasked);
}
act-IsHonest commit v now s s' honest h = record {
  backed = ground (arith, honest.backed);
  agreed = ground (arith, honest.agreed);
  unasked = ground (arith, honest.unasked);
}
act-IsHonest (acknowledge p a) v now s s' honest h =
    let (_, at, (w, written, settled)) = acknowledge_partition-eq-ok v p a now s s' h in
    let (_, _, same, refused, _) = record_ack-eq-ok p a s w written in
    subst IsHonest settled (acknowledged-IsHonest a now s w honest at same refused)
act-IsHonest (finish x y) v now s s' honest h = record {
  backed = ground (arith, honest.backed);
  agreed = ground (arith, honest.agreed);
  unasked = ground (arith, honest.unasked);
}

answer_Arrow :
    (a : Bool) (t t' : SagaStatus) (all_agree : Bool)
    → (code t ≡ 4) ⊎ (code t ≡ 5)
    → code t' ≡ (if a then if all_agree then 6 else 5 else 7)
    → (a ≡ false → all_agree ≡ false)
    → (code t ≡ 4 → all_agree ≡ false)
    → Arrow t t'
answer_Arrow a t t' all_agree at to refused first =
    grind (arith, one_side, same_side, both_sides, refuse, refuse_later)

-- A call that returns on a saga whose evidence is that of its status takes it along one arrow of
-- the state machine.
pub act-Arrow :
    (a : Action) (v : ℕ) (now : String) (s s' : PartitionMoveSaga)
    → IsHonest s
    → act a v now s ≡ ok s'
    → Arrow s.status s'.status
unfolding act check_saga
act-Arrow (hold_source r) v now s s' honest h = grind (arith, take_source)
act-Arrow (hold_destination r) v now s s' honest h = grind (arith, take_destination)
act-Arrow (judge c m findings) v now s s' honest h = grind (arith, clear, object)
act-Arrow commit v now s s' honest h = grind (arith, start)
act-Arrow (acknowledge p a) v now s s' honest h =
    let (_, at, (w, written, settled)) = acknowledge_partition-eq-ok v p a now s s' h in
    let (_, _, _, refused, first) = record_ack-eq-ok p a s w written in
    let (to, _, _, _) = settle_lem a now w in
    subst (λ x. Arrow s.status x.status) settled
      (answer_Arrow a s.status _ (agreement w) at to refused
        (λ fresh. first (honest.unasked (omega arith)).0 (honest.unasked (omega arith)).1))
act-Arrow (finish x y) v now s s' honest h = grind (arith, release)

-- A call that returns was made at the current version and moves it up by one; one made at another
-- version is refused as stale.
pub act_version :
    (a : Action) (v : ℕ) (now : String) (s : PartitionMoveSaga)
    → ((s' : PartitionMoveSaga)
        → act a v now s ≡ ok s'
        → (s.state_version ≡ v) × (s'.state_version ≡ v + 1))
      × (s.state_version ≢ v → act a v now s ≡ err stale_state)
unfolding act check_saga
act_version (hold_source r) v now s = (λ s' h. (ground arith, ground arith), λ n. ground arith)
act_version (hold_destination r) v now s = (λ s' h. (ground arith, ground arith), λ n. ground arith)
act_version (judge c m findings) v now s = (λ s' h. (ground arith, ground arith), λ n. ground arith)
act_version commit v now s = (λ s' h. (ground arith, ground arith), λ n. ground arith)
act_version (acknowledge p a) v now s = (
  λ s' h.
      let (at, _, (w, written, settled)) = acknowledge_partition-eq-ok v p a now s s' h in
      let (_, same, _, _, _) = record_ack-eq-ok p a s w written in
      let (_, _, _, up) = settle_lem a now w in
      (at, ap (λ x. x.state_version) (sym settled) ∙ up ∙ ap (λ n. n + 1) (same ∙ at)),
  λ n. ground arith,
)
act_version (finish x y) v now s = (λ s' h. (ground arith, ground arith), λ n. ground arith)
