-- ===== src/Deployment/CommandState/Completion.antt =====
-- What the status of a deployment says of its commands (deployment/command_state.py).
use skysolver.Prelude.Result.{ok}
use skysolver.Deployment.CommandState.Lifecycle.{commands-compensate, on_command-eq-ok}
use skysolver.Deployment.CommandState.{
  compensate, undo, compensated_command, undone, retried_command, again, timed_out_command, expire,
  answered_command, answer, sent_command, send, Operation, compensation_command, perform,
  with_command, recompute, named, inr, arith, inl, false, is, Bool-cases, has, true, ◌∷◌,
  CommandStatus, all, some, All, is_empty, required_commands, not, Bool, DeploymentStatus,
  DeploymentAggregate, ResourceCommand, recomputed,
}
use skysolver.Prelude.{
  subst, ℕ, ◌<◌, String, ◌≡◌, refl, ◌≢◌, ◌⊎◌, inl, inr, Bool, true, false, not, ◌&&◌, Option, some,
  List, [], ◌∷◌, map, arith, nat_eq, string_eq, pair_eq, Bool-cases, is_empty, all, All, find_first,
  update_first,
}

-- There is a required command, and every required command is acknowledged.
abbrev pub fully_acknowledged : List ResourceCommand → Bool
fully_acknowledged cs =
    not (is_empty (required_commands cs))
    && all (has CommandStatus.acknowledged) (required_commands cs)

abbrev pub IsAttempted : ResourceCommand → Type 0
IsAttempted c = (c.status ≡ CommandStatus.queued) ⊎ (0 < c.attempts)

-- A deployment is called complete only if every required command is acknowledged, and no command
-- has an outcome without an attempt.
pub record IsTruthful (d : DeploymentAggregate) : Type 0 where
  pub complete_acknowledged :
      d.status ≡ DeploymentStatus.complete → fully_acknowledged d.commands ≡ true
  pub attempted : All IsAttempted d.commands

-- A command that is not acknowledged and stands among those of a complete deployment is optional,
-- so a write to it leaves the required ones alone.
fully_acknowledged-update :
    (p : ResourceCommand → Bool) (f : ResourceCommand → ResourceCommand) (cs : List ResourceCommand)
    → ((c : ResourceCommand) → (f c).required ≡ c.required)
    → (c : ResourceCommand) → find_first p cs ≡ some c
    → is c.status CommandStatus.acknowledged ≡ false
    → all (has CommandStatus.acknowledged) (required_commands cs) ≡ true
    → required_commands (update_first p f cs) ≡ required_commands cs
unfolding find_first update_first
fully_acknowledged-update p f [] keep c e n h = refl
fully_acknowledged-update p f (x ∷ cs) keep c e n h =
    ground (arith, keep x, fully_acknowledged-update p f cs keep c)

All-update_first :
    (P : ResourceCommand → Type 0) (p : ResourceCommand → Bool)
    (f : ResourceCommand → ResourceCommand) (cs : List ResourceCommand)
    → ((c : ResourceCommand) → find_first p cs ≡ some c → P c → P (f c))
    → All P cs
    → All P (update_first p f cs)
unfolding find_first update_first
All-update_first P p f [] keep h = tt
All-update_first P p f (x ∷ cs) keep h = elim (Bool-cases (p x)) [
  | inl here ↦ rw here (keep x (rw here) h.0, h.1)
  | inr later ↦ rw later (h.0, All-update_first P p f cs (λ c e. keep c (rw later e)) h.1)
]

recomputed-eq-complete :
    (cs : List ResourceCommand) (old : DeploymentStatus)
    → recomputed (required_commands cs) old ≡ DeploymentStatus.complete
    → (fully_acknowledged cs ≡ true) ⊎ (old ≡ DeploymentStatus.complete)
unfolding recomputed
recomputed-eq-complete cs old h = ground arith

some_eq : {A : Type 0} {o : Option A} {x y : A} → o ≡ some x → o ≡ some y → x ≡ y
some_eq p q = cc

-- A call that writes one command that is not acknowledged, and then recomputes the status.
module _ (k : String) (f : ResourceCommand → ResourceCommand) (d : DeploymentAggregate)
    (keep : (c : ResourceCommand) → (f c).required ≡ c.required) (c : ResourceCommand)
    (found : find_first (named k) d.commands ≡ some c)
    (open_command : is c.status CommandStatus.acknowledged ≡ false) where
  fully_acknowledged-with_command :
      fully_acknowledged d.commands ≡ true
      → fully_acknowledged (update_first (named k) f d.commands) ≡ true
  fully_acknowledged-with_command h =
      rw (fully_acknowledged-update (named k) f d.commands keep c found open_command (ground arith))
        h

  recompute-IsTruthful :
      (IsAttempted c → IsAttempted (f c))
      → IsTruthful d
      → IsTruthful (recompute (with_command k f d))
  recompute-IsTruthful attempts h = record {
    complete_acknowledged = λ e.
        elim (recomputed-eq-complete (update_first (named k) f d.commands) d.status e) [
          | inl all_acknowledged ↦ all_acknowledged
          | inr old ↦ fully_acknowledged-with_command (h.complete_acknowledged old)
        ];
    attempted =
        All-update_first IsAttempted (named k) f d.commands
          (λ x e. subst (λ y. IsAttempted y → IsAttempted (f y)) (some_eq found e) attempts)
          h.attempted;
  }

compensate-All :
    (now : String) (cs : List ResourceCommand)
    → All IsAttempted cs
    → All IsAttempted (map (compensation_command now) cs)
compensate-All now [] h = tt
compensate-All now (c ∷ cs) h = (ground arith, compensate-All now cs h.1)

status-compensate :
    (v : ℕ) (now : String) (d : DeploymentAggregate) {d' : DeploymentAggregate}
    → compensate v now d ≡ ok d'
    → d'.status ≢ DeploymentStatus.complete
unfolding compensate
status-compensate v now d h = ground arith

-- Every call keeps a deployment truthful: it is complete only with every required command
-- acknowledged, and no command leaves the queue without an attempt.
pub perform-IsTruthful :
    (o : Operation) (v : ℕ) (now : String) (d : DeploymentAggregate) {d' : DeploymentAggregate}
    → IsTruthful d
    → perform o v now d ≡ ok d'
    → IsTruthful d'
unfolding perform
perform-IsTruthful (send k r) v now d t h =
    let (c, found, _, may, result) = on_command-eq-ok k v _ _ _ d h in
    let h' =
      recompute-IsTruthful k (sent_command r now) d (λ _. refl) c found (ground arith)
        (ground arith) t in
    rw result
      (record { complete_acknowledged = h'.complete_acknowledged; attempted = h'.attempted })
perform-IsTruthful (answer k a r x m) v now d t h =
    let (c, found, _, may, result) = on_command-eq-ok k v _ _ _ d h in
    let h' =
      recompute-IsTruthful k (answered_command a r x m now) d (λ _. refl) c found (ground arith)
        (ground arith) t in
    rw result
      (record { complete_acknowledged = h'.complete_acknowledged; attempted = h'.attempted })
perform-IsTruthful (expire k) v now d t h =
    let (c, found, _, may, result) = on_command-eq-ok k v _ _ _ d h in
    let h' =
      recompute-IsTruthful k (timed_out_command now) d (λ _. refl) c found (ground arith)
        (ground arith) t in
    rw result
      (record { complete_acknowledged = h'.complete_acknowledged; attempted = h'.attempted })
perform-IsTruthful (again k) v now d t h =
    let (c, found, _, may, result) = on_command-eq-ok k v _ _ _ d h in
    rw result (record {
      complete_acknowledged = λ e. absurd (cc);
      attempted =
          All-update_first IsAttempted (named k) (retried_command now) d.commands
            (λ x e q. ground arith) t.attempted;
    })
perform-IsTruthful undo v now d t h = record {
  complete_acknowledged = λ e. absurd (status-compensate v now d h e);
  attempted = rw (commands-compensate v now d h) (compensate-All now d.commands t.attempted);
}
perform-IsTruthful (undone k r) v now d t h =
    let (c, found, _, may, result) = on_command-eq-ok k v _ _ _ d h in
    rw result (record {
      complete_acknowledged = λ e.
          fully_acknowledged-with_command k (compensated_command r now) d (λ _. refl) c found
            (ground arith) (t.complete_acknowledged (ground arith));
      attempted =
          All-update_first IsAttempted (named k) (compensated_command r now) d.commands
            (λ x e q. ground arith) t.attempted;
    })
