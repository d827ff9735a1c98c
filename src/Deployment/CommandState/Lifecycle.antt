-- ===== src/Deployment/CommandState/Lifecycle.antt =====
-- How each call moves the commands of a deployment (deployment/command_state.py).
use skysolver.Prelude.{
  Pointwise-update_first, ℕ, ◌+◌, ◌≤◌, String, ◌≡◌, refl, ◌≢◌, ◌⊎◌, inl, inr, Bool, true, false,
  Option, some, map, arith, nat_eq, string_eq, pair_eq, Option-cases, Pointwise, Pointwise-map,
}
use skysolver.Prelude.Result.{ok, err}
use skysolver.Deployment.CommandState.{
  terminal_failure, on_command, update_first, find_first, CommandStatus, ResourceCommand,
  DeploymentAggregate, DeploymentConflict, Operation, stale_state, is, send, answer, expire, again,
  undo, undone, compensation_command, perform, sent_command, answered_command, timed_out_command,
  retried_command, compensated_command, compensate, named,
}

-- The arrows of the command state machine.
pub data Moves : CommandStatus → CommandStatus → Type 0 where
  publish : Moves CommandStatus.queued CommandStatus.sent
  accept : Moves CommandStatus.sent CommandStatus.acknowledged
  reject : Moves CommandStatus.sent CommandStatus.rejected
  give_up : Moves CommandStatus.sent CommandStatus.timed_out
  retry_rejected : Moves CommandStatus.rejected CommandStatus.queued
  retry_timed_out : Moves CommandStatus.timed_out CommandStatus.queued
  reverse : Moves CommandStatus.acknowledged CommandStatus.compensation_queued
  strand : Moves CommandStatus.acknowledged CommandStatus.irreversible
  reversed : Moves CommandStatus.compensation_queued CommandStatus.compensated

ruleset arrows =
    (publish, accept, reject, give_up, retry_rejected, retry_timed_out, reverse, strand, reversed)

-- What a call may do to one command: an arrow, or nothing; its identity and its flags stay.
pub record Follows (c d : ResourceCommand) : Type 0 where
  pub same_id : d.command_id ≡ c.command_id
  pub same_action : d.action ≡ c.action
  pub same_required : d.required ≡ c.required
  pub same_reversible : d.reversible ≡ c.reversible
  pub attempts_grow : c.attempts ≤ d.attempts
  pub moved : (d.status ≡ c.status) ⊎ Moves c.status d.status

Follows-refl : (c : ResourceCommand) → Follows c c
Follows-refl c = ground arith

-- What a return of `on_command` tells.
pub on_command-eq-ok :
    (k : String) (v : ℕ) (allowed : CommandStatus → Bool) (x : DeploymentConflict)
    (next : DeploymentAggregate → DeploymentAggregate) (d : DeploymentAggregate)
    {d' : DeploymentAggregate}
    → on_command k v allowed x next d ≡ ok d'
    → (c : ResourceCommand) × (find_first (named k) d.commands ≡ some c)
      × (d.state_version ≡ v)
      × (allowed c.status ≡ true)
      × (d' ≡ next d)
unfolding on_command
on_command-eq-ok k v allowed x next d h = elim (Option-cases (find_first (named k) d.commands)) [
  | inl missing ↦ absurd (ground arith)
  | inr (c, e) ↦ (c, e, ground arith, ground arith, ground arith)
]

module _ (k : String) (v : ℕ) (allowed : CommandStatus → Bool) (x : DeploymentConflict)
    (f : ResourceCommand → ResourceCommand) (g : DeploymentAggregate → DeploymentAggregate) where
  -- A call that writes one command moves that one and no other.
  on_command-Follows :
      ((c : ResourceCommand) → allowed c.status ≡ true → Follows c (f c))
      → ((d : DeploymentAggregate) → (g d).commands ≡ update_first (named k) f d.commands)
      → (d : DeploymentAggregate) {d' : DeploymentAggregate} → on_command k v allowed x g d ≡ ok d'
      → Pointwise Follows d.commands d'.commands
  on_command-Follows move writes d h =
      let (c, found, _, may, result) = on_command-eq-ok k v allowed x g d h in
      rw (result, writes d)
        (Pointwise-update_first Follows (named k) f d.commands Follows-refl (λ y e. move y cc))

sent_command-Follows :
    (r now : String) (c : ResourceCommand)
    → is c.status CommandStatus.queued ≡ true
    → Follows c (sent_command r now c)
sent_command-Follows r now c h = grind (arith, publish)

answered_command-Follows :
    (a : Bool) (r : String) (x t : Option String) (now : String) (c : ResourceCommand)
    → is c.status CommandStatus.sent ≡ true
    → Follows c (answered_command a r x t now c)
answered_command-Follows true r x t now c h = grind (arith, accept)
answered_command-Follows false r x t now c h = grind (arith, reject)

timed_out_command-Follows :
    (now : String) (c : ResourceCommand)
    → is c.status CommandStatus.sent ≡ true
    → Follows c (timed_out_command now c)
timed_out_command-Follows now c h = grind (arith, give_up)

retried_command-Follows :
    (now : String) (c : ResourceCommand)
    → terminal_failure c.status ≡ true
    → Follows c (retried_command now c)
retried_command-Follows now c h = grind (arith, retry_rejected, retry_timed_out)

compensated_command-Follows :
    (r now : String) (c : ResourceCommand)
    → is c.status CommandStatus.compensation_queued ≡ true
    → Follows c (compensated_command r now c)
compensated_command-Follows r now c h = grind (arith, reversed)

compensation_command-Follows :
    (now : String) (c : ResourceCommand) → Follows c (compensation_command now c)
compensation_command-Follows now c = grind (arith, reverse, strand)

pub commands-compensate :
    (v : ℕ) (now : String) (d : DeploymentAggregate) {d' : DeploymentAggregate}
    → compensate v now d ≡ ok d'
    → d'.commands ≡ map (compensation_command now) d.commands
unfolding compensate
commands-compensate v now d h = ground arith

-- Whatever call returns, every command of the deployment stays where it is or takes one arrow of
-- the command state machine, keeps its identity, action and flags, and loses no attempt; no command
-- is added or dropped.
pub perform-Follows :
    (o : Operation) (v : ℕ) (now : String) (d : DeploymentAggregate) {d' : DeploymentAggregate}
    → perform o v now d ≡ ok d'
    → Pointwise Follows d.commands d'.commands
unfolding perform
perform-Follows (send k r) v now d h =
    on_command-Follows k v _ _ (sent_command r now) _ (sent_command-Follows r now) (λ _. refl) d h
perform-Follows (answer k a r x t) v now d h =
    on_command-Follows k v _ _ (answered_command a r x t now) _
      (answered_command-Follows a r x t now) (λ _. refl) d h
perform-Follows (expire k) v now d h =
    on_command-Follows k v _ _ (timed_out_command now) _ (timed_out_command-Follows now) (λ _. refl)
      d h
perform-Follows (again k) v now d h =
    on_command-Follows k v _ _ (retried_command now) _ (retried_command-Follows now) (λ _. refl) d h
perform-Follows undo v now d h =
    rw (commands-compensate v now d h) (
      Pointwise-map Follows (compensation_command now) (compensation_command-Follows now)
        d.commands)
perform-Follows (undone k r) v now d h =
    on_command-Follows k v _ _ (compensated_command r now) _ (compensated_command-Follows r now)
      (λ _. refl) d h

-- A call that returns was made at the current version and moves it up by one; one made at another
-- version is refused as stale, whatever it asks for.
pub perform_version :
    (o : Operation) (v : ℕ) (now : String) (d : DeploymentAggregate)
    → ((d' : DeploymentAggregate)
        → perform o v now d ≡ ok d'
        → (d.state_version ≡ v) × (d'.state_version ≡ v + 1))
      × (d.state_version ≢ v → perform o v now d ≡ err stale_state)
unfolding perform on_command
perform_version (send k r) v now d = (λ d' h. ground arith, λ h. ground arith)
perform_version (answer k a r x t) v now d = (λ d' h. ground arith, λ h. ground arith)
perform_version (expire k) v now d = (λ d' h. ground arith, λ h. ground arith)
perform_version (again k) v now d = (λ d' h. ground arith, λ h. ground arith)
perform_version undo v now d = (λ d' h. ground arith, λ h. ground arith)
perform_version (undone k r) v now d = (λ d' h. ground arith, λ h. ground arith)
