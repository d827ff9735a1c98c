-- ===== src/Deployment/CommandState.antt =====
-- deployment/command_state.py: the deployment commands of one recovery and their acknowledgements.
-- A method that mutates the aggregate returns the new one; every check stands before the first
-- write, so a raise leaves no trace. `now()` and `uuid4()` are arguments.
pub mod Lifecycle
pub mod Completion
pub mod Registry
use skysolver.Prelude.{
  update_first, find_first, ℕ, zero, suc, ◌+◌, ◌-◌, ◌*◌, ◌≤◌, ◌<◌, String, ◌≡◌, refl, sym, ap, ◌∙◌,
  ◌≢◌, ◌↔◌, ◌⊎◌, inl, inr, Bool, true, false, not, ◌&&◌, ◌||◌, Option, none, some, List, [], ◌∷◌,
  ◌++◌, map, arith, eq_iff, ltb, leb, nat_beq, nat_beq_iff, if◌then◌else◌, Eq, ◌==◌, ◌!=◌, nat_eq,
  string_eq, pair_eq, beq_refl, eq_of_beq, Bool-cases, Option-cases, is_none, is_some, length,
  is_empty, any, all, filter, length-append, contains, All, All-append,
}
use skysolver.Prelude.Result.{Result, ok, err, ◌>>=◌, ◌>>◌, raise_if, or_raise}

pub data CommandStatus : Type 0 where
  queued sent acknowledged rejected timed_out compensation_queued compensated irreversible :
      CommandStatus

pub data DeploymentStatus : Type 0 where
  queued publishing partial complete failed compensating compensated requires_new_recovery :
      DeploymentStatus

pub data DeploymentConflict : Type 0 where
  commands_required deployment_not_found stale_state command_not_found invalid_transition
        retry_not_allowed compensation_not_required :
      DeploymentConflict

abbrev pub status_code : CommandStatus → ℕ
status_code CommandStatus.queued = 0
status_code CommandStatus.sent = 1
status_code CommandStatus.acknowledged = 2
status_code CommandStatus.rejected = 3
status_code CommandStatus.timed_out = 4
status_code CommandStatus.compensation_queued = 5
status_code CommandStatus.compensated = 6
status_code CommandStatus.irreversible = 7

-- `a is b` on the members of the enumeration.
abbrev pub is : CommandStatus → CommandStatus → Bool
is a b = status_code a == status_code b

-- `status in TERMINAL_FAILURES`
abbrev pub terminal_failure : CommandStatus → Bool
terminal_failure s = is s CommandStatus.rejected || is s CommandStatus.timed_out

pub record ResourceCommand : Type 0 where
  pub command_id : String
  pub resource_type : String
  pub resource_id : String
  pub target_system : String
  pub action : String
  pub required : Bool
  pub reversible : Bool
  pub status : CommandStatus
  pub attempts : ℕ
  pub adapter_reference : Option String
  pub failure_code : Option String
  pub failure_detail : Option String
  pub last_updated_at : String

pub record DeploymentAggregate : Type 0 where
  pub deployment_id : String
  pub tenant_id : String
  pub recovery_id : String
  pub candidate_id : String
  pub candidate_version : ℕ
  pub idempotency_key : String
  pub correlation_id : String
  pub requested_by : String
  pub commands : List ResourceCommand
  pub state_version : ℕ
  pub status : DeploymentStatus
  pub created_at : String
  pub updated_at : String

-- `_version`
abbrev pub check_version : DeploymentAggregate → ℕ → Result DeploymentConflict (Unit {0})
check_version d expected = raise_if (d.state_version != expected) stale_state

abbrev pub named : String → ResourceCommand → Bool
named k c = c.command_id == k

-- `_command`
abbrev pub command : DeploymentAggregate → String → Result DeploymentConflict ResourceCommand
command d k = or_raise (find_first (named k) d.commands) command_not_found

-- The opening of the methods on one command: the version, the command, its status, in this order;
-- then the update.
unfoldable pub on_command :
    String
    → ℕ
    → (CommandStatus → Bool)
    → DeploymentConflict
    → (DeploymentAggregate → DeploymentAggregate)
    → DeploymentAggregate
    → Result DeploymentConflict DeploymentAggregate
on_command k expected allowed conflict next d = do
  check_version d expected
  c ← command d k
  raise_if (not (allowed c.status)) conflict
  ok (next d)

abbrev pub required_commands : List ResourceCommand → List ResourceCommand
required_commands = filter (λ c. c.required)

abbrev pub has : CommandStatus → ResourceCommand → Bool
has s c = is c.status s

-- The status that `_recompute` assigns, from the required commands.
unfoldable pub recomputed : List ResourceCommand → DeploymentStatus → DeploymentStatus
recomputed required old =
    if not (is_empty required) && all (has CommandStatus.acknowledged) required
    then DeploymentStatus.complete
    else if any (λ c. terminal_failure c.status) required
    then (if any (has CommandStatus.acknowledged) required
        then DeploymentStatus.partial
        else DeploymentStatus.failed)
    else if any (has CommandStatus.sent) required
    then DeploymentStatus.publishing
    else if not (is_empty required) && all (has CommandStatus.compensated) required
    then DeploymentStatus.compensated
    else old

-- `_recompute`
abbrev pub recompute : DeploymentAggregate → DeploymentAggregate
recompute d = record d { status = recomputed (required_commands d.commands) d.status }

-- `_advance`
abbrev pub advance : String → DeploymentAggregate → DeploymentAggregate
advance now d = record d { state_version = d.state_version + 1; updated_at = now }

abbrev pub with_command :
    String → (ResourceCommand → ResourceCommand) → DeploymentAggregate → DeploymentAggregate
with_command k f d = record d { commands = update_first (named k) f d.commands }

abbrev pub sent_command : String → String → ResourceCommand → ResourceCommand
sent_command reference now c = record c {
  status = CommandStatus.sent;
  attempts = c.attempts + 1;
  adapter_reference = some reference;
  last_updated_at = now;
}

unfoldable pub mark_sent :
    String
    → ℕ
    → String
    → String
    → DeploymentAggregate
    → Result DeploymentConflict DeploymentAggregate
mark_sent k expected reference now =
    on_command k expected (λ s. is s CommandStatus.queued) invalid_transition
      λ d. advance now (recompute (with_command k (sent_command reference now) d))

-- `failure_code or "SOURCE_SYSTEM_REJECTED"`: the empty text counts as no code.
abbrev pub or_default : Option String → String → String
or_default none fallback = fallback
or_default (some s) fallback = if s == "" then fallback else s

abbrev pub answered_command :
    Bool → String → Option String → Option String → String → ResourceCommand → ResourceCommand
answered_command accepted reference code detail now c = record c {
  status = if accepted then CommandStatus.acknowledged else CommandStatus.rejected;
  adapter_reference = some reference;
  failure_code = if accepted then none else some (or_default code "SOURCE_SYSTEM_REJECTED");
  failure_detail = if accepted then none else detail;
  last_updated_at = now;
}

unfoldable pub acknowledge :
    String
    → ℕ
    → Bool
    → String
    → Option String
    → Option String
    → String
    → DeploymentAggregate
    → Result DeploymentConflict DeploymentAggregate
acknowledge k expected accepted reference code detail now =
    on_command k expected (λ s. is s CommandStatus.sent) invalid_transition
      λ d.
        advance now
          (recompute (with_command k (answered_command accepted reference code detail now) d))

abbrev pub timed_out_command : String → ResourceCommand → ResourceCommand
timed_out_command now c = record c {
  status = CommandStatus.timed_out;
  failure_code = some "ACK_TIMEOUT";
  last_updated_at = now;
}

unfoldable pub timeout :
    String → ℕ → String → DeploymentAggregate → Result DeploymentConflict DeploymentAggregate
timeout k expected now =
    on_command k expected (λ s. is s CommandStatus.sent) invalid_transition
      λ d. advance now (recompute (with_command k (timed_out_command now) d))

abbrev pub retried_command : String → ResourceCommand → ResourceCommand
retried_command now c = record c {
  status = CommandStatus.queued;
  failure_code = none;
  failure_detail = none;
  adapter_reference = none;
  last_updated_at = now;
}

unfoldable pub retry :
    String → ℕ → String → DeploymentAggregate → Result DeploymentConflict DeploymentAggregate
retry k expected now = on_command k expected terminal_failure retry_not_allowed λ d.
    let d' = with_command k (retried_command now) d in
    advance now (record d' { status = DeploymentStatus.queued })

abbrev pub compensation_command : String → ResourceCommand → ResourceCommand
compensation_command now c =
    if has CommandStatus.acknowledged c
    then (record c {
      status =
          if c.reversible then CommandStatus.compensation_queued else CommandStatus.irreversible;
      last_updated_at = now;
    })
    else c

unfoldable pub compensate :
    ℕ → String → DeploymentAggregate → Result DeploymentConflict DeploymentAggregate
compensate expected now d = do
  check_version d expected
  let acked = filter (has CommandStatus.acknowledged) d.commands
  raise_if (is_empty acked) compensation_not_required
  let d' = record d { commands = map (compensation_command now) d.commands }
  ok (
      advance now (record d' {
        status =
            if any (λ c. not c.reversible) acked
            then DeploymentStatus.requires_new_recovery
            else DeploymentStatus.compensating;
      }))

abbrev pub compensated_command : String → String → ResourceCommand → ResourceCommand
compensated_command reference now c = record c {
  status = CommandStatus.compensated;
  adapter_reference = some reference;
  last_updated_at = now;
}

abbrev pub settled : ResourceCommand → Bool
settled c = is c.status CommandStatus.compensated || terminal_failure c.status

unfoldable pub acknowledge_compensation :
    String
    → ℕ
    → String
    → String
    → DeploymentAggregate
    → Result DeploymentConflict DeploymentAggregate
acknowledge_compensation k expected reference now =
    on_command k expected (λ s. is s CommandStatus.compensation_queued) invalid_transition
      λ d.
        let d' = with_command k (compensated_command reference now) d in
        advance now (record d' {
          status = if all settled d'.commands then DeploymentStatus.compensated else d'.status;
        })

-- The calls that act on one deployment.
pub data Operation : Type 0 where
  send : String → String → Operation
  answer : String → Bool → String → Option String → Option String → Operation
  expire again : String → Operation
  undo : Operation
  undone : String → String → Operation

unfoldable pub perform :
    Operation → ℕ → String → DeploymentAggregate → Result DeploymentConflict DeploymentAggregate
unfolding mark_sent acknowledge timeout retry compensate acknowledge_compensation
perform (send k r) v now d = mark_sent k v r now d
perform (answer k a r c t) v now d = acknowledge k v a r c t now d
perform (expire k) v now d = timeout k v now d
perform (again k) v now d = retry k v now d
perform undo v now d = compensate v now d
perform (undone k r) v now d = acknowledge_compensation k v r now d
