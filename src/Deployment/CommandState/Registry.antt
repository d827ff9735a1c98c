-- ===== src/Deployment/CommandState/Registry.antt =====
-- `DeploymentRegistry` of deployment/command_state.py: the deployments by identifier and the
-- idempotency index. The two kinds of `uuid4` are arguments of `create`.
pub mod Records
pub mod Runs
use skysolver.Prelude.{
  ℕ, ◌+◌, String, ◌≡◌, refl, ◌∙◌, ◌≢◌, inl, inr, Bool, true, Option, none, some, List, [], ◌∷◌,
  arith, nat_eq, string_eq, pair_eq, Bool-cases, Option-cases, is_empty, All,
}
use skysolver.Prelude.Result.{Result-cases, ok, err}
use skysolver.Prelude.Exec.{Exec, pure, lift, modify, raise_if, or_raise, ◌>>=◌, ◌>>◌}
use skysolver.Prelude.Dict.{
  lookup-insert_ne, Dict, values, lookup, insert, lookup-insert_self, All-insert, All-lookup,
}
use skysolver.Deployment.CommandState.{
  DeploymentStatus, CommandStatus, commands_required, perform, deployment_not_found, Operation,
  DeploymentAggregate, ResourceCommand, DeploymentConflict,
}
use skysolver.Deployment.CommandState.Completion.{perform-IsTruthful, IsAttempted, IsTruthful}

-- One entry of `resources`; `item.get("required", True)` reads an absent flag as true.
pub record Resource : Type 0 where
  pub resource_type : String
  pub resource_id : String
  pub target_system : String
  pub action : String
  pub required : Option Bool
  pub reversible : Option Bool

pub record CreateRequest : Type 0 where
  pub tenant_id : String
  pub recovery_id : String
  pub candidate_id : String
  pub candidate_version : ℕ
  pub idempotency_key : String
  pub correlation_id : String
  pub requested_by : String
  pub resources : List Resource

pub record DeploymentRegistry : Type 0 where
  pub deployments : Dict String DeploymentAggregate
  pub idempotency : Dict (String × String) String

abbrev or_true : Option Bool → Bool
or_true none = true
or_true (some b) = b

unfoldable pub new_command : String → String → Resource → ResourceCommand
new_command id now item = record {
  command_id = id;
  resource_type = item.resource_type;
  resource_id = item.resource_id;
  target_system = item.target_system;
  action = item.action;
  required = or_true item.required;
  reversible = or_true item.reversible;
  status = CommandStatus.queued;
  attempts = 0;
  adapter_reference = none;
  failure_code = none;
  failure_detail = none;
  last_updated_at = now;
}

unfoldable pub new_commands : (ℕ → String) → ℕ → String → List Resource → List ResourceCommand
unfolding new_command
new_commands ids i now [] = []
new_commands ids i now (item ∷ items) =
    new_command (ids i) now item ∷ new_commands ids (i + 1) now items

unfoldable pub new_deployment : CreateRequest → String → (ℕ → String) → String → DeploymentAggregate
unfolding new_commands
new_deployment q id ids now = record {
  deployment_id = id;
  tenant_id = q.tenant_id;
  recovery_id = q.recovery_id;
  candidate_id = q.candidate_id;
  candidate_version = q.candidate_version;
  idempotency_key = q.idempotency_key;
  correlation_id = q.correlation_id;
  requested_by = q.requested_by;
  commands = new_commands ids 0 now q.resources;
  state_version = 1;
  status = DeploymentStatus.queued;
  created_at = now;
  updated_at = now;
}

-- `self._deployments[...]`
unfoldable pub get : String → Exec DeploymentRegistry DeploymentConflict DeploymentAggregate
get id reg = or_raise (lookup id reg.deployments) deployment_not_found reg

unfoldable pub add_deployment : DeploymentAggregate → DeploymentRegistry → DeploymentRegistry
add_deployment d reg = record {
  deployments = insert d.deployment_id d reg.deployments;
  idempotency = insert (d.tenant_id, d.idempotency_key) d.deployment_id reg.idempotency;
}

unfoldable pub create_new :
    CreateRequest
    → String
    → (ℕ → String)
    → String
    → Exec DeploymentRegistry DeploymentConflict DeploymentAggregate
unfolding add_deployment new_deployment
create_new q id ids now = do
  raise_if (is_empty q.resources) commands_required
  modify (add_deployment (new_deployment q id ids now))
  pure (new_deployment q id ids now)

-- A key that is known returns the deployment that it created.
unfoldable pub create :
    CreateRequest
    → String
    → (ℕ → String)
    → String
    → Exec DeploymentRegistry DeploymentConflict DeploymentAggregate
unfolding get create_new
create q id ids now reg = elim (lookup (q.tenant_id, q.idempotency_key) reg.idempotency) [
  | none ↦ create_new q id ids now reg
  | some known ↦ get known reg
]

unfoldable pub save : DeploymentAggregate → String → DeploymentRegistry → DeploymentRegistry
save d id reg = record reg { deployments = insert id d reg.deployments }

-- `mark_sent`, `acknowledge`, …: each method finds its deployment and writes to that object.
unfoldable pub call :
    String → Operation → ℕ → String → Exec DeploymentRegistry DeploymentConflict DeploymentAggregate
unfolding get save
call id o expected now = do
  d ← get id
  d' ← lift (perform o expected now d)
  modify (save d' id)
  pure d'

module _ (id : String) (o : Operation) (v : ℕ) (now : String) (reg : DeploymentRegistry)
    (d : DeploymentAggregate) (found : lookup id reg.deployments ≡ some d) where
  pub call-eq-ok :
      (d' : DeploymentAggregate)
      → perform o v now d ≡ ok d'
      → call id o v now reg ≡ (ok d', save d' id reg)
  unfolding call
  call-eq-ok d' done = ground arith

  pub call-eq-err :
      (x : DeploymentConflict) → perform o v now d ≡ err x → call id o v now reg ≡ (err x, reg)
  unfolding call
  call-eq-err x failed = ground arith

-- A call that raises leaves the registry as it was.
pub call_error :
    (id : String) (o : Operation) (v : ℕ) (now : String) (reg : DeploymentRegistry)
    {x : DeploymentConflict}
    → (call id o v now reg).0 ≡ err x
    → (call id o v now reg).1 ≡ reg
unfolding call
call_error id o v now reg h = ground arith

-- A call touches no deployment but its own, and no idempotency key.
pub call_frame :
    (id j : String) (o : Operation) (v : ℕ) (now : String) (reg : DeploymentRegistry)
    → j ≢ id
    → (lookup j (call id o v now reg).1.deployments ≡ lookup j reg.deployments)
      × ((call id o v now reg).1.idempotency ≡ reg.idempotency)
unfolding call
call_frame id j o v now reg h = elim (Option-cases (lookup id reg.deployments)) [
  | inl missing ↦ ground arith
  | inr (d, found) ↦ elim (Result-cases (perform o v now d)) [
    | inl (d', done) ↦
        rw (call-eq-ok id o v now reg d found d' done)
          (unfold save in (lookup-insert_ne j id d' reg.deployments h, refl))
    | inr (x, failed) ↦ ground arith
  ]
]

pub state-get : (id : String) (reg : DeploymentRegistry) → (get id reg).1 ≡ reg
unfolding get
state-get id reg = ground arith

create_known :
    (q : CreateRequest) (id : String) (ids : ℕ → String) (now : String) (reg : DeploymentRegistry)
    (known : String) (d : DeploymentAggregate)
    → lookup (q.tenant_id, q.idempotency_key) reg.idempotency ≡ some known
    → lookup known reg.deployments ≡ some d
    → create q id ids now reg ≡ (ok d, reg)
unfolding create
create_known q id ids now reg known d e f = ground arith

-- What a creation that returned has left in the two dictionaries.
create_records :
    (q : CreateRequest) (id : String) (ids : ℕ → String) (now : String) (reg : DeploymentRegistry)
    (d : DeploymentAggregate)
    → (create q id ids now reg).0 ≡ ok d
    → (known : String) × (lookup
          (q.tenant_id, q.idempotency_key)
          (create q id ids now reg).1.idempotency
        ≡ some known)
      × (lookup known (create q id ids now reg).1.deployments ≡ some d)
unfolding create
create_records q id ids now reg d h =
    elim (Option-cases (lookup (q.tenant_id, q.idempotency_key) reg.idempotency)) [
      | inl unknown ↦ rw (unknown, create) (new_records (rw (unknown, create) at h))
      | inr (known, e) ↦ rw (e, create) (known, rw state-get e, found known (rw (e, create) at h))
    ]
  where
    found :
        (known : String)
        → (get known reg).0 ≡ ok d
        → lookup known (get known reg).1.deployments ≡ some d
    found known g = ground arith

    new_records :
        (create_new q id ids now reg).0 ≡ ok d
        → (known : String) × (lookup
              (q.tenant_id, q.idempotency_key)
              (create_new q id ids now reg).1.idempotency
            ≡ some known)
          × (lookup known (create_new q id ids now reg).1.deployments ≡ some d)
    new_records g = elim (Bool-cases (is_empty q.resources)) [
      | inl none_given ↦ absurd (ground arith)
      | inr given ↦ rw given (
        id,
        lookup-insert_self (q.tenant_id, q.idempotency_key) id reg.idempotency,
        lookup-insert_self id (new_deployment q id ids now) reg.deployments ∙ ground arith,
      )
    ]

-- Creating again under the same tenant and key, with whatever other arguments, returns the
-- deployment of the first call and changes nothing.
pub create_again :
    (q q' : CreateRequest) (id id' : String) (ids ids' : ℕ → String) (now now' : String)
    (reg : DeploymentRegistry) (d : DeploymentAggregate)
    → (create q id ids now reg).0 ≡ ok d
    → q'.tenant_id ≡ q.tenant_id
    → q'.idempotency_key ≡ q.idempotency_key
    → create q' id' ids' now' (create q id ids now reg).1 ≡ (ok d, (create q id ids now reg).1)
create_again q q' id id' ids ids' now now' reg d h t k =
    let (known, e, f) = create_records q id ids now reg d h in
    create_known q' id' ids' now' (create q id ids now reg).1 known d (rw (t, k) e) f

new_commands-IsAttempted :
    (ids : ℕ → String) (i : ℕ) (now : String) (items : List Resource)
    → All IsAttempted (new_commands ids i now items)
unfolding new_commands
new_commands-IsAttempted ids i now [] = tt
new_commands-IsAttempted ids i now (item ∷ items) =
    (inl refl, new_commands-IsAttempted ids (i + 1) now items)

pub new_deployment-IsTruthful :
    (q : CreateRequest) (id : String) (ids : ℕ → String) (now : String)
    → IsTruthful (new_deployment q id ids now)
unfolding new_deployment
new_deployment-IsTruthful q id ids now = record {
  complete_acknowledged = λ e. absurd (cc);
  attempted = new_commands-IsAttempted ids 0 now q.resources;
}
