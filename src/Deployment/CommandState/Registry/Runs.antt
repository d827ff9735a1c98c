-- ===== src/Deployment/CommandState/Registry/Runs.antt =====
-- Sequences of calls on `DeploymentRegistry` (deployment/command_state.py): what becomes of the version
-- of one deployment.
use skysolver.Prelude.{
  ℕ, ◌+◌, String, ◌≡◌, sym, ◌∙◌, subst, ◌≢◌, inl, inr, Bool, true, false, some, List, [], ◌∷◌,
  arith, eq_iff, nat_eq, string_eq, pair_eq, Bool-cases, ◌==◌, ◌&&◌, if◌then◌else◌,
}
use skysolver.Prelude.Result.{Result-cases, ok, err, Result}
use skysolver.Prelude.Dict.{lookup, lookup-insert_self}
use skysolver.Deployment.CommandState.{
  perform, Operation, DeploymentAggregate, DeploymentConflict, stale_state,
}
use skysolver.Deployment.CommandState.Lifecycle.{perform_version}
use skysolver.Deployment.CommandState.Registry.{
  call, call-eq-ok, call-eq-err, call_frame, save, DeploymentRegistry,
}

-- One call of a method, with its arguments.
pub record Call : Type 0 where
  pub deployment_id : String
  pub operation : Operation
  pub expected_version : ℕ
  pub now : String

abbrev pub make :
    Call → DeploymentRegistry → Result DeploymentConflict DeploymentAggregate × DeploymentRegistry
make c = call c.deployment_id c.operation c.expected_version c.now

-- The registry after the calls, whether they return or raise.
unfoldable pub after : List Call → DeploymentRegistry → DeploymentRegistry
after [] reg = reg
after (c ∷ calls) reg = after calls (make c reg).1

abbrev pub is_ok : Result DeploymentConflict DeploymentAggregate → Bool
is_ok (ok _) = true
is_ok (err _) = false

-- How many of the calls on a deployment return.
abbrev pub counted : String → Call → DeploymentRegistry → ℕ
counted id c reg = if (c.deployment_id == id) && is_ok (make c reg).0 then 1 else 0

unfoldable pub returned : String → List Call → DeploymentRegistry → ℕ
returned id [] reg = 0
returned id (c ∷ calls) reg = counted id c reg + returned id calls (make c reg).1

-- The deployment after one call.
own_call :
    (id : String) (o : Operation) (v : ℕ) (now : String) (reg : DeploymentRegistry)
    (d : DeploymentAggregate)
    → lookup id reg.deployments ≡ some d
    → (d' : DeploymentAggregate) × (lookup id (call id o v now reg).1.deployments ≡ some d')
      × (d'.state_version ≡ d.state_version + (if is_ok (call id o v now reg).0 then 1 else 0))
own_call id o v now reg d found = elim (Result-cases (perform o v now d)) [
  | inl (d', done) ↦
      let (before, next) = (perform_version o v now d).0 d' done in
      rw (call-eq-ok id o v now reg d found d' done)
        (d', (unfold save in lookup-insert_self id d' reg.deployments), omega (arith, before, next))
  | inr (x, failed) ↦ rw (call-eq-err id o v now reg d found x failed) (d, found, omega arith)
]

one_call :
    (id : String) (c : Call) (reg : DeploymentRegistry) (d : DeploymentAggregate)
    → lookup id reg.deployments ≡ some d
    → (d' : DeploymentAggregate) × (lookup id (make c reg).1.deployments ≡ some d')
      × (d'.state_version ≡ d.state_version + counted id c reg)
one_call id c reg d found = elim (Bool-cases (c.deployment_id == id)) [
  | inl own ↦
      let e = (eq_iff c.deployment_id id).0 own in
      let (d', at, grown) =
        own_call c.deployment_id c.operation c.expected_version c.now reg d
          (subst (λ k. lookup k reg.deployments ≡ some d) (sym e) found) in
      rw own (d', subst (λ k. lookup k (make c reg).1.deployments ≡ some d') e at, grown)
  | inr other ↦ rw other (
    d,
    (call_frame c.deployment_id id c.operation c.expected_version c.now reg
          (λ e. ground (arith, eq_iff c.deployment_id id, e))).0
        ∙ found,
    omega arith,
  )
]

stale_call :
    (id : String) (o : Operation) (v : ℕ) (now : String) (reg : DeploymentRegistry)
    (d : DeploymentAggregate)
    → lookup id reg.deployments ≡ some d
    → v ≢ d.state_version
    → call id o v now reg ≡ (err stale_state, reg)
stale_call id o v now reg d found h =
    call-eq-err id o v now reg d found stale_state ((perform_version o v now d).1 (λ e. h (sym e)))

-- Whatever calls are made one after the other on a registry, a deployment that it holds is still there,
-- its version has grown by one for each call on it that returned and by nothing else, and the next call
-- on it at any other version is refused as stale and changes nothing.
pub after_version :
    (calls : List Call) (id : String) (reg : DeploymentRegistry) (d : DeploymentAggregate)
    → lookup id reg.deployments ≡ some d
    → (d' : DeploymentAggregate) × (lookup id (after calls reg).deployments ≡ some d')
      × (d'.state_version ≡ d.state_version + returned id calls reg)
      × ((o : Operation) (v : ℕ) (now : String)
          → v ≢ d.state_version + returned id calls reg
          → call id o v now (after calls reg) ≡ (err stale_state, after calls reg))
unfolding after returned
after_version [] id reg d found = (
  d,
  found,
  omega arith,
  λ o v now h. stale_call id o v now reg d found (λ e. h (omega (arith, e))),
)
after_version (c ∷ calls) id reg d found =
    let (d1, found1, grown) = one_call id c reg d found in
    let (d', found', rest, stale) = after_version calls id (make c reg).1 d1 found1 in
    (
      d',
      found',
      omega (arith, grown, rest),
      λ o v now h. stale o v now (λ e. h (omega (arith, grown, e))),
    )
