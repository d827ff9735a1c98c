-- ===== src/Deployment/CommandState/Registry/Records.antt =====
-- How the two dictionaries of `DeploymentRegistry` fit (deployment/command_state.py), in every registry
-- that creations and calls reach.
use skysolver.Prelude.{
  ℕ, String, ◌≡◌, refl, sym, ap, ◌∙◌, subst, ◌≢◌, inl, inr, none, some, [], arith, eq_iff, nat_eq,
  string_eq, pair_eq, Bool-cases, Option-cases, is_empty, ◌==◌,
}
use skysolver.Prelude.Result.{Result-cases, ok}
use skysolver.Prelude.Dict.{
  lookup-insert_ne, lookup, insert, lookup-insert_self, insert-cases, lookup_unique,
}
use skysolver.Deployment.CommandState.{
  perform, on_command, send, answer, expire, again, undo, undone, Operation, DeploymentAggregate,
}
use skysolver.Deployment.CommandState.Completion.{perform-IsTruthful, IsTruthful}
use skysolver.Deployment.CommandState.Registry.{
  create, create_new, new_deployment, call, call-eq-ok, call-eq-err, save, add_deployment,
  state-get, new_deployment-IsTruthful, DeploymentRegistry, CreateRequest,
}

-- What is kept of a deployment under an identifier.
pub record Recorded (reg : DeploymentRegistry) (id : String) (d : DeploymentAggregate)
    : Type 0 where
  pub own_id : d.deployment_id ≡ id
  pub indexed : lookup (d.tenant_id, d.idempotency_key) reg.idempotency ≡ some id
  pub truthful : IsTruthful d

pub record IsOrderly (reg : DeploymentRegistry) : Type 0 where
  pub stored :
      (id : String) (d : DeploymentAggregate)
      → lookup id reg.deployments ≡ some d
      → Recorded reg id d
  pub named :
      (tenant key id : String)
      → lookup (tenant, key) reg.idempotency ≡ some id
      → (d : DeploymentAggregate) × (lookup id reg.deployments ≡ some d)
        × (d.tenant_id ≡ tenant)
        × (d.idempotency_key ≡ key)

abbrev pub empty_registry : DeploymentRegistry
empty_registry = record { deployments = []; idempotency = [] }

-- The registries that creations, with identifiers that are not in use, and calls reach.
pub data Reached : DeploymentRegistry → Type 0 where
  empty : Reached empty_registry
  created :
      {reg : DeploymentRegistry} (q : CreateRequest) (id : String) (ids : ℕ → String) (now : String)
      → lookup id reg.deployments ≡ none
      → Reached reg
      → Reached (create q id ids now reg).1
  called :
      {reg : DeploymentRegistry} (id : String) (o : Operation) (v : ℕ) (now : String)
      → Reached reg
      → Reached (call id o v now reg).1

-- A call keeps the identity of its deployment.
abbrev pub SameRecord : DeploymentAggregate → DeploymentAggregate → Type 0
SameRecord d d' =
    (d'.deployment_id ≡ d.deployment_id)
    × (d'.tenant_id ≡ d.tenant_id)
    × (d'.idempotency_key ≡ d.idempotency_key)

perform-SameRecord :
    (o : Operation) (v : ℕ) (now : String) (d d' : DeploymentAggregate)
    → perform o v now d ≡ ok d'
    → SameRecord d d'
unfolding perform on_command
perform-SameRecord (send k r) v now d d' h = ground arith
perform-SameRecord (answer k a r x t) v now d d' h = ground arith
perform-SameRecord (expire k) v now d d' h = ground arith
perform-SameRecord (again k) v now d d' h = ground arith
perform-SameRecord undo v now d d' h = ground arith
perform-SameRecord (undone k r) v now d d' h = ground arith

some-none : {A : Type 0} {x : A} → some x ≢ none
some-none h = ground arith

save-IsOrderly :
    (id : String) (reg : DeploymentRegistry) (d d' : DeploymentAggregate)
    → IsOrderly reg
    → lookup id reg.deployments ≡ some d
    → SameRecord d d'
    → IsTruthful d'
    → IsOrderly (save d' id reg)
unfolding save
save-IsOrderly id reg d d' h found same true_now = record {
  stored = λ j e at. elim (insert-cases j id d' e reg.deployments at) [
    | inl (here, it) ↦
        subst (λ k. Recorded (save d' id reg) k e) here
          (subst (Recorded (save d' id reg) id) it (record {
            own_id = same.0 ∙ (h.stored id d found).own_id;
            indexed = rw (same.1, same.2) (h.stored id d found).indexed;
            truthful = true_now;
          }))
    | inr (away, old) ↦ record {
      own_id = (h.stored j e old).own_id;
      indexed = (h.stored j e old).indexed;
      truthful = (h.stored j e old).truthful;
    }
  ];
  named = λ tenant key j at.
      let (e, old, of_tenant, of_key) = h.named tenant key j at in
      elim (Bool-cases (j == id)) [
        | inl here ↦
            let it = lookup_unique j id e d reg.deployments old found ((eq_iff j id).0 here) in
            (
              d',
              subst (λ k. lookup k (insert id d' reg.deployments) ≡ some d')
                  (sym ((eq_iff j id).0 here)) (lookup-insert_self id d' reg.deployments),
              same.1 ∙ sym (ap (λ x. x.tenant_id) it) ∙ of_tenant,
              same.2 ∙ sym (ap (λ x. x.idempotency_key) it) ∙ of_key,
            )
        | inr away ↦ (
          e,
          lookup-insert_ne j id d' reg.deployments (λ q. ground (arith, eq_iff j id, q)) ∙ old,
          of_tenant,
          of_key,
        )
      ];
}

add_deployment-IsOrderly :
    (reg : DeploymentRegistry) (d : DeploymentAggregate)
    → IsOrderly reg
    → lookup d.deployment_id reg.deployments ≡ none
    → lookup (d.tenant_id, d.idempotency_key) reg.idempotency ≡ none
    → IsTruthful d
    → IsOrderly (add_deployment d reg)
unfolding add_deployment
add_deployment-IsOrderly reg d h new fresh truthful = record {
  stored = λ j e at. elim (insert-cases j d.deployment_id d e reg.deployments at) [
    | inl (here, it) ↦
        subst (λ k. Recorded (add_deployment d reg) k e) here
          (subst (Recorded (add_deployment d reg) d.deployment_id) it (record {
            own_id = refl;
            indexed =
                lookup-insert_self (d.tenant_id, d.idempotency_key) d.deployment_id reg.idempotency;
            truthful = truthful;
          }))
    | inr (away, old) ↦ record {
      own_id = (h.stored j e old).own_id;
      indexed =
          lookup-insert_ne (e.tenant_id, e.idempotency_key) (d.tenant_id, d.idempotency_key)
            d.deployment_id reg.idempotency
            (λ q. absurd (
              some-none
                (sym (h.stored j e old).indexed ∙ ap (λ k. lookup k reg.idempotency) q ∙ fresh)))
          ∙ (h.stored j e old).indexed;
      truthful = (h.stored j e old).truthful;
    }
  ];
  named = λ tenant key j at.
      elim (insert-cases (tenant, key) (d.tenant_id, d.idempotency_key) d.deployment_id j
        reg.idempotency at) [
          | inl (here, it) ↦ (
            d,
            subst (λ k. lookup k (insert d.deployment_id d reg.deployments) ≡ some d) it
                (lookup-insert_self d.deployment_id d reg.deployments),
            ap (λ k. k.0) here,
            ap (λ k. k.1) here,
          )
          | inr (away, old) ↦
              let (e, there, of_tenant, of_key) = h.named tenant key j old in
              (
                e,
                lookup-insert_ne j d.deployment_id d reg.deployments (λ q.
                      absurd (some-none (sym there ∙ ap (λ k. lookup k reg.deployments) q ∙ new)))
                    ∙ there,
                of_tenant,
                of_key,
              )
        ];
}

create-IsOrderly :
    (q : CreateRequest) (id : String) (ids : ℕ → String) (now : String) (reg : DeploymentRegistry)
    → lookup id reg.deployments ≡ none
    → IsOrderly reg
    → IsOrderly (create q id ids now reg).1
unfolding create create_new
create-IsOrderly q id ids now reg new h =
    elim (Option-cases (lookup (q.tenant_id, q.idempotency_key) reg.idempotency)) [
      | inr (known, e) ↦ rw (e, create) (rw state-get h)
      | inl unknown ↦
          rw (unknown, create)
            (elim (Bool-cases (is_empty q.resources)) [
              | inl none_given ↦ rw none_given h
              | inr given ↦ rw given (
                  add_deployment-IsOrderly reg (new_deployment q id ids now) h new unknown
                    (new_deployment-IsTruthful q id ids now))
            ])
    ]

call-IsOrderly :
    (id : String) (o : Operation) (v : ℕ) (now : String) (reg : DeploymentRegistry)
    → IsOrderly reg
    → IsOrderly (call id o v now reg).1
unfolding call
call-IsOrderly id o v now reg h = elim (Option-cases (lookup id reg.deployments)) [
  | inl missing ↦ ground arith
  | inr (d, found) ↦ elim (Result-cases (perform o v now d)) [
    | inl (d', done) ↦ rw (call-eq-ok id o v now reg d found d' done) (
        save-IsOrderly id reg d d' h found (perform-SameRecord o v now d d' done)
          (perform-IsTruthful o v now d (h.stored id d found).truthful done))
    | inr (x, failed) ↦ rw (call-eq-err id o v now reg d found x failed) h
  ]
]

-- In every registry that creations with unused identifiers and calls reach, whether they return or
-- raise, each stored deployment stands under its own identifier, is truthful, and is the one that its
-- tenant and key lead to; and every entry of the idempotency index leads to a stored deployment of that
-- tenant and key.
pub Reached-IsOrderly : {reg : DeploymentRegistry} → Reached reg → IsOrderly reg
unfolding lookup
Reached-IsOrderly empty = record {
  stored = λ id d h. absurd (cc);
  named = λ tenant key id h. absurd (cc);
}
Reached-IsOrderly (created {reg} q id ids now new r) =
    create-IsOrderly q id ids now reg new (Reached-IsOrderly r)
Reached-IsOrderly (called {reg} id o v now r) = call-IsOrderly id o v now reg (Reached-IsOrderly r)
