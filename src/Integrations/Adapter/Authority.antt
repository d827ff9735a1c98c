-- ===== src/Integrations/Adapter/Authority.antt =====
-- What a command needs before `publish` of integrations/adapters/base.py sends it, and how a
-- publication ends.
use skysolver.Prelude.{
  ℕ, ◌≤◌, ◌<◌, String, ◌≡◌, refl, sym, ap, ◌∙◌, subst, ◌≢◌, inl, inr, Bool, true, false, not, ◌&&◌,
  List, [], ◌∷◌, arith, eq_iff, ◌!=◌, nat_eq, string_eq, pair_eq, beq_refl, Bool-cases, is_empty,
  contains,
}
use skysolver.Prelude.Result.{ok, err, Result-cases}
use skysolver.Prelude.Clock.{Instant}
use skysolver.Integrations.Adapter.{
  dependency_error, security_error, source_timeout, success, truthy, returned, allow, publish,
  is_acknowledged, CircuitBreaker, PublishResult, Answer, AdapterError, settle, duty_managers,
  count, authorize, AdapterCapabilities, DeploymentCommand,
}

module _ {Payload : Type 0} where
  -- A command that may leave for the carrier.
  pub record IsAuthorized (verify : DeploymentCommand Payload → Bool) (cap : AdapterCapabilities)
      (c : DeploymentCommand Payload) (version : ℕ) (now : Instant) : Type 0 where
    pub dated : c.expires_at.aware ≡ true
    pub unexpired : now.seconds < c.expires_at.seconds
    pub here : c.target_system ≡ cap.source_system
    pub supported : contains c.action cap.supported_write_actions ≡ true
    pub current : c.state_version ≡ version
    pub keyed : 8 ≤ count c.idempotency_key
    pub signed : verify c ≡ true
    pub approved : (s : String) × (contains s (duty_managers c.approvals) ≡ true)
    pub not_by_proposer : contains c.proposed_by (duty_managers c.approvals) ≡ false
    pub not_by_publisher : contains c.requested_by (duty_managers c.approvals) ≡ false
    pub apart : c.proposed_by ≢ c.requested_by

  module _ (verify : DeploymentCommand Payload → Bool) (cap : AdapterCapabilities) where
    one_member : (xs : List String) → is_empty xs ≡ false → (s : String) × (contains s xs ≡ true)
    one_member [] h = absurd (cc)
    one_member (x ∷ xs) h = (x, rw (beq_refl x) refl)

    authorize-IsAuthorized :
        (c : DeploymentCommand Payload) (version : ℕ) (now : Instant)
        → authorize verify cap c version now ≡ ok tt
        → IsAuthorized verify cap c version now
    unfolding authorize
    authorize-IsAuthorized c version now h = record {
      dated = ground arith;
      unexpired = ground arith;
      here = ground (arith, eq_iff c.target_system cap.source_system);
      supported = ground arith;
      current = ground arith;
      keyed = ground arith;
      signed = ground arith;
      approved = one_member (duty_managers c.approvals) (ground arith);
      not_by_proposer = ground arith;
      not_by_publisher = ground arith;
      apart = λ q. absurd (ground (arith, eq_iff c.proposed_by c.requested_by));
    }

    -- A command that is not authorized never reaches the carrier: whatever the carrier would answer,
    -- `publish` raises one and the same error and leaves the breaker as it was.
    pub publish_unauthorized :
        (c : DeploymentCommand Payload) (version : ℕ) (now : Instant)
        → ¬ IsAuthorized verify cap c version now
        → (x : AdapterError) × ((source : DeploymentCommand Payload → Answer PublishResult)
              (clock later : ℕ) (b : CircuitBreaker)
            → publish verify cap source c version now clock later b ≡ (err x, b))
    unfolding publish
    publish_unauthorized c version now lacking =
        elim (Result-cases (authorize verify cap c version now)) [
          | inl (_, fine) ↦ absurd (lacking (authorize-IsAuthorized c version now fine))
          | inr (x, refused) ↦ (x, λ source clock later b. rw (refused, publish) refl)
        ]

    settle-eq-ok :
        (c : DeploymentCommand Payload) (a : Answer PublishResult) (later : ℕ) (b : CircuitBreaker)
        (r : PublishResult)
        → (settle verify cap c a later b).0 ≡ ok r
        → (r.command_id ≡ c.command_id)
          × (is_acknowledged r.status ≡ true
              → (a ≡ returned r)
                × (truthy r.source_system_reference ≡ true)
                × ((settle verify cap c a later b).1 ≡ success b))
    unfolding settle
    settle-eq-ok c (returned q) later b r h = elim (Bool-cases (q.command_id != c.command_id)) [
      | inl foreign ↦ absurd (ground (arith, rw (foreign, settle) at h))
      | inr own ↦
          elim (Bool-cases (is_acknowledged q.status && not (truthy q.source_system_reference))) [
            | inl bare ↦ absurd (ground (arith, rw (bare, settle) at (rw (own, settle) at h)))
            | inr full ↦
                let same : q ≡ r = ground (arith, rw (full, settle) at (rw (own, settle) at h)) in
                (
                  subst (λ x. x.command_id ≡ c.command_id) same
                      (ground (arith, eq_iff q.command_id c.command_id)),
                  λ k. (
                    ap returned same,
                    subst (λ x. truthy x.source_system_reference ≡ true) same
                        (ground (arith, subst (λ x. is_acknowledged x.status ≡ true) (sym same) k)),
                    rw (own, settle) (rw (full, settle) refl),
                  ),
                )
          ]
    ]
    settle-eq-ok c (source_timeout detail) later b r h = (ground arith, λ k. absurd (ground arith))
    settle-eq-ok c (security_error x) later b r h = absurd (ground arith)
    settle-eq-ok c (dependency_error name) later b r h = (ground arith, λ k. absurd (ground arith))

    -- A publication that returns was authorized and let through by the breaker, and its result is for
    -- that command; one that is acknowledged is what the carrier answered, has the carrier's
    -- reference, and closes the breaker.
    pub publish-eq-ok :
        (source : DeploymentCommand Payload → Answer PublishResult) (c : DeploymentCommand Payload)
        (version : ℕ) (now : Instant) (clock later : ℕ) (b : CircuitBreaker) (r : PublishResult)
        → (publish verify cap source c version now clock later b).0 ≡ ok r
        → IsAuthorized verify cap c version now
          × ((allow clock b).0 ≡ true)
          × (r.command_id ≡ c.command_id)
          × (is_acknowledged r.status ≡ true
              → (source c ≡ returned r)
                × (truthy r.source_system_reference ≡ true)
                × ((publish verify cap source c version now clock later b).1
                    ≡ success (allow clock b).1))
    unfolding publish settle
    publish-eq-ok source c version now clock later b r h =
        elim (Result-cases (authorize verify cap c version now)) [
          | inr (x, refused) ↦ absurd (ground (arith, rw (refused, publish) at h))
          | inl (_, fine) ↦ elim (Bool-cases (allow clock b).0) [
            | inr shut ↦ absurd (ground (arith, rw (shut, publish) at (rw (fine, publish) at h)))
            | inl through ↦
                let same : publish verify cap source c version now clock later b
                    ≡ settle verify cap c (source c) later (allow clock b).1 =
                  rw (fine, publish) (rw (through, publish) refl) in
                let (id, acked) =
                  settle-eq-ok c (source c) later (allow clock b).1 r
                    (sym (ap (λ x. x.0) same) ∙ h) in
                (
                  authorize-IsAuthorized c version now fine,
                  through,
                  id,
                  λ k.
                      let (answer, reference, after) = acked k in
                      (answer, reference, ap (λ x. x.1) same ∙ after),
                )
          ]
        ]
