-- ===== src/Rules/Governance/Activation.antt =====
-- The registry of rule packages after any calls (rules/governance.py).
use skysolver.Prelude.{
  String, ◌≡◌, refl, sym, ap, ◌∙◌, subst, ◌≢◌, inl, inr, false, none, some, arith, eq_iff, ◌==◌,
  nat_eq, string_eq, pair_eq, eq_of_beq, Bool-cases, Option-cases,
}
use skysolver.Rules.Governance.{
  begin_shadow, record_shadow, approve, recording, shadowing, ok, Edit, approving, Written, edit,
  get, activating, activate, restoring, rollback, edited, retire, retired, promote, code,
  RulePackageRegistry, RulePackage,
}
use skysolver.Rules.Governance.Assurance.{
  restoring-IsAssured, edited-IsAssured, activating-IsAssured, IsAssured,
}
use skysolver.Prelude.Dict.{
  lookup-insert_self, lookup-insert_ne, insert-cases, Dict, insert, lookup,
}
use skysolver.Prelude.Clock.{Instant}
use skysolver.Prelude.Result.{◌>>=◌, Result-cases}

module _ {Content : Type 0} where
  -- Every package is assured; the index names the active packages and no other.
  pub record IsGoverned (g : RulePackageRegistry Content) : Type 0 where
    pub assured :
        (id : String) (p : RulePackage Content) → lookup id g.packages ≡ some p → IsAssured p
    pub indexed :
        (tenant id : String)
        → lookup tenant g.active_by_tenant ≡ some id
        → (p : RulePackage Content) × (lookup id g.packages ≡ some p)
          × (p.tenant_id ≡ tenant)
          × (code p.status ≡ 3)
    pub sole :
        (id : String) (p : RulePackage Content)
        → lookup id g.packages ≡ some p
        → code p.status ≡ 3
        → lookup p.tenant_id g.active_by_tenant ≡ some id
    pub named : (p : RulePackage Content) → lookup "" g.packages ≢ some p
    pub keyed :
        (id : String) (p : RulePackage Content) → lookup id g.packages ≡ some p → p.package_id ≡ id

  abbrev pub Idle : String → RulePackageRegistry Content → Type 0
  Idle id g = (p : RulePackage Content) → lookup id g.packages ≡ some p → code p.status ≢ 3

  -- A package that is not active is written where none was active.
  pub insert-IsGoverned :
      (id : String) (q : RulePackage Content) (g : RulePackageRegistry Content)
      → IsGoverned g
      → IsAssured q
      → id ≢ ""
      → code q.status ≢ 3
      → q.package_id ≡ id
      → Idle id g
      → IsGoverned (record g { packages = insert id q g.packages })
  insert-IsGoverned id q g h ok_q nonempty resting key idle = record {
    assured = λ j p found. elim (insert-cases j id q p g.packages found) [
      | inl (_, written) ↦ subst IsAssured written ok_q
      | inr (_, old) ↦ h.assured j p old
    ];
    indexed = λ tenant j named.
        let (p, found, owner, status) = h.indexed tenant j named in
        (
          p,
          lookup-insert_ne j id q g.packages
                (λ same. idle p (subst (λ k. lookup k g.packages ≡ some p) same found) status)
              ∙ found,
          owner,
          status,
        );
    sole = λ j p found status. elim (insert-cases j id q p g.packages found) [
      | inl (_, written) ↦ absurd (resting (ap (λ x. code x.status) written ∙ status))
      | inr (_, old) ↦ h.sole j p old status
    ];
    named = λ p found. elim (insert-cases "" id q p g.packages found) [
      | inl (same, _) ↦ nonempty same
      | inr (_, old) ↦ h.named p old
    ];
    keyed = λ j p found. elim (insert-cases j id q p g.packages found) [
      | inl (same, written) ↦ ap (λ x. x.package_id) (sym written) ∙ key ∙ same
      | inr (_, old) ↦ h.keyed j p old
    ];
  }

  -- The packages once the previous one of a tenant has been retired: the tenant has no active one.
  record IsVacant (tenant : String) (packages : Dict String (RulePackage Content))
      (index : Dict String String) : Type 0 where
    assured_all :
        (id : String) (p : RulePackage Content) → lookup id packages ≡ some p → IsAssured p
    indexed_others :
        (t id : String)
        → t ≢ tenant
        → lookup t index ≡ some id
        → (p : RulePackage Content) × (lookup id packages ≡ some p)
          × (p.tenant_id ≡ t)
          × (code p.status ≡ 3)
    sole_others :
        (id : String) (p : RulePackage Content)
        → lookup id packages ≡ some p
        → code p.status ≡ 3
        → (p.tenant_id ≢ tenant) × (lookup p.tenant_id index ≡ some id)
    named_all : (p : RulePackage Content) → lookup "" packages ≢ some p
    keyed_all :
        (id : String) (p : RulePackage Content) → lookup id packages ≡ some p → p.package_id ≡ id

  promoted-IsGoverned :
      (tenant id : String) (q : RulePackage Content) (packages : Dict String (RulePackage Content))
      (index : Dict String String)
      → IsVacant tenant packages index
      → IsAssured q
      → id ≢ ""
      → code q.status ≡ 3
      → q.tenant_id ≡ tenant
      → q.package_id ≡ id
      → ((p : RulePackage Content) → lookup id packages ≡ some p → code p.status ≢ 3)
      → IsGoverned (record {
        packages = insert id q packages;
        active_by_tenant = insert tenant q.package_id index;
      })
  promoted-IsGoverned tenant id q packages index h ok_q nonempty on owner key idle =
      subst
        (λ k.
          IsGoverned
            (record { packages = insert id q packages; active_by_tenant = insert tenant k index }))
        (sym key)
        (record {
          assured = λ j p found. elim (insert-cases j id q p packages found) [
            | inl (_, written) ↦ subst IsAssured written ok_q
            | inr (_, old) ↦ h.assured_all j p old
          ];
          indexed = λ t j active. elim (insert-cases t tenant id j index active) [
            | inl (same, here) ↦ (
              q,
              subst (λ k. lookup k (insert id q packages) ≡ some q) here
                  (lookup-insert_self id q packages),
              owner ∙ same,
              on,
            )
            | inr (other, old) ↦
                let (p, found, owned, status) = h.indexed_others t j other old in
                (
                  p,
                  lookup-insert_ne j id q packages
                        (λ same. idle p (subst (λ k. lookup k packages ≡ some p) same found) status)
                      ∙ found,
                  owned,
                  status,
                )
          ];
          sole = λ j p found status. elim (insert-cases j id q p packages found) [
            | inl (same, written) ↦
                subst (λ x. lookup x.tenant_id (insert tenant id index) ≡ some j) written
                  (subst (λ t. lookup t (insert tenant id index) ≡ some j) (sym owner)
                    (lookup-insert_self tenant id index ∙ ap some same))
            | inr (_, old) ↦
                let (other, active) = h.sole_others j p old status in
                lookup-insert_ne p.tenant_id tenant id index other ∙ active
          ];
          named = λ p found. elim (insert-cases "" id q p packages found) [
            | inl (same, _) ↦ nonempty same
            | inr (_, old) ↦ h.named_all p old
          ];
          keyed = λ j p found. elim (insert-cases j id q p packages found) [
            | inl (same, written) ↦ ap (λ x. x.package_id) (sym written) ∙ key ∙ same
            | inr (_, old) ↦ h.keyed_all j p old
          ];
        })

  retired-IsAssured :
      (p : RulePackage Content)
      → IsAssured p
      → code p.status ≡ 3
      → IsAssured (record p { status = retired })
  retired-IsAssured p h on = record {
    by_others = h.by_others;
    independent = h.independent;
    covered = λ _. h.covered (omega (arith, on));
    evidenced = h.evidenced;
    clean = λ _. h.clean (omega (arith, on));
    known = omega arith;
  }

  none-IsVacant :
      (tenant : String) (g : RulePackageRegistry Content)
      → IsGoverned g
      → lookup tenant g.active_by_tenant ≡ none
      → IsVacant tenant g.packages g.active_by_tenant
  none-IsVacant tenant g h empty = record {
    assured_all = h.assured;
    indexed_others = λ t id _ active. h.indexed t id active;
    sole_others = λ id p found status. (
      λ same. absurd (
          ground (
            arith,
            sym (subst (λ t. lookup t g.active_by_tenant ≡ some id) same (h.sole id p found status))
                ∙ empty,
          )),
      h.sole id p found status,
    );
    named_all = h.named;
    keyed_all = h.keyed;
  }

  retired-IsVacant :
      (tenant previous : String) (p : RulePackage Content) (g : RulePackageRegistry Content)
      → IsGoverned g
      → lookup tenant g.active_by_tenant ≡ some previous
      → lookup previous g.packages ≡ some p
      → p.tenant_id ≡ tenant
      → code p.status ≡ 3
      → IsVacant tenant
          (insert previous (record p { status = retired }) g.packages)
          g.active_by_tenant
  retired-IsVacant tenant previous p g h active found owner on = record {
    assured_all = λ j r here.
        elim (insert-cases j previous (record p { status = retired }) r g.packages here) [
          | inl (_, written) ↦
              subst IsAssured written (retired-IsAssured p (h.assured previous p found) on)
          | inr (_, old) ↦ h.assured j r old
        ];
    indexed_others = λ t j other act.
        let (r, here, owned, status) = h.indexed t j act in
        (
          r,
          lookup-insert_ne j previous (record p { status = retired }) g.packages
                (λ same. other (
                  sym owned
                  ∙ ground
                      (arith, sym (subst (λ k. lookup k g.packages ≡ some r) same here) ∙ found)
                  ∙ owner))
              ∙ here,
          owned,
          status,
        );
    sole_others = λ j r here status.
        elim (insert-cases j previous (record p { status = retired }) r g.packages here) [
          | inl (_, written) ↦ absurd (omega (arith, ap (λ x. code x.status) written ∙ status))
          | inr (other, old) ↦ (
            λ same. other (
                ground (
                  arith,
                  sym (
                        subst (λ t. lookup t g.active_by_tenant ≡ some j) same
                          (h.sole j r old status))
                      ∙ active,
                )),
            h.sole j r old status,
          )
        ];
    named_all = λ r here.
        elim (insert-cases "" previous (record p { status = retired }) r g.packages here) [
          | inl (same, _) ↦ h.named p (subst (λ k. lookup k g.packages ≡ some p) same found)
          | inr (_, old) ↦ h.named r old
        ];
    keyed_all = λ j r here.
        elim (insert-cases j previous (record p { status = retired }) r g.packages here) [
          | inl (same, written) ↦
              ap (λ x. x.package_id) (sym written) ∙ h.keyed previous p found ∙ same
          | inr (_, old) ↦ h.keyed j r old
        ];
  }

  -- The writes of `activate` and `rollback`: the previous package steps down, the new one is active.
  promote-IsGoverned :
      (tenant id : String) (q : RulePackage Content) (g : RulePackageRegistry Content)
      → IsGoverned g
      → IsAssured q
      → id ≢ ""
      → code q.status ≡ 3
      → q.tenant_id ≡ tenant
      → q.package_id ≡ id
      → Idle id g
      → IsGoverned (promote tenant id q g).1
  unfolding promote retire
  promote-IsGoverned tenant id q g h ok_q nonempty on owner key idle =
      elim (Option-cases (lookup tenant g.active_by_tenant)) [
        | inl empty ↦
            rw (empty, promote)
              (promoted-IsGoverned tenant id q g.packages g.active_by_tenant
                (none-IsVacant tenant g h empty) ok_q nonempty on owner key idle)
        | inr (previous, active) ↦
            let (p, found, owned, status) = h.indexed tenant previous active in
            rw (active, promote)
              (rw (previous_named previous p found) (
                rw (found, promote)
                  (promoted-IsGoverned tenant id q _ g.active_by_tenant
                    (retired-IsVacant tenant previous p g h active found owned status) ok_q nonempty
                    on owner key
                    (λ r here.
                      elim (insert-cases id previous (record p { status = retired }) r g.packages
                        here) [
                          | inl (_, written) ↦
                              λ s. absurd (omega (arith, ap (λ x. code x.status) written ∙ s))
                          | inr (_, old) ↦ idle r old
                        ]))))
      ]
    where
      previous_named :
          (previous : String) (p : RulePackage Content)
          → lookup previous g.packages ≡ some p
          → (previous == "") ≡ false
      previous_named previous p found = elim (Bool-cases (previous == "")) [
        | inl same ↦ absurd (
            h.named p
              (subst (λ k. lookup k g.packages ≡ some p) (eq_of_beq previous "" same) found))
        | inr other ↦ other
      ]

  -- What an edit, an activation and a rollback keep and require of the package.
  edited_frame :
      (e : Edit) (p q : RulePackage Content)
      → edited e p ≡ ok q
      → (q.package_id ≡ p.package_id) × (code p.status ≢ 3) × (code q.status ≢ 3)
  unfolding edited approving shadowing recording
  edited_frame (approve actor authority reason id now) p q h =
      (ground arith, ground arith, ground arith)
  edited_frame begin_shadow p q h = (ground arith, ground arith, ground arith)
  edited_frame (record_shadow e) p q h = (ground arith, ground arith, ground arith)

  activating_frame :
      (now : Instant) (p q : RulePackage Content)
      → activating now p ≡ ok q
      → (q.package_id ≡ p.package_id) × (code p.status ≢ 3) × (code q.status ≡ 3)
  unfolding activating
  activating_frame now p q h = (ground arith, ground arith, ground arith)

  restoring_frame :
      (tenant : String) (p q : RulePackage Content)
      → restoring tenant p ≡ ok q
      → (q.package_id ≡ p.package_id)
        × (code p.status ≢ 3)
        × (code q.status ≡ 3)
        × (q.tenant_id ≡ tenant)
  unfolding restoring
  restoring_frame tenant p q h =
      (ground arith, ground arith, ground arith, ground (arith, eq_iff p.tenant_id tenant))

  get_item :
      (id : String) (g : RulePackageRegistry Content) (f : RulePackage Content → Written Content)
      (q : RulePackage Content)
      → (get id g >>= f) ≡ ok q
      → (p : RulePackage Content) × (lookup id g.packages ≡ some p) × (f p ≡ ok q)
  unfolding get
  get_item id g f q h = elim (Option-cases (lookup id g.packages)) [
    | inl absent ↦ absurd (ground (arith, absent))
    | inr (p, found) ↦ (p, found, ground (arith, found))
  ]

  not_active :
      (id : String) (p : RulePackage Content) (g : RulePackageRegistry Content)
      → lookup id g.packages ≡ some p
      → code p.status ≢ 3
      → Idle id g
  not_active id p g found off r here on = off (ground (arith, sym found ∙ here))

  nonempty_id :
      (id : String) (p : RulePackage Content) (g : RulePackageRegistry Content)
      → IsGoverned g
      → lookup id g.packages ≡ some p
      → id ≢ ""
  nonempty_id id p g h found e = h.named p (subst (λ k. lookup k g.packages ≡ some p) e found)

  -- Approvals, shadow runs and their records keep the registry governed, whatever they return.
  pub edit-IsGoverned :
      (id : String) (e : Edit) (g : RulePackageRegistry Content)
      → IsGoverned g
      → IsGoverned (edit id e g).1
  unfolding edit
  edit-IsGoverned id e g h = elim (Result-cases (get id g >>= edited e)) [
    | inr (x, refused) ↦ rw (refused, edit) h
    | inl (q, done) ↦
        let (p, found, made) = get_item id g (edited e) q done in
        let (same, off, off') = edited_frame e p q made in
        rw (done, edit)
          (insert-IsGoverned id q g h (edited-IsAssured e p q (h.assured id p found) made)
            (nonempty_id id p g h found) off' (same ∙ h.keyed id p found)
            (not_active id p g found off))
  ]

  -- An activation, whatever it returns, leaves one active package for each tenant at most, the one
  -- that the index names, with independent approvals by both authorities and a clean shadow run.
  pub activate-IsGoverned :
      (id : String) (now : Instant) (g : RulePackageRegistry Content)
      → IsGoverned g
      → IsGoverned (activate id now g).1
  unfolding activate
  activate-IsGoverned id now g h = elim (Result-cases (get id g >>= activating now)) [
    | inr (x, refused) ↦ rw (refused, activate) h
    | inl (q, done) ↦
        let (p, found, made) = get_item id g (activating now) q done in
        let (same, off, on) = activating_frame now p q made in
        rw (done, activate)
          (promote-IsGoverned q.tenant_id id q g h
            (activating-IsAssured now p q (h.assured id p found) made) (nonempty_id id p g h found)
            on refl (same ∙ h.keyed id p found) (not_active id p g found off))
  ]

  -- So does a rollback.
  pub rollback-IsGoverned :
      (tenant id : String) (g : RulePackageRegistry Content)
      → IsGoverned g
      → IsGoverned (rollback tenant id g).1
  unfolding rollback
  rollback-IsGoverned tenant id g h = elim (Result-cases (get id g >>= restoring tenant)) [
    | inr (x, refused) ↦ rw (refused, rollback) h
    | inl (q, done) ↦
        let (p, found, made) = get_item id g (restoring tenant) q done in
        let (same, off, on, owner) = restoring_frame tenant p q made in
        rw (done, rollback)
          (promote-IsGoverned tenant id q g h
            (restoring-IsAssured tenant p q (h.assured id p found) made)
            (nonempty_id id p g h found) on owner (same ∙ h.keyed id p found)
            (not_active id p g found off))
  ]
