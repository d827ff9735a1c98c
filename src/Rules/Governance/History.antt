-- ===== src/Rules/Governance/History.antt =====
-- The registry of rule packages after any sequence of calls (rules/governance.py).
use skysolver.Prelude.{
  String, ◌≡◌, sym, ◌∙◌, subst, ◌≢◌, inl, inr, true, none, [], arith, nat_eq, string_eq, pair_eq,
  All,
}
use skysolver.Prelude.Dict.{lookup, Dict}
use skysolver.Rules.Governance.{
  rollback, activate, edit, ok, Edit, Submission, code, admit, RulePackageRegistry, submit,
  RulePackage,
}
use skysolver.Rules.Governance.Activation.{
  rollback-IsGoverned, insert-IsGoverned, activate-IsGoverned, edit-IsGoverned, IsGoverned,
}
use skysolver.Rules.Governance.Assurance.{AllIndependent, ByOthers, IsAssured, is_counted}
use skysolver.Prelude.Clock.{Instant}
use skysolver.Prelude.Result.{Result-cases}

module _ {Content : Type 0} (signing_keys : Dict String String) (sign : Content → String → String)
    (digest : Content → String) where
  admit_draft :
      (s : Submission Content) (id : String) (now : Instant) (g : RulePackageRegistry Content)
      (q : RulePackage Content)
      → admit signing_keys sign digest s id now g ≡ ok q
      → (q.package_id ≡ id)
        × (q.approvals ≡ [])
        × (code q.status ≡ 0)
        × (is_counted q.shadow_evidence ≡ true)
  unfolding admit
  admit_draft s id now g q h = (ground arith, ground arith, ground arith, ground arith)

  draft-IsAssured :
      (q : RulePackage Content)
      → q.approvals ≡ []
      → code q.status ≡ 0
      → is_counted q.shadow_evidence ≡ true
      → IsAssured q
  draft-IsAssured q unseen at counted = record {
    by_others = subst (All (ByOthers q.submitted_by)) (sym unseen) tt;
    independent = subst AllIndependent (sym unseen) tt;
    covered = λ p. absurd (omega arith);
    evidenced = counted;
    clean = λ p. absurd (omega arith);
    known = omega arith;
  }

  submit-IsGoverned :
      (s : Submission Content) (id : String) (now : Instant) (g : RulePackageRegistry Content)
      → lookup id g.packages ≡ none
      → id ≢ ""
      → IsGoverned g
      → IsGoverned (submit signing_keys sign digest s id now g).1
  unfolding submit
  submit-IsGoverned s id now g unknown nonempty h =
      elim (Result-cases (admit signing_keys sign digest s id now g)) [
        | inr (x, refused) ↦ rw (refused, submit) h
        | inl (q, admitted) ↦
            let (key, unseen, at, counted) = admit_draft s id now g q admitted in
            rw (admitted, submit)
              (insert-IsGoverned id q g h (draft-IsAssured q unseen at counted) nonempty
                (λ on. absurd (omega arith)) key
                (λ p found. absurd (ground (arith, sym unknown ∙ found))))
      ]

  -- The registries that some sequence of calls leaves; a submission draws an identifier that is
  -- not in use.
  pub data Reached : RulePackageRegistry Content → Type 0 where
    empty : Reached (record { packages = []; active_by_tenant = [] })
    submitted :
        {g : RulePackageRegistry Content} (s : Submission Content) (id : String) (now : Instant)
        → lookup id g.packages ≡ none
        → id ≢ ""
        → Reached g
        → Reached (submit signing_keys sign digest s id now g).1
    written :
        {g : RulePackageRegistry Content} (id : String) (e : Edit)
        → Reached g
        → Reached (edit id e g).1
    activated :
        {g : RulePackageRegistry Content} (id : String) (now : Instant)
        → Reached g
        → Reached (activate id now g).1
    rolled_back :
        {g : RulePackageRegistry Content} (tenant id : String)
        → Reached g
        → Reached (rollback tenant id g).1

  -- After any calls, where a submission draws an unused identifier: each package was approved only by recognized authorities and by people
  -- independent of one another and of the submitter, an approved one by both authorities, an active
  -- or retired one after a clean shadow run; and each tenant has at most one active package, the
  -- one that the index names.
  pub Reached-IsGoverned : {g : RulePackageRegistry Content} → Reached g → IsGoverned g
  unfolding lookup
  Reached-IsGoverned empty = record {
    assured = λ id p h. absurd (cc);
    indexed = λ tenant id h. absurd (cc);
    sole = λ id p h. absurd (cc);
    named = λ p h. absurd (cc);
    keyed = λ id p h. absurd (cc);
  }
  Reached-IsGoverned (submitted s id now unknown nonempty r) =
      submit-IsGoverned s id now _ unknown nonempty (Reached-IsGoverned r)
  Reached-IsGoverned (written id e r) = edit-IsGoverned id e _ (Reached-IsGoverned r)
  Reached-IsGoverned (activated id now r) = activate-IsGoverned id now _ (Reached-IsGoverned r)
  Reached-IsGoverned (rolled_back tenant id r) =
      rollback-IsGoverned tenant id _ (Reached-IsGoverned r)
