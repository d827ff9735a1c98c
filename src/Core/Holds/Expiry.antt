-- ===== src/Core/Holds/Expiry.antt =====
-- The expiry of the holds of core/resource_holds.py, and what an acquisition gives.
use skysolver.Prelude.{
  ℕ, ◌+◌, ◌≤◌, ◌<◌, String, ◌≡◌, refl, sym, ap, ◌∙◌, subst, ◌≢◌, ◌⊎◌, inl, inr, Bool, true, some,
  List, [], ◌∷◌, arith, eq_iff, leb, ◌==◌, nat_eq, string_eq, pair_eq, eq_of_beq, Bool-cases,
  Option-cases, filter, contains,
}
use skysolver.Prelude.Sets.{sorted_set, contains-sorted_set}
use skysolver.Prelude.Result.{ok, err}
use skysolver.Prelude.Dict.{Dict, lookup, lookup-insert_self, erase-cases}
use skysolver.Core.Holds.{
  held, resource_conflict, new_hold, acquire, ResourceHoldRegistry, HoldRequest, release_hold,
  expire_each, expire, ResourceHold,
}
use skysolver.Core.Holds.Exclusion.{expire-IsExclusive, IsExclusive}
use skysolver.Core.Holds.Conflicts.{conflicts_of, acquire-cases}

Listed : String → ResourceHold → Dict String ResourceHold → Type 0
Listed id h [] = ⊥
Listed id h ((k, v) ∷ rest) = ((k ≡ id) × (v ≡ h)) ⊎ Listed id h rest

found-Listed :
    (id : String) (h : ResourceHold) (d : Dict String ResourceHold)
    → lookup id d ≡ some h
    → Listed id h d
unfolding Listed lookup
found-Listed id h [] q = absurd (cc)
found-Listed id h ((k, v) ∷ rest) q = elim (Bool-cases (k == id)) [
  | inl same ↦ inl (eq_of_beq k id same, ground arith)
  | inr other ↦ inr (found-Listed id h rest (ground arith))
]

release_hold_found :
    (k id : String) (h : ResourceHold) (g : ResourceHoldRegistry)
    → lookup id (release_hold k g).holds ≡ some h
    → (id ≢ k) × (lookup id g.holds ≡ some h)
unfolding release_hold
release_hold_found k id h g q = elim (Option-cases (lookup k g.holds)) [
  | inl absent ↦
      let old : lookup id g.holds ≡ some h = rw (absent, release_hold) at q in
      (
        λ same.
            absurd (ground (arith, sym (subst (λ i. lookup i g.holds ≡ some h) same old) ∙ absent)),
        old,
      )
  | inr (v, found) ↦ erase-cases id k h g.holds (rw (found, release_hold) at q)
]

expire_each_found :
    (now : ℕ) (items : Dict String ResourceHold) (id : String) (h : ResourceHold)
    (g : ResourceHoldRegistry)
    → lookup id (expire_each now items g).holds ≡ some h
    → (lookup id g.holds ≡ some h) × (Listed id h items → now < h.expires_at)
unfolding expire_each Listed
expire_each_found now [] id h g q = (q, λ l. absurd l)
expire_each_found now ((k, v) ∷ rest) id h g q = elim (Bool-cases (leb v.expires_at now)) [
  | inl over ↦
      let (kept, live) =
        expire_each_found now rest id h (release_hold k g) (rw (over, expire_each) at q) in
      let (other, old) = release_hold_found k id h g kept in
      (old, λ l. elim l [ inl (same, _) ↦ absurd (other (sym same)) | inr later ↦ live later ])
  | inr alive ↦
      let (old, live) = expire_each_found now rest id h g (rw (alive, expire_each) at q) in
      (
        old,
        λ l. elim l [
          | inl (_, same) ↦ ground (arith, ap (λ x. x.expires_at) same)
          | inr later ↦ live later
        ],
      )
]

-- What is left after `_expire` was there before and has not expired.
expire_found :
    (now : ℕ) (id : String) (h : ResourceHold) (g : ResourceHoldRegistry)
    → lookup id (expire now g).holds ≡ some h
    → (lookup id g.holds ≡ some h) × (now < h.expires_at)
unfolding expire
expire_found now id h g q =
    let (old, live) = expire_each_found now g.holds id h g q in
    (old, live (found-Listed id h g.holds old))

filtered_in :
    (p : String → Bool) (xs : List String) (r : String)
    → contains r (filter p xs) ≡ true
    → (p r ≡ true) × (contains r xs ≡ true)
filtered_in p [] r c = absurd (cc)
filtered_in p (x ∷ xs) r c = elim (Bool-cases (p x)) [
  | inl taken ↦ elim (Bool-cases (r == x)) [
    | inl same ↦ (rw (eq_of_beq r x same) taken, ground arith)
    | inr other ↦ let (h, k) = filtered_in p xs r (ground arith) in (h, ground arith)
  ]
  | inr left ↦ let (h, k) = filtered_in p xs r (ground arith) in (h, ground arith)
]

module _ (q : HoldRequest) (id : String) (now acquired : ℕ) (g : ResourceHoldRegistry) where
  -- An acquisition that returns has a lifetime between 30 and 1800 seconds, and its hold has exactly
  -- the requested resources, runs for that lifetime and is stored.
  pub acquire-eq-ok :
      (h : ResourceHold)
      → (acquire q id now acquired g).0 ≡ ok h
      → (30 ≤ q.ttl_seconds)
        × (q.ttl_seconds ≤ 1800)
        × (h.expires_at ≡ h.acquired_at + q.ttl_seconds)
        × ((r : String) → contains r h.resources ≡ contains r q.resources)
        × (lookup id (acquire q id now acquired g).1.holds ≡ some h)
  unfolding new_hold
  acquire-eq-ok h ok_h = elim (acquire-cases q id now acquired g) [
    | inl (inl refused) ↦ absurd (ground (arith, refused))
    | inl (inr refused) ↦ absurd (ground (arith, refused))
    | inr (inl refused) ↦ absurd (ground (arith, refused))
    | inr (inr (low, high, _, done)) ↦
        let same : new_hold q id acquired ≡ h = ground (arith, sym (ap (λ x. x.0) done) ∙ ok_h) in
        (
          low,
          high,
          subst (λ x. x.expires_at ≡ x.acquired_at + q.ttl_seconds) same refl,
          λ r.
              subst (λ x. contains r x.resources ≡ contains r q.resources) same
                (contains-sorted_set r q.resources),
          rw done
              (lookup-insert_self id (new_hold q id acquired) (expire now g).holds ∙ ap some same),
        )
  ]

  -- An acquisition that is refused for a conflict names only requested resources that a hold of the
  -- same tenant has, one that has not expired.
  pub acquire_conflict :
      (rs : List String) (r : String)
      → IsExclusive g
      → (acquire q id now acquired g).0 ≡ err (resource_conflict rs)
      → contains r rs ≡ true
      → (contains r q.resources ≡ true)
        × ((j : String) × (h : ResourceHold) × (lookup j g.holds ≡ some h)
            × (h.tenant_id ≡ q.tenant_id)
            × (contains r h.resources ≡ true)
            × (now < h.expires_at))
  acquire_conflict rs r ex refused named = elim (acquire-cases q id now acquired g) [
    | inl (inl early) ↦ absurd (ground (arith, sym (ap (λ x. x.0) early) ∙ refused))
    | inl (inr early) ↦ absurd (ground (arith, sym (ap (λ x. x.0) early) ∙ refused))
    | inr (inr (_, _, _, done)) ↦ absurd (ground (arith, sym (ap (λ x. x.0) done) ∙ refused))
    | inr (inl conflict) ↦
        let same : conflicts_of q now g ≡ rs =
          ground (arith, sym (ap (λ x. x.0) conflict) ∙ refused) in
        let (taken, asked) =
          filtered_in (held q.tenant_id (expire now g)) (sorted_set q.resources) r
            (subst (λ l. contains r l ≡ true) (sym same) named) in
        (sym (contains-sorted_set r q.resources) ∙ asked, holder taken)
  ]
    where
      holder :
          held q.tenant_id (expire now g) r ≡ true
          → (j : String) × (h : ResourceHold) × (lookup j g.holds ≡ some h)
            × (h.tenant_id ≡ q.tenant_id)
            × (contains r h.resources ≡ true)
            × (now < h.expires_at)
      holder taken = elim (Option-cases (lookup (q.tenant_id, r) (expire now g).resource_index)) [
        | inl absent ↦ absurd (ground (arith, absent))
        | inr (j, at) ↦
            let (h, here, has) = (expire-IsExclusive now g ex).indexed q.tenant_id r j at in
            let (old, live) = expire_found now j h g here in
            (j, h, old, ground (arith, eq_iff q.tenant_id h.tenant_id), ground arith, live)
      ]
