-- ===== src/Core/Holds/Exclusion.antt =====
-- The index of core/resource_holds.py and the holds that it names.
use skysolver.Prelude.{
  ℕ, String, ◌≡◌, sym, ap, ◌∙◌, subst, inl, inr, Bool, true, false, ◌&&◌, none, some, List, [], ◌∷◌,
  arith, eq_iff, leb, if◌then◌else◌, ◌==◌, nat_eq, string_eq, pair_eq, Bool-cases, Option-cases,
  contains,
}
use skysolver.Prelude.Dict.{
  Dict, lookup, insert, erase, lookup-insert, lookup-erase, lookup-insert_self, lookup-insert_ne,
  insert-cases, lookup-erase_ne, erase-cases, lookup_unique,
}
use skysolver.Core.Holds.{
  store_hold, expire_each, release_each, release_hold, expire, ResourceHold, ResourceHoldRegistry,
  drop_resources, index_resources,
}

-- The hold with this tenant and these resources has this resource.
abbrev pub has_resource : String → List String → String → String → Bool
has_resource tenant rs t r = t == tenant && contains r rs

lookup-drop_resources :
    (tenant : String) (rs : List String) (d : Dict (String × String) String) (t r : String)
    → lookup (t, r) (drop_resources tenant rs d)
      ≡ (if has_resource tenant rs t r then none else lookup (t, r) d)
unfolding drop_resources
lookup-drop_resources tenant [] d t r = ground arith
lookup-drop_resources tenant (x ∷ rs) d t r = ground (
  arith,
  lookup-drop_resources tenant rs (erase (tenant, x) d) t r,
  lookup-erase (t, r) (tenant, x) d,
  eq_iff t tenant,
  eq_iff tenant t,
  eq_iff r x,
  eq_iff x r,
)

lookup-index_resources :
    (tenant id : String) (rs : List String) (d : Dict (String × String) String) (t r : String)
    → lookup (t, r) (index_resources tenant id rs d)
      ≡ (if has_resource tenant rs t r then some id else lookup (t, r) d)
unfolding index_resources
lookup-index_resources tenant id [] d t r = ground arith
lookup-index_resources tenant id (x ∷ rs) d t r = ground (
  arith,
  lookup-index_resources tenant id rs (insert (tenant, x) id d) t r,
  lookup-insert (t, r) (tenant, x) id d,
  eq_iff t tenant,
  eq_iff tenant t,
  eq_iff r x,
  eq_iff x r,
)

-- The index names a hold of the tenant with the resource, and every resource of a hold is in it.
pub record IsExclusive (g : ResourceHoldRegistry) : Type 0 where
  pub indexed :
      (t r id : String)
      → lookup (t, r) g.resource_index ≡ some id
      → (h : ResourceHold) × (lookup id g.holds ≡ some h)
        × (has_resource h.tenant_id h.resources t r ≡ true)
  pub covered :
      (t r id : String) (h : ResourceHold)
      → lookup id g.holds ≡ some h
      → has_resource h.tenant_id h.resources t r ≡ true
      → lookup (t, r) g.resource_index ≡ some id

module _ (g : ResourceHoldRegistry) (ex : IsExclusive g) (id : String) (h : ResourceHold)
    (found : lookup id g.holds ≡ some h) where
  indexed-dropped :
      (t r j : String)
      → lookup (t, r) (drop_resources h.tenant_id h.resources g.resource_index) ≡ some j
      → (k : ResourceHold) × (lookup j (erase id g.holds) ≡ some k)
        × (has_resource k.tenant_id k.resources t r ≡ true)
  indexed-dropped t r j at = elim (Bool-cases (has_resource h.tenant_id h.resources t r)) [
    | inl own ↦ absurd (
        ground (
          arith,
          sym (lookup-drop_resources h.tenant_id h.resources g.resource_index t r) ∙ at,
          own,
        ))
    | inr other ↦ elsewhere other (
        ex.indexed t r j (
          ground (
            arith,
            sym (lookup-drop_resources h.tenant_id h.resources g.resource_index t r) ∙ at,
            other,
          )))
  ]
    where
      elsewhere :
          has_resource h.tenant_id h.resources t r ≡ false
          → ((k : ResourceHold) × (lookup j g.holds ≡ some k)
              × (has_resource k.tenant_id k.resources t r ≡ true))
          → (k : ResourceHold) × (lookup j (erase id g.holds) ≡ some k)
            × (has_resource k.tenant_id k.resources t r ≡ true)
      elsewhere other (k, here, has) = (
        k,
        lookup-erase_ne j id g.holds (λ same. absurd (
              ground (
                arith,
                sym has
                    ∙ ap (λ x. has_resource x.tenant_id x.resources t r)
                        (lookup_unique j id k h g.holds here found same),
                other,
              )))
            ∙ here,
        has,
      )

  covered-dropped :
      (t r j : String) (k : ResourceHold)
      → lookup j (erase id g.holds) ≡ some k
      → has_resource k.tenant_id k.resources t r ≡ true
      → lookup (t, r) (drop_resources h.tenant_id h.resources g.resource_index) ≡ some j
  covered-dropped t r j k here has =
      let (other, old) = erase-cases j id k g.holds here in
      elim (Bool-cases (has_resource h.tenant_id h.resources t r)) [
        | inl own ↦ absurd (
            other
              (ground (arith, sym (ex.covered t r j k old has) ∙ ex.covered t r id h found own)))
        | inr free ↦
            lookup-drop_resources h.tenant_id h.resources g.resource_index t r
            ∙ rw free (ex.covered t r j k old has)
      ]

pub release_hold-IsExclusive :
    (id : String) (g : ResourceHoldRegistry) → IsExclusive g → IsExclusive (release_hold id g)
unfolding release_hold
release_hold-IsExclusive id g ex = elim (Option-cases (lookup id g.holds)) [
  | inl absent ↦ rw (absent, release_hold) ex
  | inr (h, found) ↦
      rw (found, release_hold)
        (record {
          indexed = indexed-dropped g ex id h found;
          covered = covered-dropped g ex id h found;
        })
]

expire_each-IsExclusive :
    (now : ℕ) (items : Dict String ResourceHold) (g : ResourceHoldRegistry)
    → IsExclusive g
    → IsExclusive (expire_each now items g)
unfolding expire_each
expire_each-IsExclusive now [] g ex = ex
expire_each-IsExclusive now ((id, h) ∷ rest) g ex = elim (Bool-cases (leb h.expires_at now)) [
  | inl over ↦
      rw over
        (expire_each-IsExclusive now rest (release_hold id g) (release_hold-IsExclusive id g ex))
  | inr live ↦ rw live (expire_each-IsExclusive now rest g ex)
]

pub expire-IsExclusive :
    (now : ℕ) (g : ResourceHoldRegistry) → IsExclusive g → IsExclusive (expire now g)
unfolding expire
expire-IsExclusive now g ex = expire_each-IsExclusive now g.holds g ex

pub release_each-IsExclusive :
    (ids : List String) (g : ResourceHoldRegistry)
    → IsExclusive g
    → IsExclusive (release_each ids g)
unfolding release_each
release_each-IsExclusive [] g ex = ex
release_each-IsExclusive (id ∷ ids) g ex =
    release_each-IsExclusive ids (release_hold id g) (release_hold-IsExclusive id g ex)

-- No resource of the list has a hold.
abbrev pub AllFree : String → List String → ResourceHoldRegistry → Type 0
AllFree tenant rs g =
    (t r : String) → has_resource tenant rs t r ≡ true → lookup (t, r) g.resource_index ≡ none

pub store_hold-IsExclusive :
    (h : ResourceHold) (id : String) (g : ResourceHoldRegistry)
    → IsExclusive g
    → lookup id g.holds ≡ none
    → AllFree h.tenant_id h.resources g
    → IsExclusive (store_hold h id g)
store_hold-IsExclusive h id g ex unused free = record {
  indexed = λ t r j at. elim (Bool-cases (has_resource h.tenant_id h.resources t r)) [
    | inl own ↦
        let same : id ≡ j = ground (
          arith,
          sym (lookup-index_resources h.tenant_id id h.resources g.resource_index t r) ∙ at,
          own,
        ) in
        (
          h,
          subst (λ k. lookup k (insert id h g.holds) ≡ some h) same
              (lookup-insert_self id h g.holds),
          own,
        )
    | inr other ↦ elsewhere t r j (
        ex.indexed t r j (
          ground (
            arith,
            sym (lookup-index_resources h.tenant_id id h.resources g.resource_index t r) ∙ at,
            other,
          )))
  ];
  covered = λ t r j k here has. elim (insert-cases j id h k g.holds here) [
    | inl (same, stored) ↦
        lookup-index_resources h.tenant_id id h.resources g.resource_index t r
        ∙ rw (ap (λ x. has_resource x.tenant_id x.resources t r) stored ∙ has) (ap some same)
    | inr (other, old) ↦ elim (Bool-cases (has_resource h.tenant_id h.resources t r)) [
      | inl own ↦ absurd (ground (arith, sym (ex.covered t r j k old has) ∙ free t r own))
      | inr apart ↦
          lookup-index_resources h.tenant_id id h.resources g.resource_index t r
          ∙ rw apart (ex.covered t r j k old has)
    ]
  ];
}
  where
    elsewhere :
        (t r j : String)
        → ((k : ResourceHold) × (lookup j g.holds ≡ some k)
            × (has_resource k.tenant_id k.resources t r ≡ true))
        → (k : ResourceHold) × (lookup j (insert id h g.holds) ≡ some k)
          × (has_resource k.tenant_id k.resources t r ≡ true)
    elsewhere t r j (k, here, has) = (
      k,
      lookup-insert_ne j id h g.holds (λ same.
            absurd
              (ground (arith, sym (subst (λ i. lookup i g.holds ≡ some k) same here) ∙ unused)))
          ∙ here,
      has,
    )
