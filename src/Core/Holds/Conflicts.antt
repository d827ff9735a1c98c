-- ===== src/Core/Holds/Conflicts.antt =====
-- The calls of core/resource_holds.py, whatever they return, and the resources that they guard.
use skysolver.Prelude.{
  ℕ, ◌≤◌, String, ◌≡◌, refl, sym, ◌∙◌, subst, ◌⊎◌, inl, inr, Bool, true, false, ◌||◌, none, some,
  List, [], ◌∷◌, arith, eq_iff, ltb, leb, ◌==◌, ◌!=◌, nat_eq, string_eq, pair_eq, eq_of_beq,
  Bool-cases, Option-cases, is_empty, filter, contains,
}
use skysolver.Prelude.Sets.{sorted_set}
use skysolver.Prelude.Exec.{modify, raise_if, ◌>>=◌, ◌>>◌}
use skysolver.Prelude.Result.{ok, err}
use skysolver.Prelude.Dict.{Dict, lookup, lookup-erase}
use skysolver.Core.Holds.{
  owned_ids, resource_conflict, resources_required, invalid_hold_ttl, hold_recovery_mismatch,
  hold_owner_mismatch, store_hold, release_all_for_recovery, release_for_recovery, HoldConflict,
  held, expire, ResourceHold, release, HoldRequest, expire_each, acquire, new_hold, get,
  ResourceHoldRegistry, release_hold, assert_current,
}
use skysolver.Core.Holds.Exclusion.{
  release_each-IsExclusive, release_hold-IsExclusive, store_hold-IsExclusive, AllFree,
  expire-IsExclusive, IsExclusive,
}

filtered_out :
    (p : String → Bool) (xs : List String) (r : String)
    → is_empty (filter p xs) ≡ true
    → contains r xs ≡ true
    → p r ≡ false
filtered_out p [] r h c = absurd (cc)
filtered_out p (x ∷ xs) r h c = elim (Bool-cases (p x)) [
  | inl taken ↦ absurd (ground arith)
  | inr left ↦ elim (Bool-cases (r == x)) [
    | inl same ↦ rw (eq_of_beq r x same) left
    | inr other ↦ filtered_out p xs r (ground arith) (ground arith)
  ]
]

no_conflict-AllFree :
    (tenant : String) (rs : List String) (g : ResourceHoldRegistry)
    → is_empty (filter (held tenant g) rs) ≡ true
    → AllFree tenant rs g
no_conflict-AllFree tenant rs g h t r has =
    let quiet = filtered_out (held tenant g) rs r h (ground arith) in
    let same : t ≡ tenant = ground (arith, eq_iff t tenant) in
    elim (Option-cases (lookup (t, r) g.resource_index)) [
      | inl none_held ↦ none_held
      | inr (id, taken) ↦
          absurd (
            ground (arith, quiet, subst (λ x. lookup (x, r) g.resource_index ≡ some id) same taken))
    ]

abbrev pub conflicts_of : HoldRequest → ℕ → ResourceHoldRegistry → List String
conflicts_of q now g = filter (held q.tenant_id (expire now g)) (sorted_set q.resources)

-- How `acquire` ends: at a guard, at a conflict, or with a hold.
pub acquire-cases :
    (q : HoldRequest) (id : String) (now acquired : ℕ) (g : ResourceHoldRegistry)
    → ((acquire q id now acquired g ≡ (err invalid_hold_ttl, g))
        ⊎ (acquire q id now acquired g ≡ (err resources_required, g)))
      ⊎ ((acquire q id now acquired g
            ≡ (err (resource_conflict (conflicts_of q now g)), expire now g))
          ⊎ ((30 ≤ q.ttl_seconds)
              × (q.ttl_seconds ≤ 1800)
              × (is_empty (conflicts_of q now g) ≡ true)
              × (acquire q id now acquired g ≡ (
                ok (new_hold q id acquired),
                store_hold (new_hold q id acquired) id (expire now g),
              ))))
unfolding acquire
acquire-cases q id now acquired g =
    elim (Bool-cases (ltb q.ttl_seconds 30 || ltb 1800 q.ttl_seconds)) [
      | inl bad ↦ inl (inl (rw (bad, acquire) refl))
      | inr good ↦ elim (Bool-cases (is_empty (sorted_set q.resources))) [
        | inl nothing ↦ inl (inr (rw (good, acquire) (rw (nothing, acquire) refl)))
        | inr something ↦ elim (Bool-cases (is_empty (conflicts_of q now g))) [
          | inl free ↦ inr (
              inr (
                ground arith,
                ground arith,
                free,
                rw (good, acquire) (rw (something, acquire) (rw (free, acquire) refl)),
              ))
          | inr taken ↦
              inr (inl (rw (good, acquire) (rw (something, acquire) (rw (taken, acquire) refl))))
        ]
      ]
    ]

-- An expiry adds no hold.
release_hold_absent :
    (id j : String) (g : ResourceHoldRegistry)
    → lookup j g.holds ≡ none
    → lookup j (release_hold id g).holds ≡ none
unfolding release_hold
release_hold_absent id j g h = elim (Option-cases (lookup id g.holds)) [
  | inl absent ↦ rw (absent, release_hold) h
  | inr (k, found) ↦ rw (found, release_hold) (lookup-erase j id g.holds ∙ ground (arith, h))
]

expire_each_absent :
    (now : ℕ) (items : Dict String ResourceHold) (j : String) (g : ResourceHoldRegistry)
    → lookup j g.holds ≡ none
    → lookup j (expire_each now items g).holds ≡ none
unfolding expire_each
expire_each_absent now [] j g h = h
expire_each_absent now ((id, k) ∷ rest) j g h = elim (Bool-cases (leb k.expires_at now)) [
  | inl over ↦
      rw (over, expire_each)
        (expire_each_absent now rest j (release_hold id g) (release_hold_absent id j g h))
  | inr live ↦ rw (live, expire_each) (expire_each_absent now rest j g h)
]

acquire-IsExclusive :
    (q : HoldRequest) (id : String) (now acquired : ℕ) (g : ResourceHoldRegistry)
    → IsExclusive g
    → lookup id g.holds ≡ none
    → IsExclusive (acquire q id now acquired g).1
unfolding new_hold expire
acquire-IsExclusive q id now acquired g ex unused = elim (acquire-cases q id now acquired g) [
  | inl (inl kept) ↦ rw kept ex
  | inl (inr kept) ↦ rw kept ex
  | inr (inl refused) ↦ rw refused (expire-IsExclusive now g ex)
  | inr (inr (_, _, free, done)) ↦ rw done (
      store_hold-IsExclusive (new_hold q id acquired) id (expire now g)
        (expire-IsExclusive now g ex) (expire_each_absent now g.holds id g unused)
        (no_conflict-AllFree q.tenant_id (sorted_set q.resources) (expire now g) free))
]

-- The other calls.
pub data Request : Type 0 where
  get_hold : String → Request
  check_current : String → String → ℕ → Request
  give_back : String → String → Request
  give_back_for : String → String → Request
  give_back_all : String → Request

unfoldable pub perform : Request → ℕ → ResourceHoldRegistry → ResourceHoldRegistry
perform (get_hold id) now g = (get id now g).1
perform (check_current id candidate version) now g = (assert_current id candidate version now g).1
perform (give_back id owner) now g = (release id owner now g).1
perform (give_back_for id recovery) now g = (release_for_recovery id recovery now g).1
perform (give_back_all recovery) now g = (release_all_for_recovery recovery now g).1

get_then :
    (id : String) (bad : ResourceHold → Bool) (x : HoldConflict) (now : ℕ)
    (g : ResourceHoldRegistry)
    → (((get id now >>= λ hold. raise_if (bad hold) x >> modify (release_hold id)) g).1
        ≡ expire now g)
      ⊎ (((get id now >>= λ hold. raise_if (bad hold) x >> modify (release_hold id)) g).1
          ≡ release_hold id (expire now g))
unfolding get
get_then id bad x now g = elim (Option-cases (lookup id (expire now g).holds)) [
  | inl absent ↦ inl (ground (arith, absent))
  | inr (h, found) ↦ elim (Bool-cases (bad h)) [
    | inl refused ↦ inl (ground (arith, found, refused))
    | inr fine ↦ inr (ground (arith, found, fine))
  ]
]

guarded_release :
    (id : String) (bad : ResourceHold → Bool) (x : HoldConflict) (now : ℕ)
    (g : ResourceHoldRegistry)
    → IsExclusive (expire now g)
    → IsExclusive ((get id now >>= λ hold. raise_if (bad hold) x >> modify (release_hold id)) g).1
guarded_release id bad x now g ex = elim (get_then id bad x now g) [
  | inl kept ↦ subst IsExclusive (sym kept) ex
  | inr released ↦ subst IsExclusive (sym released) (release_hold-IsExclusive id (expire now g) ex)
]

state-get : (id : String) (now : ℕ) (g : ResourceHoldRegistry) → (get id now g).1 ≡ expire now g
unfolding get
state-get id now g = ground arith

state-assert_current :
    (id candidate : String) (version now : ℕ) (g : ResourceHoldRegistry)
    → (assert_current id candidate version now g).1 ≡ expire now g
unfolding assert_current get
state-assert_current id candidate version now g =
    elim (Option-cases (lookup id (expire now g).holds)) [
      | inl absent ↦ ground (arith, absent)
      | inr (h, found) ↦ ground (arith, found)
    ]

perform-IsExclusive :
    (c : Request) (now : ℕ) (g : ResourceHoldRegistry)
    → IsExclusive g
    → IsExclusive (perform c now g)
unfolding perform assert_current release release_for_recovery release_all_for_recovery
perform-IsExclusive (get_hold id) now g ex = rw (state-get id now g) (expire-IsExclusive now g ex)
perform-IsExclusive (check_current id candidate version) now g ex =
    subst IsExclusive (sym (state-assert_current id candidate version now g))
      (expire-IsExclusive now g ex)
perform-IsExclusive (give_back id owner) now g ex =
    guarded_release id (λ h. h.owner != owner) hold_owner_mismatch now g
      (expire-IsExclusive now g ex)
perform-IsExclusive (give_back_for id recovery) now g ex =
    guarded_release id (λ h. h.recovery_id != recovery) hold_recovery_mismatch now g
      (expire-IsExclusive now g ex)
perform-IsExclusive (give_back_all recovery) now g ex =
    release_each-IsExclusive (owned_ids recovery (expire now g).holds) (expire now g)
      (expire-IsExclusive now g ex)

-- The registries that some sequence of calls leaves; an acquisition draws an unused identifier.
pub data Reached : ResourceHoldRegistry → Type 0 where
  empty : Reached (record { holds = []; resource_index = [] })
  acquired_hold :
      {g : ResourceHoldRegistry} (q : HoldRequest) (id : String) (now acquired : ℕ)
      → lookup id g.holds ≡ none
      → Reached g
      → Reached (acquire q id now acquired g).1
  performed :
      {g : ResourceHoldRegistry} (c : Request) (now : ℕ) → Reached g → Reached (perform c now g)

pub Reached-IsExclusive : {g : ResourceHoldRegistry} → Reached g → IsExclusive g
unfolding lookup
Reached-IsExclusive empty = record {
  indexed = λ t r id h. absurd (cc);
  covered = λ t r id h found. absurd (cc);
}
Reached-IsExclusive (acquired_hold q id now acquired unused r) =
    acquire-IsExclusive q id now acquired _ (Reached-IsExclusive r) unused
Reached-IsExclusive (performed c now r) = perform-IsExclusive c now _ (Reached-IsExclusive r)

-- Whatever calls were made, each acquisition with an unused identifier: two holds of one tenant
-- that share a resource are one hold.
pub Reached_exclusive :
    {g : ResourceHoldRegistry} (a b r : String) (h k : ResourceHold)
    → Reached g
    → lookup a g.holds ≡ some h
    → lookup b g.holds ≡ some k
    → h.tenant_id ≡ k.tenant_id
    → contains r h.resources ≡ true
    → contains r k.resources ≡ true
    → a ≡ b
Reached_exclusive a b r h k reached at bt same in_h in_k =
    let ex = Reached-IsExclusive reached in
    let one = ex.covered h.tenant_id r a h at (ground (arith, eq_iff h.tenant_id h.tenant_id)) in
    let two = ex.covered h.tenant_id r b k bt (ground (arith, eq_iff h.tenant_id k.tenant_id)) in
    ground (arith, sym one ∙ two)
