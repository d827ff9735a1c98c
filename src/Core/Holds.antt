-- ===== src/Core/Holds.antt =====
-- core/resource_holds.py: holds on resources that expire, and the index from a tenant's resource to
-- the hold that has it. The lock makes each method one step; the readings of the clock and the
-- identifiers are arguments.
pub mod Exclusion
pub mod Expiry
pub mod Conflicts
use skysolver.Prelude.{
  before_text, ℕ, zero, suc, ◌+◌, ◌-◌, ◌*◌, ◌≤◌, ◌<◌, String, ◌≡◌, refl, sym, ap, ◌∙◌, subst, ◌≢◌,
  ◌↔◌, ◌⊎◌, inl, inr, Bool, true, false, not, ◌&&◌, ◌||◌, Option, none, some, List, [], ◌∷◌, ◌++◌,
  map, arith, eq_iff, ltb, leb, nat_beq, nat_beq_iff, if◌then◌else◌, Eq, ◌==◌, ◌!=◌, nat_eq,
  string_eq, pair_eq, beq_refl, eq_of_beq, Bool-cases, Option-cases, is_none, is_some, length,
  is_empty, any, all, filter, length-append, contains, filter-append, All, All-append, Pointwise,
  Pointwise-refl, Pointwise-map, find_first, update_first, find_first_holds, Pointwise-update_first,
}
use skysolver.Prelude.Sets.{sorted_set, insert_once, contains-sorted_set}
use skysolver.Prelude.Exec.{Exec, pure, raise, gets, modify, raise_if, or_raise, lift, ◌>>=◌, ◌>>◌}
use skysolver.Prelude.Result.{Result, ok, err, Result-cases}
use skysolver.Prelude.Dict.{
  Dict, lookup, insert, erase, values, keys, lookup-insert, lookup-erase, insert-insert,
  lookup-insert_self, lookup-insert_ne, All-lookup, All-insert, All-erase, insert-cases,
}

pub data HoldConflict : Type 0 where
  invalid_hold_ttl resources_required hold_expired_or_missing stale_hold hold_owner_mismatch
        hold_recovery_mismatch :
      HoldConflict
  resource_conflict : List String → HoldConflict

pub record ResourceHold : Type 0 where
  pub hold_id : String
  pub tenant_id : String
  pub recovery_id : String
  pub candidate_id : String
  pub candidate_version : ℕ
  pub resources : List String
  pub owner : String
  pub acquired_at : ℕ
  pub expires_at : ℕ

pub record ResourceHoldRegistry : Type 0 where
  pub holds : Dict String ResourceHold
  pub resource_index : Dict (String × String) String

-- The arguments of `acquire`.
pub record HoldRequest : Type 0 where
  pub tenant_id : String
  pub recovery_id : String
  pub candidate_id : String
  pub candidate_version : ℕ
  pub resources : List String
  pub owner : String
  pub ttl_seconds : ℕ

-- The loop of `_release` over the resources of a hold.
unfoldable pub drop_resources :
    String → List String → Dict (String × String) String → Dict (String × String) String
drop_resources tenant [] index = index
drop_resources tenant (r ∷ rs) index = drop_resources tenant rs (erase (tenant, r) index)

-- `_release`
unfoldable pub release_hold : String → ResourceHoldRegistry → ResourceHoldRegistry
unfolding drop_resources
release_hold id g = elim (lookup id g.holds) [
  | none ↦ g
  | some h ↦ record {
    holds = erase id g.holds;
    resource_index = drop_resources h.tenant_id h.resources g.resource_index;
  }
]

-- The loop of `_expire` over a copy of the holds.
unfoldable pub expire_each :
    ℕ → Dict String ResourceHold → ResourceHoldRegistry → ResourceHoldRegistry
unfolding release_hold
expire_each now [] g = g
expire_each now ((id, h) ∷ rest) g =
    expire_each now rest (if leb h.expires_at now then release_hold id g else g)

-- `_expire`
unfoldable pub expire : ℕ → ResourceHoldRegistry → ResourceHoldRegistry
unfolding expire_each
expire now g = expire_each now g.holds g

abbrev pub Call : Type 0 → Type 0
Call A = Exec ResourceHoldRegistry HoldConflict A

unfoldable pub index_resources :
    String → String → List String → Dict (String × String) String → Dict (String × String) String
index_resources tenant id [] index = index
index_resources tenant id (r ∷ rs) index =
    index_resources tenant id rs (insert (tenant, r) id index)

abbrev pub held : String → ResourceHoldRegistry → String → Bool
held tenant g r = is_some (lookup (tenant, r) g.resource_index)

unfoldable pub new_hold : HoldRequest → String → ℕ → ResourceHold
unfolding sorted_set
new_hold q id acquired = record {
  hold_id = id;
  tenant_id = q.tenant_id;
  recovery_id = q.recovery_id;
  candidate_id = q.candidate_id;
  candidate_version = q.candidate_version;
  resources = sorted_set q.resources;
  owner = q.owner;
  acquired_at = acquired;
  expires_at = acquired + q.ttl_seconds;
}

abbrev pub store_hold : ResourceHold → String → ResourceHoldRegistry → ResourceHoldRegistry
store_hold h id g = record {
  holds = insert id h g.holds;
  resource_index = index_resources h.tenant_id id h.resources g.resource_index;
}

-- `acquire`
unfoldable pub acquire : HoldRequest → String → ℕ → ℕ → Call ResourceHold
unfolding expire new_hold
acquire q id now acquired g =
    if ltb q.ttl_seconds 30 || ltb 1800 q.ttl_seconds
    then (err invalid_hold_ttl, g)
    else if is_empty (sorted_set q.resources)
    then (err resources_required, g)
    else let g' = expire now g in
      let conflicts = filter (held q.tenant_id g') (sorted_set q.resources) in
      if not (is_empty conflicts)
      then (err (resource_conflict conflicts), g')
      else (ok (new_hold q id acquired), store_hold (new_hold q id acquired) id g')

-- `get`
unfoldable pub get : String → ℕ → Call ResourceHold
unfolding expire
get id now g = or_raise (lookup id (expire now g).holds) hold_expired_or_missing (expire now g)

unfoldable pub assert_current : String → String → ℕ → ℕ → Call ResourceHold
unfolding get
assert_current id candidate version now = do
  hold ← get id now
  raise_if (hold.candidate_id != candidate || hold.candidate_version != version) stale_hold
  pure hold

unfoldable pub release : String → String → ℕ → Call (Unit {0})
unfolding get release_hold
release id owner now = do
  hold ← get id now
  raise_if (hold.owner != owner) hold_owner_mismatch
  modify (release_hold id)

unfoldable pub release_for_recovery : String → String → ℕ → Call (Unit {0})
unfolding get release_hold
release_for_recovery id recovery now = do
  hold ← get id now
  raise_if (hold.recovery_id != recovery) hold_recovery_mismatch
  modify (release_hold id)

unfoldable pub release_each : List String → ResourceHoldRegistry → ResourceHoldRegistry
unfolding release_hold
release_each [] g = g
release_each (id ∷ ids) g = release_each ids (release_hold id g)

abbrev pub owned_ids : String → Dict String ResourceHold → List String
owned_ids recovery [] = []
owned_ids recovery ((id, h) ∷ rest) =
    if h.recovery_id == recovery then id ∷ owned_ids recovery rest else owned_ids recovery rest

unfoldable pub release_all_for_recovery : String → ℕ → Call (List String)
unfolding expire release_each
release_all_for_recovery recovery now g =
    let g' = expire now g in let ids = owned_ids recovery g'.holds in (ok ids, release_each ids g')
