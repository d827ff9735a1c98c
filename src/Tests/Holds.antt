-- ===== src/Tests/Holds.antt =====
-- Two candidates that need the same aircraft (core/resource_holds.py).
use skysolver.Prelude.{
  ◌+◌, ◌≤◌, ◌<◌, String, ◌≡◌, refl, true, some, List, [], ◌∷◌, nat_eq, string_eq, pair_eq, contains,
}
use skysolver.Prelude.Sets.{sorted_set, insert_once}
use skysolver.Prelude.Dict.{lookup, insert}
use skysolver.Core.Holds.{
  index_resources, expire_each, expire, acquire, new_hold, ResourceHold, ResourceHoldRegistry,
  HoldRequest,
}
use skysolver.Core.Holds.Conflicts.{
  Reached-IsExclusive, Reached_exclusive, acquired_hold, empty, Reached,
}
use skysolver.Core.Holds.Expiry.{acquire_conflict, acquire-eq-ok}

abbrev request : String → List String → HoldRequest
request candidate resources = record {
  tenant_id = "airline";
  recovery_id = "REC-1";
  candidate_id = candidate;
  candidate_version = 1;
  resources = resources;
  owner = "planner";
  ttl_seconds = 600;
}

abbrev no_holds : ResourceHoldRegistry
no_holds = record { holds = []; resource_index = [] }

abbrev first : HoldRequest
first = request "CAN-1" ("VT-ABC" ∷ "CRW-1" ∷ "VT-ABC" ∷ [])

abbrev second : HoldRequest
second = request "CAN-2" ("VT-ABC" ∷ [])

abbrev first_hold : ResourceHold
first_hold = new_hold first "HLD-1" 100

abbrev one_hold : ResourceHoldRegistry
one_hold = (acquire first "HLD-1" 100 100 no_holds).1

steps : Reached one_hold
unfolding lookup
steps = acquired_hold first "HLD-1" 100 100 refl empty

first_resources : first_hold.resources ≡ "CRW-1" ∷ "VT-ABC" ∷ []
unfolding new_hold sorted_set insert_once
first_resources = refl

Reached_exclusive_example : ◌≡◌ {A = String} "HLD-1" "HLD-1"
unfolding acquire expire expire_each new_hold sorted_set insert_once lookup insert index_resources
Reached_exclusive_example =
    Reached_exclusive "HLD-1" "HLD-1" "VT-ABC" first_hold first_hold steps refl refl refl refl refl

acquire-eq-ok_example :
    (30 ≤ 600)
    × (600 ≤ 1800)
    × (first_hold.expires_at ≡ first_hold.acquired_at + 600)
    × ((r : String) → contains r first_hold.resources ≡ contains r first.resources)
    × (lookup "HLD-1" one_hold.holds ≡ some first_hold)
unfolding acquire expire expire_each new_hold sorted_set insert_once lookup insert index_resources
acquire-eq-ok_example = acquire-eq-ok first "HLD-1" 100 100 no_holds first_hold refl

acquire_conflict_example :
    (contains "VT-ABC" second.resources ≡ true)
    × ((j : String) × (h : ResourceHold) × (lookup j one_hold.holds ≡ some h)
        × (h.tenant_id ≡ "airline")
        × (contains "VT-ABC" h.resources ≡ true)
        × (200 < h.expires_at))
unfolding acquire expire expire_each new_hold sorted_set insert_once lookup insert index_resources
acquire_conflict_example =
    acquire_conflict second "HLD-2" 200 200 one_hold ("VT-ABC" ∷ []) "VT-ABC"
      (Reached-IsExclusive steps) refl refl
