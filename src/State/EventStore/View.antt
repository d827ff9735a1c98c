-- ===== src/State/EventStore/View.antt =====
-- The materialized view of state/event_store.py: what is known of each crew member after its events.
-- `fromisoformat` is a parameter. A value that a dictionary lacks, or that is of another type, raises
-- where the code subscripts or reads it.
pub mod Assignments
use skysolver.Prelude.{
  ℕ, zero, suc, ◌+◌, ◌-◌, ◌*◌, ◌≤◌, ◌<◌, String, ◌≡◌, refl, sym, ap, ◌∙◌, subst, ◌≢◌, ◌↔◌, ◌⊎◌, inl,
  inr, Bool, true, false, not, ◌&&◌, ◌||◌, Option, none, some, List, [], ◌∷◌, ◌++◌, map, arith,
  eq_iff, ltb, leb, before_text, nat_beq, nat_beq_iff, if◌then◌else◌, Eq, ◌==◌, ◌!=◌, nat_eq,
  string_eq, pair_eq, beq_refl, eq_of_beq, Bool-cases, Option-cases, is_none, is_some, length,
  is_empty, any, all, filter, length-append, contains, filter-append, All, All-append, Pointwise,
  Pointwise-refl, Pointwise-map, find_first, update_first, find_first_holds, Pointwise-update_first,
}
use skysolver.Prelude.Exec.{Exec, pure, raise, gets, modify, raise_if, or_raise, lift, ◌>>=◌, ◌>>◌}
use skysolver.Prelude.Result.{Result, ok, err, Result-cases}
use skysolver.Prelude.Dict.{
  Dict, lookup, insert, erase, values, keys, lookup-insert, lookup-erase, insert-insert,
  lookup-insert_self, lookup-insert_ne, All-lookup, All-insert, All-erase, insert-cases,
  lookup-erase_ne, erase-cases, lookup_unique,
}
use skysolver.Prelude.Clock.{Instant}
use skysolver.State.EventStore.{
  schedule_rejected, legal_move_completed, legal_move_request, qualification_added,
  rest_period_start, duty_end, duty_start, flight_assigned, null, crew_member_created, text,
  EventStore, texts, EventType, get_partition_stream, Value, CrewEvent,
}

pub record CrewStateView : Type 0 where
  pub crew_id : String
  pub base_hub : Value
  pub current_partition : Value
  pub current_location : Value
  pub qualifications : List Value
  pub last_rest_end : Option Instant
  pub duty_clock_start : Option Instant
  pub active_assignments : List Value
  pub version : ℕ

pub data ViewError : Type 0 where
  key_error type_error value_error : ViewError

abbrev pub MaterializedView : Type 0
MaterializedView = Dict String CrewStateView

abbrev pub texts_beq : List String → List String → Bool
texts_beq [] [] = true
texts_beq [] (y ∷ ys) = false
texts_beq (x ∷ xs) [] = false
texts_beq (x ∷ xs) (y ∷ ys) = x == y && texts_beq xs ys

abbrev pub value_beq : Value → Value → Bool
value_beq null null = true
value_beq (text s) (text t) = s == t
value_beq (texts xs) (texts ys) = texts_beq xs ys
value_beq _ _ = false

texts_beq_iff : (xs ys : List String) → (texts_beq xs ys ≡ true) ↔ (xs ≡ ys)
texts_beq_iff [] [] = (λ h. refl, λ h. refl)
texts_beq_iff [] (y ∷ ys) = (λ h. absurd (cc), λ h. absurd (cc))
texts_beq_iff (x ∷ xs) [] = (λ h. absurd (cc), λ h. absurd (cc))
texts_beq_iff (x ∷ xs) (y ∷ ys) = ground (arith, eq_iff x y, texts_beq_iff xs ys)

pub value_beq_iff : (x y : Value) → (value_beq x y ≡ true) ↔ (x ≡ y)
value_beq_iff null null = (λ h. refl, λ h. refl)
value_beq_iff null (text t) = (λ h. absurd (cc), λ h. absurd (cc))
value_beq_iff null (texts ys) = (λ h. absurd (cc), λ h. absurd (cc))
value_beq_iff (text s) null = (λ h. absurd (cc), λ h. absurd (cc))
value_beq_iff (text s) (text t) = ground (arith, eq_iff s t)
value_beq_iff (text s) (texts ys) = (λ h. absurd (cc), λ h. absurd (cc))
value_beq_iff (texts xs) null = (λ h. absurd (cc), λ h. absurd (cc))
value_beq_iff (texts xs) (text t) = (λ h. absurd (cc), λ h. absurd (cc))
value_beq_iff (texts xs) (texts ys) = ground (arith, texts_beq_iff xs ys)

instance abbrev pub value_eq : Eq Value
value_eq = record { beq = value_beq; beq_iff = value_beq_iff }

-- `p.get(key, default)`
abbrev pub get_or : Value → Option Value → Value
get_or d none = d
get_or d (some v) = v

-- Adding to a set, and a set of a list.
abbrev pub add_value : Value → List Value → List Value
add_value v vs = if contains v vs then vs else vs ++ (v ∷ [])

abbrev pub set_of : List String → List Value → List Value
set_of [] vs = vs
set_of (x ∷ xs) vs = set_of xs (add_value (text x) vs)

-- The texts that iterating over a text gives.
characters : String → List String
characters String.[] = []
characters (String.◌∷◌ c s) = String.◌∷◌ c "" ∷ characters s

-- `set(p.get("qualifications", []))`
unfoldable pub qualification_set : Option Value → Result ViewError (List Value)
unfolding characters
qualification_set none = ok []
qualification_set (some null) = err type_error
qualification_set (some (text s)) = ok (set_of (characters s) [])
qualification_set (some (texts xs)) = ok (set_of xs [])

-- A text cannot be changed by a set, a list is not hashable.
abbrev pub add_hashable : Value → List Value → Result ViewError (List Value)
add_hashable (texts xs) vs = err type_error
add_hashable null vs = ok (add_value null vs)
add_hashable (text s) vs = ok (add_value (text s) vs)

-- `active_assignments.remove(flight)`
unfoldable pub remove_first : Value → List Value → List Value
remove_first v [] = []
remove_first v (x ∷ xs) = let rest = remove_first v xs in if x == v then xs else x ∷ rest

abbrev pub assign : Value → List Value → List Value
assign v vs = if contains v vs then vs else vs ++ (v ∷ [])

abbrev pub subscript : String → Dict String Value → Result ViewError Value
subscript key p = elim (lookup key p) [ none ↦ err key_error | some v ↦ ok v ]

abbrev pub is_creation : EventType → Bool
is_creation crew_member_created = true
is_creation _ = false

module _ (fromisoformat : String → Option Instant) where
  -- `datetime.fromisoformat(v)`
  abbrev pub parse_time : Value → Result ViewError Instant
  parse_time null = err type_error
  parse_time (texts xs) = err type_error
  parse_time (text s) = elim (fromisoformat s) [ none ↦ err value_error | some t ↦ ok t ]

  -- `fromisoformat(p[key]) if p.get(key) else None`
  abbrev pub parse_optional : Option Value → Result ViewError (Option Instant)
  parse_optional none = ok none
  parse_optional (some null) = ok none
  parse_optional (some (text s)) =
      if s == ""
      then ok none
      else elim (fromisoformat s) [ none ↦ err value_error | some t ↦ ok (some t) ]
  parse_optional (some (texts xs)) = if is_empty xs then ok none else err type_error

  -- The view of a crew member that a CREW_MEMBER_CREATED event makes.
  unfoldable pub created_view : CrewEvent → Result ViewError CrewStateView
  unfolding qualification_set
  created_view e =
      let hub = get_or (text e.partition_id) (lookup "base_hub" e.payload) in
      elim (qualification_set (lookup "qualifications" e.payload)) [
        | err x ↦ err x
        | ok qualifications ↦ elim (parse_optional (lookup "last_rest_end" e.payload)) [
          | err x ↦ err x
          | ok rest ↦ ok (record {
            crew_id = e.crew_id;
            base_hub = hub;
            current_partition = text e.partition_id;
            current_location = get_or hub (lookup "current_location" e.payload);
            qualifications = qualifications;
            last_rest_end = rest;
            duty_clock_start = none;
            active_assignments = [];
            version = 1;
          })
        ]
      ]

  -- The branches of `apply` on a known crew member, after its version has moved.
  unfoldable pub change : CrewEvent → CrewStateView → Result ViewError CrewStateView
  unfolding remove_first
  change e c = elim e.event_type [
    | crew_member_created ↦ ok c
    | flight_assigned ↦ elim (subscript "flight_id" e.payload) [
      | err x ↦ err x
      | ok flight ↦ ok (record c {
        active_assignments = assign flight c.active_assignments;
        current_location = get_or c.current_location (lookup "destination" e.payload);
      })
    ]
    | duty_start ↦ elim (subscript "start_time" e.payload) [
      | err x ↦ err x
      | ok v ↦ elim (parse_time v) [
        | err x ↦ err x
        | ok t ↦ ok (record c { duty_clock_start = some t })
      ]
    ]
    | duty_end ↦ ok (record c { duty_clock_start = none })
    | rest_period_start ↦ elim (subscript "start_time" e.payload) [
      | err x ↦ err x
      | ok v ↦ elim (parse_time v) [
        | err x ↦ err x
        | ok t ↦ ok (record c { last_rest_end = some t; duty_clock_start = none })
      ]
    ]
    | qualification_added ↦ elim (subscript "qualification" e.payload) [
      | err x ↦ err x
      | ok v ↦ elim (add_hashable v c.qualifications) [
        | err x ↦ err x
        | ok vs ↦ ok (record c { qualifications = vs })
      ]
    ]
    | legal_move_request ↦ ok c
    | legal_move_completed ↦ elim (subscript "to_partition" e.payload) [
      | err x ↦ err x
      | ok v ↦ ok (record c {
        current_partition = v;
        current_location = get_or c.current_location (lookup "to_location" e.payload);
      })
    ]
    | schedule_rejected ↦ elim (subscript "flight_id" e.payload) [
      | err x ↦ err x
      | ok flight ↦ ok (record c { active_assignments = remove_first flight c.active_assignments })
    ]
  ]

  unfoldable pub apply : CrewEvent → Exec MaterializedView ViewError (Unit {0})
  unfolding created_view change
  apply e view =
      if is_creation e.event_type
      then elim (created_view e) [ err x ↦ (err x, view) | ok c ↦ (ok tt, insert e.crew_id c view) ]
      else elim (lookup e.crew_id view) [
        | none ↦ (ok tt, view)
        | some c ↦
            let counted = record c { version = c.version + 1 } in
            elim (change e counted) [
              | err x ↦ (err x, insert e.crew_id counted view)
              | ok d ↦ (ok tt, insert e.crew_id d view)
            ]
      ]

  -- `rebuild` and `replay`
  unfoldable pub rebuild : List CrewEvent → Exec MaterializedView ViewError (Unit {0})
  unfolding apply
  rebuild [] view = (ok tt, view)
  rebuild (e ∷ es) view =
      let (r, view') = apply e view in elim r [ err x ↦ (err x, view') | ok _ ↦ rebuild es view' ]

  unfoldable pub replay : String → EventStore → Result ViewError (Unit {0}) × MaterializedView
  unfolding rebuild get_partition_stream
  replay partition s = rebuild (get_partition_stream partition s) []

-- `get_current_state` and `get_all_states`
abbrev pub get_current_state : String → MaterializedView → Option CrewStateView
get_current_state crew view = lookup crew view

abbrev pub get_all_states : MaterializedView → List CrewStateView
get_all_states view = values view
