-- ===== src/Rules/Engine/Checks.antt =====
-- The checks of rules/engine.py one by one: what it means that each finds nothing.
use skysolver.Prelude.{
  ℕ, ◌+◌, ◌≤◌, ◌<◌, String, ◌≡◌, refl, ◌↔◌, ◌⊎◌, inl, inr, Bool, true, false, ◌&&◌, Option, none,
  some, List, [], ◌∷◌, ◌++◌, arith, eq_iff, ◌==◌, nat_eq, string_eq, pair_eq, Bool-cases,
  Option-cases, is_empty, any, All,
}
use skysolver.Rules.Engine.{
  rested, check_position, check_leg_time, ridden, flown, code_of, without_neo, collect,
  Qualification, qualification_named, RuleViolation, check_connections, check_leg, unless,
  CrewMember, FlightLeg,
}
use skysolver.Rules.Engine.Sequence.{Connected}

abbrev pub IsQualified : CrewMember → FlightLeg → Type 0
IsQualified crew leg =
    leg.is_deadhead ≡ false
    → (q : Qualification) × (qualification_named (without_neo 0 leg.aircraft_type) ≡ some q)
      × (any (λ r. code_of r == code_of q) crew.qualifications ≡ true)

abbrev pub StartsAt : String → List FlightLeg → Type 0
StartsAt place [] = Unit
StartsAt place (x ∷ legs) = (place ≡ "") ⊎ (x.origin ≡ place)

abbrev pub Rested : Option ℕ → ℕ → Type 0
Rested none start = Unit
Rested (some end) start = end + 36000 ≤ start

pub is_empty-append :
    (xs ys : List RuleViolation) → is_empty (xs ++ ys) ≡ (is_empty xs && is_empty ys)
is_empty-append [] ys = ground arith
is_empty-append (x ∷ xs) ys = ground arith

pub is_empty-unless : (b : Bool) (c id : String) → is_empty (unless b c id) ≡ b
is_empty-unless true c id = refl
is_empty-unless false c id = refl

-- A check of every element finds nothing exactly when each of them is fine.
pub collect_iff :
    {A : Type 0} (f : A → List RuleViolation) (P : A → Type 0)
    → ((x : A) → (is_empty (f x) ≡ true) ↔ P x)
    → (xs : List A) → (is_empty (collect f xs) ≡ true) ↔ All P xs
collect_iff f P each [] = (λ _. tt, λ _. refl)
collect_iff f P each (x ∷ xs) = rw (is_empty-append (f x) (collect f xs)) (
    let rest = collect_iff f P each xs in
    (
      λ h. ((each x).0 (ground arith), rest.0 (ground arith)),
      λ h. ground (arith, (each x).1 h.0, rest.1 h.1),
    ))

pub check_leg_iff :
    (crew : CrewMember) (leg : FlightLeg)
    → (is_empty (check_leg crew leg) ≡ true) ↔ IsQualified crew leg
unfolding check_leg
check_leg_iff crew leg = elim (Bool-cases leg.is_deadhead) [
  | inl ridden ↦ (λ _ flown. absurd (ground arith), λ _. ground arith)
  | inr flown ↦ elim (Option-cases (qualification_named (without_neo 0 leg.aircraft_type))) [
    | inl unknown ↦ (λ h. absurd (ground arith), λ h. absurd (ground (arith, (h flown).1)))
    | inr (q, known) ↦ (
      λ h _. (q, known, ground arith),
      λ h. let (r, named, has) = h flown in ground (arith, named, has),
    )
  ]
]

pub check_connections_iff :
    (legs : List FlightLeg) → (is_empty (check_connections legs) ≡ true) ↔ Connected legs
unfolding check_connections Connected
check_connections_iff [] = (λ _. tt, λ _. refl)
check_connections_iff (x ∷ []) = (λ _. tt, λ _. refl)
check_connections_iff (x ∷ y ∷ legs) =
    rw (is_empty-append, is_empty-append)
      (let rest = check_connections_iff (y ∷ legs) in
        (
          λ h. (ground (arith, eq_iff x.destination y.origin), ground arith, rest.0 (ground arith)),
          λ h. ground (arith, eq_iff x.destination y.origin, rest.1 h.2),
        ))

pub check_position_iff :
    (crew : CrewMember) (legs : List FlightLeg)
    → (is_empty (check_position crew legs) ≡ true) ↔ StartsAt crew.current_location legs
check_position_iff crew [] = (λ _. tt, λ _. refl)
check_position_iff crew (x ∷ legs) =
    ground (arith, eq_iff crew.current_location "", eq_iff x.origin crew.current_location)

pub check_leg_time_iff :
    (x : FlightLeg) → (is_empty (check_leg_time x) ≡ true) ↔ (x.scheduled_dep < x.scheduled_arr)
check_leg_time_iff x = ground arith

pub rested_iff : (o : Option ℕ) (start : ℕ) → (rested o start ≡ true) ↔ Rested o start
rested_iff none start = (λ _. tt, λ _. refl)
rested_iff (some end) start = ground arith
