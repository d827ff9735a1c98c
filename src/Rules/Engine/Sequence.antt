-- ===== src/Rules/Engine/Sequence.antt =====
-- The order of the legs (rules/engine.py): an arrangement of the legs that is timed and connected is
-- the one that sorting by departure finds.
use skysolver.Prelude.{
  ℕ, ◌+◌, ◌≤◌, ◌<◌, ◌≡◌, refl, ap, ◌∙◌, inl, inr, List, [], ◌∷◌, arith, leb, nat_eq, string_eq,
  pair_eq, Bool-cases, All,
}
use skysolver.Rules.Engine.{sorted_legs, FlightLeg, insert_leg}

-- A list with one more member somewhere, and the rearrangements of a list.
pub data Inserted (x : FlightLeg) : List FlightLeg → List FlightLeg → Type 0 where
  here : {legs : List FlightLeg} → Inserted x legs (x ∷ legs)
  there :
      {y : FlightLeg} {legs more : List FlightLeg}
      → Inserted x legs more
      → Inserted x (y ∷ legs) (y ∷ more)

pub data Arranged : List FlightLeg → List FlightLeg → Type 0 where
  nothing : Arranged [] []
  one_more :
      {x : FlightLeg} {xs ys zs : List FlightLeg}
      → Arranged xs ys
      → Inserted x ys zs
      → Arranged (x ∷ xs) zs

-- Consecutive legs meet in place, with half an hour between them.
unfoldable pub Connected : List FlightLeg → Type 0
Connected [] = Unit
Connected (x ∷ []) = Unit
Connected (x ∷ y ∷ legs) =
    (x.destination ≡ y.origin) × (x.scheduled_arr + 1800 ≤ y.scheduled_dep) × Connected (y ∷ legs)

abbrev pub Timed : FlightLeg → Type 0
Timed x = x.scheduled_dep < x.scheduled_arr

-- Each leg departs before all that follow.
Rising : List FlightLeg → Type 0
Rising [] = Unit
Rising (x ∷ legs) = All (λ y. x.scheduled_dep < y.scheduled_dep) legs × Rising legs

later :
    (t u : ℕ) (legs : List FlightLeg)
    → t ≤ u
    → All (λ y. u < y.scheduled_dep) legs
    → All (λ y. t < y.scheduled_dep) legs
later t u [] le h = tt
later t u (x ∷ legs) le (first, rest) = (omega (arith, le, first), later t u legs le rest)

Connected-Rising : (legs : List FlightLeg) → All Timed legs → Connected legs → Rising legs
unfolding Rising Connected
Connected-Rising [] t c = tt
Connected-Rising (x ∷ []) t c = (tt, tt)
Connected-Rising (x ∷ y ∷ legs) t c =
    let rest = Connected-Rising (y ∷ legs) t.1 c.2 in
    let step : x.scheduled_dep < y.scheduled_dep = omega (arith, t.0, c.1) in
    ((step, later x.scheduled_dep y.scheduled_dep legs (omega (arith, step)) rest.0), rest)

inserted_all :
    (P : FlightLeg → Type 0) {x : FlightLeg} {legs more : List FlightLeg}
    → Inserted x legs more
    → All P more
    → P x × All P legs
inserted_all P here h = h
inserted_all P (there i) h = let (p, rest) = inserted_all P i h.1 in (p, (h.0, rest))

Inserted-Rising :
    {x : FlightLeg} {legs more : List FlightLeg} → Inserted x legs more → Rising more → Rising legs
unfolding Rising
Inserted-Rising here h = h.1
Inserted-Rising (there {y = y} i) h =
    ((inserted_all (λ z. y.scheduled_dep < z.scheduled_dep) i h.0).1, Inserted-Rising i h.1)

insert_leg_place :
    {x : FlightLeg} {legs more : List FlightLeg}
    → Inserted x legs more
    → Rising more
    → insert_leg x legs ≡ more
unfolding insert_leg Rising
insert_leg_place (here {legs = []}) h = refl
insert_leg_place {x = x} (here {legs = y ∷ legs}) h = ground (arith, h.0.0)
insert_leg_place {x = x} (there {y = y} {legs = legs} i) h =
    let before = (inserted_all (λ z. y.scheduled_dep < z.scheduled_dep) i h.0).0 in
    ground (arith, before, insert_leg_place i h.1)

sorted_legs_place : {xs ys : List FlightLeg} → Arranged xs ys → Rising ys → sorted_legs xs ≡ ys
unfolding sorted_legs
sorted_legs_place nothing h = refl
sorted_legs_place (one_more {x = x} r i) h =
    ap (insert_leg x) (sorted_legs_place r (Inserted-Rising i h)) ∙ insert_leg_place i h

-- An arrangement that is timed and connected is the sorted one.
pub sorted_legs_only :
    {xs ys : List FlightLeg} → Arranged xs ys → All Timed ys → Connected ys → sorted_legs xs ≡ ys
sorted_legs_only {ys = ys} r t c = sorted_legs_place r (Connected-Rising ys t c)

insert_leg-Inserted : (x : FlightLeg) (legs : List FlightLeg) → Inserted x legs (insert_leg x legs)
unfolding insert_leg
insert_leg-Inserted x [] = here
insert_leg-Inserted x (y ∷ legs) = elim (Bool-cases (leb x.scheduled_dep y.scheduled_dep)) [
  | inl first ↦ rw (first, insert_leg) here
  | inr after ↦ rw (after, insert_leg) (there (insert_leg-Inserted x legs))
]

pub arranged : (legs : List FlightLeg) → Arranged legs (sorted_legs legs)
unfolding sorted_legs
arranged [] = nothing
arranged (x ∷ legs) = one_more (arranged legs) (insert_leg-Inserted x (sorted_legs legs))
