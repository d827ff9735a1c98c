-- ===== src/Rules/Engine/Hours.antt =====
-- The limits of rules/engine.py on the sums of hours, said in exact seconds, and what is known of the
-- floating-point sums.
use skysolver.Prelude.{
  length-filter, ℕ, suc, ◌+◌, ◌*◌, ◌≤◌, ◌<◌, ◌≡◌, refl, ap, ◌↔◌, ◌⊎◌, inl, inr, Bool, true, false,
  not, List, [], ◌∷◌, map, arith, ltb, if◌then◌else◌, nat_eq, string_eq, pair_eq, Bool-cases,
  length, filter, All,
}
use skysolver.Prelude.Int.{ℤ, pos_part, neg_part}
use skysolver.Rules.Engine.{flown, ridden, fits, elapsed, HourArithmetic, FlightLeg}

-- The exact sum of a quantity over the flown legs, and over the deadheads.
pub over_flown : (FlightLeg → ℕ) → List FlightLeg → ℕ
over_flown f [] = 0
over_flown f (x ∷ legs) = (if x.is_deadhead then 0 else f x) + over_flown f legs

pub over_ridden : (FlightLeg → ℕ) → List FlightLeg → ℕ
over_ridden f [] = 0
over_ridden f (x ∷ legs) = (if x.is_deadhead then f x else 0) + over_ridden f legs

abbrev pub total_of : (ℤ → ℕ) → List ℤ → ℕ
total_of f [] = 0
total_of f (x ∷ xs) = f x + total_of f xs

abbrev pub IsModest : ℤ → Type 0
IsModest x = (pos_part x ≤ 360000) × (neg_part x ≤ 360000)

-- What double precision promises for at most a hundred terms of at most a hundred hours: the rounding
-- errors stay below a second, so a sum that is exactly below or exactly above the limit, and so by a
-- whole second at least, is compared as the exact sum is. At the limit itself nothing is promised.
pub record IsAccurate (F : HourArithmetic) : Type 0 where
  pub below :
      (xs : List ℤ) (limit : ℕ)
      → length xs ≤ 100
      → All IsModest xs
      → total_of pos_part xs < total_of neg_part xs + limit * 3600
      → F.at_most (F.sum (map F.hours xs)) limit ≡ true
  pub above :
      (xs : List ℤ) (limit : ℕ)
      → length xs ≤ 100
      → All IsModest xs
      → total_of neg_part xs + limit * 3600 < total_of pos_part xs
      → F.at_most (F.sum (map F.hours xs)) limit ≡ false

-- The legs for which that is enough: at most a hundred, none of more than a hundred hours.
unfoldable pub IsBounded : List FlightLeg → Type 0
IsBounded legs =
    (length legs ≤ 100)
    × All
        (λ x.
          (x.scheduled_arr ≤ x.scheduled_dep + 360000)
          × (x.scheduled_dep ≤ x.scheduled_arr + 360000))
        legs

-- Within a limit in hours: below it, or just at it where the rounded sum does not exceed it.
abbrev pub Within : ℕ → ℕ → ℕ → Bool → Type 0
Within arrivals departures limit rounded =
    (arrivals < departures + limit * 3600)
    ⊎ ((arrivals ≡ departures + limit * 3600) × (rounded ≡ true))

total : (FlightLeg → ℕ) → List FlightLeg → ℕ
total f [] = 0
total f (x ∷ legs) = f x + total f legs

total-flown : (f : FlightLeg → ℕ) (legs : List FlightLeg) → total f (flown legs) ≡ over_flown f legs
unfolding total over_flown
total-flown f [] = refl
total-flown f (x ∷ legs) = ground (arith, total-flown f legs)

total-ridden :
    (f : FlightLeg → ℕ) (legs : List FlightLeg) → total f (ridden legs) ≡ over_ridden f legs
unfolding total over_ridden
total-ridden f [] = refl
total-ridden f (x ∷ legs) = ground (arith, total-ridden f legs)

pub length-flown : (legs : List FlightLeg) → length (flown legs) ≡ over_flown (λ x. 1) legs
unfolding over_flown
length-flown [] = refl
length-flown (x ∷ legs) = ground (arith, length-flown legs)

-- The differences of the legs, and their exact sum.
elapsed-total :
    (legs : List FlightLeg)
    → total_of pos_part (map elapsed legs) + total (λ x. x.scheduled_dep) legs
      ≡ total_of neg_part (map elapsed legs) + total (λ x. x.scheduled_arr) legs
unfolding total
elapsed-total [] = refl
elapsed-total (x ∷ legs) = ground (arith, elapsed-total legs)

length-elapsed : (legs : List FlightLeg) → length (map elapsed legs) ≡ length legs
length-elapsed [] = refl
length-elapsed (x ∷ legs) = ap suc (length-elapsed legs)

elapsed-IsModest : (legs : List FlightLeg) → IsBounded legs → All IsModest (map elapsed legs)
unfolding IsBounded
elapsed-IsModest [] h = tt
elapsed-IsModest (x ∷ legs) h = (
  (ground (arith, h.1.0), ground (arith, h.1.0)),
  elapsed-IsModest legs (omega (arith, h.0), h.1.1),
)

filter-IsBounded :
    (p : FlightLeg → Bool) (legs : List FlightLeg) → IsBounded legs → IsBounded (filter p legs)
unfolding IsBounded
filter-IsBounded p legs h = (omega (arith, length-filter p legs, h.0), kept legs h.1)
  where
    kept :
        (ls : List FlightLeg)
        → All
            (λ x.
              (x.scheduled_arr ≤ x.scheduled_dep + 360000)
              × (x.scheduled_dep ≤ x.scheduled_arr + 360000))
            ls
        → All
            (λ x.
              (x.scheduled_arr ≤ x.scheduled_dep + 360000)
              × (x.scheduled_dep ≤ x.scheduled_arr + 360000))
            (filter p ls)
    kept [] h = tt
    kept (x ∷ ls) h = elim (Bool-cases (p x)) [
      | inl taken ↦ rw taken (h.0, kept ls h.1)
      | inr left ↦ rw left (kept ls h.1)
    ]

bounded_length : (legs : List FlightLeg) → IsBounded legs → length legs ≤ 100
unfolding IsBounded
bounded_length legs h = h.0

fits_iff :
    (F : HourArithmetic) (limit : ℕ) (legs : List FlightLeg)
    → IsAccurate F
    → IsBounded legs
    → (fits F limit legs ≡ true)
      ↔ Within
          (total (λ x. x.scheduled_arr) legs)
          (total (λ x. x.scheduled_dep) legs)
          limit
          (fits F limit legs)
fits_iff F limit legs acc h =
    let short : length (map elapsed legs) ≤ 100 =
      omega (arith, length-elapsed legs, bounded_length legs h) in
    let modest = elapsed-IsModest legs h in
    let low = acc.below (map elapsed legs) limit short modest in
    let high = acc.above (map elapsed legs) limit short modest in
    let arrivals = total (λ x. x.scheduled_arr) legs in
    let limits = total (λ x. x.scheduled_dep) legs + limit * 3600 in
    (
      λ e. elim (Bool-cases (ltb arrivals limits)) [
        | inl under ↦ inl (ground arith)
        | inr over ↦ elim (Bool-cases (ltb limits arrivals)) [
          | inl above ↦ absurd (ground (arith, high (ground (arith, elapsed-total legs))))
          | inr at_most ↦ inr (ground arith, e)
        ]
      ],
      λ w. elim w [
        | inl under ↦ low (omega (arith, under, elapsed-total legs))
        | inr exact ↦ exact.1
      ],
    )

-- The hours of the flown legs and of the deadheads are within their limits.
pub flown_iff :
    (F : HourArithmetic) (legs : List FlightLeg)
    → IsAccurate F
    → IsBounded legs
    → (fits F 9 (flown legs) ≡ true)
      ↔ Within
          (over_flown (λ x. x.scheduled_arr) legs)
          (over_flown (λ x. x.scheduled_dep) legs)
          9
          (fits F 9 (flown legs))
flown_iff F legs acc h =
    rw⁻¹ (total-flown (λ x. x.scheduled_arr) legs, total-flown (λ x. x.scheduled_dep) legs)
      (fits_iff F 9 (flown legs) acc (filter-IsBounded (λ x. not x.is_deadhead) legs h))

pub ridden_iff :
    (F : HourArithmetic) (legs : List FlightLeg)
    → IsAccurate F
    → IsBounded legs
    → (fits F 8 (ridden legs) ≡ true)
      ↔ Within
          (over_ridden (λ x. x.scheduled_arr) legs)
          (over_ridden (λ x. x.scheduled_dep) legs)
          8
          (fits F 8 (ridden legs))
ridden_iff F legs acc h =
    rw⁻¹ (total-ridden (λ x. x.scheduled_arr) legs, total-ridden (λ x. x.scheduled_dep) legs)
      (fits_iff F 8 (ridden legs) acc (filter-IsBounded (λ x. x.is_deadhead) legs h))
