-- ===== src/Rules/Engine/Duty.antt =====
-- The flight duty period (rules/engine.py, `max_fdp` and `_check_duty_time`), said as a table.
use skysolver.Prelude.{
  ℕ, ◌+◌, ◌-◌, ◌≤◌, ◌<◌, ◌≡◌, ◌↔◌, inl, inr, true, arith, leb, if◌then◌else◌, ◌==◌, nat_eq,
  string_eq, pair_eq, Bool-cases, length,
}
use skysolver.Rules.Engine.{flown, fdp_by_sectors, max_fdp, in_low, Assignment}
use skysolver.Rules.Engine.Hours.{over_flown, length-flown}

-- The flight duty period by sectors, in seconds.
pub data FdpLimit (sectors : ℕ) : ℕ → Type 0 where
  up_to_two : sectors ≤ 2 → FdpLimit sectors 50400
  with_three : sectors ≡ 3 → FdpLimit sectors 48600
  with_four : sectors ≡ 4 → FdpLimit sectors 46800
  from_five : 5 ≤ sectors → FdpLimit sectors 45000

-- A duty of those flown legs: within the limit, and an hour below it when it starts from two to six.
pub DutyFits : Assignment → Type 0
DutyFits a =
    (limit : ℕ) × FdpLimit (over_flown (λ x. 1) a.flight_legs) limit
    × (a.duty_end ≤ a.duty_start + limit)
    × (2 ≤ a.duty_start_hour → a.duty_start_hour < 6 → a.duty_end + 3600 ≤ a.duty_start + limit)

limit_of : (sectors : ℕ) → FdpLimit sectors (fdp_by_sectors sectors)
limit_of sectors = elim (Bool-cases (leb sectors 2)) [
  | inl two ↦ rw two (up_to_two (ground arith))
  | inr more ↦ elim (Bool-cases (sectors == 3)) [
    | inl three ↦ rw (more, three) (with_three (ground arith))
    | inr other ↦ elim (Bool-cases (sectors == 4)) [
      | inl four ↦ rw (more, other, four) (with_four (ground arith))
      | inr many ↦ rw (more, other, many) (from_five (ground arith))
    ]
  ]
]

limit_large : (sectors : ℕ) → 3600 ≤ fdp_by_sectors sectors
limit_large sectors = ground arith

-- The limit of a duty, an hour less for an early start, compared with its length.
early_iff :
    (hour start end limit : ℕ)
    → 3600 ≤ limit
    → (leb end (start + (if in_low hour then limit - 3600 else limit)) ≡ true)
      ↔ ((end ≤ start + limit) × (2 ≤ hour → hour < 6 → end + 3600 ≤ start + limit))
early_iff hour start end limit large = elim (Bool-cases (in_low hour)) [
  | inl early ↦ rw early (λ e. (ground arith, λ _ _. ground arith), λ h. ground (arith, h.1))
  | inr late ↦ rw late (λ e. (ground arith, λ a b. absurd (ground arith)), λ h. ground (arith, h.0))
]

limit_only : (sectors limit : ℕ) → FdpLimit sectors limit → fdp_by_sectors sectors ≡ limit
limit_only sectors limit (up_to_two h) = ground (arith, h)
limit_only sectors limit (with_three h) = ground (arith, h)
limit_only sectors limit (with_four h) = ground (arith, h)
limit_only sectors limit (from_five h) = ground (arith, h)

pub duty_iff : (a : Assignment) → (leb a.duty_end (a.duty_start + max_fdp a) ≡ true) ↔ DutyFits a
unfolding max_fdp DutyFits
duty_iff a =
    let sectors = length (flown a.flight_legs) in
    let limits =
      early_iff a.duty_start_hour a.duty_start a.duty_end (fdp_by_sectors sectors)
        (limit_large sectors) in
    (
      λ e. (
        fdp_by_sectors sectors,
        rw⁻¹ (length-flown a.flight_legs) (limit_of sectors),
        (limits.0 e).0,
        (limits.0 e).1,
      ),
      λ (limit, table, ends, early).
          limits.1
            (rw (limit_only sectors limit (rw (length-flown a.flight_legs) table)) (ends, early)),
    )
