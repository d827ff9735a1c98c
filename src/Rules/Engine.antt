-- ===== src/Rules/Engine.antt =====
-- rules/engine.py: the flight-duty and qualification checks. Times are whole seconds. A single
-- difference is compared exactly, by moving the subtrahend to the other side: a quotient by 3600 or
-- by 60 that is rounded once compares with a limit of the file as the exact one does. The hours that
-- the code adds up leg by leg are floats, whose arithmetic is a parameter. A violation is its code
-- and the entity it names; the message and its details are left out.
pub mod Sequence
pub mod Hours
pub mod Duty
pub mod Checks
pub mod Places
pub mod Legality
pub mod Deadheads
use skysolver.Prelude.{
  ℕ, zero, suc, ◌+◌, ◌-◌, ◌*◌, ◌≤◌, ◌<◌, String, ◌≡◌, refl, sym, ap, ◌∙◌, subst, ◌≢◌, ◌↔◌, ◌⊎◌, inl,
  inr, Bool, true, false, not, ◌&&◌, ◌||◌, Option, none, some, List, [], ◌∷◌, ◌++◌, map, arith,
  eq_iff, ltb, leb, nat_beq, nat_beq_iff, if◌then◌else◌, Eq, ◌==◌, ◌!=◌, nat_eq, string_eq, pair_eq,
  beq_refl, eq_of_beq, Bool-cases, Option-cases, is_none, is_some, length, is_empty, any, all,
  filter, length-append, contains, filter-append, All, All-append, Pointwise, Pointwise-refl,
  Pointwise-map, find_first, update_first, find_first_holds, Pointwise-update_first,
}
use Prim.Native.Char.{code}
use skysolver.Prelude.Int.{ℤ, sub_ℕ}

pub data Qualification : Type 0 where
  b737 b777 a320 a321 b787 night_flying icu_wx etops : Qualification

abbrev pub code_of : Qualification → ℕ
code_of b737 = 0
code_of b777 = 1
code_of a320 = 2
code_of a321 = 3
code_of b787 = 4
code_of night_flying = 5
code_of icu_wx = 6
code_of etops = 7

-- `Qualification[name]`
unfoldable pub qualification_named : String → Option Qualification
qualification_named name =
    if name == "B737"
    then some b737
    else if name == "B777"
    then some b777
    else if name == "A320"
    then some a320
    else if name == "A321"
    then some a321
    else if name == "B787"
    then some b787
    else if name == "NIGHT_FLYING"
    then some night_flying
    else if name == "ICU_WX"
    then some icu_wx
    else if name == "ETOPS"
    then some etops
    else none

pub record CrewMember : Type 0 where
  pub crew_id : String
  pub base_hub : String
  pub qualifications : List Qualification
  pub duty_clock_start : Option ℕ
  pub current_location : String
  pub last_rest_end : Option ℕ

pub record FlightLeg : Type 0 where
  pub flight_id : String
  pub origin : String
  pub destination : String
  pub scheduled_dep : ℕ
  pub scheduled_arr : ℕ
  pub aircraft_type : String
  pub is_deadhead : Bool

-- `duty_start_hour` is `duty_start.hour`.
pub record Assignment : Type 0 where
  pub crew_id : String
  pub flight_legs : List FlightLeg
  pub duty_start : ℕ
  pub duty_start_hour : ℕ
  pub duty_end : ℕ

pub record RuleViolation : Type 0 where
  pub violation_code : String
  pub entity_id : String

-- Python's floats, as far as the sums of hours use them: `total_seconds() / 3600`, `sum`, and the
-- comparison with a limit.
pub record HourArithmetic : Type 1 where
  pub Hours : Type 0
  pub hours : ℤ → Hours
  pub sum : List Hours → Hours
  pub at_most : Hours → ℕ → Bool

-- In hours, the limits of the sums.
abbrev pub max_flight : ℕ
max_flight = 9

abbrev pub min_rest : ℕ
min_rest = 36000

abbrev pub max_deadhead : ℕ
max_deadhead = 8

abbrev pub min_connection : ℕ
min_connection = 1800

-- `FDP_BY_SECTORS`, in seconds
abbrev pub fdp_by_sectors : ℕ → ℕ
fdp_by_sectors sectors =
    if leb sectors 2
    then 50400
    else if sectors == 3
    then 48600
    else if sectors == 4
    then 46800
    else 45000

abbrev pub flown : List FlightLeg → List FlightLeg
flown = filter (λ x. not x.is_deadhead)

abbrev pub ridden : List FlightLeg → List FlightLeg
ridden = filter (λ x. x.is_deadhead)

-- An early start, from 02:00 to 05:59.
abbrev pub in_low : ℕ → Bool
in_low hour = leb 2 hour && ltb hour 6

-- `max_fdp`
unfoldable pub max_fdp : Assignment → ℕ
max_fdp a =
    let limit = fdp_by_sectors (length (flown a.flight_legs)) in
    if in_low a.duty_start_hour then limit - 3600 else limit

abbrev pub unless : Bool → String → String → List RuleViolation
unless fine c id = if fine then [] else record { violation_code = c; entity_id = id } ∷ []

unfoldable pub check_duty_time : Assignment → List RuleViolation
unfolding max_fdp
check_duty_time a = unless (leb a.duty_end (a.duty_start + max_fdp a)) "FDP_LIMIT" a.crew_id

-- `x.scheduled_arr - x.scheduled_dep`
abbrev pub elapsed : FlightLeg → ℤ
elapsed x = sub_ℕ x.scheduled_arr x.scheduled_dep

-- `sum((x.scheduled_arr - x.scheduled_dep).total_seconds() / 3600 for x in ...) <= limit`
abbrev pub fits : HourArithmetic → ℕ → List FlightLeg → Bool
fits F limit legs = F.at_most (F.sum (map F.hours (map elapsed legs))) limit

unfoldable pub check_flight_time : HourArithmetic → Assignment → List RuleViolation
check_flight_time F a =
    unless (fits F max_flight (flown a.flight_legs)) "FLIGHT_TIME_LIMIT" a.crew_id

abbrev pub rested : Option ℕ → ℕ → Bool
rested none start = true
rested (some end) start = leb (end + min_rest) start

unfoldable pub check_rest_period : CrewMember → Assignment → List RuleViolation
check_rest_period crew a = unless (rested crew.last_rest_end a.duty_start) "MIN_REST" crew.crew_id

-- `s.replace("neo", "")`; the number counts the characters that are still to be dropped.
abbrev begins_neo : String → Bool
begins_neo (String.◌∷◌ a (String.◌∷◌ b (String.◌∷◌ c s))) =
    code a == 110 && (code b == 101 && code c == 111)
begins_neo _ = false

unfoldable pub without_neo : ℕ → String → String
without_neo k String.[] = String.[]
without_neo (suc k) (String.◌∷◌ c s) = without_neo k s
without_neo zero (String.◌∷◌ c s) =
    let neo = begins_neo (String.◌∷◌ c s) in
    let rest = without_neo (if neo then 2 else 0) s in if neo then rest else String.◌∷◌ c rest

unfoldable pub check_leg : CrewMember → FlightLeg → List RuleViolation
check_leg crew leg =
    if leg.is_deadhead then [] else elim (qualification_named (without_neo 0 leg.aircraft_type)) [
      | none ↦ record { violation_code = "UNKNOWN_AIRCRAFT"; entity_id = leg.flight_id } ∷ []
      | some q ↦
          unless (any (λ r. code_of r == code_of q) crew.qualifications) "MISSING_QUALIFICATION"
            leg.flight_id
    ]

-- `out.extend(...)` over the elements of a list.
abbrev pub collect : {A : Type 0} → (A → List RuleViolation) → List A → List RuleViolation
collect f [] = []
collect f (x ∷ xs) = f x ++ collect f xs

unfoldable pub check_qualifications : CrewMember → Assignment → List RuleViolation
unfolding check_leg
check_qualifications crew a = collect (check_leg crew) a.flight_legs

unfoldable pub check_deadhead_limits : HourArithmetic → Assignment → List RuleViolation
check_deadhead_limits F a =
    unless (fits F max_deadhead (ridden a.flight_legs)) "DEADHEAD_LIMIT" a.crew_id

unfoldable pub locations : List FlightLeg → List String
locations [] = []
locations (x ∷ legs) =
    let rest = locations legs in if x.is_deadhead then x.origin ∷ x.destination ∷ rest else rest

-- The loop of `_check_no_deadhead_loops`: a location that was seen before.
unfoldable pub repeats : List String → List String → Bool
repeats seen [] = false
repeats seen (loc ∷ rest) = any (λ s. s == loc) seen || repeats (loc ∷ seen) rest

unfoldable pub check_no_deadhead_loops : Assignment → List RuleViolation
unfolding locations repeats
check_no_deadhead_loops a =
    unless (not (repeats [] (locations a.flight_legs))) "DEADHEAD_LOOP" a.crew_id

-- `sorted(legs, key=scheduled_dep)`, which keeps the order of equal departures.
unfoldable pub insert_leg : FlightLeg → List FlightLeg → List FlightLeg
insert_leg x [] = x ∷ []
insert_leg x (y ∷ legs) =
    let rest = insert_leg x legs in
    if leb x.scheduled_dep y.scheduled_dep then x ∷ y ∷ legs else y ∷ rest

unfoldable pub sorted_legs : List FlightLeg → List FlightLeg
unfolding insert_leg
sorted_legs [] = []
sorted_legs (x ∷ legs) = insert_leg x (sorted_legs legs)

abbrev pub check_leg_time : FlightLeg → List RuleViolation
check_leg_time x = unless (ltb x.scheduled_dep x.scheduled_arr) "INVALID_LEG_TIME" x.flight_id

abbrev pub check_position : CrewMember → List FlightLeg → List RuleViolation
check_position crew [] = []
check_position crew (x ∷ legs) =
    unless (crew.current_location == "" || x.origin == crew.current_location) "CREW_POSITION"
      crew.crew_id

unfoldable pub check_connections : List FlightLeg → List RuleViolation
check_connections [] = []
check_connections (x ∷ []) = []
check_connections (x ∷ y ∷ legs) =
    unless (x.destination == y.origin) "LOCATION_DISCONTINUITY" y.flight_id
    ++ unless (leb (x.scheduled_arr + min_connection) y.scheduled_dep) "CONNECTION_TIME" y.flight_id
    ++ check_connections (y ∷ legs)

unfoldable pub check_continuity : CrewMember → Assignment → List RuleViolation
unfolding sorted_legs check_connections
check_continuity crew a =
    let legs = sorted_legs a.flight_legs in
    collect check_leg_time legs ++ check_position crew legs ++ check_connections legs

unfoldable pub validate_assignment : HourArithmetic → CrewMember → Assignment → List RuleViolation
unfolding check_duty_time check_flight_time check_rest_period check_qualifications
    check_deadhead_limits check_no_deadhead_loops check_continuity
validate_assignment F crew a =
    check_duty_time a
    ++ check_flight_time F a
    ++ check_rest_period crew a
    ++ check_qualifications crew a
    ++ check_deadhead_limits F a
    ++ check_no_deadhead_loops a
    ++ check_continuity crew a

unfoldable pub can_assign : HourArithmetic → CrewMember → Assignment → Bool
unfolding validate_assignment
can_assign F crew a = is_empty (validate_assignment F crew a)
