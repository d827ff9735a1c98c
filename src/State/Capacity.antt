-- ===== src/State/Capacity.antt =====
-- state/capacity_manager.py: the seats of each flight and cabin. Booked seats are integers, since a
-- release subtracts without a test, and a cabin is its name, as in the source.
use skysolver.Prelude.{
  String, ◌≡◌, refl, sym, ap, ◌∙◌, inl, inr, none, some, [], ◌∷◌, arith, if◌then◌else◌, ◌==◌,
  nat_eq, string_eq, pair_eq, Bool-cases, Option-cases,
}
use skysolver.Prelude.Dict.{Dict, lookup, insert, insert-insert, lookup-insert_self}
use skysolver.Prelude.Int.{ℤ, pos, ◌+ℤ◌, ◌-ℤ◌, +ℤ_parts, -ℤ_parts, eq_of_parts}

pub record FlightCapacity : Type 0 where
  pub flight_id : String
  pub economy_total : ℤ
  pub premium_economy_total : ℤ
  pub business_total : ℤ
  pub first_total : ℤ
  pub economy_booked : ℤ
  pub premium_economy_booked : ℤ
  pub business_booked : ℤ
  pub first_booked : ℤ

abbrev pub economy_available : FlightCapacity → ℤ
economy_available c = c.economy_total -ℤ c.economy_booked

abbrev pub premium_economy_available : FlightCapacity → ℤ
premium_economy_available c = c.premium_economy_total -ℤ c.premium_economy_booked

abbrev pub business_available : FlightCapacity → ℤ
business_available c = c.business_total -ℤ c.business_booked

abbrev pub first_available : FlightCapacity → ℤ
first_available c = c.first_total -ℤ c.first_booked

abbrev pub Flights : Type 0
Flights = Dict String FlightCapacity

-- What the chain of tests on the cabin's name writes.
unfoldable pub book : String → (ℤ → ℤ) → FlightCapacity → FlightCapacity
book cabin f c =
    if cabin == "economy"
    then (record c { economy_booked = f c.economy_booked })
    else if cabin == "premium_economy"
    then (record c { premium_economy_booked = f c.premium_economy_booked })
    else if cabin == "business"
    then (record c { business_booked = f c.business_booked })
    else if cabin == "first"
    then (record c { first_booked = f c.first_booked })
    else c

-- A write to the object that the dictionary has under a key.
unfoldable pub write_flight : String → (FlightCapacity → FlightCapacity) → Flights → Flights
write_flight id f d = elim (lookup id d) [ none ↦ d | some c ↦ insert id (f c) d ]

unfoldable pub apply_seat_reserved : String → String → Flights → Flights
unfolding book write_flight
apply_seat_reserved id cabin d = write_flight id (book cabin (λ n. n +ℤ pos 1)) d

unfoldable pub apply_seat_released : String → String → Flights → Flights
unfolding book write_flight
apply_seat_released id cabin d = write_flight id (book cabin (λ n. n -ℤ pos 1)) d

add_sub : (n : ℤ) → (n +ℤ pos 1) -ℤ pos 1 ≡ n
add_sub n =
    eq_of_parts ((n +ℤ pos 1) -ℤ pos 1) n
      (omega (arith, +ℤ_parts n (pos 1), -ℤ_parts (n +ℤ pos 1) (pos 1)))

book_back :
    (cabin : String) (c : FlightCapacity)
    → book cabin (λ n. n -ℤ pos 1) (book cabin (λ n. n +ℤ pos 1) c) ≡ c
unfolding book
book_back cabin c = elim (Bool-cases (cabin == "economy")) [
  | inl a ↦ rw (a, book) (ap (λ n. record c { economy_booked = n }) (add_sub c.economy_booked))
  | inr a ↦ elim (Bool-cases (cabin == "premium_economy")) [
    | inl b ↦
        rw (a, book)
          (rw (b, book)
            (ap (λ n. record c { premium_economy_booked = n }) (add_sub c.premium_economy_booked)))
    | inr b ↦ elim (Bool-cases (cabin == "business")) [
      | inl e ↦
          rw (a, book)
            (rw (b, book)
              (rw (e, book)
                (ap (λ n. record c { business_booked = n }) (add_sub c.business_booked))))
      | inr e ↦ elim (Bool-cases (cabin == "first")) [
        | inl g ↦
            rw (a, book)
              (rw (b, book)
                (rw (e, book)
                  (rw (g, book)
                    (ap (λ n. record c { first_booked = n }) (add_sub c.first_booked)))))
        | inr g ↦ rw (a, book) (rw (b, book) (rw (e, book) (rw (g, book) refl)))
      ]
    ]
  ]
]

insert_found :
    (id : String) (c : FlightCapacity) (d : Flights) → lookup id d ≡ some c → insert id c d ≡ d
unfolding lookup insert
insert_found id c [] h = absurd (cc)
insert_found id c ((k, v) ∷ d) h = elim (Bool-cases (k == id)) [
  | inl same ↦ rw same (ap (λ x. (k, x) ∷ d) (ground (arith, h, same)))
  | inr other ↦ rw other (ap (λ r. (k, v) ∷ r) (insert_found id c d (ground (arith, h, other))))
]

write_absent :
    (id : String) (f : FlightCapacity → FlightCapacity) (d : Flights)
    → lookup id d ≡ none
    → write_flight id f d ≡ d
unfolding write_flight
write_absent id f d h = ground (arith, h)

write_found :
    (id : String) (f : FlightCapacity → FlightCapacity) (c : FlightCapacity) (d : Flights)
    → lookup id d ≡ some c
    → write_flight id f d ≡ insert id (f c) d
unfolding write_flight
write_found id f c d h = ground (arith, h)

-- Two writes to a flight whose functions undo each other.
write_back :
    (id : String) (f g : FlightCapacity → FlightCapacity) (d : Flights)
    → ((c : FlightCapacity) → g (f c) ≡ c)
    → write_flight id g (write_flight id f d) ≡ d
write_back id f g d undo = elim (Option-cases (lookup id d)) [
  | inl absent ↦ ap (write_flight id g) (write_absent id f d absent) ∙ write_absent id g d absent
  | inr (c, here) ↦
      ap (write_flight id g) (write_found id f c d here)
      ∙ write_found id g (f c) (insert id (f c) d) (lookup-insert_self id (f c) d)
      ∙ insert-insert id (g (f c)) (f c) d
      ∙ insert_found id (g (f c)) d (here ∙ ap some (sym (undo c)))
]

-- A release of the same seat undoes a reservation: the inventory is what it was before.
pub released_reserved :
    (id cabin : String) (d : Flights)
    → apply_seat_released id cabin (apply_seat_reserved id cabin d) ≡ d
unfolding apply_seat_released apply_seat_reserved
released_reserved id cabin d =
    write_back id (book cabin (λ n. n +ℤ pos 1)) (book cabin (λ n. n -ℤ pos 1)) d (book_back cabin)
