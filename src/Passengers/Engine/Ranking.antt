-- ===== src/Passengers/Engine/Ranking.antt =====
-- What `recover` of passengers/engine.py chooses.
use skysolver.Prelude.{
  ◌≡◌, refl, sym, ap, ◌∙◌, subst, ◌⊎◌, inl, inr, true, none, some, List, [], ◌∷◌, arith, nat_eq,
  string_eq, pair_eq, Bool-cases, is_empty,
}
use skysolver.Prelude.Clock.{Instant}
use skysolver.Prelude.Int.{◌≤ℤ◌, ltb_ℤ}
use skysolver.Passengers.Engine.{
  decide, rebooked, waitlisted, recover, PassengerEvent, itinerary, validate_itinerary, rank_before,
  Route, PassengerItinerary, legal_itineraries, ranked, Passenger,
}

-- Membership, as a type.
unfoldable pub Among : {A : Type 0} → A → List A → Type 0
Among x [] = ⊥
Among x (y ∷ ys) = (x ≡ y) ⊎ Among x ys

-- No member has a greater score.
pub TopOf : List PassengerItinerary → PassengerItinerary → Type 0
unfolding Among
TopOf js b = (j : PassengerItinerary) → Among j js → j.score ≤ℤ b.score

Headed : List PassengerItinerary → Type 0
Headed is =
    (b : PassengerItinerary) × (rest : List PassengerItinerary) × (ranked is ≡ b ∷ rest)
    × Among b is
    × TopOf is b

place_first : (i : PassengerItinerary) (is : List PassengerItinerary) → Headed is → Headed (i ∷ is)
unfolding Headed ranked rank_before Among TopOf
place_first i is (b, rest, e, member, top) = elim (Bool-cases (ltb_ℤ i.score b.score)) [
  | inl below ↦ (
    b,
    rank_before i rest,
    rw e (rw (below, rank_before) refl),
    inr member,
    λ j h. elim h [ inl same ↦ ground (arith, ap (λ x. x.score) same) | inr later ↦ top j later ],
  )
  | inr above ↦ (
    i,
    b ∷ rest,
    rw e (rw (above, rank_before) refl),
    inl refl,
    λ j h. elim h [
      | inl same ↦ ground (arith, ap (λ x. x.score) same)
      | inr later ↦ ground (arith, top j later)
    ],
  )
]

ranked_first : (i : PassengerItinerary) (is : List PassengerItinerary) → Headed (i ∷ is)
unfolding Headed ranked rank_before Among TopOf
ranked_first i [] = (
  i,
  [],
  refl,
  inl refl,
  λ j h. elim h [ inl same ↦ ground (arith, ap (λ x. x.score) same) | inr later ↦ absurd later ],
)
ranked_first i (k ∷ is) = place_first i (k ∷ is) (ranked_first k is)

-- A route whose itinerary the rules accept.
pub IsLegal : Passenger → Route → Type 0
IsLegal p r = is_empty (validate_itinerary p (itinerary p r)) ≡ true

route_of_member :
    (p : Passenger) (routes : List Route) (i : PassengerItinerary)
    → Among i (legal_itineraries p routes)
    → (r : Route) × Among r routes × (i ≡ itinerary p r) × IsLegal p r
unfolding legal_itineraries IsLegal Among
route_of_member p [] i h = absurd h
route_of_member p (r ∷ rs) i h =
    elim (Bool-cases (is_empty (validate_itinerary p (itinerary p r)))) [
      | inl fine ↦ elim (rw (fine, legal_itineraries) at h) [
        | inl here ↦ (r, inl refl, here, fine)
        | inr later ↦
            let (q, member, e, legal) = route_of_member p rs i later in (q, inr member, e, legal)
      ]
      | inr bad ↦
          let (q, member, e, legal) = route_of_member p rs i (rw (bad, legal_itineraries) at h) in
          (q, inr member, e, legal)
    ]

member_of_route :
    (p : Passenger) (routes : List Route) (r : Route)
    → Among r routes
    → IsLegal p r
    → Among (itinerary p r) (legal_itineraries p routes)
unfolding legal_itineraries IsLegal Among
member_of_route p [] r m legal = absurd m
member_of_route p (q ∷ qs) r m legal =
    elim (Bool-cases (is_empty (validate_itinerary p (itinerary p q)))) [
      | inl fine ↦
          rw (fine, legal_itineraries)
            (elim m [
              | inl same ↦ inl (ap (itinerary p) same)
              | inr later ↦ inr (member_of_route p qs r later legal)
            ])
      | inr bad ↦
          rw (bad, legal_itineraries)
            (elim m [
              | inl same ↦ absurd (ground (arith, bad, subst (IsLegal p) same legal))
              | inr later ↦ member_of_route p qs r later legal
            ])
    ]

emptiness :
    (l : List PassengerItinerary)
    → (l ≡ []) ⊎ ((i : PassengerItinerary) × (is : List PassengerItinerary) × (l ≡ i ∷ is))
emptiness [] = inl refl
emptiness (i ∷ is) = inr (i, is, refl)

module _ (p : Passenger) (routes : List Route) (now : Instant) (events : List PassengerEvent) where
  decided :
      (is : List PassengerItinerary)
      → legal_itineraries p routes ≡ is
      → recover p routes now events ≡ decide p (ranked is) now events
  unfolding recover
  decided is e = ap (λ l. decide p (ranked l) now events) e

  ends_waiting :
      legal_itineraries p routes ≡ []
      → ((r : Route) → Among r routes → ¬ IsLegal p r)
        × ((recover p routes now events).0.status ≡ waitlisted)
        × ((recover p routes now events).0.itinerary ≡ none)
  unfolding decide ranked Among
  ends_waiting e = (
    λ r m legal. subst (λ l. Among (itinerary p r) l) e (member_of_route p routes r m legal),
    ap (λ y. y.0.status) (decided [] e),
    ap (λ y. y.0.itinerary) (decided [] e),
  )

  ends_rebooked :
      (i : PassengerItinerary) (is : List PassengerItinerary)
      → legal_itineraries p routes ≡ i ∷ is
      → (best : Route) × Among best routes
        × IsLegal p best
        × ((r : Route) → Among r routes → IsLegal p r → r.score ≤ℤ best.score)
        × ((recover p routes now events).0.status ≡ rebooked)
        × ((recover p routes now events).0.itinerary ≡ some (itinerary p best))
  unfolding decide Headed TopOf
  ends_rebooked i is e =
      let (b, rest, first, member, top) = ranked_first i is in
      let (r, among, same, legal) =
        route_of_member p routes b (subst (λ l. Among b l) (sym e) member) in
      let done : recover p routes now events ≡ decide p (b ∷ rest) now events =
        decided (i ∷ is) e ∙ ap (λ l. decide p l now events) first in
      (
        r,
        among,
        legal,
        λ q m fine.
            subst (λ x. q.score ≤ℤ x.score) same
              (top (itinerary p q)
                (subst (λ l. Among (itinerary p q) l) e (member_of_route p routes q m fine))),
        ap (λ y. y.0.status) done,
        ap (λ y. y.0.itinerary) done ∙ ap some same,
      )

  -- Either no route is legal for the passenger, who is put on the waiting list without an itinerary, or
  -- the passenger is rebooked on a legal route, and no legal route has a greater score.
  pub recover_best :
      (((r : Route) → Among r routes → ¬ IsLegal p r)
        × ((recover p routes now events).0.status ≡ waitlisted)
        × ((recover p routes now events).0.itinerary ≡ none))
      ⊎ ((best : Route) × Among best routes
          × IsLegal p best
          × ((r : Route) → Among r routes → IsLegal p r → r.score ≤ℤ best.score)
          × ((recover p routes now events).0.status ≡ rebooked)
          × ((recover p routes now events).0.itinerary ≡ some (itinerary p best)))
  recover_best = elim (emptiness (legal_itineraries p routes)) [
    | inl e ↦ inl (ends_waiting e)
    | inr (i, is, e) ↦ inr (ends_rebooked i is e)
  ]
