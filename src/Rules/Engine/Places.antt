-- ===== src/Rules/Engine/Places.antt =====
-- The places of deadhead legs (rules/engine.py, `_check_no_deadhead_loops`): the loop finds no
-- repetition exactly when they are pairwise different.
use skysolver.Prelude.{
  String, ◌≡◌, refl, ◌≢◌, ◌↔◌, false, not, List, [], ◌∷◌, arith, eq_iff, if◌then◌else◌, ◌==◌,
  nat_eq, string_eq, pair_eq, any, All,
}
use skysolver.Rules.Engine.{locations, repeats, FlightLeg}

-- Where the deadheads start and end.
unfoldable pub visited : List FlightLeg → List String
visited [] = []
visited (x ∷ legs) =
    let rest = visited legs in if not x.is_deadhead then rest else x.origin ∷ x.destination ∷ rest

unfoldable pub AreApart : List String → Type 0
AreApart [] = Unit
AreApart (x ∷ xs) = All (λ y. x ≢ y) xs × AreApart xs

any_iff :
    (x : String) (seen : List String) → (any (λ s. s == x) seen ≡ false) ↔ All (λ s. s ≢ x) seen
any_iff x [] = (λ _. tt, λ _. refl)
any_iff x (s ∷ seen) =
    let rest = any_iff x seen in
    (
      λ h. ((λ e. ground (arith, eq_iff s x, e)), rest.0 (ground arith)),
      λ h. ground (arith, eq_iff s x, rest.1 h.1, h.0),
    )

joined :
    {A : Type 0} (P Q : A → Type 0) (xs : List A) → (All P xs × All Q xs) ↔ All (λ x. P x × Q x) xs
joined P Q [] = (λ _. tt, λ _. (tt, tt))
joined P Q (x ∷ xs) =
    let rest = joined P Q xs in
    (
      λ h. ((h.0.0, h.1.0), rest.0 (h.0.1, h.1.1)),
      λ h. ((h.0.0, (rest.1 h.1).0), (h.0.1, (rest.1 h.1).1)),
    )

repeats_iff :
    (seen xs : List String)
    → (repeats seen xs ≡ false) ↔ (All (λ x. All (λ s. s ≢ x) seen) xs × AreApart xs)
unfolding repeats AreApart
repeats_iff seen [] = (λ _. (tt, tt), λ _. refl)
repeats_iff seen (x ∷ xs) =
    let rest = repeats_iff (x ∷ seen) xs in
    let first = any_iff x seen in
    let both = joined (λ y. x ≢ y) (λ y. All (λ s. s ≢ y) seen) xs in
    (
      λ h.
          let apart = rest.0 (ground arith) in
          let later = both.1 apart.0 in ((first.0 (ground arith), later.1), (later.0, apart.1)),
      λ h. ground (arith, first.1 h.0.0, rest.1 (both.0 (h.1.0, h.0.1), h.1.1)),
    )

visited-eq-locations : (legs : List FlightLeg) → visited legs ≡ locations legs
unfolding visited locations
visited-eq-locations [] = refl
visited-eq-locations (x ∷ legs) = ground (arith, visited-eq-locations legs)

unseen : (xs : List String) → All (λ x. All (λ s. s ≢ x) []) xs
unseen [] = tt
unseen (x ∷ xs) = (tt, unseen xs)

pub loop_iff :
    (legs : List FlightLeg) → (repeats [] (locations legs) ≡ false) ↔ AreApart (visited legs)
loop_iff legs = rw (visited-eq-locations legs) (
    let seen = repeats_iff [] (locations legs) in
    (λ h. (seen.0 h).1, λ h. seen.1 (unseen (locations legs), h)))
