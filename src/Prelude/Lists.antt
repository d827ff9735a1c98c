-- ===== src/Prelude/Lists.antt =====
-- List functions over the native numbers, Python's `any`, `all`, comprehension filters and `in`,
-- and the predicate that holds of every member.
use Prim.Native.Nat.{ℕ, suc, ◌+◌, ◌≤◌}
use mathlib.Core.Path.{◌≡◌, refl}
use mathlib.Core.Bool.{Bool, true, false, ◌&&◌, ◌||◌}
use mathlib.Core.List.{List, [], ◌∷◌, ◌++◌, map}
use mathlib.Core.Option.{Option, none, some}
use mathlib.Core.Logic.{inl, inr}
use native.Mathlib.Omega.{arith}
use skysolver.Prelude.Tests.{Eq, ◌==◌, if◌then◌else◌, Bool-cases}

module _ {ℓ} {A : Type ℓ} where
  abbrev pub length : List A → ℕ
  length [] = 0
  length (x ∷ xs) = suc (length xs)

  abbrev pub is_empty : List A → Bool
  is_empty [] = true
  is_empty (_ ∷ _) = false

  abbrev pub any : (A → Bool) → List A → Bool
  any p [] = false
  any p (x ∷ xs) = p x || any p xs

  abbrev pub all : (A → Bool) → List A → Bool
  all p [] = true
  all p (x ∷ xs) = p x && all p xs

  abbrev pub filter : (A → Bool) → List A → List A
  filter p [] = []
  filter p (x ∷ xs) = let rest = filter p xs in if p x then x ∷ rest else rest

  pub length-append : (xs ys : List A) → length (xs ++ ys) ≡ length xs + length ys
  length-append [] ys = omega arith
  length-append (x ∷ xs) ys = omega (arith, length-append xs ys)

  pub length-filter : (p : A → Bool) (xs : List A) → length (filter p xs) ≤ length xs
  length-filter p [] = omega arith
  length-filter p (x ∷ xs) = ground (arith, length-filter p xs)

abbrev pub contains {ℓ} : {A : Type ℓ} ⦃e : Eq A⦄ → A → List A → Bool
contains a [] = false
contains a (x ∷ xs) = a == x || contains a xs

module _ {ℓ κ} {A : Type ℓ} (P : A → Type κ) where
  abbrev pub All : List A → Type κ
  All [] = Unit
  All (x ∷ xs) = P x × All xs

  pub All-append : (xs ys : List A) → All xs → All ys → All (xs ++ ys)
  All-append [] ys hx hy = hy
  All-append (x ∷ xs) ys hx hy = (hx.0, All-append xs ys hx.1 hy)

-- Two lists of one length, related member by member.
pub data Pointwise {ℓ κ} {A : Type ℓ} (R : A → A → Type κ) : List A → List A → Type (ℓ ⊔ κ) where
  nil : Pointwise R [] []
  cons : {x y : A} {xs ys : List A} → R x y → Pointwise R xs ys → Pointwise R (x ∷ xs) (y ∷ ys)

module _ {ℓ κ} {A : Type ℓ} (R : A → A → Type κ) where
  pub Pointwise-refl : ((x : A) → R x x) → (xs : List A) → Pointwise R xs xs
  Pointwise-refl r [] = nil
  Pointwise-refl r (x ∷ xs) = cons (r x) (Pointwise-refl r xs)

  pub Pointwise-map :
      (f : A → A) → ((x : A) → R x (f x)) → (xs : List A) → Pointwise R xs (map f xs)
  Pointwise-map f r [] = nil
  Pointwise-map f r (x ∷ xs) = cons (r x) (Pointwise-map f r xs)

module _ {ℓ} {A : Type ℓ} where
  -- `next((x for x in xs if p(x)), None)`
  unfoldable pub find_first : (A → Bool) → List A → Option A
  find_first p [] = none
  find_first p (x ∷ xs) = if p x then some x else find_first p xs

  -- A write to the object that `find_first` returned.
  unfoldable pub update_first : (A → Bool) → (A → A) → List A → List A
  update_first p f [] = []
  update_first p f (x ∷ xs) = if p x then f x ∷ xs else x ∷ update_first p f xs

  pub find_first_holds :
      (p : A → Bool) (xs : List A) (x : A) → find_first p xs ≡ some x → p x ≡ true
  unfolding find_first
  find_first_holds p [] x h = absurd (cc)
  find_first_holds p (y ∷ xs) x h = ground (arith, find_first_holds p xs x)

  pub Pointwise-update_first {κ} :
      (R : A → A → Type κ) (p : A → Bool) (f : A → A) (xs : List A)
      → ((x : A) → R x x)
      → ((x : A) → find_first p xs ≡ some x → R x (f x))
      → Pointwise R xs (update_first p f xs)
  unfolding find_first update_first
  Pointwise-update_first R p f [] r h = nil
  Pointwise-update_first R p f (y ∷ xs) r h = elim (Bool-cases (p y)) [
    | inl here ↦ rw here (cons (h y (rw here)) (Pointwise-refl R r xs))
    | inr later ↦
        rw later (cons (r y) (Pointwise-update_first R p f xs r (λ x e. h x (rw later e))))
  ]

pub filter-append {ℓ} :
    {A : Type ℓ} (p : A → Bool) (xs ys : List A) → filter p (xs ++ ys) ≡ filter p xs ++ filter p ys
filter-append p [] ys = refl
filter-append p (x ∷ xs) ys = elim (Bool-cases (p x)) [
  | inl keep ↦ rw (keep, filter-append p xs ys)
  | inr drop ↦ rw (drop, filter-append p xs ys)
]
