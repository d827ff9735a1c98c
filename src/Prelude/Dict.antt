-- ===== src/Prelude/Dict.antt =====
-- Python's `dict`, in insertion order, with any key type that has an equality.
use mathlib.Core.Path.{◌≡◌, refl, sym, ap, ◌∙◌}
use mathlib.Core.Logic.{◌≢◌, ◌⊎◌, inl, inr}
use mathlib.Core.Option.{Option, none, some}
use mathlib.Core.List.{List, [], ◌∷◌}
use native.Mathlib.Omega.{arith}
use skysolver.Prelude.Tests.{Eq, ◌==◌, if◌then◌else◌, beq_refl, Bool-cases}
use skysolver.Prelude.Lists.{All}

abbrev pub Dict {ℓ} : Type ℓ → Type ℓ → Type ℓ
Dict K V = List (K × V)

module _ {ℓ} {K V : Type ℓ} where
  -- `d.values()` and `d.keys()`
  abbrev pub values : Dict K V → List V
  values [] = []
  values ((_, v) ∷ d) = v ∷ values d

  abbrev pub keys : Dict K V → List K
  keys [] = []
  keys ((k, _) ∷ d) = k ∷ keys d

module _ {ℓ} {K V : Type ℓ} ⦃e : Eq K⦄ where
  -- `d.get(k)`
  unfoldable pub lookup : K → Dict K V → Option V
  lookup k [] = none
  lookup k ((j, v) ∷ d) = if j == k then some v else lookup k d

  -- `d[k] = v`
  unfoldable pub insert : K → V → Dict K V → Dict K V
  insert k v [] = (k, v) ∷ []
  insert k v ((j, w) ∷ d) = if j == k then (j, v) ∷ d else (j, w) ∷ insert k v d

  -- `d.pop(k, None)`
  unfoldable pub erase : K → Dict K V → Dict K V
  erase k [] = []
  erase k ((j, w) ∷ d) = let rest = erase k d in if j == k then rest else (j, w) ∷ rest

  pub lookup-insert :
      (j k : K) (v : V) (d : Dict K V)
      → lookup j (insert k v d) ≡ (if k == j then some v else lookup j d)
  unfolding lookup insert
  lookup-insert j k v [] = refl
  lookup-insert j k v ((i, w) ∷ d) =
      ground (arith, e.beq_iff i k, e.beq_iff i j, e.beq_iff k j, lookup-insert j k v d)

  pub lookup-erase :
      (j k : K) (d : Dict K V) → lookup j (erase k d) ≡ (if k == j then none else lookup j d)
  unfolding lookup erase
  lookup-erase j k [] = ground arith
  lookup-erase j k ((i, w) ∷ d) =
      ground (arith, e.beq_iff i k, e.beq_iff i j, e.beq_iff k j, lookup-erase j k d)

  pub lookup-insert_self : (k : K) (v : V) (d : Dict K V) → lookup k (insert k v d) ≡ some v
  lookup-insert_self k v d = rw lookup-insert (rw (beq_refl k))

  -- Writing a key twice is writing it once.
  pub insert-insert : (k : K) (v w : V) (d : Dict K V) → insert k v (insert k w d) ≡ insert k v d
  unfolding insert
  insert-insert k v w [] = rw (beq_refl k)
  insert-insert k v w ((j, x) ∷ d) = ground (arith, insert-insert k v w d)

  pub lookup-insert_ne :
      (j k : K) (v : V) (d : Dict K V) → j ≢ k → lookup j (insert k v d) ≡ lookup j d
  lookup-insert_ne j k v d h = rw lookup-insert (ground (arith, e.beq_iff k j))

  -- A predicate of every stored value.
  pub All-lookup :
      (P : V → Type ℓ) (k : K) (v : V) (d : Dict K V) → All P (values d) → lookup k d ≡ some v → P v
  unfolding lookup
  All-lookup P k v [] h q = absurd (cc)
  All-lookup P k v ((j, w) ∷ d) h q = ground (arith, All-lookup P k v d h.1)

  pub All-insert :
      (P : V → Type ℓ) (k : K) (v : V) (d : Dict K V)
      → All P (values d)
      → P v
      → All P (values (insert k v d))
  unfolding insert
  All-insert P k v [] h p = (p, tt)
  All-insert P k v ((j, w) ∷ d) h p = elim (Bool-cases (j == k)) [
    | inl same ↦ rw same (p, h.1)
    | inr other ↦ rw other (h.0, All-insert P k v d h.1 p)
  ]

  pub All-erase :
      (P : V → Type ℓ) (k : K) (d : Dict K V) → All P (values d) → All P (values (erase k d))
  unfolding erase
  All-erase P k [] h = tt
  All-erase P k ((j, w) ∷ d) h = elim (Bool-cases (j == k)) [
    | inl same ↦ rw same (All-erase P k d h.1)
    | inr other ↦ rw other (h.0, All-erase P k d h.1)
  ]

  -- What is found after a write is what was written, or was there before.
  pub insert-cases :
      (j k : K) (v w : V) (d : Dict K V)
      → lookup j (insert k v d) ≡ some w
      → ((k ≡ j) × (v ≡ w)) ⊎ ((j ≢ k) × (lookup j d ≡ some w))
  insert-cases j k v w d h = elim (Bool-cases (k == j)) [
    | inl same ↦ inl ((e.beq_iff k j).0 same, ground (arith, sym (lookup-insert j k v d) ∙ h))
    | inr other ↦ inr (
      λ q. absurd (ground (arith, (e.beq_iff k j).1 (sym q))),
      ground (arith, sym (lookup-insert j k v d) ∙ h),
    )
  ]

  pub lookup-erase_ne : (j k : K) (d : Dict K V) → j ≢ k → lookup j (erase k d) ≡ lookup j d
  lookup-erase_ne j k d h = rw lookup-erase (ground (arith, e.beq_iff k j))

  -- What is found after an erasure was there before, under another key.
  pub erase-cases :
      (j k : K) (w : V) (d : Dict K V)
      → lookup j (erase k d) ≡ some w
      → (j ≢ k) × (lookup j d ≡ some w)
  erase-cases j k w d h = elim (Bool-cases (k == j)) [
    | inl same ↦ absurd (ground (arith, sym (lookup-erase j k d) ∙ h))
    | inr other ↦ (
      λ q. absurd (ground (arith, (e.beq_iff k j).1 (sym q))),
      ground (arith, sym (lookup-erase j k d) ∙ h),
    )
  ]

  pub lookup_unique :
      (j k : K) (v w : V) (d : Dict K V) → lookup j d ≡ some v → lookup k d ≡ some w → j ≡ k → v ≡ w
  lookup_unique j k v w d a b q = ground (arith, sym a ∙ ap (λ i. lookup i d) q ∙ b)

pub ruleset dict_laws = (lookup-insert, lookup-erase)
