-- ===== src/Integrations/Ingestion/Drift.antt =====
-- What `reconcile` of integrations/ingestion.py reports against the identifiers of the source.
use skysolver.Prelude.{
  String, ◌≡◌, refl, ap, ◌∙◌, inl, inr, not, ◌&&◌, List, [], ◌∷◌, arith, ◌==◌, nat_eq, string_eq,
  pair_eq, eq_of_beq, Bool-cases, contains,
}
use skysolver.Prelude.Sets.{contains-sorted_set}
use skysolver.Integrations.Ingestion.{accepted_ids, IngestionEngine, reconcile, without}

contains-without :
    (r : String) (xs ys : List String)
    → contains r (without xs ys) ≡ (contains r xs && not (contains r ys))
contains-without r [] ys = refl
contains-without r (x ∷ xs) ys = elim (Bool-cases (r == x)) [
  | inl same ↦
      let there : contains r ys ≡ contains x ys = ap (λ z. contains z ys) (eq_of_beq r x same) in
      ground (arith, there, same, contains-without r xs ys)
  | inr other ↦ ground (arith, other, contains-without r xs ys)
]

module _ {V : Type 0} where
  -- Reconciliation reports exactly the drift: an identifier is missing locally just when the source
  -- has it and no accepted record does, and missing at the source just when it is the other way.
  pub reconcile_exact :
      (authoritative : List String) (s : IngestionEngine V) (r : String)
      → (contains r (reconcile authoritative s).0
          ≡ (contains r authoritative && not (contains r (accepted_ids s.accepted_results))))
        × (contains r (reconcile authoritative s).1
            ≡ (contains r (accepted_ids s.accepted_results) && not (contains r authoritative)))
  unfolding reconcile
  reconcile_exact authoritative s r = (
    contains-sorted_set r _ ∙ contains-without r authoritative (accepted_ids s.accepted_results),
    contains-sorted_set r _ ∙ contains-without r (accepted_ids s.accepted_results) authoritative,
  )
