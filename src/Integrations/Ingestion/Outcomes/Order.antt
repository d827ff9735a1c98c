-- ===== src/Integrations/Ingestion/Outcomes/Order.antt =====
-- The times that `ingest` of integrations/ingestion.py keeps for each aggregate.
use skysolver.Prelude.{
  ◌≤◌, ◌<◌, String, ◌≡◌, sym, ap, ◌∙◌, subst, ◌↔◌, inl, inr, true, Option, some, List, [], ◌∷◌,
  arith, if◌then◌else◌, ◌==◌, nat_eq, string_eq, pair_eq, eq_of_beq, Bool-cases, Option-cases,
}
use skysolver.Prelude.Result.{ok}
use skysolver.Prelude.Dict.{Dict, lookup, lookup-insert}
use skysolver.Prelude.Clock.{Instant}
use skysolver.Integrations.Ingestion.{
  is_late, acceptance, newest, aggregate_key, out_of_order, accepted, duplicate_of, admit,
  IngestionResult, bury, IngestionEngine, Mapped, SourceRecord,
}
use skysolver.Integrations.Ingestion.Outcomes.{
  is_taken, ingest_at, ingest_all, ingest-cases, buried, admitted, again,
}

module _ {V : Type 0} (contracts : List String) (mapper : SourceRecord V → Mapped V)
    (fields : Option (List String)) (digest : Dict String V → String) where
  latest_grows_here :
      (r : SourceRecord V) (ingested recorded : Instant) (s : IngestionEngine V)
      (k : (String × String) × (String × String)) (t : Instant)
      → lookup k s.latest ≡ some t
      → (u : Instant) × (lookup k
            (ingest_at contracts mapper fields digest (r, (ingested, recorded)) s).1.latest
          ≡ some u)
        × (t.seconds ≤ u.seconds)
  unfolding buried admitted again bury admit
  latest_grows_here r ingested recorded s k t known =
      elim (ingest-cases contracts mapper fields digest r ingested recorded s) [
        | inl (code, message, e) ↦
            (t, subst (λ y. lookup k y.1.latest ≡ some t) (sym e) known, omega arith)
        | inr (inl (_, e)) ↦
            (t, subst (λ y. lookup k y.1.latest ≡ some t) (sym e) known, omega arith)
        | inr (inr (inl (name, e))) ↦
            (t, subst (λ y. lookup k y.1.latest ≡ some t) (sym e) known, omega arith)
        | inr (inr (inr (c, new, _, _, e))) ↦ elim (Bool-cases (aggregate_key r == k)) [
          | inl same ↦ (
            newest (some t) r.source_timestamp,
            subst (λ y. lookup k y.1.latest ≡ some (newest (some t) r.source_timestamp)) (sym e)
                (lookup-insert k (aggregate_key r)
                    (newest (lookup (aggregate_key r) s.latest) r.source_timestamp) s.latest
                  ∙ rw same (
                      ap (λ o. some (newest o r.source_timestamp))
                        (ap (λ j. lookup j s.latest) (eq_of_beq (aggregate_key r) k same)
                          ∙ known))),
            ground arith,
          )
          | inr other ↦ (
            t,
            subst (λ y. lookup k y.1.latest ≡ some t) (sym e)
                (lookup-insert k (aggregate_key r)
                    (newest (lookup (aggregate_key r) s.latest) r.source_timestamp) s.latest
                  ∙ rw other known),
            omega arith,
          )
        ]
      ]

  -- The time that is stored for an aggregate never goes back, whatever calls
  -- follow.
  pub latest_grows :
      (cs : List (SourceRecord V × (Instant × Instant))) (s : IngestionEngine V)
      (k : (String × String) × (String × String)) (t : Instant)
      → lookup k s.latest ≡ some t
      → (u : Instant) × (lookup k (ingest_all contracts mapper fields digest cs s).latest ≡ some u)
        × (t.seconds ≤ u.seconds)
  unfolding ingest_all
  latest_grows [] s k t known = (t, known, omega arith)
  latest_grows ((r, (i, e)) ∷ cs) s k t known =
      let (u, stored, above) = latest_grows_here r i e s k t known in
      let (v, kept, over) =
        latest_grows cs (ingest_at contracts mapper fields digest (r, (i, e)) s).1 k u stored in
      (v, kept, omega (arith, above, over))

  -- A record that is taken in is marked as out of order exactly when a later one of the same aggregate
  -- was taken in before it.
  pub ingest_order :
      (r : SourceRecord V) (ingested recorded : Instant) (s : IngestionEngine V)
      (x : IngestionResult V)
      → (ingest_at contracts mapper fields digest (r, (ingested, recorded)) s).0 ≡ ok x
      → is_taken x.status ≡ true
      → (x.status ≡ out_of_order) ↔ (
          (t : Instant) × (lookup (aggregate_key r) s.latest ≡ some t)
          × (r.source_timestamp.seconds < t.seconds))
  unfolding buried admitted again bury admit duplicate_of acceptance
  ingest_order r ingested recorded s x returned taken =
      elim (ingest-cases contracts mapper fields digest r ingested recorded s) [
        | inl (code, message, e) ↦ absurd (ground (arith, sym (ap (λ y. y.0) e) ∙ returned))
        | inr (inl (_, e)) ↦ absurd (ground (arith, sym (ap (λ y. y.0) e) ∙ returned))
        | inr (inr (inl (name, e))) ↦ absurd (ground (arith, sym (ap (λ y. y.0) e) ∙ returned))
        | inr (inr (inr (c, _, _, _, e))) ↦
            let marked : x.status ≡ (
                if is_late (lookup (aggregate_key r) s.latest) r.source_timestamp
                then out_of_order
                else accepted) =
              ground (arith, sym (ap (λ y. y.0) e) ∙ returned) in
            elim (Option-cases (lookup (aggregate_key r) s.latest)) [
              | inl first ↦ (
                λ o. absurd (ground (arith, rw first at marked)),
                λ w. absurd (ground (arith, sym first ∙ w.1)),
              )
              | inr (t, newer) ↦ (
                λ o. (t, newer, ground (arith, rw newer at marked)),
                λ w. ground (arith, rw newer at marked, sym newer ∙ w.1, w.2),
              )
            ]
      ]
