-- ===== src/Integrations/Ingestion/Outcomes/Repeats.antt =====
-- A record that `ingest` of integrations/ingestion.py has taken in, and what comes of it later.
use skysolver.Prelude.{
  String, ◌≡◌, sym, ap, ◌∙◌, subst, inl, inr, true, Option, some, List, [], ◌∷◌, arith, nat_eq,
  string_eq, pair_eq, beq_refl, contains,
}
use skysolver.Prelude.Result.{ok}
use skysolver.Prelude.Dict.{Dict, lookup, lookup-insert_self, lookup-insert_ne}
use skysolver.Prelude.Clock.{Instant}
use skysolver.Integrations.Ingestion.{
  duplicate_of, admit, IngestionResult, event_key, bury, ingest, IngestionEngine, Mapped,
  SourceRecord,
}
use skysolver.Integrations.Ingestion.Outcomes.{
  is_taken, ingest_at, ingest_all, ingest-cases, buried, admitted, again,
}

module _ {V : Type 0} (contracts : List String) (mapper : SourceRecord V → Mapped V)
    (fields : Option (List String)) (digest : Dict String V → String) where
  seen_stays_here :
      (r : SourceRecord V) (ingested recorded : Instant) (s : IngestionEngine V)
      (k : (String × String) × String) (d : String)
      → lookup k s.seen ≡ some d
      → lookup k (ingest_at contracts mapper fields digest (r, (ingested, recorded)) s).1.seen
        ≡ some d
  unfolding buried admitted again bury admit
  seen_stays_here r ingested recorded s k d known =
      elim (ingest-cases contracts mapper fields digest r ingested recorded s) [
        | inl (code, message, e) ↦ subst (λ y. lookup k y.1.seen ≡ some d) (sym e) known
        | inr (inl (_, e)) ↦ subst (λ y. lookup k y.1.seen ≡ some d) (sym e) known
        | inr (inr (inl (name, e))) ↦ subst (λ y. lookup k y.1.seen ≡ some d) (sym e) known
        | inr (inr (inr (c, new, _, _, e))) ↦
            subst (λ y. lookup k y.1.seen ≡ some d) (sym e)
              (lookup-insert_ne k (event_key r) (digest r.payload) s.seen (λ q.
                  absurd
                    (ground (arith, sym (subst (λ j. lookup j s.seen ≡ some d) q known) ∙ new)))
                ∙ known)
      ]

  seen_stays :
      (cs : List (SourceRecord V × (Instant × Instant))) (s : IngestionEngine V)
      (k : (String × String) × String) (d : String)
      → lookup k s.seen ≡ some d
      → lookup k (ingest_all contracts mapper fields digest cs s).seen ≡ some d
  unfolding ingest_all
  seen_stays [] s k d known = known
  seen_stays ((r, (i, e)) ∷ cs) s k d known =
      seen_stays cs (ingest_at contracts mapper fields digest (r, (i, e)) s).1 k d
        (seen_stays_here r i e s k d known)

  taken_seen :
      (r : SourceRecord V) (ingested recorded : Instant) (s : IngestionEngine V)
      (x : IngestionResult V)
      → (ingest_at contracts mapper fields digest (r, (ingested, recorded)) s).0 ≡ ok x
      → is_taken x.status ≡ true
      → (lookup
            (event_key r)
            (ingest_at contracts mapper fields digest (r, (ingested, recorded)) s).1.seen
          ≡ some (digest r.payload))
        × (r.source_timestamp.aware ≡ true)
        × (contains r.contract_version contracts ≡ true)
  unfolding buried admitted again bury admit duplicate_of
  taken_seen r ingested recorded s x returned taken =
      elim (ingest-cases contracts mapper fields digest r ingested recorded s) [
        | inl (code, message, e) ↦ absurd (ground (arith, sym (ap (λ y. y.0) e) ∙ returned))
        | inr (inl (_, e)) ↦ absurd (ground (arith, sym (ap (λ y. y.0) e) ∙ returned))
        | inr (inr (inl (name, e))) ↦ absurd (ground (arith, sym (ap (λ y. y.0) e) ∙ returned))
        | inr (inr (inr (c, new, aware, known, e))) ↦ (
          subst (λ y. lookup (event_key r) y.1.seen ≡ some (digest r.payload)) (sym e)
              (lookup-insert_self (event_key r) (digest r.payload) s.seen),
          aware,
          known,
        )
      ]

  again_same :
      (r : SourceRecord V) (ingested recorded : Instant) (s : IngestionEngine V)
      → lookup (event_key r) s.seen ≡ some (digest r.payload)
      → r.source_timestamp.aware ≡ true
      → contains r.contract_version contracts ≡ true
      → ingest_at contracts mapper fields digest (r, (ingested, recorded)) s
        ≡ (ok (duplicate_of contracts mapper fields digest ingested recorded r), s)
  unfolding ingest_at ingest
  again_same r ingested recorded s there aware known =
      ground (arith, there, aware, known, beq_refl (digest r.payload))

  -- A record that was taken in, on time or late, is taken in once: after any further calls the same
  -- record is a duplicate, and that call changes nothing.
  pub ingest_again :
      (r : SourceRecord V) (ingested recorded : Instant) (s : IngestionEngine V)
      (x : IngestionResult V) (cs : List (SourceRecord V × (Instant × Instant)))
      (later later_recorded : Instant)
      → (ingest_at contracts mapper fields digest (r, (ingested, recorded)) s).0 ≡ ok x
      → is_taken x.status ≡ true
      → ingest_at contracts mapper fields digest
          (r, (later, later_recorded))
          (ingest_all contracts mapper fields digest cs
            (ingest_at contracts mapper fields digest (r, (ingested, recorded)) s).1)
        ≡ (
          ok (duplicate_of contracts mapper fields digest later later_recorded r),
          ingest_all contracts mapper fields digest cs
              (ingest_at contracts mapper fields digest (r, (ingested, recorded)) s).1,
        )
  ingest_again r ingested recorded s x cs later later_recorded returned taken =
      let (there, aware, known) = taken_seen r ingested recorded s x returned taken in
      again_same r later later_recorded
        (ingest_all contracts mapper fields digest cs
          (ingest_at contracts mapper fields digest (r, (ingested, recorded)) s).1)
        (seen_stays cs (ingest_at contracts mapper fields digest (r, (ingested, recorded)) s).1
          (event_key r) (digest r.payload) there)
        aware known
