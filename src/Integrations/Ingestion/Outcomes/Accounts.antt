-- ===== src/Integrations/Ingestion/Outcomes/Accounts.antt =====
-- What each call of `ingest` of integrations/ingestion.py adds to the engine.
use skysolver.Prelude.{
  ◌+◌, String, ◌≡◌, refl, sym, ◌∙◌, subst, inl, inr, Bool, true, false, Option, List, arith,
  if◌then◌else◌, nat_eq, string_eq, pair_eq, length, length-append,
}
use skysolver.Prelude.Result.{Result, ok}
use skysolver.Prelude.Dict.{Dict, lookup}
use skysolver.Prelude.Clock.{Instant}
use skysolver.Integrations.Ingestion.{
  is_late, acceptance, aggregate_key, dead_letter, out_of_order, duplicate, accepted, duplicate_of,
  admit, IngestionResult, bury, IngestionEngine, Mapped, IngestionStatus, SourceRecord,
}
use skysolver.Integrations.Ingestion.Outcomes.{
  is_taken, is_dead, one_if, ingest_at, ingest-cases, buried, admitted, again,
}

module _ {V : Type 0} (contracts : List String) (mapper : SourceRecord V → Mapped V)
    (fields : Option (List String)) (digest : Dict String V → String) where
  Accounted : IngestionEngine V → Result String (IngestionResult V) × IngestionEngine V → Type 0
  Accounted s y =
      (z : IngestionResult V)
      → y.0 ≡ ok z
      → (length y.1.accepted_results ≡ length s.accepted_results + one_if (is_taken z.status))
        × (length y.1.dead_letters ≡ length s.dead_letters + one_if (is_dead z.status))

  by_status :
      (s t : IngestionEngine V) (st : IngestionStatus) (z : IngestionResult V)
      → z.status ≡ st
      → length t.accepted_results ≡ length s.accepted_results + one_if (is_taken st)
      → length t.dead_letters ≡ length s.dead_letters + one_if (is_dead st)
      → (length t.accepted_results ≡ length s.accepted_results + one_if (is_taken z.status))
        × (length t.dead_letters ≡ length s.dead_letters + one_if (is_dead z.status))
  by_status s t st z e a d =
      subst
        (λ w.
          (length t.accepted_results ≡ length s.accepted_results + one_if (is_taken w))
          × (length t.dead_letters ≡ length s.dead_letters + one_if (is_dead w)))
        (sym e) (a, d)

  taken_either : (late : Bool) → is_taken (if late then out_of_order else accepted) ≡ true
  taken_either true = refl
  taken_either false = refl

  alive_either : (late : Bool) → is_dead (if late then out_of_order else accepted) ≡ false
  alive_either true = refl
  alive_either false = refl

  -- Every call that returns is accounted for: it adds one accepted result where the record was taken
  -- in, on time or late, one dead letter where it says so, and nothing else to either list.
  pub ingest_at_accounts :
      (r : SourceRecord V) (ingested recorded : Instant) (s : IngestionEngine V)
      (x : IngestionResult V)
      → (ingest_at contracts mapper fields digest (r, (ingested, recorded)) s).0 ≡ ok x
      → (length
            (ingest_at contracts mapper fields digest
              (r, (ingested, recorded))
              s).1.accepted_results
          ≡ length s.accepted_results + one_if (is_taken x.status))
        × (length
              (ingest_at contracts mapper fields digest (r, (ingested, recorded)) s).1.dead_letters
            ≡ length s.dead_letters + one_if (is_dead x.status))
  unfolding buried admitted again bury admit duplicate_of acceptance Accounted
  ingest_at_accounts r ingested recorded s x returned =
      elim (ingest-cases contracts mapper fields digest r ingested recorded s) [
        | inl (code, message, e) ↦
            subst (Accounted s) (sym e)
              (λ z q.
                by_status s
                  (buried contracts mapper fields digest r ingested recorded s code message).1
                  dead_letter z (ground (arith, q)) (omega arith)
                  (length-append s.dead_letters _ ∙ refl))
              x returned
        | inr (inl (_, e)) ↦
            subst (Accounted s) (sym e)
              (λ z q. by_status s s duplicate z (ground (arith, q)) (omega arith) (omega arith)) x
              returned
        | inr (inr (inl (name, e))) ↦
            subst (Accounted s) (sym e) (λ z q. absurd (ground (arith, q))) x returned
        | inr (inr (inr (c, _, _, _, e))) ↦
            let late = is_late (lookup (aggregate_key r) s.latest) r.source_timestamp in
            subst (Accounted s) (sym e)
              (λ z q.
                by_status s (admitted contracts mapper fields digest r ingested recorded s c).1
                  (if late then out_of_order else accepted) z (ground (arith, q))
                  (rw (taken_either late) (length-append s.accepted_results _))
                  (rw (alive_either late) (omega arith)))
              x returned
      ]
