-- ===== src/Integrations/Ingestion/Outcomes.antt =====
-- How a call of `ingest` of integrations/ingestion.py ends, and sequences of calls.
pub mod Repeats
pub mod Order
pub mod Accounts
use skysolver.Prelude.{
  ℕ, ◌+◌, ◌≤◌, ◌<◌, String, ◌≡◌, refl, sym, ap, ◌∙◌, subst, ◌↔◌, ◌⊎◌, inl, inr, Bool, true, false,
  Option, none, some, List, [], ◌∷◌, arith, if◌then◌else◌, ◌==◌, nat_eq, string_eq, pair_eq,
  beq_refl, eq_of_beq, Bool-cases, Option-cases, length, length-append, contains,
}
use skysolver.Prelude.Result.{Result, ok, err}
use skysolver.Prelude.Dict.{Dict, lookup, lookup-insert, lookup-insert_self, lookup-insert_ne}
use Prim.Native.String.{◌++◌ as append}
use skysolver.Prelude.Clock.{Instant}
use skysolver.Integrations.Ingestion.{
  is_late, acceptance, newest, aggregate_key, other_error, value_error, contract_error, minimized,
  canonical, map_and_admit, dead_letter, out_of_order, duplicate, accepted, CanonicalRecord,
  duplicate_of, admit, IngestionResult, event_key, bury, ingest, IngestionEngine, Mapped,
  IngestionStatus, SourceRecord,
}

abbrev pub is_taken : IngestionStatus → Bool
is_taken accepted = true
is_taken out_of_order = true
is_taken duplicate = false
is_taken dead_letter = false

abbrev pub is_dead : IngestionStatus → Bool
is_dead dead_letter = true
is_dead accepted = false
is_dead out_of_order = false
is_dead duplicate = false

abbrev pub one_if : Bool → ℕ
one_if true = 1
one_if false = 0

module _ {V : Type 0} (contracts : List String) (mapper : SourceRecord V → Mapped V)
    (fields : Option (List String)) (digest : Dict String V → String) where
  -- One call, with its record and its two readings of the clock.
  unfoldable pub ingest_at :
      SourceRecord V × (Instant × Instant)
      → IngestionEngine V
      → Result String (IngestionResult V) × IngestionEngine V
  unfolding ingest
  ingest_at (r, (ingested, recorded)) s =
      ingest contracts mapper fields digest ingested recorded r s

  unfoldable pub ingest_all :
      List (SourceRecord V × (Instant × Instant)) → IngestionEngine V → IngestionEngine V
  unfolding ingest_at
  ingest_all [] s = s
  ingest_all (c ∷ cs) s = ingest_all cs (ingest_at c s).1

  module _ (r : SourceRecord V) (ingested recorded : Instant) (s : IngestionEngine V) where
    pub buried : String → String → Result String (IngestionResult V) × IngestionEngine V
    unfolding bury
    buried code message = bury contracts mapper fields digest ingested recorded r code message s

    pub admitted : CanonicalRecord V → Result String (IngestionResult V) × IngestionEngine V
    unfolding admit
    admitted c = admit contracts mapper fields digest ingested recorded r c s

    pub again : Result String (IngestionResult V) × IngestionEngine V
    unfolding duplicate_of
    again = (ok (duplicate_of contracts mapper fields digest ingested recorded r), s)

    mapped-cases :
        (m : Mapped V)
        → ((code : String) × (message : String) × (map_and_admit contracts mapper fields digest
                ingested recorded r m s
              ≡ buried code message))
          ⊎ (((name : String) × (map_and_admit contracts mapper fields digest ingested recorded r m
                    s
                  ≡ (err name, s)))
              ⊎ ((c : CanonicalRecord V) × (map_and_admit contracts mapper fields digest ingested
                      recorded r m s
                    ≡ admitted c)))
    unfolding map_and_admit buried admitted
    mapped-cases (canonical c) = inr (inr (c, refl))
    mapped-cases (contract_error code message) = inl (code, message, refl)
    mapped-cases (value_error message) = inl ("CANONICAL_MAPPING_FAILED", message, refl)
    mapped-cases (other_error name) = inr (inl (name, refl))

    -- The ends of a call: in the dead letters, a duplicate, an exception, or taken in.
    pub ingest-cases :
        ((code : String) × (message : String) × (ingest_at (r, (ingested, recorded)) s
            ≡ buried code message))
        ⊎ (((lookup (event_key r) s.seen ≡ some (digest r.payload))
              × (ingest_at (r, (ingested, recorded)) s ≡ again))
            ⊎ (((name : String) × (ingest_at (r, (ingested, recorded)) s ≡ (err name, s)))
                ⊎ ((c : CanonicalRecord V) × (lookup (event_key r) s.seen ≡ none)
                    × (r.source_timestamp.aware ≡ true)
                    × (contains r.contract_version contracts ≡ true)
                    × (ingest_at (r, (ingested, recorded)) s ≡ admitted c))))
    unfolding ingest ingest_at buried admitted again
    ingest-cases = elim (Bool-cases r.source_timestamp.aware) [
      | inr naive ↦ inl (
        "NAIVE_SOURCE_TIMESTAMP",
        "Source timestamp must be timezone-aware",
        rw (naive, ingest) refl,
      )
      | inl aware ↦ elim (Bool-cases (contains r.contract_version contracts)) [
        | inr unknown ↦ inl (
          "UNSUPPORTED_CONTRACT",
          append "Unsupported contract version " r.contract_version,
          rw (aware, ingest) (rw (unknown, ingest) refl),
        )
        | inl known ↦ elim (Option-cases (lookup (event_key r) s.seen)) [
          | inl new ↦
              let first : ingest_at (r, (ingested, recorded)) s
                  ≡ map_and_admit contracts mapper fields digest ingested recorded r
                      (mapper (minimized fields r)) s =
                ground (arith, aware, known, new) in
              elim (mapped-cases (mapper (minimized fields r))) [
                | inl (code, message, e) ↦ inl (code, message, first ∙ e)
                | inr (inl (name, e)) ↦ inr (inr (inl (name, first ∙ e)))
                | inr (inr (c, e)) ↦ inr (inr (inr (c, new, aware, known, first ∙ e)))
              ]
          | inr (old, there) ↦ elim (Bool-cases (old == digest r.payload)) [
            | inl same ↦ inr (
                inl (
                  there ∙ ap some (eq_of_beq old (digest r.payload) same),
                  rw (aware, ingest)
                      (rw (known, ingest) (rw (there, ingest) (rw (same, ingest) refl))),
                ))
            | inr other ↦ inl (
              "EVENT_ID_COLLISION",
              "Event ID was reused with different content",
              rw (aware, ingest)
                  (rw (known, ingest) (rw (there, ingest) (rw (other, ingest) refl))),
            )
          ]
        ]
      ]
    ]
