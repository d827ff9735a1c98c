-- ===== src/Integrations/Ingestion.antt =====
-- integrations/ingestion.py: the engine that takes in the records of the carrier's systems. The
-- digest of a payload and the mapper to the canonical form are parameters; an error of the mapper is
-- a `Mapped`. The values of a payload are of any type. The two readings of the clock, the time of
-- ingestion and that of a dead letter, are arguments.
pub mod Outcomes
pub mod Drift
use skysolver.Prelude.{
  ℕ, zero, suc, ◌+◌, ◌-◌, ◌*◌, ◌≤◌, ◌<◌, String, ◌≡◌, refl, sym, ap, ◌∙◌, subst, ◌≢◌, ◌↔◌, ◌⊎◌, inl,
  inr, Bool, true, false, not, ◌&&◌, ◌||◌, Option, none, some, List, [], ◌∷◌, ◌++◌, map, arith,
  eq_iff, ltb, leb, before_text, nat_beq, nat_beq_iff, if◌then◌else◌, Eq, ◌==◌, ◌!=◌, nat_eq,
  string_eq, pair_eq, beq_refl, eq_of_beq, Bool-cases, Option-cases, is_none, is_some, length,
  is_empty, any, all, filter, length-append, contains, filter-append, All, All-append, Pointwise,
  Pointwise-refl, Pointwise-map, find_first, update_first, find_first_holds, Pointwise-update_first,
}
use skysolver.Prelude.Exec.{Exec, pure, raise, gets, modify, raise_if, or_raise, lift, ◌>>=◌, ◌>>◌}
use skysolver.Prelude.Result.{Result, ok, err, Result-cases}
use skysolver.Prelude.Dict.{
  Dict, lookup, insert, erase, values, keys, lookup-insert, lookup-erase, insert-insert,
  lookup-insert_self, lookup-insert_ne, All-lookup, All-insert, All-erase, insert-cases,
  lookup-erase_ne, erase-cases, lookup_unique,
}
use skysolver.Prelude.Sets.{sorted_set}
use Prim.Native.String.{◌++◌ as append}
use skysolver.Prelude.Clock.{Instant, before}

pub data IngestionStatus : Type 0 where
  accepted duplicate out_of_order dead_letter : IngestionStatus

pub record SourceRecord (V : Type 0) : Type 0 where
  pub event_id : String
  pub tenant_id : String
  pub source_system : String
  pub contract_version : String
  pub aggregate_type : String
  pub aggregate_id : String
  pub source_timestamp : Instant
  pub cursor : String
  pub payload : Dict String V

-- What the mapper makes: a dictionary, with its entry `canonical_id` apart.
pub record CanonicalRecord (V : Type 0) : Type 0 where
  pub canonical_id : Option String
  pub fields : Dict String V

pub record Finding : Type 0 where
  pub code : String
  pub severity : String
  pub message : String

pub record IngestionResult (V : Type 0) : Type 0 where
  pub event_id : String
  pub status : IngestionStatus
  pub canonical_record : Option (CanonicalRecord V)
  pub findings : List Finding
  pub content_sha256 : String
  pub ingested_at : Instant

pub record DeadLetter : Type 0 where
  pub event_id : String
  pub tenant_id : String
  pub source_system : String
  pub code : String
  pub message : String
  pub payload_sha256 : String
  pub recorded_at : Instant

-- How a call of the mapper ends; the last case is an exception that `ingest` does not catch.
pub data Mapped (V : Type 0) : Type 0 where
  canonical : CanonicalRecord V → Mapped V
  contract_error : String → String → Mapped V
  value_error : String → Mapped V
  other_error : String → Mapped V

pub record IngestionEngine (V : Type 0) : Type 0 where
  pub seen : Dict ((String × String) × String) String
  pub latest : Dict ((String × String) × (String × String)) Instant
  pub cursors : Dict (String × String) String
  pub accepted_results : List (IngestionResult V)
  pub dead_letters : List DeadLetter

abbrev pub is_late : Option Instant → Instant → Bool
is_late none t = false
is_late (some previous) t = before t previous

-- `max(previous, t) if previous else t`
abbrev pub newest : Option Instant → Instant → Instant
newest none t = t
newest (some previous) t = if before previous t then t else previous

abbrev pub late_findings : Bool → List Finding
late_findings true =
    record {
      code = "OUT_OF_ORDER_SOURCE_EVENT";
      severity = "warning";
      message = "Accepted for event history; current projection must retain the newer version.";
    }
    ∷ []
late_findings false = []

abbrev pub without : List String → List String → List String
without xs ys = filter (λ x. not (contains x ys)) xs

module _ {V : Type 0} where
  abbrev pub event_key : SourceRecord V → (String × String) × String
  event_key r = ((r.tenant_id, r.source_system), r.event_id)

  abbrev pub aggregate_key : SourceRecord V → (String × String) × (String × String)
  aggregate_key r = ((r.tenant_id, r.source_system), (r.aggregate_type, r.aggregate_id))

  abbrev pub keep_fields : List String → Dict String V → Dict String V
  keep_fields allowed [] = []
  keep_fields allowed ((k, v) ∷ d) =
      let rest = keep_fields allowed d in if contains k allowed then (k, v) ∷ rest else rest

  abbrev pub minimized : Option (List String) → SourceRecord V → SourceRecord V
  minimized none r = r
  minimized (some allowed) r = record r { payload = keep_fields allowed r.payload }

  module _ (supported_contracts : List String) (mapper : SourceRecord V → Mapped V)
      (allowed_fields : Option (List String)) (digest : Dict String V → String)
      (ingested recorded : Instant) where
    -- `_dead_letter`
    unfoldable pub bury :
        SourceRecord V
        → String
        → String
        → IngestionEngine V
        → Result String (IngestionResult V) × IngestionEngine V
    bury r code message s = (
      ok (record {
        event_id = r.event_id;
        status = dead_letter;
        canonical_record = none;
        findings = record { code = code; severity = "blocking"; message = message } ∷ [];
        content_sha256 = digest r.payload;
        ingested_at = ingested;
      }),
      record s {
        dead_letters =
            s.dead_letters
            ++ (record {
              event_id = r.event_id;
              tenant_id = r.tenant_id;
              source_system = r.source_system;
              code = code;
              message = message;
              payload_sha256 = digest r.payload;
              recorded_at = recorded;
            }
                ∷ []);
      },
    )

    unfoldable pub duplicate_of : SourceRecord V → IngestionResult V
    duplicate_of r = record {
      event_id = r.event_id;
      status = duplicate;
      canonical_record = none;
      findings = [];
      content_sha256 = digest r.payload;
      ingested_at = ingested;
    }

    unfoldable pub acceptance : SourceRecord V → CanonicalRecord V → Bool → IngestionResult V
    acceptance r c late = record {
      event_id = r.event_id;
      status = if late then out_of_order else accepted;
      canonical_record = some c;
      findings = late_findings late;
      content_sha256 = digest r.payload;
      ingested_at = ingested;
    }

    unfoldable pub admit :
        SourceRecord V
        → CanonicalRecord V
        → IngestionEngine V
        → Result String (IngestionResult V) × IngestionEngine V
    unfolding acceptance
    admit r c s =
        let previous = lookup (aggregate_key r) s.latest in
        let result = acceptance r c (is_late previous r.source_timestamp) in
        (
          ok result,
          record {
            seen = insert (event_key r) (digest r.payload) s.seen;
            latest = insert (aggregate_key r) (newest previous r.source_timestamp) s.latest;
            cursors = insert (r.tenant_id, r.source_system) r.cursor s.cursors;
            accepted_results = s.accepted_results ++ (result ∷ []);
            dead_letters = s.dead_letters;
          },
        )

    -- The part of `ingest` from the call of the mapper on.
    unfoldable pub map_and_admit :
        SourceRecord V
        → Mapped V
        → IngestionEngine V
        → Result String (IngestionResult V) × IngestionEngine V
    unfolding bury admit
    map_and_admit r (canonical c) s = admit r c s
    map_and_admit r (contract_error code message) s = bury r code message s
    map_and_admit r (value_error message) s = bury r "CANONICAL_MAPPING_FAILED" message s
    map_and_admit r (other_error name) s = (err name, s)

    unfoldable pub ingest :
        SourceRecord V → IngestionEngine V → Result String (IngestionResult V) × IngestionEngine V
    unfolding bury duplicate_of map_and_admit
    ingest r s =
        if not r.source_timestamp.aware
        then bury r "NAIVE_SOURCE_TIMESTAMP" "Source timestamp must be timezone-aware" s
        else if not (contains r.contract_version supported_contracts)
        then bury r "UNSUPPORTED_CONTRACT"
            (append "Unsupported contract version " r.contract_version) s
        else elim (lookup (event_key r) s.seen) [
          | none ↦ map_and_admit r (mapper (minimized allowed_fields r)) s
          | some old ↦
              if old != digest r.payload
              then bury r "EVENT_ID_COLLISION" "Event ID was reused with different content" s
              else (ok (duplicate_of r), s)
        ]

  -- `cursor`
  unfoldable pub cursor_of : String → String → IngestionEngine V → Option String
  cursor_of tenant source s = lookup (tenant, source) s.cursors

  abbrev pub canonical_id_of : Option (CanonicalRecord V) → List String → List String
  canonical_id_of none ids = ids
  canonical_id_of (some c) ids = elim c.canonical_id [ none ↦ ids | some id ↦ id ∷ ids ]

  abbrev pub accepted_ids : List (IngestionResult V) → List String
  accepted_ids [] = []
  accepted_ids (x ∷ xs) = canonical_id_of x.canonical_record (accepted_ids xs)

  -- `reconcile`: what is missing here, and what is missing at the source.
  unfoldable pub reconcile : List String → IngestionEngine V → List String × List String
  reconcile authoritative s = (
    sorted_set (without authoritative (accepted_ids s.accepted_results)),
    sorted_set (without (accepted_ids s.accepted_results) authoritative),
  )
