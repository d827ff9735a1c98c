-- ===== src/Tests/Ingestion.antt =====
-- Records of a crew feed: in order, repeated, and late (integrations/ingestion.py).
use skysolver.Prelude.{
  ℕ, ◌≤◌, String, ◌≡◌, refl, true, some, List, [], ◌∷◌, nat_eq, string_eq, pair_eq, length,
}
use skysolver.Integrations.Ingestion.Outcomes.Order.{latest_grows}
use skysolver.Integrations.Ingestion.Outcomes.Accounts.{ingest_at_accounts}
use skysolver.Integrations.Ingestion.Outcomes.Repeats.{ingest_again}
use skysolver.Prelude.Result.{ok}
use skysolver.Prelude.Dict.{Dict, lookup, insert}
use skysolver.Prelude.Clock.{Instant}
use skysolver.Integrations.Ingestion.Outcomes.{ingest_all, ingest_at}
use skysolver.Integrations.Ingestion.{
  accepted, acceptance, admit, canonical, map_and_admit, duplicate_of, Mapped, ingest,
  late_findings, out_of_order, SourceRecord, IngestionResult, IngestionEngine,
}

abbrev at_second : ℕ → Instant
at_second s = record { seconds = s; aware = true }

abbrev crew_record : String → ℕ → SourceRecord String
crew_record id t = record {
  event_id = id;
  tenant_id = "airline";
  source_system = "crew-tracking";
  contract_version = "v1";
  aggregate_type = "crew";
  aggregate_id = "CRW-1";
  source_timestamp = at_second t;
  cursor = id;
  payload = ("base", "DEL") ∷ ("name", "A") ∷ [];
}

abbrev mapper : SourceRecord String → Mapped String
mapper r = canonical (record { canonical_id = some r.aggregate_id; fields = r.payload })

abbrev digest : Dict String String → String
digest d = "digest"

abbrev idle : IngestionEngine String
idle = record { seen = []; latest = []; cursors = []; accepted_results = []; dead_letters = [] }

abbrev contracts : List String
contracts = "v1" ∷ []

abbrev now : Instant
now = at_second 50

abbrev on_time : IngestionResult String
on_time = record {
  event_id = "E-2";
  status = accepted;
  canonical_record = some (record { canonical_id = some "CRW-1"; fields = ("base", "DEL") ∷ [] });
  findings = [];
  content_sha256 = "digest";
  ingested_at = now;
}

abbrev after_one : IngestionEngine String
after_one =
    (ingest_at contracts mapper (some ("base" ∷ [])) digest (crew_record "E-2" 20, (now, now))
      idle).1

first_taken :
    (ingest_at contracts mapper
      (some ("base" ∷ []))
      digest
      (crew_record "E-2" 20, (now, now))
      idle).0
    ≡ ok on_time
unfolding ingest_at ingest map_and_admit admit acceptance lookup
first_taken = refl

ingest_again_example :
    ingest_at contracts mapper
      (some ("base" ∷ []))
      digest
      (crew_record "E-2" 20, (at_second 70, now))
      (ingest_all contracts mapper
        (some ("base" ∷ []))
        digest
        ((crew_record "E-1" 10, (now, now)) ∷ [])
        after_one)
    ≡ (
      ok (
          duplicate_of contracts mapper
            (some ("base" ∷ []))
            digest
            (at_second 70)
            now
            (crew_record "E-2" 20)),
      ingest_all contracts mapper
          (some ("base" ∷ []))
          digest
          ((crew_record "E-1" 10, (now, now)) ∷ [])
          after_one,
    )
ingest_again_example =
    ingest_again contracts mapper (some ("base" ∷ [])) digest (crew_record "E-2" 20) now now idle
      on_time ((crew_record "E-1" 10, (now, now)) ∷ []) (at_second 70) now first_taken refl

latest_grows_example :
    (u : Instant) × (lookup
        (("airline", "crew-tracking"), ("crew", "CRW-1"))
        (ingest_all contracts mapper
          (some ("base" ∷ []))
          digest
          ((crew_record "E-1" 10, (now, now)) ∷ [])
          after_one).latest
      ≡ some u)
    × (20 ≤ u.seconds)
unfolding ingest_at ingest map_and_admit admit acceptance lookup insert
latest_grows_example =
    latest_grows contracts mapper (some ("base" ∷ [])) digest
      ((crew_record "E-1" 10, (now, now)) ∷ []) after_one
      (("airline", "crew-tracking"), ("crew", "CRW-1")) (at_second 20) refl

ingest_at_accounts_example :
    (length after_one.accepted_results ≡ 1) × (length after_one.dead_letters ≡ 0)
ingest_at_accounts_example =
    ingest_at_accounts contracts mapper (some ("base" ∷ [])) digest (crew_record "E-2" 20) now now
      idle on_time first_taken

abbrev late : IngestionResult String
late = record on_time { event_id = "E-1"; status = out_of_order; findings = late_findings true }

late_taken :
    (ingest_at contracts mapper
      (some ("base" ∷ []))
      digest
      (crew_record "E-1" 10, (now, now))
      after_one).0
    ≡ ok late
unfolding ingest_at ingest map_and_admit admit acceptance lookup insert
late_taken = refl
