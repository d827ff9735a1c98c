-- ===== src/Core/Candidates/Creation.antt =====
-- What `CandidateLifecycle.create` stores (core/candidate_lifecycle.py).
use skysolver.Prelude.{
  ◌≤◌, ◌<◌, String, ◌≡◌, true, false, List, [], ◌∷◌, ◌++◌, arith, eq_iff, nat_eq, string_eq,
  pair_eq, length,
}
use skysolver.Core.Candidates.{
  stored, CandidateRejected, create, ImmutableCandidate, known_tier, ArtifactReference, Instant,
  Content, CandidateDraft,
}
use skysolver.Prelude.Result.{err, ok}

-- A draft that may become a candidate at this time.
pub record IsAdmissible {Item : Type 0} (draft : CandidateDraft Item) (now : Instant) : Type 0 where
  pub versioned : 1 ≤ draft.state_version
  pub zoned : draft.expires_at.aware ≡ true
  pub alive : now.seconds < draft.expires_at.seconds
  pub tier : known_tier draft.solver_tier ≡ true
  pub counted : draft.metrics.legal_assignments ≡ length draft.assignments

abbrev pub content : {Item : Type 0} → CandidateDraft Item → String → Instant → Content Item
content draft id now = record {
  candidate_id = id;
  candidate_version = 1;
  draft = draft;
  created_at = now;
}

module _ {Item : Type 0} (digest : Content Item → String) (put : Content Item → ArtifactReference)
    (draft : CandidateDraft Item) (id : String) (now : Instant)
    (rows : List (ImmutableCandidate Item)) where
  -- A creation that returns had an admissible draft and a new identifier; the candidate carries the
  -- digest of its own content, which is also the digest of the written artifact, and is the one row
  -- that is added.
  pub create-eq-ok :
      (c : ImmutableCandidate Item)
      → (create digest put draft id now rows).0 ≡ ok c
      → IsAdmissible draft now
        × (stored draft.tenant_id id rows ≡ false)
        × (c.content_sha256 ≡ digest (content draft id now))
        × (c.artifact.content_sha256 ≡ c.content_sha256)
        × (c.draft ≡ draft)
        × ((create digest put draft id now rows).1 ≡ rows ++ c ∷ [])
  unfolding create
  create-eq-ok c h = (
    ground arith,
    ground arith,
    ground arith,
    ground
        (arith, eq_iff (put (content draft id now)).content_sha256 (digest (content draft id now))),
    ground arith,
    ground arith,
  )

  -- A creation that raises adds no row.
  pub create-eq-err :
      (x : CandidateRejected)
      → (create digest put draft id now rows).0 ≡ err x
      → (create digest put draft id now rows).1 ≡ rows
  unfolding create
  create-eq-err x h = ground arith
