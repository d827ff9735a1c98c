-- ===== src/State/EventStore/Reconciler/Moves.antt =====
-- A pass of the reconciler of state/event_store.py leaves no move open.
use skysolver.Prelude.{
  ℕ, ◌+◌, String, ◌≡◌, refl, sym, ap, ◌∙◌, subst, ◌⊎◌, inl, inr, Bool, true, false, not, ◌&&◌, ◌||◌,
  none, some, List, [], ◌∷◌, ◌++◌, arith, nat_eq, string_eq, pair_eq, beq_refl, Bool-cases,
  Option-cases, length, any, all, contains, All, All-append,
}
use skysolver.Prelude.Result.{Result, ok, err, Result-cases}
use skysolver.Prelude.Dict.{lookup}
use skysolver.State.EventStore.{
  Value, stream_version, stamp, add_event, EventStore, append, CrewEvent,
}
use skysolver.State.EventStore.Reconciler.{
  is_over_threshold, crew_ids, MissingKey, summary, reconcile, MoveReport, CrossPartitionReconciler,
  completes, completion_event, is_completed, is_request, complete_each, completion, move_requests,
}
use skysolver.Prelude.Sets.{sorted_set}

Settled : List CrewEvent → CrewEvent → Type 0
Settled events x = (is_request x.event_type ≡ false) ⊎ (is_completed events x ≡ true)

-- The identifiers of the completions are new, and differ from each other.
unfoldable pub AllFresh : (CrewEvent → String) → List CrewEvent → List String → Type 0
AllFresh fresh [] ids = Unit
AllFresh fresh (r ∷ rs) ids = (contains (fresh r) ids ≡ false) × AllFresh fresh rs (fresh r ∷ ids)

any-append :
    (p : CrewEvent → Bool) (xs ys : List CrewEvent) → any p (xs ++ ys) ≡ (any p xs || any p ys)
any-append p [] ys = refl
any-append p (x ∷ xs) ys = rw (any-append p xs ys) (ground arith)

-- An event is completed in a list with one more, by the list or by the one.
still :
    (x : CrewEvent) (events : List CrewEvent) (added : CrewEvent) (later : List CrewEvent)
    → later ≡ events ++ (added ∷ [])
    → (is_completed events x ≡ true) ⊎ (completes x added ≡ true)
    → is_completed later x ≡ true
unfolding is_completed
still x events added later e h =
    ap (λ l. any (completes x) l) e
    ∙ any-append (completes x) events (added ∷ [])
    ∙ elim h [ inl old ↦ rw old refl | inr new ↦ rw new (ground arith) ]

unasked :
    (x : CrewEvent) (events : List CrewEvent) → is_request x.event_type ≡ false → Settled events x
unfolding Settled
unasked x events h = inl h

no_requests : (xs events : List CrewEvent) → All (Settled events) xs → move_requests xs events ≡ []
unfolding move_requests Settled
no_requests [] events h = refl
no_requests (x ∷ xs) events h = rw (skipped x events h.0, move_requests) (no_requests xs events h.1)
  where
    skipped :
        (x : CrewEvent) (events : List CrewEvent)
        → Settled events x
        → (is_request x.event_type && not (is_completed events x)) ≡ false
    skipped x events (inl other) = rw other refl
    skipped x events (inr done) = rw done (ground arith)

-- What the requests are: the events that are not settled.
move_requests-Settled :
    (xs events later : List CrewEvent)
    → ((x : CrewEvent) → is_completed events x ≡ true → is_completed later x ≡ true)
    → All (λ r. is_completed later r ≡ true) (move_requests xs events)
    → All (Settled later) xs
unfolding move_requests Settled
move_requests-Settled [] events later grows done = tt
move_requests-Settled (x ∷ xs) events later grows done =
    elim (Bool-cases (is_request x.event_type)) [
      | inr other ↦ (
        inl other,
        move_requests-Settled xs events later grows (rw (other, move_requests) at done),
      )
      | inl asks ↦ elim (Bool-cases (is_completed events x)) [
        | inl old ↦ (
          inr (grows x old),
          move_requests-Settled xs events later grows
              (rw (old, move_requests) at (rw (asks, move_requests) at done)),
        )
        | inr due ↦
            let kept = rw (due, move_requests) at (rw (asks, move_requests) at done) in
            (inr kept.0, move_requests-Settled xs events later grows kept.1)
      ]
    ]

appended_all :
    (c : CrewEvent) (s : EventStore)
    → contains c.event_id s.event_ids ≡ false
    → ((append c none s).1.all_events
        ≡ s.all_events ++ (stamp (stream_version c.partition_id c.crew_id s) c ∷ []))
      × ((append c none s).1.event_ids ≡ c.event_id ∷ s.event_ids)
unfolding append add_event stamp
appended_all c s new = (ground (arith, new), ground (arith, new))

module _ (fresh : CrewEvent → String) where
  completion-cases :
      (r : CrewEvent)
      → (completion fresh r ≡ none)
        ⊎ ((from : Value) × (to : Value) × (completion fresh r
              ≡ some (completion_event fresh r from to)))
  unfolding completion
  completion-cases r = elim (Option-cases (lookup "from_partition" r.payload)) [
    | inl absent ↦ inl (ground (arith, absent))
    | inr (from, here) ↦ elim (Option-cases (lookup "to_partition" r.payload)) [
      | inl absent ↦ inl (ground (arith, here, absent))
      | inr (to, there) ↦ inr (from, to, ground (arith, here, there))
    ]
  ]

  -- What a loop over the requests that returns gives: more events, none of them a request, and a
  -- completion for each request.
  IsClosing : List CrewEvent → EventStore → EventStore → Type 0
  IsClosing rs s t =
      ((x : CrewEvent) → is_completed s.all_events x ≡ true → is_completed t.all_events x ≡ true)
      × (All (Settled t.all_events) s.all_events → All (Settled t.all_events) t.all_events)
      × All (λ r. is_completed t.all_events r ≡ true) rs

  one_step :
      (r : CrewEvent) (from to : Value) (s : EventStore)
      → contains (fresh r) s.event_ids ≡ false
      → (added : CrewEvent) × ((append (completion_event fresh r from to) none s).1.all_events
          ≡ s.all_events ++ (added ∷ []))
        × (is_request added.event_type ≡ false)
        × (completes r added ≡ true)
        × ((append (completion_event fresh r from to) none s).1.event_ids ≡ fresh r ∷ s.event_ids)
  unfolding stamp
  one_step r from to s new =
      let (all, ids) = appended_all (completion_event fresh r from to) s new in
      (
        stamp (stream_version r.partition_id r.crew_id s) (completion_event fresh r from to),
        all,
        refl,
        rw (beq_refl r.crew_id) (ground arith),
        ids,
      )

  closing :
      (rs : List CrewEvent) (s t : EventStore)
      → AllFresh fresh rs s.event_ids
      → complete_each fresh rs s ≡ (ok tt, t)
      → IsClosing rs s t
  unfolding complete_each AllFresh IsClosing
  closing [] s t new h =
      let same : s ≡ t = ap (λ y. y.1) h in
      (
        λ x d. subst (λ y. is_completed y.all_events x ≡ true) same d,
        λ a. subst (λ y. All (Settled t.all_events) y.all_events) same a,
        tt,
      )
  closing (r ∷ rs) s t new h = elim (completion-cases r) [
    | inl absent ↦ absurd (ground (arith, rw (absent, complete_each) at h))
    | inr (from, to, made) ↦
        let (added, all, quiet, closes, ids) = one_step r from to s new.0 in
        let after = (append (completion_event fresh r from to) none s).1 in
        let rest =
          closing rs after t (subst (λ l. AllFresh fresh rs l) (sym ids) new.1)
            (rw (made, complete_each) at h) in
        (
          λ x d. rest.0 x (still x s.all_events added after.all_events all (inl d)),
          λ a. rest.1 (
              subst (λ l. All (Settled t.all_events) l) (sym all)
                (All-append (Settled t.all_events) s.all_events (added ∷ []) a
                  (unasked added t.all_events quiet, tt))),
          (rest.0 r (still r s.all_events added after.all_events all (inr closes)), rest.2),
        )
  ]

  summary_counts :
      (n : ℕ) (g : CrossPartitionReconciler)
      → ((summary fresh n g).1.event_store ≡ g.event_store)
        × ((summary fresh n g).0.completed_moves + (summary fresh n g).0.deferred_moves ≡ n)
  unfolding summary
  summary_counts n g =
      let total = length (sorted_set (crew_ids g.event_store.all_events)) in
      elim (Bool-cases (is_over_threshold n total)) [
        | inl over ↦ rw (over, summary) (refl, omega arith)
        | inr under ↦ rw (under, summary) (refl, omega arith)
      ]

  reconcile_ends :
      (g : CrossPartitionReconciler) (r : Result MissingKey (Unit {0}))
      → (complete_each fresh
          (move_requests g.event_store.all_events g.event_store.all_events)
          g.event_store).0
        ≡ r
      → reconcile fresh g ≡ elim r [
        | err x ↦ (
          err x,
          record g {
            event_store =
                (complete_each fresh
                  (move_requests g.event_store.all_events g.event_store.all_events)
                  g.event_store).1;
          },
        )
        | ok _ ↦
            let end =
              summary fresh
                (length (move_requests g.event_store.all_events g.event_store.all_events))
                (record g {
                  event_store =
                      (complete_each fresh
                        (move_requests g.event_store.all_events g.event_store.all_events)
                        g.event_store).1;
                }) in
            (ok end.0, end.1)
      ]
  unfolding reconcile
  reconcile_ends g r h = rw (sym h) refl

  -- A pass that returns leaves no open move, though its report may say that moves are deferred: where
  -- the identifiers drawn are new, no request in the store it leaves is without a completion.
  pub reconcile_closes :
      (g : CrossPartitionReconciler) (report : MoveReport)
      → AllFresh fresh
          (move_requests g.event_store.all_events g.event_store.all_events)
          g.event_store.event_ids
      → (reconcile fresh g).0 ≡ ok report
      → (move_requests
            (reconcile fresh g).1.event_store.all_events
            (reconcile fresh g).1.event_store.all_events
          ≡ [])
        × (report.completed_moves + report.deferred_moves
            ≡ length (move_requests g.event_store.all_events g.event_store.all_events))
  unfolding IsClosing
  reconcile_closes g report new returned =
      let events = g.event_store.all_events in
      let requests = move_requests events events in
      elim (Result-cases (complete_each fresh requests g.event_store).0) [
        | inr (x, raised) ↦
            absurd
              (ground (arith, sym (ap (λ y. y.0) (reconcile_ends g (err x) raised)) ∙ returned))
        | inl (_, fine) ↦
            let t = (complete_each fresh requests g.event_store).1 in
            let (grown, settle, closed) =
              closing requests g.event_store t new (ap (λ r. (r, t)) fine) in
            let ended = reconcile_ends g (ok tt) fine in
            let (kept, counts) = summary_counts (length requests) (record g { event_store = t }) in
            let store : (reconcile fresh g).1.event_store ≡ t =
              ap (λ y. y.1.event_store) ended ∙ kept in
            let same : (summary fresh (length requests) (record g { event_store = t })).0 ≡ report =
              ground (arith, sym (ap (λ y. y.0) ended) ∙ returned) in
            (
              subst (λ u. move_requests u.all_events u.all_events ≡ []) (sym store)
                  (no_requests t.all_events t.all_events
                    (settle (move_requests-Settled events events t.all_events grown closed))),
              subst (λ (x : MoveReport). x.completed_moves + x.deferred_moves ≡ length requests)
                  same counts,
            )
      ]
