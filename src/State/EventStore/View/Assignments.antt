-- ===== src/State/EventStore/View/Assignments.antt =====
-- The assignments that the view of state/event_store.py lists.
use skysolver.Prelude.{
  ◌+◌, String, ◌≡◌, refl, sym, ◌∙◌, subst, ◌⊎◌, inl, inr, false, ◌||◌, Option, some, List, [], ◌∷◌,
  ◌++◌, arith, ◌==◌, nat_eq, string_eq, pair_eq, Bool-cases, Option-cases, contains, All,
}
use skysolver.Prelude.Result.{ok, Result-cases}
use skysolver.Prelude.Dict.{lookup, values, All-lookup, All-insert}
use skysolver.State.EventStore.View.{is_creation, MaterializedView, apply, rebuild, value_eq}
use skysolver.Prelude.Clock.{Instant}
use skysolver.State.EventStore.View.{
  assign, value_beq_iff, change, remove_first, created_view, CrewStateView,
}
use skysolver.State.EventStore.{
  schedule_rejected, legal_move_completed, legal_move_request, qualification_added,
  rest_period_start, duty_end, duty_start, flight_assigned, crew_member_created, EventType,
  CrewEvent, Value,
}

-- No value is listed twice.
unfoldable pub IsDistinct : List Value → Type 0
IsDistinct [] = Unit
IsDistinct (v ∷ vs) = (contains v vs ≡ false) × IsDistinct vs

contains-snoc :
    (v w : Value) (vs : List Value) → contains v (vs ++ (w ∷ [])) ≡ (contains v vs || v == w)
contains-snoc v w [] = ground arith
contains-snoc v w (x ∷ vs) = rw (contains-snoc v w vs) (ground arith)

snoc-IsDistinct :
    (v : Value) (vs : List Value)
    → contains v vs ≡ false
    → IsDistinct vs
    → IsDistinct (vs ++ (v ∷ []))
unfolding IsDistinct
snoc-IsDistinct v [] new h = (refl, tt)
snoc-IsDistinct v (x ∷ vs) new (first, rest) = (
  contains-snoc x v vs ∙ ground (arith, first, new, value_beq_iff x v, value_beq_iff v x),
  snoc-IsDistinct v vs (ground (arith, new)) rest,
)

assign-IsDistinct : (v : Value) (vs : List Value) → IsDistinct vs → IsDistinct (assign v vs)
assign-IsDistinct v vs h = elim (Bool-cases (contains v vs)) [
  | inl there ↦ rw there h
  | inr new ↦ rw new (snoc-IsDistinct v vs new h)
]

contains-remove_first :
    (v w : Value) (vs : List Value) → contains v vs ≡ false → contains v (remove_first w vs) ≡ false
unfolding remove_first
contains-remove_first v w [] h = refl
contains-remove_first v w (x ∷ vs) h = elim (Bool-cases (x == w)) [
  | inl same ↦ rw (same, remove_first) (ground (arith, h))
  | inr other ↦ rw (other, remove_first) (ground (arith, h, contains-remove_first v w vs))
]

remove_first-IsDistinct :
    (w : Value) (vs : List Value) → IsDistinct vs → IsDistinct (remove_first w vs)
unfolding remove_first IsDistinct
remove_first-IsDistinct w [] h = tt
remove_first-IsDistinct w (x ∷ vs) (first, rest) = elim (Bool-cases (x == w)) [
  | inl same ↦ rw (same, remove_first) rest
  | inr other ↦
      rw (other, remove_first)
        (contains-remove_first x w vs first, remove_first-IsDistinct w vs rest)
]

nothing_listed : IsDistinct []
unfolding IsDistinct
nothing_listed = tt

-- A crew member's view: its flights are listed once.
Once : CrewStateView → Type 0
Once c = IsDistinct c.active_assignments

module _ (fromisoformat : String → Option Instant) where
  created_view-Once :
      (e : CrewEvent) (c : CrewStateView) → created_view fromisoformat e ≡ ok c → Once c
  unfolding created_view Once
  created_view-Once e c h =
      let empty : c.active_assignments ≡ [] = ground (arith, h) in
      subst IsDistinct (sym empty) nothing_listed

  change_listed :
      (e : CrewEvent) (c d : CrewStateView) (t : EventType)
      → e.event_type ≡ t
      → change fromisoformat e c ≡ ok d
      → (d.active_assignments ≡ c.active_assignments)
        ⊎ (((v : Value) × (d.active_assignments ≡ assign v c.active_assignments))
            ⊎ ((v : Value) × (d.active_assignments ≡ remove_first v c.active_assignments)))
  unfolding change
  change_listed e c d crew_member_created q h = inl (ground (arith, q, h))
  change_listed e c d flight_assigned q h = elim (Option-cases (lookup "flight_id" e.payload)) [
    | inl absent ↦ absurd (ground (arith, q, h, absent))
    | inr (v, there) ↦ inr (inl (v, ground (arith, q, h, there)))
  ]
  change_listed e c d duty_start q h = inl (ground (arith, q, h))
  change_listed e c d duty_end q h = inl (ground (arith, q, h))
  change_listed e c d rest_period_start q h = inl (ground (arith, q, h))
  change_listed e c d qualification_added q h = inl (ground (arith, q, h))
  change_listed e c d legal_move_request q h = inl (ground (arith, q, h))
  change_listed e c d legal_move_completed q h = inl (ground (arith, q, h))
  change_listed e c d schedule_rejected q h = elim (Option-cases (lookup "flight_id" e.payload)) [
    | inl absent ↦ absurd (ground (arith, q, h, absent))
    | inr (v, there) ↦ inr (inr (v, ground (arith, q, h, there)))
  ]

  change-Once :
      (e : CrewEvent) (c d : CrewStateView) → Once c → change fromisoformat e c ≡ ok d → Once d
  unfolding Once
  change-Once e c d h q = elim (change_listed e c d e.event_type refl q) [
    | inl same ↦ subst IsDistinct (sym same) h
    | inr (inl (v, same)) ↦ subst IsDistinct (sym same) (assign-IsDistinct v c.active_assignments h)
    | inr (inr (v, same)) ↦
        subst IsDistinct (sym same) (remove_first-IsDistinct v c.active_assignments h)
  ]

  counted-Once : (c : CrewStateView) → Once c → Once (record c { version = c.version + 1 })
  unfolding Once
  counted-Once c h = h

  apply-Once :
      (e : CrewEvent) (view : MaterializedView)
      → All Once (values view)
      → All Once (values (apply fromisoformat e view).1)
  unfolding apply
  apply-Once e view h = elim (Bool-cases (is_creation e.event_type)) [
    | inl new ↦ elim (Result-cases (created_view fromisoformat e)) [
      | inl (c, made) ↦
          rw (new, apply)
            (rw (made, apply) (All-insert Once e.crew_id c view h (created_view-Once e c made)))
      | inr (x, refused) ↦ rw (new, apply) (rw (refused, apply) h)
    ]
    | inr known ↦ elim (Option-cases (lookup e.crew_id view)) [
      | inl absent ↦ rw (known, apply) (rw (absent, apply) h)
      | inr (c, there) ↦
          let counted = record c { version = c.version + 1 } in
          let held = counted-Once c (All-lookup Once e.crew_id c view h there) in
          elim (Result-cases (change fromisoformat e counted)) [
            | inl (d, changed) ↦
                rw (known, apply)
                  (rw (there, apply)
                    (rw (changed, apply)
                      (All-insert Once e.crew_id d view h (change-Once e counted d held changed))))
            | inr (x, refused) ↦
                rw (known, apply)
                  (rw (there, apply)
                    (rw (refused, apply) (All-insert Once e.crew_id counted view h held)))
          ]
    ]
  ]

  rebuild_keeps :
      (es : List CrewEvent) (view : MaterializedView)
      → All Once (values view)
      → All Once (values (rebuild fromisoformat es view).1)
  unfolding rebuild
  rebuild_keeps [] view h = h
  rebuild_keeps (e ∷ es) view h = elim (Result-cases (apply fromisoformat e view).0) [
    | inl (_, fine) ↦
        rw (fine, rebuild) (rebuild_keeps es (apply fromisoformat e view).1 (apply-Once e view h))
    | inr (x, raised) ↦ rw (raised, rebuild) (apply-Once e view h)
  ]

  -- After a rebuild from any events, also one that stops at an exception, no crew member has a flight
  -- listed twice.
  pub rebuild-IsDistinct :
      (es : List CrewEvent) (crew : String) (c : CrewStateView)
      → lookup crew (rebuild fromisoformat es []).1 ≡ some c
      → IsDistinct c.active_assignments
  unfolding Once
  rebuild-IsDistinct es crew c h =
      All-lookup Once crew c (rebuild fromisoformat es []).1 (rebuild_keeps es [] tt) h
