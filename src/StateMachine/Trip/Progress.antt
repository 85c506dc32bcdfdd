-- ===== src/StateMachine/Trip/Progress.antt =====
-- The life of a trip goes in one direction.
use lojinextv.Prelude.{ℕ, ◌<◌, ◌≡◌, refl, ◌∙◌, ap, ◌⊎◌, inl, inr, List, [], ◌∷◌, arith, All}
use lojinextv.StateMachine.{StateMachine, transition_to, run}
use lojinextv.StateMachine.Laws.{Allowed, All-Mem, transition_to_state, transition_to_iff}
use lojinextv.StateMachine.Trip.{
  TripStatus, planned, assigned, in_progress, pending_review, completed, rejected, cancelled,
  soft_deleted, TripStatus-discrete, trip_transitions,
}

abbrev pub trip_machine : TripStatus → StateMachine TripStatus
trip_machine s = record { current_state = s; valid_transitions = trip_transitions }

-- how far a trip has come
abbrev pub rank : TripStatus → ℕ
rank planned = 0
rank assigned = 1
rank in_progress = 2
rank pending_review = 2
rank completed = 3
rank rejected = 3
rank cancelled = 3
rank soft_deleted = 4

later : (s : TripStatus) → All (λ t. rank s < rank t) (trip_transitions s)
unfolding trip_transitions
later planned = ground arith
later assigned = ground arith
later in_progress = ground arith
later pending_review = ground arith
later completed = ground arith
later rejected = ground arith
later cancelled = ground arith
later soft_deleted = tt

Allowed-rank :
    (s t : TripStatus)
    → Allowed TripStatus-discrete (trip_machine s) t
    → (s ≡ t) ⊎ (rank s < rank t)
Allowed-rank s t (inl e) = inl e
Allowed-rank s t (inr m) = inr (All-Mem (λ u. rank s < rank u) t (trip_transitions s) (later s) m)

-- one request: the trip stays or has come further
step-rank :
    (s t : TripStatus)
    → (u : TripStatus) × ((transition_to TripStatus-discrete (trip_machine s) t).0 ≡ trip_machine u)
      × ((s ≡ u) ⊎ (rank s < rank u))
step-rank s t = elim (transition_to_state TripStatus-discrete (trip_machine s) t) [
  | inl (y, e) ↦
      (t, e, Allowed-rank s t ((transition_to_iff TripStatus-discrete (trip_machine s) t).0 y))
  | inr (_, e, _) ↦ (s, e, inl refl)
]

-- Whatever is asked of a trip's machine, and in whatever order, the trip ends where it was or
-- further on: it never comes back to a status that it has left.
pub trip_run-rank :
    (s : TripStatus) (requests : List TripStatus)
    → (u : TripStatus) × (run TripStatus-discrete (trip_machine s) requests ≡ trip_machine u)
      × ((s ≡ u) ⊎ (rank s < rank u))
unfolding run
trip_run-rank s [] = (s, refl, inl refl)
trip_run-rank s (t ∷ rest) =
    let (u, e, o) = step-rank s t in
    let (v, f, p) = trip_run-rank u rest in
    (v, ap (λ m. run TripStatus-discrete m rest) e ∙ f, join s u v o p)
  where
    join :
        (s u v : TripStatus)
        → (s ≡ u) ⊎ (rank s < rank u)
        → (u ≡ v) ⊎ (rank u < rank v)
        → (s ≡ v) ⊎ (rank s < rank v)
    join s u v (inl e) (inl f) = inl (e ∙ f)
    join s u v (inl e) (inr f) = inr (omega (arith, ap rank e))
    join s u v (inr e) (inl f) = inr (omega (arith, ap rank f))
    join s u v (inr e) (inr f) = inr (omega arith)
