-- ===== src/StateMachine/Driver/Return.antt =====
-- The life of a driver goes round: every status leads back to active, and only one is left for good.
use lojinextv.Prelude.{◌≡◌, ◌≢◌, refl, ◌∙◌, ap, inl, inr, some, List, [], ◌∷◌, arith, All}
use lojinextv.StateMachine.{StateMachine, transition_to, run}
use lojinextv.StateMachine.Laws.{Allowed, All-Mem, transition_to_state, transition_to_iff}
use lojinextv.StateMachine.Driver.{
  DriverStatus, active, inactive, in_review, suspended, cancelled, DriverStatus-discrete,
  driver_transitions,
}

abbrev pub machine_at : DriverStatus → StateMachine DriverStatus
machine_at s = record { current_state = s; valid_transitions = driver_transitions }

-- no entry of the table leads to a review
no_review : (s : DriverStatus) → All (λ t. t ≢ in_review) (driver_transitions s)
unfolding driver_transitions
no_review in_review = ground arith
no_review active = ground arith
no_review inactive = ground arith
no_review suspended = ground arith
no_review cancelled = ground arith

step_left :
    (s t : DriverStatus)
    → s ≢ in_review
    → (u : DriverStatus) × ((transition_to DriverStatus-discrete (machine_at s) t).0 ≡ machine_at u)
      × (u ≢ in_review)
step_left s t n = elim (transition_to_state DriverStatus-discrete (machine_at s) t) [
  | inl (y, e) ↦ (t, e, stays ((transition_to_iff DriverStatus-discrete (machine_at s) t).0 y))
  | inr (_, e, _) ↦ (s, e, n)
]
  where
    stays : Allowed DriverStatus-discrete (machine_at s) t → t ≢ in_review
    stays (inl e) = λ f. n (e ∙ f)
    stays (inr m) = All-Mem (λ u. u ≢ in_review) t (driver_transitions s) (no_review s) m

run_left :
    (s : DriverStatus) (requests : List DriverStatus)
    → s ≢ in_review
    → (u : DriverStatus) × (run DriverStatus-discrete (machine_at s) requests ≡ machine_at u)
      × (u ≢ in_review)
unfolding run
run_left s [] n = (s, refl, n)
run_left s (t ∷ rest) n =
    let (u, e, o) = step_left s t n in
    let (v, f, p) = run_left u rest o in (v, ap (λ m. run DriverStatus-discrete m rest) e ∙ f, p)

to_active :
    (u : DriverStatus) → (transition_to DriverStatus-discrete (machine_at u) active).1 ≡ some active
unfolding transition_to driver_transitions DriverStatus-discrete
to_active active = refl
to_active inactive = refl
to_active in_review = refl
to_active suspended = refl
to_active cancelled = refl

-- A driver who has left the review never comes back to it, whatever is asked, and from whatever
-- status the machine has come to it moves to active when it is asked to.
pub driver_returns :
    (s : DriverStatus) (requests : List DriverStatus)
    → s ≢ in_review
    → (u : DriverStatus) × (run DriverStatus-discrete (machine_at s) requests ≡ machine_at u)
      × (u ≢ in_review)
      × ((transition_to DriverStatus-discrete (machine_at u) active).1 ≡ some active)
driver_returns s requests n = let (u, e, left) = run_left s requests n in (u, e, left, to_active u)
