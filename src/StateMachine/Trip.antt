-- ===== src/StateMachine/Trip.antt =====
-- services/trip-service/src/trip_service/state_machine.py and the enum of enums.py.
pub mod Progress
use lojinextv.Prelude.{List, [], ◌∷◌}

pub data TripStatus : Type 0 where
  planned assigned in_progress pending_review completed rejected cancelled soft_deleted : TripStatus

unfoldable pub TripStatus-discrete : Discrete TripStatus
TripStatus-discrete = hlevel

-- the table that `TripStateMachine` hands to the generic machine
unfoldable pub trip_transitions : TripStatus → List TripStatus
trip_transitions planned = assigned ∷ pending_review ∷ cancelled ∷ soft_deleted ∷ []
trip_transitions assigned = in_progress ∷ pending_review ∷ cancelled ∷ soft_deleted ∷ []
trip_transitions in_progress = completed ∷ cancelled ∷ soft_deleted ∷ []
trip_transitions pending_review = completed ∷ rejected ∷ cancelled ∷ soft_deleted ∷ []
trip_transitions completed = soft_deleted ∷ []
trip_transitions rejected = soft_deleted ∷ []
trip_transitions cancelled = soft_deleted ∷ []
trip_transitions soft_deleted = []
