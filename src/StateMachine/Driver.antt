-- ===== src/StateMachine/Driver.antt =====
-- services/driver-service/src/driver_service/state_machine.py and the enum of enums.py.
pub mod Return
use lojinextv.Prelude.{List, [], ◌∷◌}

pub data DriverStatus : Type 0 where
  active inactive in_review suspended cancelled : DriverStatus

unfoldable pub DriverStatus-discrete : Discrete DriverStatus
DriverStatus-discrete = hlevel

unfoldable pub driver_transitions : DriverStatus → List DriverStatus
driver_transitions in_review = active ∷ cancelled ∷ []
driver_transitions active = inactive ∷ suspended ∷ cancelled ∷ []
driver_transitions inactive = active ∷ cancelled ∷ []
driver_transitions suspended = active ∷ cancelled ∷ []
driver_transitions cancelled = active ∷ []
