-- ===== src/Saga.antt =====
-- services/trip-service/src/trip_service/saga_orchestrator.py: `TripSagaCoordinator`. A handler
-- works on the tables of its session, which the caller commits. Ids are numbers; the time columns
-- are left out.
pub mod Progress
pub mod Compensation
mod Tests
use lojinextv.Prelude.{
  ℕ, String, Bool, true, false, Option, none, some, List, [], ◌∷◌, ◌++◌, ◌==◌, find, update_where,
  if◌then◌else◌,
}
use lojinextv.StateMachine.Trip.{TripStatus}

pub data SagaStep : Type 0 where
  reserving_driver reserving_fleet completed : SagaStep

pub data SagaStatus : Type 0 where
  pending compensating completed : SagaStatus

pub record SagaRecord : Type 0 where
  pub trip_id : ℕ
  pub saga_status : SagaStatus
  pub current_step : SagaStep
  -- the reason in `failures_json`
  pub failure : Option String

pub record Trip : Type 0 where
  pub id : ℕ
  pub status : TripStatus

-- an outbox event by its name: the commands to the other services, and the trip's own events
pub data Command : Type 0 where
  driver_reserve fleet_reserve driver_cancel trip_assigned trip_cancelled : Command

pub record Message : Type 0 where
  pub trip_id : ℕ
  pub command : Command

pub record Tables : Type 0 where
  pub sagas : List SagaRecord
  pub trips : List Trip
  pub outbox : List Message

-- the `event_name` of an incoming event
pub data EventName : Type 0 where
  driver_reserved fleet_vehicle_reserved fleet_vehicle_failed : EventName
  other : String → EventName

unfoldable pub write_outbox : ℕ → Command → Tables → Tables
write_outbox trip c t = record t {
  outbox = t.outbox ++ record { trip_id = trip; command = c } ∷ [];
}

unfoldable pub find_saga : ℕ → List SagaRecord → Option SagaRecord
find_saga trip = find (λ r. r.trip_id == trip)

unfoldable pub find_trip : ℕ → List Trip → Option Trip
find_trip id = find (λ t. t.id == id)

-- a change of the attributes of the record that was found
unfoldable pub set_saga : ℕ → (SagaRecord → SagaRecord) → Tables → Tables
set_saga trip f t = record t { sagas = update_where (λ r. r.trip_id == trip) f t.sagas }

unfoldable pub set_trip_status : ℕ → TripStatus → Tables → Tables
set_trip_status id status t = record t {
  trips = update_where (λ x. x.id == id) (λ x. record x { status = status }) t.trips;
}

unfoldable pub start_saga : ℕ → Tables → Tables
unfolding write_outbox
start_saga trip t = write_outbox trip driver_reserve (record t {
  sagas =
      t.sagas
      ++ record {
        trip_id = trip;
        saga_status = SagaStatus.pending;
        current_step = reserving_driver;
        failure = none;
      }
        ∷ [];
})

abbrev pub compensated : String → SagaRecord → SagaRecord
compensated reason r = record r { saga_status = compensating; failure = some reason }

-- the trip part of `compensate`: only a trip that is there is cancelled and announced
abbrev pub cancel_trip : ℕ → Tables → Option Trip → Tables
cancel_trip trip t none = t
cancel_trip trip t (some _) =
    write_outbox trip trip_cancelled (set_trip_status trip TripStatus.cancelled t)

abbrev compensate_found : ℕ → String → Tables → Option SagaRecord → Tables
compensate_found trip reason t none = t
compensate_found trip reason t (some _) =
    let t' = write_outbox trip driver_cancel (set_saga trip (compensated reason) t) in
    cancel_trip trip t' (find_trip trip t'.trips)

unfoldable pub compensate : ℕ → String → Tables → Tables
unfolding find_saga find_trip set_saga set_trip_status write_outbox
compensate trip reason t = compensate_found trip reason t (find_saga trip t.sagas)

abbrev pub assign_trip : ℕ → Tables → Option Trip → Tables
assign_trip trip t none = t
assign_trip trip t (some _) = set_trip_status trip TripStatus.assigned t

abbrev pub to_fleet : SagaRecord → SagaRecord
to_fleet r = record r { current_step = reserving_fleet }

abbrev pub to_completed : SagaRecord → SagaRecord
to_completed r = record r { current_step = SagaStep.completed; saga_status = SagaStatus.completed }

-- one event at the step that its saga is in
abbrev pub dispatch : ℕ → Tables → EventName → SagaStep → Tables
dispatch trip t driver_reserved reserving_driver =
    write_outbox trip fleet_reserve (set_saga trip to_fleet t)
dispatch trip t fleet_vehicle_reserved reserving_fleet =
    let t' = set_saga trip to_completed t in
    write_outbox trip trip_assigned (assign_trip trip t' (find_trip trip t'.trips))
dispatch trip t fleet_vehicle_failed reserving_fleet = compensate trip "Fleet reservation failed" t
dispatch trip t fleet_vehicle_failed reserving_driver = compensate trip "Fleet reservation failed" t
dispatch trip t _ _ = t

abbrev handle_found : EventName → ℕ → Tables → Option SagaRecord → Tables
handle_found e trip t none = t
handle_found e trip t (some r) = dispatch trip t e r.current_step

-- `payload.get("trip_id")`, which may be missing
unfoldable pub handle_event : EventName → Option ℕ → Tables → Tables
unfolding find_saga find_trip set_saga set_trip_status write_outbox compensate
handle_event e none t = t
handle_event e (some trip) t = handle_found e trip t (find_saga trip t.sagas)
