-- ===== src/Saga/Tests.antt =====
-- The saga's theorems on one trip.
use lojinextv.Prelude.{◌≡◌, refl, false, none, some, [], ◌∷◌, ◌++◌}
use lojinextv.StateMachine.{can_transition_to}
use lojinextv.StateMachine.Trip.{TripStatus, TripStatus-discrete, trip_transitions}
use lojinextv.Saga.{
  SagaStep, reserving_fleet, SagaStatus, SagaRecord, Trip, Tables, driver_reserve, fleet_reserve,
  trip_assigned, driver_reserved, fleet_vehicle_reserved, fleet_vehicle_failed, find_saga,
  find_trip, handle_event, start_saga,
}
use lojinextv.Saga.Progress.{saga_completes, SagaIs}
use lojinextv.Saga.Compensation.{compensation_revived}

abbrev trip : Trip
trip = record { id = 4; status = TripStatus.planned }

abbrev no_saga : Tables
no_saga = record { sagas = []; trips = trip ∷ []; outbox = [] }

abbrev waits : SagaRecord
waits = record {
  trip_id = 4;
  saga_status = SagaStatus.pending;
  current_step = reserving_fleet;
  failure = none;
}

abbrev in_fleet : Tables
in_fleet = record { sagas = waits ∷ []; trips = trip ∷ []; outbox = [] }

abbrev finished : SagaRecord
finished = record {
  trip_id = 4;
  saga_status = SagaStatus.completed;
  current_step = SagaStep.completed;
  failure = none;
}

abbrev after : Tables
after = record { sagas = finished ∷ []; trips = trip ∷ []; outbox = [] }

saga_completes_example :
    let u =
      handle_event fleet_vehicle_reserved
        (some 4)
        (handle_event driver_reserved (some 4) (start_saga 4 no_saga)) in
    SagaIs 4 u SagaStep.completed SagaStatus.completed
    × (u.outbox
        ≡ []
          ++ record { trip_id = 4; command = driver_reserve }
            ∷ record { trip_id = 4; command = fleet_reserve }
            ∷ record { trip_id = 4; command = trip_assigned }
            ∷ [])
unfolding find_saga
saga_completes_example = saga_completes 4 no_saga refl

compensation_revived_example :
    let u = handle_event fleet_vehicle_failed (some 4) in_fleet in
    let v = handle_event fleet_vehicle_reserved (some 4) u in
    (find_trip 4 u.trips ≡ some (record trip { status = TripStatus.cancelled }))
    × (find_trip 4 v.trips ≡ some (record trip { status = TripStatus.assigned }))
    × SagaIs 4 v SagaStep.completed SagaStatus.completed
    × (can_transition_to TripStatus-discrete
          record { current_state = TripStatus.cancelled; valid_transitions = trip_transitions }
          TripStatus.assigned
        ≡ false)
unfolding find_saga find_trip
compensation_revived_example = compensation_revived 4 in_fleet waits trip refl refl refl
