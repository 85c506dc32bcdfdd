-- ===== src/Saga/Compensation.antt =====
-- What a failed reservation does, and what can come after it.
use mathlib.Core.List.{append_assoc}
use Prim.Native.String.{String}
use lojinextv.Prelude.{
  ℕ, ◌≡◌, ◌≢◌, refl, false, sym, ◌∙◌, some, List, [], ◌∷◌, ◌++◌, arith, ◌==◌, update_where,
}
use lojinextv.StateMachine.{can_transition_to}
use lojinextv.StateMachine.Trip.{TripStatus, TripStatus-discrete, trip_transitions}
use lojinextv.Saga.{
  SagaStep, reserving_driver, reserving_fleet, SagaStatus, SagaRecord, Trip, Tables,
  fleet_vehicle_reserved, fleet_vehicle_failed, trip_assigned, driver_cancel, trip_cancelled,
  find_saga, find_trip, set_saga, set_trip_status, write_outbox, compensate, handle_event, dispatch,
  compensated, assign_trip, to_completed,
}
use lojinextv.Saga.Progress.{find-update_saga, handle_dispatch, SagaIs, after_fleet}

find-update_trip :
    (id : ℕ) (status : TripStatus) (ts : List Trip) (x : Trip)
    → find_trip id ts ≡ some x
    → find_trip id (update_where (λ y. y.id == id) (λ y. record y { status = status }) ts)
      ≡ some (record x { status = status })
unfolding find_trip
find-update_trip id status [] x h = cc
find-update_trip id status (y ∷ ts) x h = ground (arith, find-update_trip id status ts x)

-- `compensate` on a trip that is there and whose saga is there
compensate_found_lem :
    (trip : ℕ) (reason : String) (t : Tables) (r : SagaRecord) (x : Trip)
    → find_saga trip t.sagas ≡ some r
    → find_trip trip t.trips ≡ some x
    → compensate trip reason t
      ≡ write_outbox trip trip_cancelled (
          set_trip_status trip TripStatus.cancelled
            (write_outbox trip driver_cancel (set_saga trip (compensated reason) t)))
unfolding compensate
compensate_found_lem trip reason t r x f g = rw (f, g) refl

-- what a compensation leaves: the saga is marked, the trip is cancelled, and the driver service and
-- the readers of the trip's events are told
abbrev pub Compensated : ℕ → String → Tables → SagaRecord → Trip → Tables → Type 0
Compensated trip reason t r x u =
    (find_saga trip u.sagas ≡ some (compensated reason r))
    × (find_trip trip u.trips ≡ some (record x { status = TripStatus.cancelled }))
    × (u.outbox
        ≡ t.outbox
          ++ record { trip_id = trip; command = driver_cancel }
            ∷ record { trip_id = trip; command = trip_cancelled }
            ∷ [])

compensate-Compensated :
    (trip : ℕ) (reason : String) (t : Tables) (r : SagaRecord) (x : Trip)
    → find_saga trip t.sagas ≡ some r
    → find_trip trip t.trips ≡ some x
    → Compensated trip reason t r x (compensate trip reason t)
unfolding set_saga set_trip_status write_outbox
compensate-Compensated trip reason t r x f g = rw (compensate_found_lem trip reason t r x f g) (
  find-update_saga trip (compensated reason) t.sagas r f refl,
  find-update_trip trip TripStatus.cancelled t.trips x g,
  simp append_assoc,
)

-- For a trip and a saga that are there: a failed reservation of the vehicle, before the saga is
-- complete, cancels the trip, marks its saga as compensating in the step it was in, and sends the
-- cancellation of the driver and the announcement of the cancelled trip.
pub failed_compensates :
    (trip : ℕ) (t : Tables) (r : SagaRecord) (x : Trip)
    → find_saga trip t.sagas ≡ some r
    → find_trip trip t.trips ≡ some x
    → r.current_step ≢ SagaStep.completed
    → Compensated trip "Fleet reservation failed" t r x
        (handle_event fleet_vehicle_failed (some trip) t)
failed_compensates trip t r x f g n =
    rw (handle_dispatch trip t fleet_vehicle_failed r r.current_step f refl) (at r.current_step n)
  where
    at :
        (s : SagaStep)
        → s ≢ SagaStep.completed
        → Compensated trip "Fleet reservation failed" t r x (dispatch trip t fleet_vehicle_failed s)
    at reserving_driver n = compensate-Compensated trip "Fleet reservation failed" t r x f g
    at reserving_fleet n = compensate-Compensated trip "Fleet reservation failed" t r x f g
    at SagaStep.completed n = absurd (n refl)

assigned_trips :
    (trip : ℕ) (t : Tables) (x : Trip)
    → find_trip trip t.trips ≡ some x
    → find_trip trip
        (write_outbox trip trip_assigned (assign_trip trip t (find_trip trip t.trips))).trips
      ≡ some (record x { status = TripStatus.assigned })
unfolding write_outbox set_trip_status
assigned_trips trip t x g = rw g (find-update_trip trip TripStatus.assigned t.trips x g)

-- the trip after the vehicle is reserved
trip_after_fleet :
    (trip : ℕ) (t : Tables) (r : SagaRecord) (x : Trip)
    → find_saga trip t.sagas ≡ some r
    → r.current_step ≡ reserving_fleet
    → find_trip trip t.trips ≡ some x
    → find_trip trip (handle_event fleet_vehicle_reserved (some trip) t).trips
      ≡ some (record x { status = TripStatus.assigned })
unfolding set_saga
trip_after_fleet trip t r x f c g =
    rw (handle_dispatch trip t fleet_vehicle_reserved r reserving_fleet f c)
      (assigned_trips trip (set_saga trip to_completed t) x g)

-- For a trip and a saga that are there: when the vehicle's reservation fails while the saga waits
-- for it and its confirmation arrives later, the saga ends as completed and the cancelled trip as
-- assigned, a transition that the trip's state machine refuses.
pub compensation_revived :
    (trip : ℕ) (t : Tables) (r : SagaRecord) (x : Trip)
    → find_saga trip t.sagas ≡ some r
    → find_trip trip t.trips ≡ some x
    → r.current_step ≡ reserving_fleet
    → let u = handle_event fleet_vehicle_failed (some trip) t in
      let v = handle_event fleet_vehicle_reserved (some trip) u in
      (find_trip trip u.trips ≡ some (record x { status = TripStatus.cancelled }))
      × (find_trip trip v.trips ≡ some (record x { status = TripStatus.assigned }))
      × SagaIs trip v SagaStep.completed SagaStatus.completed
      × (can_transition_to TripStatus-discrete
            record { current_state = TripStatus.cancelled; valid_transitions = trip_transitions }
            TripStatus.assigned
          ≡ false)
unfolding can_transition_to trip_transitions TripStatus-discrete
compensation_revived trip t r x f g c =
    let u = handle_event fleet_vehicle_failed (some trip) t in
    let waits : r.current_step ≢ SagaStep.completed = λ e. fleet≢completed (sym c ∙ e) in
    let (s, y, _) = failed_compensates trip t r x f g waits in
    let r' = compensated "Fleet reservation failed" r in
    (
      y,
      trip_after_fleet trip u r' _ s c y,
      (to_completed r', after_fleet trip u r' s c, refl, refl),
      refl,
    )
  where
    fleet≢completed : reserving_fleet ≢ SagaStep.completed
    fleet≢completed = cc
