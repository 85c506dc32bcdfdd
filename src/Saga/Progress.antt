-- ===== src/Saga/Progress.antt =====
-- How a saga moves forward.
use mathlib.Core.List.{append_assoc}
use lojinextv.Prelude.{
  ℕ, ◌≡◌, refl, inl, inr, ◌∙◌, ap, Option, none, some, List, [], ◌∷◌, ◌++◌, arith, ◌==◌,
  update_where, Option-cases,
}
use lojinextv.Saga.{
  SagaStep, reserving_driver, reserving_fleet, SagaStatus, SagaRecord, Trip, Tables, EventName,
  driver_reserved, fleet_vehicle_reserved, fleet_vehicle_failed, other, driver_reserve,
  fleet_reserve, trip_assigned, find_saga, find_trip, set_saga, set_trip_status, write_outbox,
  start_saga, handle_event, assign_trip, dispatch, to_fleet, to_completed,
}

pub find-update_saga :
    (trip : ℕ) (f : SagaRecord → SagaRecord) (rs : List SagaRecord) (r : SagaRecord)
    → find_saga trip rs ≡ some r
    → (f r).trip_id ≡ r.trip_id
    → find_saga trip (update_where (λ q. q.trip_id == trip) f rs) ≡ some (f r)
unfolding find_saga
find-update_saga trip f [] r h k = cc
find-update_saga trip f (q ∷ rs) r h k = ground (arith, find-update_saga trip f rs r)

pub find-append_saga :
    (trip : ℕ) (rs : List SagaRecord) (r : SagaRecord)
    → find_saga trip rs ≡ none
    → r.trip_id ≡ trip
    → find_saga trip (rs ++ r ∷ []) ≡ some r
unfolding find_saga
find-append_saga trip [] r h e = ground arith
find-append_saga trip (q ∷ rs) r h e = ground (arith, find-append_saga trip rs r)

-- the state of the saga of a trip, if it has one
abbrev pub SagaIs : ℕ → Tables → SagaStep → SagaStatus → Type 0
SagaIs trip t step status =
    (r : SagaRecord) × (find_saga trip t.sagas ≡ some r)
    × (r.current_step ≡ step)
    × (r.saga_status ≡ status)

pub handle_missing :
    (trip : ℕ) (t : Tables) (e : EventName)
    → find_saga trip t.sagas ≡ none
    → handle_event e (some trip) t ≡ t
unfolding handle_event
handle_missing trip t e f = rw f refl

pub handle_dispatch :
    (trip : ℕ) (t : Tables) (e : EventName) (r : SagaRecord) (s : SagaStep)
    → find_saga trip t.sagas ≡ some r
    → r.current_step ≡ s
    → handle_event e (some trip) t ≡ dispatch trip t e s
unfolding handle_event
handle_dispatch trip t e r s f c = rw (f, c) refl

-- A completed saga is final: no event changes anything.
pub completed_final :
    (trip : ℕ) (t : Tables) (r : SagaRecord) (e : EventName)
    → find_saga trip t.sagas ≡ some r
    → r.current_step ≡ SagaStep.completed
    → handle_event e (some trip) t ≡ t
completed_final trip t r e f c = handle_dispatch trip t e r SagaStep.completed f c ∙ stays e
  where
    stays : (e : EventName) → dispatch trip t e SagaStep.completed ≡ t
    stays driver_reserved = refl
    stays fleet_vehicle_reserved = refl
    stays fleet_vehicle_failed = refl
    stays (other name) = refl

-- the step that a saga takes on an event, if the event fits its step
after_driver :
    (trip : ℕ) (t : Tables) (r : SagaRecord)
    → find_saga trip t.sagas ≡ some r
    → r.current_step ≡ reserving_driver
    → find_saga trip (handle_event driver_reserved (some trip) t).sagas ≡ some (to_fleet r)
unfolding set_saga write_outbox
after_driver trip t r f c =
    rw (handle_dispatch trip t driver_reserved r reserving_driver f c)
      (find-update_saga trip to_fleet t.sagas r f refl)

assigned_sagas :
    (trip : ℕ) (t : Tables) (o : Option Trip)
    → (write_outbox trip trip_assigned (assign_trip trip t o)).sagas ≡ t.sagas
unfolding write_outbox set_trip_status
assigned_sagas trip t none = refl
assigned_sagas trip t (some x) = refl

pub after_fleet :
    (trip : ℕ) (t : Tables) (r : SagaRecord)
    → find_saga trip t.sagas ≡ some r
    → r.current_step ≡ reserving_fleet
    → find_saga trip (handle_event fleet_vehicle_reserved (some trip) t).sagas
      ≡ some (to_completed r)
unfolding set_saga
after_fleet trip t r f c =
    rw
      (
        handle_dispatch trip t fleet_vehicle_reserved r reserving_fleet f c,
        assigned_sagas trip (set_saga trip to_completed t) (find_trip trip t.trips),
      )
      (find-update_saga trip to_completed t.sagas r f refl)

twice_driver :
    (trip : ℕ) (t : Tables) (r : SagaRecord) (s : SagaStep)
    → find_saga trip t.sagas ≡ some r
    → r.current_step ≡ s
    → handle_event driver_reserved (some trip) (handle_event driver_reserved (some trip) t)
      ≡ handle_event driver_reserved (some trip) t
twice_driver trip t r reserving_driver f c =
    handle_dispatch trip _ driver_reserved (to_fleet r) reserving_fleet (after_driver trip t r f c)
      refl
twice_driver trip t r reserving_fleet f c =
    let same = handle_dispatch trip t driver_reserved r reserving_fleet f c in rw (same, same) refl
twice_driver trip t r SagaStep.completed f c =
    let same = completed_final trip t r driver_reserved f c in rw (same, same) refl

twice_fleet :
    (trip : ℕ) (t : Tables) (r : SagaRecord) (s : SagaStep)
    → find_saga trip t.sagas ≡ some r
    → r.current_step ≡ s
    → handle_event fleet_vehicle_reserved
        (some trip)
        (handle_event fleet_vehicle_reserved (some trip) t)
      ≡ handle_event fleet_vehicle_reserved (some trip) t
twice_fleet trip t r reserving_fleet f c =
    completed_final trip _ (to_completed r) fleet_vehicle_reserved (after_fleet trip t r f c) refl
twice_fleet trip t r reserving_driver f c =
    let same = handle_dispatch trip t fleet_vehicle_reserved r reserving_driver f c in
    rw (same, same) refl
twice_fleet trip t r SagaStep.completed f c =
    let same = completed_final trip t r fleet_vehicle_reserved f c in rw (same, same) refl

-- A confirmation that arrives twice, of the driver or of the vehicle, has the effect of one.
pub reserved_twice :
    (trip : ℕ) (t : Tables)
    → (handle_event driver_reserved (some trip) (handle_event driver_reserved (some trip) t)
        ≡ handle_event driver_reserved (some trip) t)
      × (handle_event fleet_vehicle_reserved
            (some trip)
            (handle_event fleet_vehicle_reserved (some trip) t)
          ≡ handle_event fleet_vehicle_reserved (some trip) t)
reserved_twice trip t = elim (Option-cases (find_saga trip t.sagas)) [
  | inl e ↦ (
    (let same = handle_missing trip t driver_reserved e in rw (same, same) refl),
    (let same = handle_missing trip t fleet_vehicle_reserved e in rw (same, same) refl),
  )
  | inr (r, e) ↦
      (twice_driver trip t r r.current_step e refl, twice_fleet trip t r r.current_step e refl)
]

abbrev started : ℕ → SagaRecord
started trip = record {
  trip_id = trip;
  saga_status = SagaStatus.pending;
  current_step = reserving_driver;
  failure = none;
}

find_started :
    (trip : ℕ) (t : Tables)
    → find_saga trip t.sagas ≡ none
    → find_saga trip (start_saga trip t).sagas ≡ some (started trip)
unfolding start_saga
find_started trip t new = find-append_saga trip t.sagas (started trip) new refl

outbox_start :
    (trip : ℕ) (t : Tables)
    → (start_saga trip t).outbox
      ≡ t.outbox ++ record { trip_id = trip; command = driver_reserve } ∷ []
unfolding start_saga
outbox_start trip t = refl

outbox_driver :
    (trip : ℕ) (t : Tables) (r : SagaRecord)
    → find_saga trip t.sagas ≡ some r
    → r.current_step ≡ reserving_driver
    → (handle_event driver_reserved (some trip) t).outbox
      ≡ t.outbox ++ record { trip_id = trip; command = fleet_reserve } ∷ []
unfolding set_saga write_outbox
outbox_driver trip t r f c = rw (handle_dispatch trip t driver_reserved r reserving_driver f c) refl

assigned_outbox :
    (trip : ℕ) (t : Tables) (o : Option Trip)
    → (write_outbox trip trip_assigned (assign_trip trip t o)).outbox
      ≡ t.outbox ++ record { trip_id = trip; command = trip_assigned } ∷ []
unfolding write_outbox set_trip_status
assigned_outbox trip t none = refl
assigned_outbox trip t (some x) = refl

outbox_fleet :
    (trip : ℕ) (t : Tables) (r : SagaRecord)
    → find_saga trip t.sagas ≡ some r
    → r.current_step ≡ reserving_fleet
    → (handle_event fleet_vehicle_reserved (some trip) t).outbox
      ≡ t.outbox ++ record { trip_id = trip; command = trip_assigned } ∷ []
unfolding set_saga
outbox_fleet trip t r f c =
    rw (handle_dispatch trip t fleet_vehicle_reserved r reserving_fleet f c)
      (assigned_outbox trip (set_saga trip to_completed t) (find_trip trip t.trips))

-- A saga started for a trip that has none, which hears of the driver and then of the vehicle,
-- completes, and has sent the two commands and the announcement, in this order.
pub saga_completes :
    (trip : ℕ) (t : Tables)
    → find_saga trip t.sagas ≡ none
    → let u =
        handle_event fleet_vehicle_reserved
          (some trip)
          (handle_event driver_reserved (some trip) (start_saga trip t)) in
      SagaIs trip u SagaStep.completed SagaStatus.completed
      × (u.outbox
          ≡ t.outbox
            ++ record { trip_id = trip; command = driver_reserve }
              ∷ record { trip_id = trip; command = fleet_reserve }
              ∷ record { trip_id = trip; command = trip_assigned }
              ∷ [])
saga_completes trip t new =
    let s0 = started trip in
    let t0 = start_saga trip t in
    let f0 = find_started trip t new in
    let f1 = after_driver trip t0 s0 f0 refl in
    let t1 = handle_event driver_reserved (some trip) t0 in
    (
      (to_completed (to_fleet s0), after_fleet trip t1 (to_fleet s0) f1 refl, refl, refl),
      outbox_fleet trip t1 (to_fleet s0) f1 refl
          ∙ ap (λ o. o ++ record { trip_id = trip; command = trip_assigned } ∷ [])
              (outbox_driver trip t0 s0 f0 refl)
          ∙ ap
              (λ o.
                (o ++ record { trip_id = trip; command = fleet_reserve } ∷ [])
                ++ record { trip_id = trip; command = trip_assigned } ∷ [])
              (outbox_start trip t)
          ∙ simp append_assoc,
    )
