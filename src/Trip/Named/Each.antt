-- ===== src/Trip/Named/Each.antt =====
-- Each field of a row after the steps of an edit, and its name.
use lojinextv.Prelude.{ℕ, refl, String, Option, some, List, [], ◌∷◌}
use lojinextv.Trip.Tables.{Trip}
use lojinextv.Trip.Edit.{
  EditTripRequest, Step, assign, assign_start, assign_timezone, steps, run_steps,
}
use lojinextv.Trip.Named.{
  run_steps-Foreign, Field, sent_start, Foreign, ◌▸◌, assign-Foreign, start-Foreign, zone-Foreign,
  run_steps-Field, assign-Field, start-Field, Fields,
}

module _ (start : Option ℕ) (body : EditTripRequest) (t : Trip) where
  abbrev u : Trip
  u = (run_steps (steps start body) t).0

  abbrev c : List String
  c = (run_steps (steps start body) t).1

  abbrev zone : Step
  zone = assign_timezone body.trip_timezone

  abbrev driver_step : Step
  driver_step =
      assign (λ r. r.driver_id) (λ v r. record r { driver_id = v }) "driver_id" body.driver_id

  abbrev vehicle_step : Step
  vehicle_step =
      assign (λ r. r.vehicle_id) (λ v r. record r { vehicle_id = v }) "vehicle_id" body.vehicle_id

  abbrev trailer_step : Step
  trailer_step =
      assign (λ r. r.trailer_id) (λ v r. record r { trailer_id = v }) "trailer_id" body.trailer_id

  abbrev tare_step : Step
  tare_step =
      assign (λ r. r.tare_weight_kg) (λ v r. record r { tare_weight_kg = v }) "tare_weight_kg"
        body.tare_weight_kg

  abbrev gross_step : Step
  gross_step =
      assign (λ r. r.gross_weight_kg) (λ v r. record r { gross_weight_kg = v }) "gross_weight_kg"
        body.gross_weight_kg

  abbrev net_step : Step
  net_step =
      assign (λ r. r.net_weight_kg) (λ v r. record r { net_weight_kg = v }) "net_weight_kg"
        body.net_weight_kg

  begin-Field : Field "trip_datetime_utc" (λ r. some r.trip_datetime_utc) (sent_start start) t u c
  begin-Field =
      run_steps-Field "trip_datetime_utc" (λ r. some r.trip_datetime_utc) (sent_start start) ([])
        (zone ∷ driver_step ∷ vehicle_step ∷ trailer_step ∷ tare_step ∷ gross_step ∷ net_step ∷ [])
        (assign_start start) tt (start-Field start)
        (zone-Foreign "trip_datetime_utc" (λ r. some r.trip_datetime_utc) refl (λ z w. refl)
            body.trip_timezone
          ▸ assign-Foreign "trip_datetime_utc" (λ r. some r.trip_datetime_utc) _ _ _ refl
              (λ v w. refl) body.driver_id
          ▸ assign-Foreign "trip_datetime_utc" (λ r. some r.trip_datetime_utc) _ _ _ refl
              (λ v w. refl) body.vehicle_id
          ▸ assign-Foreign "trip_datetime_utc" (λ r. some r.trip_datetime_utc) _ _ _ refl
              (λ v w. refl) body.trailer_id
          ▸ assign-Foreign "trip_datetime_utc" (λ r. some r.trip_datetime_utc) _ _ _ refl
              (λ v w. refl) body.tare_weight_kg
          ▸ assign-Foreign "trip_datetime_utc" (λ r. some r.trip_datetime_utc) _ _ _ refl
              (λ v w. refl) body.gross_weight_kg
          ▸ assign-Foreign "trip_datetime_utc" (λ r. some r.trip_datetime_utc) _ _ _ refl
              (λ v w. refl) body.net_weight_kg
          ▸ tt)
        t

  driver-Field : Field "driver_id" (λ r. r.driver_id) body.driver_id t u c
  driver-Field =
      run_steps-Field "driver_id" (λ r. r.driver_id) body.driver_id (assign_start start ∷ zone ∷ [])
        (vehicle_step ∷ trailer_step ∷ tare_step ∷ gross_step ∷ net_step ∷ []) (driver_step)
        (start-Foreign "driver_id" (λ r. r.driver_id) refl (λ k w. refl) start
          ▸ zone-Foreign "driver_id" (λ r. r.driver_id) refl (λ z w. refl) body.trip_timezone
          ▸ tt)
        (assign-Field "driver_id" (λ r. r.driver_id) (λ v r. record r { driver_id = v }) "driver_id"
          refl (λ v w. refl) body.driver_id)
        (assign-Foreign "driver_id" (λ r. r.driver_id) _ _ _ refl (λ v w. refl) body.vehicle_id
          ▸ assign-Foreign "driver_id" (λ r. r.driver_id) _ _ _ refl (λ v w. refl) body.trailer_id
          ▸ assign-Foreign "driver_id" (λ r. r.driver_id) _ _ _ refl (λ v w. refl)
              body.tare_weight_kg
          ▸ assign-Foreign "driver_id" (λ r. r.driver_id) _ _ _ refl (λ v w. refl)
              body.gross_weight_kg
          ▸ assign-Foreign "driver_id" (λ r. r.driver_id) _ _ _ refl (λ v w. refl)
              body.net_weight_kg
          ▸ tt)
        t

  vehicle-Field : Field "vehicle_id" (λ r. r.vehicle_id) body.vehicle_id t u c
  vehicle-Field =
      run_steps-Field "vehicle_id" (λ r. r.vehicle_id) body.vehicle_id
        (assign_start start ∷ zone ∷ driver_step ∷ [])
        (trailer_step ∷ tare_step ∷ gross_step ∷ net_step ∷ []) (vehicle_step)
        (start-Foreign "vehicle_id" (λ r. r.vehicle_id) refl (λ k w. refl) start
          ▸ zone-Foreign "vehicle_id" (λ r. r.vehicle_id) refl (λ z w. refl) body.trip_timezone
          ▸ assign-Foreign "vehicle_id" (λ r. r.vehicle_id) _ _ _ refl (λ v w. refl) body.driver_id
          ▸ tt)
        (assign-Field "vehicle_id" (λ r. r.vehicle_id) (λ v r. record r { vehicle_id = v })
          "vehicle_id" refl (λ v w. refl) body.vehicle_id)
        (assign-Foreign "vehicle_id" (λ r. r.vehicle_id) _ _ _ refl (λ v w. refl) body.trailer_id
          ▸ assign-Foreign "vehicle_id" (λ r. r.vehicle_id) _ _ _ refl (λ v w. refl)
              body.tare_weight_kg
          ▸ assign-Foreign "vehicle_id" (λ r. r.vehicle_id) _ _ _ refl (λ v w. refl)
              body.gross_weight_kg
          ▸ assign-Foreign "vehicle_id" (λ r. r.vehicle_id) _ _ _ refl (λ v w. refl)
              body.net_weight_kg
          ▸ tt)
        t

  trailer-Field : Field "trailer_id" (λ r. r.trailer_id) body.trailer_id t u c
  trailer-Field =
      run_steps-Field "trailer_id" (λ r. r.trailer_id) body.trailer_id
        (assign_start start ∷ zone ∷ driver_step ∷ vehicle_step ∷ [])
        (tare_step ∷ gross_step ∷ net_step ∷ []) (trailer_step)
        (start-Foreign "trailer_id" (λ r. r.trailer_id) refl (λ k w. refl) start
          ▸ zone-Foreign "trailer_id" (λ r. r.trailer_id) refl (λ z w. refl) body.trip_timezone
          ▸ assign-Foreign "trailer_id" (λ r. r.trailer_id) _ _ _ refl (λ v w. refl) body.driver_id
          ▸ assign-Foreign "trailer_id" (λ r. r.trailer_id) _ _ _ refl (λ v w. refl) body.vehicle_id
          ▸ tt)
        (assign-Field "trailer_id" (λ r. r.trailer_id) (λ v r. record r { trailer_id = v })
          "trailer_id" refl (λ v w. refl) body.trailer_id)
        (assign-Foreign "trailer_id" (λ r. r.trailer_id) _ _ _ refl (λ v w. refl)
            body.tare_weight_kg
          ▸ assign-Foreign "trailer_id" (λ r. r.trailer_id) _ _ _ refl (λ v w. refl)
              body.gross_weight_kg
          ▸ assign-Foreign "trailer_id" (λ r. r.trailer_id) _ _ _ refl (λ v w. refl)
              body.net_weight_kg
          ▸ tt)
        t

  tare-Field : Field "tare_weight_kg" (λ r. r.tare_weight_kg) body.tare_weight_kg t u c
  tare-Field =
      run_steps-Field "tare_weight_kg" (λ r. r.tare_weight_kg) body.tare_weight_kg
        (assign_start start ∷ zone ∷ driver_step ∷ vehicle_step ∷ trailer_step ∷ [])
        (gross_step ∷ net_step ∷ []) (tare_step)
        (start-Foreign "tare_weight_kg" (λ r. r.tare_weight_kg) refl (λ k w. refl) start
          ▸ zone-Foreign "tare_weight_kg" (λ r. r.tare_weight_kg) refl (λ z w. refl)
              body.trip_timezone
          ▸ assign-Foreign "tare_weight_kg" (λ r. r.tare_weight_kg) _ _ _ refl (λ v w. refl)
              body.driver_id
          ▸ assign-Foreign "tare_weight_kg" (λ r. r.tare_weight_kg) _ _ _ refl (λ v w. refl)
              body.vehicle_id
          ▸ assign-Foreign "tare_weight_kg" (λ r. r.tare_weight_kg) _ _ _ refl (λ v w. refl)
              body.trailer_id
          ▸ tt)
        (assign-Field "tare_weight_kg" (λ r. r.tare_weight_kg)
          (λ v r. record r { tare_weight_kg = v }) "tare_weight_kg" refl (λ v w. refl)
          body.tare_weight_kg)
        (assign-Foreign "tare_weight_kg" (λ r. r.tare_weight_kg) _ _ _ refl (λ v w. refl)
            body.gross_weight_kg
          ▸ assign-Foreign "tare_weight_kg" (λ r. r.tare_weight_kg) _ _ _ refl (λ v w. refl)
              body.net_weight_kg
          ▸ tt)
        t

  gross-Field : Field "gross_weight_kg" (λ r. r.gross_weight_kg) body.gross_weight_kg t u c
  gross-Field =
      run_steps-Field "gross_weight_kg" (λ r. r.gross_weight_kg) body.gross_weight_kg
        (assign_start start ∷ zone ∷ driver_step ∷ vehicle_step ∷ trailer_step ∷ tare_step ∷ [])
        (net_step ∷ []) (gross_step)
        (start-Foreign "gross_weight_kg" (λ r. r.gross_weight_kg) refl (λ k w. refl) start
          ▸ zone-Foreign "gross_weight_kg" (λ r. r.gross_weight_kg) refl (λ z w. refl)
              body.trip_timezone
          ▸ assign-Foreign "gross_weight_kg" (λ r. r.gross_weight_kg) _ _ _ refl (λ v w. refl)
              body.driver_id
          ▸ assign-Foreign "gross_weight_kg" (λ r. r.gross_weight_kg) _ _ _ refl (λ v w. refl)
              body.vehicle_id
          ▸ assign-Foreign "gross_weight_kg" (λ r. r.gross_weight_kg) _ _ _ refl (λ v w. refl)
              body.trailer_id
          ▸ assign-Foreign "gross_weight_kg" (λ r. r.gross_weight_kg) _ _ _ refl (λ v w. refl)
              body.tare_weight_kg
          ▸ tt)
        (assign-Field "gross_weight_kg" (λ r. r.gross_weight_kg)
          (λ v r. record r { gross_weight_kg = v }) "gross_weight_kg" refl (λ v w. refl)
          body.gross_weight_kg)
        (assign-Foreign "gross_weight_kg" (λ r. r.gross_weight_kg) _ _ _ refl (λ v w. refl)
            body.net_weight_kg
          ▸ tt)
        t

  net-Field : Field "net_weight_kg" (λ r. r.net_weight_kg) body.net_weight_kg t u c
  net-Field =
      run_steps-Field "net_weight_kg" (λ r. r.net_weight_kg) body.net_weight_kg
        (assign_start start
          ∷ zone
          ∷ driver_step
          ∷ vehicle_step
          ∷ trailer_step
          ∷ tare_step
          ∷ gross_step
          ∷ [])
        ([]) (net_step)
        (start-Foreign "net_weight_kg" (λ r. r.net_weight_kg) refl (λ k w. refl) start
          ▸ zone-Foreign "net_weight_kg" (λ r. r.net_weight_kg) refl (λ z w. refl)
              body.trip_timezone
          ▸ assign-Foreign "net_weight_kg" (λ r. r.net_weight_kg) _ _ _ refl (λ v w. refl)
              body.driver_id
          ▸ assign-Foreign "net_weight_kg" (λ r. r.net_weight_kg) _ _ _ refl (λ v w. refl)
              body.vehicle_id
          ▸ assign-Foreign "net_weight_kg" (λ r. r.net_weight_kg) _ _ _ refl (λ v w. refl)
              body.trailer_id
          ▸ assign-Foreign "net_weight_kg" (λ r. r.net_weight_kg) _ _ _ refl (λ v w. refl)
              body.tare_weight_kg
          ▸ assign-Foreign "net_weight_kg" (λ r. r.net_weight_kg) _ _ _ refl (λ v w. refl)
              body.gross_weight_kg
          ▸ tt)
        (assign-Field "net_weight_kg" (λ r. r.net_weight_kg) (λ v r. record r { net_weight_kg = v })
          "net_weight_kg" refl (λ v w. refl) body.net_weight_kg)
        tt t

  -- no assignment reaches the route pair
  pub route-Foreign : Foreign "route_pair_id" (λ r. r.route_pair_id) t (u, c)
  route-Foreign =
      run_steps-Foreign "route_pair_id" (λ r. r.route_pair_id) (steps start body)
        (start-Foreign "route_pair_id" (λ r. r.route_pair_id) refl (λ k w. refl) start
          ▸ zone-Foreign "route_pair_id" (λ r. r.route_pair_id) refl (λ z w. refl)
              body.trip_timezone
          ▸ assign-Foreign "route_pair_id" (λ r. r.route_pair_id) _ _ _ refl (λ v w. refl)
              body.driver_id
          ▸ assign-Foreign "route_pair_id" (λ r. r.route_pair_id) _ _ _ refl (λ v w. refl)
              body.vehicle_id
          ▸ assign-Foreign "route_pair_id" (λ r. r.route_pair_id) _ _ _ refl (λ v w. refl)
              body.trailer_id
          ▸ assign-Foreign "route_pair_id" (λ r. r.route_pair_id) _ _ _ refl (λ v w. refl)
              body.tare_weight_kg
          ▸ assign-Foreign "route_pair_id" (λ r. r.route_pair_id) _ _ _ refl (λ v w. refl)
              body.gross_weight_kg
          ▸ assign-Foreign "route_pair_id" (λ r. r.route_pair_id) _ _ _ refl (λ v w. refl)
              body.net_weight_kg
          ▸ tt)
        t

  pub assigned-Fields : Fields body (sent_start start) t u c
  assigned-Fields = record {
    begin = begin-Field;
    driver = driver-Field;
    vehicle = vehicle-Field;
    trailer = trailer-Field;
    tare = tare-Field;
    gross = gross-Field;
    net = net-Field;
  }
