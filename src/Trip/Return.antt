-- ===== src/Trip/Return.antt =====
-- services/trip-service/src/trip_service/service.py: the creation of the empty return of a trip. The
-- location's answer is that for the route pair of the base trip.
use Prim.Native.String.{◌++◌}
use lojinextv.Prelude.{ℕ, String, Bool, true, ◌||◌, Option, none, some}
use lojinextv.Exec.{◌>>=◌, ◌>>◌, raise_if, require, gets}
use lojinextv.StateMachine.Trip.{TripStatus}
use lojinextv.Trip.{
  select_trip, is_deleted_trip_status, normalize_trip_status, status_is, missing_of, note_or,
}
use lojinextv.Trip.Tables.{
  SourceType, ReviewReasonCode, Trip, Answer, Context, TripDb, not_found,
  invalid_base_for_empty_return, Handler,
}
use lojinextv.Trip.Create.{Externals, replay_or, place_trip}

pub record EmptyReturnRequest : Type 0 where
  pub driver_id : ℕ
  pub vehicle_id : ℕ
  pub trailer_id : Option ℕ
  pub trip_timezone : String
  pub tare_weight_kg : ℕ
  pub gross_weight_kg : ℕ
  pub net_weight_kg : ℕ
  pub note : Option String

-- the columns that `create_empty_return` sets, before the location's context
abbrev pub return_trip :
    Context → Trip → EmptyReturnRequest → ℕ → TripStatus → Option ReviewReasonCode → Trip
return_trip ctx base body start status reason = record {
  id = ctx.new_id 0;
  trip_no = base.trip_no ++ "-B";
  source_type = SourceType.empty_return_admin;
  review_reason_code = reason;
  base_trip_id = some base.id;
  driver_id = some body.driver_id;
  vehicle_id = some body.vehicle_id;
  trailer_id = body.trailer_id;
  route_pair_id = none;
  route_id = none;
  origin_location_id = none;
  origin_name_snapshot = none;
  destination_location_id = none;
  destination_name_snapshot = none;
  trip_datetime_utc = start;
  trip_timezone = body.trip_timezone;
  planned_duration_s = none;
  planned_end_utc = none;
  tare_weight_kg = some body.tare_weight_kg;
  gross_weight_kg = some body.gross_weight_kg;
  net_weight_kg = some body.net_weight_kg;
  is_empty_return = true;
  status = status;
  version = 1;
  created_by_actor_id = ctx.actor_id;
  created_at_utc = ctx.now;
  updated_at_utc = ctx.now;
  soft_deleted_at_utc = none;
  soft_deleted_by_actor_id = none;
}

-- a trip that an empty return cannot go with
unfoldable pub invalid_base : Trip → Bool
unfolding is_deleted_trip_status normalize_trip_status status_is
invalid_base base =
    base.is_empty_return
    || is_deleted_trip_status base.status
    || status_is (normalize_trip_status base.status) TripStatus.rejected
    || missing_of base.route_pair_id

-- what `create_empty_return` does when there is nothing to replay
unfoldable pub return_fresh :
    Context → Externals → Option ℕ → ℕ → EmptyReturnRequest → Handler Answer
unfolding select_trip invalid_base place_trip
return_fresh ctx ext key base_trip_id body = do
  found ← gets (λ (d : TripDb). select_trip base_trip_id d.trips)
  base ← require found not_found
  raise_if (invalid_base base) invalid_base_for_empty_return
  place_trip ctx ext key (note_or body.note "Empty-return trip created.") true
      (return_trip ctx base body)

unfoldable pub create_empty_return :
    Context → Externals → Option ℕ → ℕ → EmptyReturnRequest → Handler Answer
unfolding replay_or return_fresh
create_empty_return ctx ext key base_trip_id body =
    replay_or ctx ext key (return_fresh ctx ext key base_trip_id body)
