-- ===== src/Trip/Tests.antt =====
-- The theorems on trips, on a table with one trip that waits for its review, and runs of the handlers.
use lojinextv.Prelude.{◌+◌, ◌≡◌, ◌≢◌, refl, true, false, none, some, [], ◌∷◌, inl, inr}
use lojinextv.Exec.{ok, err, request}
use lojinextv.StateMachine.{same, transition_to}
use lojinextv.StateMachine.Trip.{TripStatus, TripStatus-discrete, trip_transitions}
use lojinextv.Trip.{response, moved, store_approval, flush}
use lojinextv.Trip.Tables.{SourceType, Trip, Answer, version, Context, TripDb, driver_overlap}
use lojinextv.Trip.Create.{Externals, ManualCreateRequest, create_trip}
use lojinextv.Trip.Edit.{absent, sent, EditTripRequest}
use lojinextv.Trip.Disjoint.{Disjoint}
use lojinextv.Trip.Steps.{cancel, approve, act, Outcome, act-Outcome}
use lojinextv.Trip.Safety.{create, on, serve, serve-Disjoint, serve_stale_trip}

abbrev context : Context
context = record {
  now = 100000;
  actor_id = 9;
  is_super_admin = true;
  new_id = λ n. 50 + n;
  read_enrichment = λ e. e;
  refused = none;
}

abbrev pub waiting : Trip
waiting = record {
  id = 1;
  trip_no = "T-1";
  source_type = SourceType.admin_manual;
  review_reason_code = none;
  base_trip_id = none;
  driver_id = some 7;
  vehicle_id = some 8;
  trailer_id = none;
  route_pair_id = some 3;
  route_id = some 4;
  origin_location_id = some 5;
  origin_name_snapshot = some "A";
  destination_location_id = some 6;
  destination_name_snapshot = some "B";
  trip_datetime_utc = 90000;
  trip_timezone = "UTC";
  planned_duration_s = some 3600;
  planned_end_utc = some 93600;
  tare_weight_kg = some 1000;
  gross_weight_kg = some 3000;
  net_weight_kg = some 2000;
  is_empty_return = false;
  status = TripStatus.pending_review;
  version = 2;
  created_by_actor_id = 9;
  created_at_utc = 80000;
  updated_at_utc = 80000;
  soft_deleted_at_utc = none;
  soft_deleted_by_actor_id = none;
}

abbrev db : TripDb
db = record {
  trips = waiting ∷ [];
  enrichments = [];
  evidence = [];
  idempotency = [];
  timeline = [];
  outbox = [];
  audit_log = [];
}

db-Disjoint : Disjoint db.trips
db-Disjoint a b (inl p) (inl q) n = absurd (n cc)
db-Disjoint a b (inl p) (inr m) n = absurd m
db-Disjoint a b (inr m) q n = absurd m

abbrev externals : Externals
externals = record {
  references = none;
  location = ok (record {
    pair_id = 3;
    origin_location_id = 5;
    origin_name = "A";
    destination_location_id = 6;
    destination_name = "B";
    forward_route_id = 4;
    forward_duration_s = 3600;
    reverse_route_id = 14;
    reverse_duration_s = 3600;
  });
  start_utc = ok 95000;
  request_hash = 77;
  fingerprint = 78;
  payload_bytes = 200;
}

abbrev body : ManualCreateRequest
body = record {
  trip_no = "T-2";
  driver_id = 7;
  vehicle_id = 8;
  trailer_id = none;
  trip_timezone = "UTC";
  tare_weight_kg = 1000;
  gross_weight_kg = 2000;
  net_weight_kg = 1000;
  note = none;
}

-- the same request for a start within the window of the trip that waits
create_overlapping :
    (serve context (create (record externals { start_utc = ok 92000 }) (some 5) body) db).0
    ≡ err driver_overlap
unfolding serve create_trip
create_overlapping = refl

serve-Disjoint_example : Disjoint (serve context (create externals (some 5) body) db).1.trips
serve-Disjoint_example = serve-Disjoint context db db-Disjoint (create externals (some 5) body)

abbrev approved : Answer
approved = response (moved context TripStatus.completed waiting)

approve_answer : (request (act context 1 (approve none) (version 2)) db).0 ≡ ok approved
unfolding act same store_approval TripStatus-discrete transition_to trip_transitions flush
approve_answer = refl

act-Outcome_example :
    Outcome context 1
      (approve none)
      (version 2)
      db
      approved
      (request (act context 1 (approve none) (version 2)) db).1
act-Outcome_example = act-Outcome context 1 (version 2) db (approve none) approved approve_answer

new_etag : approved.etag ≢ 2
unfolding response moved
new_etag e = cc

serve_stale_trip_example :
    (serve context
      (on 1 cancel (version 2))
      (serve context (on 1 (approve none) (version 2)) db).1).0
    ≢ ok approved
unfolding serve
serve_stale_trip_example =
    serve_stale_trip context context 1 2 (approve none) cancel db approved approved approve_answer
      new_etag

abbrev other_driver : EditTripRequest
other_driver = record {
  route_pair_id = absent;
  sends_start = false;
  trip_timezone = none;
  driver_id = sent (some 17);
  vehicle_id = absent;
  trailer_id = absent;
  tare_weight_kg = absent;
  gross_weight_kg = absent;
  net_weight_kg = absent;
  note = none;
  change_reason = none;
  has_reason = false;
}

abbrev edited : Answer
edited = response (record waiting { driver_id = some 17; version = 3; updated_at_utc = 100000 })
