-- ===== src/Trip/Create.antt =====
-- services/trip-service/src/trip_service/service.py: the creation of a manual trip. What the fleet and
-- location services answer, the conversion of the start to UTC, the hash of the request and the length
-- of its text are arguments.
use lojinextv.Prelude.{
  ℕ, ◌+◌, String, Bool, false, not, ◌&&◌, ◌||◌, Option, none, some, [], ◌∷◌, ◌++◌, ◌==◌, ltb,
  if◌then◌else◌, find, update_where,
}
use lojinextv.Exec.{
  Result, ok, err, ◌>>=◌, ◌>>◌, pure, raise, raise_if, raise_some, require, gets, modify, commit,
}
use lojinextv.StateMachine.Trip.{TripStatus}
use lojinextv.Trip.{status_is, response, create_outbox_event, add_timeline, note_or}
use lojinextv.Trip.Tables.{
  SourceType, ReviewReasonCode, future_manual, Trip, Answer, trip_created, created, completed,
  EnrichmentStatus, RouteStatus, DataQualityFlag, Enrichment, Evidence, EvidenceSource,
  EvidenceKind, IdempotencyRecord, Context, TripDb, TripError, invalid_date_window,
  payload_too_large, idempotency_payload_mismatch, idempotency_in_flight, Handler,
}
use lojinextv.Trip.Overlap.{end_of, assert_no_trip_overlap}

pub record LocationTripContext : Type 0 where
  pub pair_id : ℕ
  pub origin_location_id : ℕ
  pub origin_name : String
  pub destination_location_id : ℕ
  pub destination_name : String
  pub forward_route_id : ℕ
  pub forward_duration_s : ℕ
  pub reverse_route_id : ℕ
  pub reverse_duration_s : ℕ

pub record ManualCreateRequest : Type 0 where
  pub trip_no : String
  pub driver_id : ℕ
  pub vehicle_id : ℕ
  pub trailer_id : Option ℕ
  pub trip_timezone : String
  pub tare_weight_kg : ℕ
  pub gross_weight_kg : ℕ
  pub net_weight_kg : ℕ
  pub note : Option String

-- `ensure_trip_references_valid`, `fetch_trip_context` and `local_datetime_to_utc` with their errors,
-- `_merged_payload_hash`, the fingerprint of the endpoint with its caller, and the length of the
-- body as JSON
pub record Externals : Type 0 where
  pub references : Option TripError
  pub location : Result TripError LocationTripContext
  pub start_utc : Result TripError ℕ
  pub request_hash : ℕ
  pub fingerprint : ℕ
  pub payload_bytes : ℕ

abbrev pub answered : {A : Type 0} → Result TripError A → Handler A
answered (ok a) = pure a
answered (err e) = raise e

-- `calculate_planned_end` and `apply_trip_context`
unfoldable pub apply_trip_context : LocationTripContext → Bool → Trip → Trip
apply_trip_context c reverse t =
    let duration = if reverse then c.reverse_duration_s else c.forward_duration_s in
    record t {
      route_pair_id = some c.pair_id;
      origin_location_id =
          some (if reverse then c.destination_location_id else c.origin_location_id);
      origin_name_snapshot = some (if reverse then c.destination_name else c.origin_name);
      destination_location_id =
          some (if reverse then c.origin_location_id else c.destination_location_id);
      destination_name_snapshot = some (if reverse then c.origin_name else c.destination_name);
      route_id = some (if reverse then c.reverse_route_id else c.forward_route_id);
      planned_duration_s = some duration;
      planned_end_utc = some (t.trip_datetime_utc + duration);
    }

-- half an hour
abbrev pub manual_window : ℕ
manual_window = 1800

unfoldable pub classify_manual_status :
    Context → ℕ → Result TripError (TripStatus × Option ReviewReasonCode)
classify_manual_status ctx start =
    if ctx.is_super_admin
    then if ltb ctx.now start
      then ok (TripStatus.pending_review, some future_manual)
      else ok (TripStatus.completed, none)
    else if ltb (start + manual_window) ctx.now || ltb ctx.now start
    then err invalid_date_window
    else ok (TripStatus.completed, none)

-- the columns that `create_trip` sets, before the location's context
abbrev pub fresh_trip :
    Context → ManualCreateRequest → ℕ → TripStatus → Option ReviewReasonCode → Trip
fresh_trip ctx body start status reason = record {
  id = ctx.new_id 0;
  trip_no = body.trip_no;
  source_type = SourceType.admin_manual;
  review_reason_code = reason;
  base_trip_id = none;
  driver_id = some body.driver_id;
  vehicle_id = some body.vehicle_id;
  trailer_id = body.trailer_id;
  route_pair_id = none;
  route_id = none;
  origin_location_id = none;
  origin_name_snapshot = none;
  destination_location_id = none;
  destination_name_snapshot = none;
  trip_datetime_utc = start;
  trip_timezone = body.trip_timezone;
  planned_duration_s = none;
  planned_end_utc = none;
  tare_weight_kg = some body.tare_weight_kg;
  gross_weight_kg = some body.gross_weight_kg;
  net_weight_kg = some body.net_weight_kg;
  is_empty_return = false;
  status = status;
  version = 1;
  created_by_actor_id = ctx.actor_id;
  created_at_utc = ctx.now;
  updated_at_utc = ctx.now;
  soft_deleted_at_utc = none;
  soft_deleted_by_actor_id = none;
}

abbrev new_evidence : Context → ℕ → Evidence
new_evidence ctx trip = record {
  id = ctx.new_id 1;
  trip_id = trip;
  evidence_source = EvidenceSource.admin_manual;
  evidence_kind = EvidenceKind.manual_entry;
  ocr_confidence = none;
  origin_name_raw = none;
  destination_name_raw = none;
  created_at_utc = ctx.now;
}

abbrev new_enrichment : Context → ℕ → Enrichment
new_enrichment ctx trip = record {
  id = ctx.new_id 2;
  trip_id = trip;
  enrichment_status = EnrichmentStatus.ready;
  route_status = RouteStatus.ready;
  data_quality_flag = DataQualityFlag.high;
  enrichment_attempt_count = 0;
  last_enrichment_error_code = none;
  next_retry_at_utc = none;
  claim_token = none;
  claim_expires_at_utc = none;
  claimed_by_worker = none;
  created_at_utc = ctx.now;
  updated_at_utc = ctx.now;
}

abbrev pub claims : ℕ → ℕ → IdempotencyRecord → Bool
claims key fingerprint r = (r.idempotency_key == key) && (r.endpoint_fingerprint == fingerprint)

abbrev retention : ℕ
retention = 86400

-- the INSERT of a claim, or the UPDATE of it with an answer
abbrev pub record_of : Context → Externals → ℕ → Option Answer → IdempotencyRecord
record_of ctx ext key replay = record {
  idempotency_key = key;
  endpoint_fingerprint = ext.fingerprint;
  request_hash = ext.request_hash;
  replay = replay;
  expires_at_utc = ctx.now + retention;
}

abbrev pub claim : Context → Externals → ℕ → Option IdempotencyRecord → Handler (Option Answer)
claim ctx ext key none = do
  modify
      (λ (d : TripDb). record d { idempotency = d.idempotency ++ record_of ctx ext key none ∷ [] })
  pure none
claim ctx ext key (some r) = do
  raise_if (not (r.request_hash == ext.request_hash)) idempotency_payload_mismatch
  a ← require r.replay idempotency_in_flight
  pure (some a)

-- The answer to replay, if there is one. The lock of the key is held until the commit.
unfoldable pub check_idempotency_key : Context → Externals → Option ℕ → Handler (Option Answer)
check_idempotency_key ctx ext none = pure none
check_idempotency_key ctx ext (some key) = do
  found ← gets (λ (d : TripDb). find (claims key ext.fingerprint) d.idempotency)
  claim ctx ext key found

unfoldable pub save_idempotency_record :
    Context → Externals → Option ℕ → Answer → Handler (Unit {0})
save_idempotency_record ctx ext none a = pure tt
save_idempotency_record ctx ext (some key) a = modify λ (d : TripDb). record d {
  idempotency =
      update_where (claims key ext.fingerprint) (λ _. record_of ctx ext key (some a)) d.idempotency;
}

-- the writes of a creation, up to the commit
unfoldable pub insert_trip : Context → Externals → Option ℕ → String → Trip → Handler Answer
unfolding response save_idempotency_record status_is
insert_trip ctx ext key text t = do
  raise_if (ltb 524288 ext.payload_bytes) payload_too_large
  modify λ (d : TripDb). record d {
    trips = d.trips ++ t ∷ [];
    evidence = d.evidence ++ new_evidence ctx t.id ∷ [];
    enrichments = d.enrichments ++ new_enrichment ctx t.id ∷ [];
  }
  add_timeline ctx (ctx.new_id 3) t.id trip_created text
  create_outbox_event ctx (ctx.new_id 4) t created
  if status_is t.status TripStatus.completed
      then create_outbox_event ctx (ctx.new_id 5) t completed
      else pure tt
  save_idempotency_record ctx ext key (response t)
  raise_some ctx.refused
  commit
  pure (response t)

unfoldable pub store_trip : Context → Externals → Option ℕ → String → Trip → Handler Answer
unfolding end_of assert_no_trip_overlap insert_trip
store_trip ctx ext key text t = do
  assert_no_trip_overlap t.driver_id t.vehicle_id t.trailer_id t.trip_datetime_utc (end_of t) none
  insert_trip ctx ext key text t

-- from the check of the references to the commit, which a manual trip and an empty return share: the
-- row is made of the start, the status and the reason for a review
unfoldable pub place_trip :
    Context
    → Externals
    → Option ℕ
    → String
    → Bool
    → (ℕ → TripStatus → Option ReviewReasonCode → Trip)
    → Handler Answer
unfolding apply_trip_context classify_manual_status store_trip
place_trip ctx ext key text reverse row = do
  raise_some ext.references
  location ← answered ext.location
  start ← answered ext.start_utc
  (status, reason) ← answered (classify_manual_status ctx start)
  store_trip ctx ext key text (apply_trip_context location reverse (row start status reason))

-- a request that is answered from its idempotency key, if the key has an answer
unfoldable pub replay_or : Context → Externals → Option ℕ → Handler Answer → Handler Answer
unfolding check_idempotency_key
replay_or ctx ext key k = do
  replay ← check_idempotency_key ctx ext key
  elim replay [ some a ↦ pure a | none ↦ k ]

unfoldable pub create_trip : Context → Externals → Option ℕ → ManualCreateRequest → Handler Answer
unfolding replay_or place_trip
create_trip ctx ext key body =
    replay_or ctx ext key (
      place_trip ctx ext key (note_or body.note "Manual trip created.") false (fresh_trip ctx body))
