-- ===== src/Trip.antt =====
-- services/trip-service/src/trip_service/service.py with trip_helpers.py: cancelling,
-- approving and rejecting a trip; creating and editing are in Create, Return and Edit. A handler runs in one session and holds the row that it reads
-- for update until the commit.
pub mod Tables
pub mod Overlap
pub mod Create
pub mod Return
pub mod Edit
pub mod Disjoint
pub mod Steps
pub mod Safety
pub mod Inserted
pub mod Frame
pub mod Named
pub mod Edited
pub mod Worker
pub mod Rounds
pub mod Enriched
mod Tests
use lojinextv.Prelude.{
  ℕ, ◌+◌, String, Bool, true, false, not, ◌&&◌, ◌||◌, Option, none, some, List, [], ◌∷◌, ◌++◌, ◌==◌,
  ltb, if◌then◌else◌, find, update_where,
}
use lojinextv.Exec.{◌>>=◌, ◌>>◌, pure, raise, raise_if, raise_some, require, gets, modify, commit}
use lojinextv.StateMachine.{StateMachine, transition_to, same}
use lojinextv.StateMachine.Trip.{TripStatus, TripStatus-discrete, trip_transitions}
use lojinextv.Trip.Tables.{
  SourceType, Trip, Answer, TimelineType, trip_cancelled, trip_approved, trip_rejected, EventName,
  completed, soft_deleted, rejected, AuditAction, soft_delete, reject, EnrichmentStatus,
  RouteStatus, DataQualityFlag, high, medium, low, Enrichment, IfMatch, missing, malformed, version,
  Context, TripDb, if_match_required, version_mismatch, not_found, invalid_status_transition,
  completion_requirements_missing, route_required_for_completion, Handler,
}
use lojinextv.Trip.Overlap.{end_of, assert_no_trip_overlap}

-- rows of an older schema carry CANCELLED
unfoldable pub normalize_trip_status : TripStatus → TripStatus
normalize_trip_status TripStatus.cancelled = TripStatus.soft_deleted
normalize_trip_status s = s

unfoldable pub status_is : TripStatus → TripStatus → Bool
unfolding same
status_is = same TripStatus-discrete

unfoldable pub is_deleted_trip_status : TripStatus → Bool
unfolding normalize_trip_status status_is
is_deleted_trip_status s = status_is (normalize_trip_status s) TripStatus.soft_deleted

unfoldable pub response : Trip → Answer
unfolding normalize_trip_status
response t = record { trip = t; etag = t.version; status = normalize_trip_status t.status }

unfoldable pub select_trip : ℕ → List Trip → Option Trip
select_trip id = find (λ t. t.id == id)

unfoldable pub write_trip : Trip → List Trip → List Trip
write_trip t' = update_where (λ t. t.id == t'.id) (λ _. t')

abbrev expect : IfMatch → ℕ → Handler (Unit {0})
expect missing n = raise if_match_required
expect malformed n = raise version_mismatch
expect (version m) n = raise_if (not (m == n)) version_mismatch

-- the row, locked, if the header names its version
unfoldable pub locked_trip : ℕ → IfMatch → Handler Trip
unfolding select_trip
locked_trip id if_match = do
  found ← gets (λ (d : TripDb). select_trip id d.trips)
  t ← require found not_found
  expect if_match t.version
  pure t

-- `validate_trip_transition`, whose error is the only one
unfoldable pub validate_trip_transition : Trip → TripStatus → Handler (Unit {0})
unfolding normalize_trip_status
validate_trip_transition t next =
    let machine : StateMachine TripStatus = record {
      current_state = normalize_trip_status t.status;
      valid_transitions = trip_transitions;
    } in
    require (transition_to TripStatus-discrete machine next).1 invalid_status_transition
    >>= (λ status. pure tt)

-- the row after `transition_trip`
unfoldable pub moved : Context → TripStatus → Trip → Trip
moved ctx next t = record t { status = next; version = t.version + 1; updated_at_utc = ctx.now }

abbrev pub flush : Trip → Handler (Unit {0})
unfolding write_trip
flush t = modify (λ (d : TripDb). record d { trips = write_trip t d.trips })

abbrev pub add_timeline : Context → ℕ → ℕ → TimelineType → String → Handler (Unit {0})
add_timeline ctx event trip event_type note = modify λ (d : TripDb). record d {
  timeline =
      d.timeline
      ++ record {
        id = event;
        trip_id = trip;
        event_type = event_type;
        actor_id = ctx.actor_id;
        note = note;
        created_at_utc = ctx.now;
      }
        ∷ [];
}

abbrev pub create_outbox_event : Context → ℕ → Trip → EventName → Handler (Unit {0})
create_outbox_event ctx event t name = modify λ (d : TripDb). record d {
  outbox =
      d.outbox
      ++ record { event_id = event; event_name = name; payload = t; created_at_utc = ctx.now } ∷ [];
}

abbrev pub write_audit :
    Context → AuditAction → Trip → Trip → List String → Option String → Handler (Unit {0})
write_audit ctx action old new changed reason = modify λ (d : TripDb). record d {
  audit_log =
      d.audit_log
      ++ record {
        trip_id = new.id;
        action_type = action;
        actor_id = ctx.actor_id;
        old_snapshot = old;
        new_snapshot = new;
        changed_fields = changed;
        reason = reason;
        created_at_utc = ctx.now;
      }
        ∷ [];
}

-- `trip_complete_errors`: whether a field that the completion needs is missing
abbrev pub missing_of {ℓ} : {A : Type ℓ} → Option A → Bool
missing_of none = true
missing_of (some a) = false

unfoldable pub trip_is_complete : Trip → Bool
trip_is_complete t = not (
    missing_of t.vehicle_id
    || missing_of t.route_pair_id
    || missing_of t.route_id
    || missing_of t.origin_location_id
    || missing_of t.origin_name_snapshot
    || missing_of t.destination_location_id
    || missing_of t.destination_name_snapshot
    || missing_of t.tare_weight_kg
    || missing_of t.gross_weight_kg
    || missing_of t.net_weight_kg
    || missing_of t.planned_duration_s
    || missing_of t.planned_end_utc)

-- packages/platform-common/src/platform_common/data_quality.py, with the confidence in thousandths
abbrev at_least : ℕ → Option ℕ → Bool
at_least n none = false
at_least n (some c) = not (ltb c n)

abbrev pub is_telegram : SourceType → Bool
is_telegram SourceType.telegram_trip_slip = true
is_telegram _ = false

unfoldable pub compute_data_quality_flag : SourceType → Option ℕ → Bool → DataQualityFlag
compute_data_quality_flag source confidence resolved =
    if not (is_telegram source)
    then high
    else if at_least 900 confidence && resolved
    then high
    else if at_least 700 confidence
    then medium
    else if not resolved
    then medium
    else low

abbrev same_route : RouteStatus → RouteStatus → Bool
same_route RouteStatus.pending RouteStatus.pending = true
same_route RouteStatus.ready RouteStatus.ready = true
same_route RouteStatus.failed RouteStatus.failed = true
same_route RouteStatus.skipped RouteStatus.skipped = true
same_route _ _ = false

abbrev same_enrichment : EnrichmentStatus → EnrichmentStatus → Bool
same_enrichment EnrichmentStatus.pending EnrichmentStatus.pending = true
same_enrichment EnrichmentStatus.running EnrichmentStatus.running = true
same_enrichment EnrichmentStatus.ready EnrichmentStatus.ready = true
same_enrichment EnrichmentStatus.failed EnrichmentStatus.failed = true
same_enrichment EnrichmentStatus.skipped EnrichmentStatus.skipped = true
same_enrichment _ _ = false

abbrev same_flag : DataQualityFlag → DataQualityFlag → Bool
same_flag high high = true
same_flag medium medium = true
same_flag low low = true
same_flag _ _ = false

-- The flush of a column that a request assigned: it is written if the value differs from the one
-- that the request had read.
abbrev flushed : {A : Type 0} → (A → A → Bool) → A → A → A → A
flushed same read assigned current = if same read assigned then current else assigned

-- the flush of a column that a request assigned NULL
abbrev cleared : {A : Type 0} → Option A → Option A → Option A
cleared none current = current
cleared (some a) current = none

-- `_set_enrichment_state` without a confidence, and its flush, on a row that the request had read
-- without a lock
unfoldable pub set_enrichment_state : Context → SourceType → Bool → Enrichment → Enrichment
unfolding compute_data_quality_flag
set_enrichment_state ctx source route_ready e =
    let read = ctx.read_enrichment e in
    record e {
      route_status =
          flushed same_route read.route_status
            (if route_ready then RouteStatus.ready else RouteStatus.pending) e.route_status;
      enrichment_status =
          flushed same_enrichment read.enrichment_status
            (if route_ready then EnrichmentStatus.ready else EnrichmentStatus.pending)
            e.enrichment_status;
      data_quality_flag =
          flushed same_flag read.data_quality_flag
            (compute_data_quality_flag source none route_ready) e.data_quality_flag;
      claim_token = cleared read.claim_token e.claim_token;
      claim_expires_at_utc = cleared read.claim_expires_at_utc e.claim_expires_at_utc;
      claimed_by_worker = cleared read.claimed_by_worker e.claimed_by_worker;
      last_enrichment_error_code =
          cleared read.last_enrichment_error_code e.last_enrichment_error_code;
      next_retry_at_utc = cleared read.next_retry_at_utc e.next_retry_at_utc;
      updated_at_utc = flushed (λ a b. a == b) read.updated_at_utc ctx.now e.updated_at_utc;
    }

abbrev pub sync_enrichment : Context → Trip → Handler (Unit {0})
unfolding set_enrichment_state
sync_enrichment ctx t = modify λ (d : TripDb). record d {
  enrichments =
      update_where (λ e. e.trip_id == t.id) (set_enrichment_state ctx t.source_type true)
        d.enrichments;
}

abbrev pub cancelled_row : Context → Trip → Trip
unfolding moved
cancelled_row ctx t = record (moved ctx TripStatus.soft_deleted t) {
  soft_deleted_at_utc = some ctx.now;
  soft_deleted_by_actor_id = some ctx.actor_id;
}

-- the writes of a cancellation
unfoldable pub cancel_live : Context → Trip → Handler Answer
unfolding cancelled_row response validate_trip_transition
cancel_live ctx t = do
  validate_trip_transition t TripStatus.soft_deleted
  let t' = cancelled_row ctx t
  flush t'
  add_timeline ctx (ctx.new_id 0) t.id trip_cancelled "Trip soft deleted."
  create_outbox_event ctx (ctx.new_id 1) t' soft_deleted
  write_audit ctx soft_delete t t' [] (some "Trip soft deleted.")
  raise_some ctx.refused
  commit
  pure (response t')

unfoldable pub cancel_trip : Context → ℕ → IfMatch → Handler Answer
unfolding locked_trip is_deleted_trip_status cancel_live response
cancel_trip ctx id if_match = do
  t ← locked_trip id if_match
  if is_deleted_trip_status t.status then pure (response t) else cancel_live ctx t

-- the guard of an approval and a rejection
abbrev pub require_pending : Trip → Handler (Unit {0})
unfolding status_is normalize_trip_status
require_pending t =
    raise_if (not (status_is (normalize_trip_status t.status) TripStatus.pending_review))
      invalid_status_transition

-- `given or text`, where an empty text is none
abbrev pub note_or : Option String → String → String
note_or none s = s
note_or (some n) s = n

-- the writes of an approval
unfoldable pub store_approval : Context → Option String → Trip → Handler Answer
unfolding validate_trip_transition moved sync_enrichment response
store_approval ctx note t = do
  validate_trip_transition t TripStatus.completed
  let t' = moved ctx TripStatus.completed t
  flush t'
  sync_enrichment ctx t'
  add_timeline ctx (ctx.new_id 0) t.id trip_approved (note_or note "Trip approved.")
  create_outbox_event ctx (ctx.new_id 1) t' completed
  raise_some ctx.refused
  commit
  pure (response t')

-- Its window ends at `planned_end_utc`, which the guard before the overlap check asks for.
unfoldable pub approve_trip : Context → ℕ → Option String → IfMatch → Handler Answer
unfolding locked_trip require_pending trip_is_complete end_of assert_no_trip_overlap store_approval
approve_trip ctx id note if_match = do
  t ← locked_trip id if_match
  require_pending t
  raise_if (not (trip_is_complete t)) completion_requirements_missing
  raise_if (missing_of t.route_id || missing_of t.planned_end_utc) route_required_for_completion
  assert_no_trip_overlap t.driver_id t.vehicle_id t.trailer_id t.trip_datetime_utc (end_of t)
      (some t.id)
  store_approval ctx note t

unfoldable pub reject_trip : Context → ℕ → Option String → IfMatch → Handler Answer
unfolding locked_trip require_pending validate_trip_transition moved response
reject_trip ctx id reason if_match = do
  t ← locked_trip id if_match
  require_pending t
  validate_trip_transition t TripStatus.rejected
  let t' = moved ctx TripStatus.rejected t
  flush t'
  add_timeline ctx (ctx.new_id 0) t.id trip_rejected (note_or reason "Trip rejected.")
  create_outbox_event ctx (ctx.new_id 1) t' rejected
  write_audit ctx reject t t' [] (some (note_or reason "Trip rejected."))
  raise_some ctx.refused
  commit
  pure (response t')
