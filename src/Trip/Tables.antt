-- ===== src/Trip/Tables.antt =====
-- services/trip-service/src/trip_service/models.py: the rows that the trip service reads and writes
-- when it creates, approves, rejects and cancels a trip. Times are seconds; identifiers, trip numbers
-- and names of timezones are only compared.
use lojinextv.Prelude.{ℕ, String, Bool, Option, List}
use lojinextv.Exec.{Exec}
use lojinextv.StateMachine.Trip.{TripStatus}

pub data SourceType : Type 0 where
  telegram_trip_slip admin_manual empty_return_admin excel_import : SourceType

pub data ReviewReasonCode : Type 0 where
  source_import future_manual fallback_minimal excel_import : ReviewReasonCode

pub record Trip : Type 0 where
  pub id : ℕ
  pub trip_no : String
  pub source_type : SourceType
  pub review_reason_code : Option ReviewReasonCode
  pub base_trip_id : Option ℕ
  pub driver_id : Option ℕ
  pub vehicle_id : Option ℕ
  pub trailer_id : Option ℕ
  pub route_pair_id : Option ℕ
  pub route_id : Option ℕ
  pub origin_location_id : Option ℕ
  pub origin_name_snapshot : Option String
  pub destination_location_id : Option ℕ
  pub destination_name_snapshot : Option String
  pub trip_datetime_utc : ℕ
  pub trip_timezone : String
  pub planned_duration_s : Option ℕ
  pub planned_end_utc : Option ℕ
  pub tare_weight_kg : Option ℕ
  pub gross_weight_kg : Option ℕ
  pub net_weight_kg : Option ℕ
  pub is_empty_return : Bool
  pub status : TripStatus
  pub version : ℕ
  pub created_by_actor_id : ℕ
  pub created_at_utc : ℕ
  pub updated_at_utc : ℕ
  pub soft_deleted_at_utc : Option ℕ
  pub soft_deleted_by_actor_id : Option ℕ

pub data TimelineType : Type 0 where
  trip_created trip_cancelled trip_approved trip_rejected trip_edited : TimelineType

pub record TimelineEvent : Type 0 where
  pub id : ℕ
  pub trip_id : ℕ
  pub event_type : TimelineType
  pub actor_id : ℕ
  pub note : String
  pub created_at_utc : ℕ

pub data EventName : Type 0 where
  created completed soft_deleted rejected : EventName

-- a row of the outbox; its payload is made of the trip as it is then
pub record OutboxEvent : Type 0 where
  pub event_id : ℕ
  pub event_name : EventName
  pub payload : Trip
  pub created_at_utc : ℕ

pub data AuditAction : Type 0 where
  soft_delete reject update : AuditAction

pub record AuditLog : Type 0 where
  pub trip_id : ℕ
  pub action_type : AuditAction
  pub actor_id : ℕ
  pub old_snapshot : Trip
  pub new_snapshot : Trip
  pub changed_fields : List String
  pub reason : Option String
  pub created_at_utc : ℕ

pub data EnrichmentStatus : Type 0 where
  pending running ready failed skipped : EnrichmentStatus

pub data RouteStatus : Type 0 where
  pending ready failed skipped : RouteStatus

pub data DataQualityFlag : Type 0 where
  high medium low : DataQualityFlag

pub record Enrichment : Type 0 where
  pub id : ℕ
  pub trip_id : ℕ
  pub enrichment_status : EnrichmentStatus
  pub route_status : RouteStatus
  pub data_quality_flag : DataQualityFlag
  pub enrichment_attempt_count : ℕ
  pub last_enrichment_error_code : Option String
  pub next_retry_at_utc : Option ℕ
  pub claim_token : Option ℕ
  pub claim_expires_at_utc : Option ℕ
  pub claimed_by_worker : Option ℕ
  pub created_at_utc : ℕ
  pub updated_at_utc : ℕ

-- the answer: the row that its body is made of, the version of its ETag, and X-Trip-Status
pub record Answer : Type 0 where
  pub trip : Trip
  pub etag : ℕ
  pub status : TripStatus

-- the replay of an answer; a claim without one is a request in flight
pub record IdempotencyRecord : Type 0 where
  pub idempotency_key : ℕ
  pub endpoint_fingerprint : ℕ
  pub request_hash : ℕ
  pub replay : Option Answer
  pub expires_at_utc : ℕ

pub data EvidenceSource : Type 0 where
  telegram_trip_slip admin_manual excel_import : EvidenceSource

pub data EvidenceKind : Type 0 where
  slip_image manual_entry import_row : EvidenceKind

pub record Evidence : Type 0 where
  pub id : ℕ
  pub trip_id : ℕ
  pub evidence_source : EvidenceSource
  pub evidence_kind : EvidenceKind
  -- in thousandths
  pub ocr_confidence : Option ℕ
  pub origin_name_raw : Option String
  pub destination_name_raw : Option String
  pub created_at_utc : ℕ

-- what the If-Match header is: none, no ETag of a trip, or a version
pub data IfMatch : Type 0 where
  missing malformed : IfMatch
  version : ℕ → IfMatch

pub data TripError : Type 0 where
  not_found if_match_required version_mismatch invalid_status_transition : TripError
  completion_requirements_missing route_required_for_completion : TripError
  driver_overlap vehicle_overlap trailer_overlap : TripError
  invalid_date_window reference_invalid trip_no_conflict payload_too_large : TripError
  change_reason_required source_locked_field weights_inconsistent : TripError
  invalid_base_for_empty_return empty_return_already_exists : TripError
  idempotency_payload_mismatch idempotency_in_flight dependency_unavailable : TripError
  -- what the database raises at the commit
  integrity : TripError

-- what a request has from outside: the clock, the caller, the ids that it draws in turn, what it
-- read of an enrichment row (which it does not lock, so a worker may have written it since), and
-- the error (if any) that the database raises at the commit
pub record Context : Type 0 where
  pub now : ℕ
  pub actor_id : ℕ
  pub is_super_admin : Bool
  pub new_id : ℕ → ℕ
  pub read_enrichment : Enrichment → Enrichment
  pub refused : Option TripError

pub record TripDb : Type 0 where
  pub trips : List Trip
  pub enrichments : List Enrichment
  pub evidence : List Evidence
  pub idempotency : List IdempotencyRecord
  pub timeline : List TimelineEvent
  pub outbox : List OutboxEvent
  pub audit_log : List AuditLog

abbrev pub Handler : Type 0 → Type 0
Handler A = Exec TripError TripDb A
