-- ===== src/Fleet/Tables.antt =====
-- services/fleet-service/src/fleet_service/models.py: the rows that the vehicle service reads and
-- writes. Identifiers (ULIDs, request ids, idempotency keys) are only compared for equality and are
-- numbers here; times are numbers. A JSON column is the value that is serialised into it.
use lojinextv.Prelude.{ℕ, String, Bool, Option, List}
use lojinextv.Outbox.{OutboxPublishStatus}
use lojinextv.Fleet.Plate.{Text}

pub data MasterStatus : Type 0 where
  active inactive : MasterStatus

pub MasterStatus-discrete : Discrete MasterStatus
MasterStatus-discrete = hlevel

pub data LifecycleState : Type 0 where
  active inactive soft_deleted : LifecycleState

pub data AggregateType : Type 0 where
  vehicle trailer : AggregateType

pub AggregateType-discrete : Discrete AggregateType
AggregateType-discrete = hlevel

pub data DeleteResult : Type 0 where
  rejected_unauthorized rejected_not_found rejected_etag_mismatch rejected_not_soft_deleted :
      DeleteResult
  rejected_dependency_unavailable rejected_referenced succeeded : DeleteResult

pub data ReferenceCheckStatus : Type 0 where
  not_attempted succeeded dependency_unavailable : ReferenceCheckStatus

pub record Actor : Type 0 where
  pub actor_type : String
  pub actor_id : String

pub record Vehicle : Type 0 where
  pub vehicle_id : ℕ
  pub asset_code : Text
  pub plate_raw_current : Text
  pub normalized_plate_current : Text
  pub brand : Option String
  pub model : Option String
  pub model_year : Option ℕ
  pub ownership_type : String
  pub status : MasterStatus
  pub notes : Option String
  pub row_version : ℕ
  pub spec_stream_version : ℕ
  pub soft_deleted_at_utc : Option ℕ
  pub soft_deleted_by : Option Actor
  pub soft_delete_reason : Option String
  pub created_at_utc : ℕ
  pub created_by : Actor
  pub updated_at_utc : ℕ
  pub updated_by : Actor

-- the columns of `VehicleSpecVersionFields` that describe the vehicle, from `fuel_type` to
-- `change_reason`: the service copies them, and shows five of them with a vehicle
abbrev pub SpecAttributes : Type 0
SpecAttributes = List (Option String)

pub record SpecVersion : Type 0 where
  pub vehicle_spec_version_id : ℕ
  pub vehicle_id : ℕ
  pub version_no : ℕ
  pub effective_from_utc : ℕ
  pub effective_to_utc : Option ℕ
  pub is_current : Bool
  pub attributes : SpecAttributes
  pub created_at_utc : ℕ
  pub created_by : Actor

-- `serialize_vehicle_admin` of services/audit_helpers.py
pub record AdminSnapshot : Type 0 where
  pub vehicle_id : ℕ
  pub asset_code : Text
  pub plate_raw : Text
  pub normalized_plate : Text
  pub brand : Option String
  pub model : Option String
  pub model_year : Option ℕ
  pub ownership_type : String
  pub status : MasterStatus
  pub notes : Option String
  pub row_version : ℕ
  pub created_at_utc : ℕ
  pub updated_at_utc : ℕ

-- `_build_vehicle_snapshot` of services/vehicle_service.py
pub record DeleteSnapshot : Type 0 where
  pub vehicle_id : ℕ
  pub asset_code : Text
  pub plate_raw_current : Text
  pub normalized_plate_current : Text
  pub brand : Option String
  pub model : Option String
  pub model_year : Option ℕ
  pub ownership_type : String
  pub status : MasterStatus
  pub row_version : ℕ
  pub spec_stream_version : ℕ
  pub created_at_utc : ℕ
  pub updated_at_utc : ℕ

-- the body of a PATCH, and the `changes` that it makes: a field that is `none` is not changed
pub record VehiclePatchRequest : Type 0 where
  pub plate : Option Text
  pub brand : Option String
  pub model : Option String
  pub model_year : Option ℕ
  pub ownership_type : Option String
  pub notes : Option String

pub record InitialSpec : Type 0 where
  pub effective_from_utc : Option ℕ
  pub attributes : SpecAttributes

pub record VehicleCreateRequest : Type 0 where
  pub asset_code : Text
  pub plate : Text
  pub ownership_type : String
  pub brand : Option String
  pub model : Option String
  pub model_year : Option ℕ
  pub notes : Option String
  pub initial_spec : Option InitialSpec

pub data TimelinePayload : Type 0 where
  snapshot : AdminSnapshot → TimelinePayload
  changes : VehiclePatchRequest → ℕ → TimelinePayload
  lifecycle : String → ℕ → Option MasterStatus → TimelinePayload
  tombstone : String → DeleteSnapshot → TimelinePayload
  -- `vehicle_spec_version_id`, `version_no`, `change_reason`, `spec_stream_version`
  spec_created : ℕ → ℕ → Option String → ℕ → TimelinePayload

pub record TimelineEvent : Type 0 where
  pub event_id : ℕ
  pub aggregate_type : AggregateType
  pub aggregate_id : ℕ
  pub event_type : String
  pub actor : Actor
  pub request_id : Option ℕ
  pub correlation_id : Option ℕ
  pub occurred_at_utc : ℕ
  pub payload : TimelinePayload

-- what the outbox payload carries beside the envelope
pub data OutboxData : Type 0 where
  admin : AdminSnapshot → OutboxData
  tombstone : DeleteSnapshot → OutboxData
  nothing : OutboxData
  -- `vehicle_spec_version_id`, `version_no`, `spec_stream_version`
  spec_created : ℕ → ℕ → ℕ → OutboxData

pub record OutboxPayload : Type 0 where
  pub event_id : ℕ
  pub event_name : String
  pub occurred_at_utc : ℕ
  pub aggregate_type : AggregateType
  pub aggregate_id : ℕ
  pub row_version : Option ℕ
  pub request_id : Option ℕ
  pub correlation_id : Option ℕ
  pub content : OutboxData

pub record OutboxRow : Type 0 where
  pub outbox_id : ℕ
  pub aggregate_type : AggregateType
  pub aggregate_id : ℕ
  pub event_name : String
  pub partition_key : ℕ
  pub payload : OutboxPayload
  pub publish_status : OutboxPublishStatus
  pub next_attempt_at_utc : ℕ
  pub created_at_utc : ℕ
  pub claim_token : Option ℕ
  pub claim_expires_at_utc : Option ℕ
  pub claimed_by_worker : Option ℕ

-- what the trip service answers to a reference check
pub record ReferenceCheck : Type 0 where
  pub has_references : Bool

pub record DeleteAudit : Type 0 where
  pub delete_audit_id : ℕ
  pub aggregate_id : ℕ
  pub snapshot_json : Option DeleteSnapshot
  pub reference_check_json : Option ReferenceCheck
  pub reference_check_status : ReferenceCheckStatus
  pub delete_attempted_by : Actor
  pub delete_result : DeleteResult
  pub delete_result_reason : String
  pub created_at_utc : ℕ

-- `body.notes or f"Fields changed: …"`
pub data AuditReason : Type 0 where
  given : String → AuditReason
  fields_changed : VehiclePatchRequest → AuditReason

pub record AuditLog : Type 0 where
  pub audit_id : ℕ
  pub aggregate_id : ℕ
  pub action_type : String
  pub actor : Actor
  pub old_snapshot : AdminSnapshot
  pub new_snapshot : AdminSnapshot
  pub changed_fields : VehiclePatchRequest
  pub reason : AuditReason
  pub request_id : Option ℕ

pub record CurrentSpecSummary : Type 0 where
  pub version_no : ℕ
  pub fuel_type : Option String
  pub powertrain_type : Option String
  pub emission_class : Option String
  pub curb_weight_kg : Option String
  pub gvwr_kg : Option String
  pub effective_from_utc : ℕ

-- the response of the detail, create, patch and lifecycle endpoints
pub record VehicleDetail : Type 0 where
  pub vehicle : Vehicle
  pub lifecycle_state : LifecycleState
  pub is_selectable : Bool
  pub current_spec_summary : Option CurrentSpecSummary

pub record IdempotencyRecord : Type 0 where
  pub idempotency_key : ℕ
  pub request_hash : ℕ
  pub response_status_code : ℕ
  pub response_body : VehicleDetail
  pub resource_id : ℕ
  pub created_at_utc : ℕ
  pub expires_at_utc : ℕ

pub record Db : Type 0 where
  pub vehicles : List Vehicle
  pub specs : List SpecVersion
  pub timeline : List TimelineEvent
  pub outbox : List OutboxRow
  pub delete_audits : List DeleteAudit
  pub audit_log : List AuditLog
  pub idempotency : List IdempotencyRecord
