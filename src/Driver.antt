-- ===== src/Driver.antt =====
-- services/driver-service: the rows of models.py that the lifecycle endpoints use, the masking of
-- phone numbers, the views of serializers.py, and the endpoints. Ids and request ids are numbers,
-- as times are; a phone number is the list of its characters.
pub mod Masking
mod Tests
pub mod Session
pub mod Lifecycle
use lojinextv.Prelude.{ℕ, String, Bool, Option, List}
use lojinextv.StateMachine.Driver.{DriverStatus}
use lojinextv.Outbox.{OutboxPublishStatus}

-- `is_assignable` is the attribute as the session last read it: the database computes the column.
pub record Driver : Type 0 where
  pub driver_id : ℕ
  pub company_driver_code : Option String
  pub full_name : String
  pub phone_e164 : Option (List ℕ)
  pub phone_normalization_status : String
  pub telegram_user_id : Option String
  pub license_class : String
  pub employment_start_date : ℕ
  pub employment_end_date : Option ℕ
  pub status : DriverStatus
  pub inactive_reason : Option String
  pub is_assignable : Bool
  pub note : Option String
  pub row_version : ℕ
  pub created_at_utc : ℕ
  pub updated_at_utc : ℕ
  pub updated_by_actor_id : ℕ
  pub soft_deleted_at_utc : Option ℕ

-- "SOFT_DELETED", or the status
pub data LifecycleState : Type 0 where
  soft_deleted : LifecycleState
  live : DriverStatus → LifecycleState

-- `serialize_driver_admin`
pub record AdminView : Type 0 where
  pub driver_id : ℕ
  pub company_driver_code : Option String
  pub full_name : String
  pub phone : Option (List ℕ)
  pub phone_normalization_status : String
  pub telegram_user_id : Option String
  pub license_class : String
  pub employment_start_date : ℕ
  pub employment_end_date : Option ℕ
  pub status : DriverStatus
  pub inactive_reason : Option String
  pub soft_delete_reason : Option String
  pub soft_deleted_at_utc : Option ℕ
  pub lifecycle_state : LifecycleState
  pub is_assignable : Bool
  pub note : Option String
  pub row_version : ℕ
  pub created_at_utc : ℕ
  pub updated_at_utc : ℕ

-- `serialize_driver_manager`
pub record ManagerView : Type 0 where
  pub driver_id : ℕ
  pub company_driver_code : Option String
  pub full_name : String
  pub phone : Option (List ℕ)
  pub telegram_user_id : Option String
  pub license_class : String
  pub employment_start_date : ℕ
  pub employment_end_date : Option ℕ
  pub status : DriverStatus
  pub inactive_reason : Option String
  pub soft_delete_reason : Option String
  pub soft_deleted_at_utc : Option ℕ
  pub lifecycle_state : LifecycleState
  pub is_assignable : Bool
  pub row_version : ℕ
  pub updated_at_utc : ℕ

-- `serialize_driver_internal`
pub record InternalView : Type 0 where
  pub driver_id : ℕ
  pub company_driver_code : Option String
  pub full_name : String
  pub telegram_user_id : Option String
  pub license_class : String
  pub status : DriverStatus
  pub inactive_reason : Option String
  pub soft_delete_reason : Option String
  pub soft_deleted_at_utc : Option ℕ
  pub lifecycle_state : LifecycleState
  pub is_assignable : Bool

pub data Resource : Type 0 where
  admin_view : AdminView → Resource
  manager_view : ManagerView → Resource
  internal_view : InternalView → Resource

pub data Role : Type 0 where
  super_admin admin manager other : Role

pub record AuthContext : Type 0 where
  pub actor_id : ℕ
  pub role : Role

pub data AuditActionType : Type 0 where
  status_change soft_delete : AuditActionType

pub record AuditLog : Type 0 where
  pub driver_id : ℕ
  pub action_type : AuditActionType
  -- the `status` pair of the changed fields
  pub changed_fields : DriverStatus × DriverStatus
  pub old_snapshot : AdminView
  pub new_snapshot : AdminView
  pub actor_id : ℕ
  pub actor_role : Role
  pub reason : Option String
  pub request_id : Option ℕ
  pub created_at_utc : ℕ

pub data EventName : Type 0 where
  driver_inactivated driver_reactivated driver_cancelled : EventName

pub record OutboxPayload : Type 0 where
  pub driver_id : ℕ
  pub reason : Option String
  pub row_version : ℕ
  pub at_utc : ℕ

pub record OutboxRow : Type 0 where
  pub aggregate_id : ℕ
  pub aggregate_version : ℕ
  pub event_name : EventName
  pub payload : OutboxPayload
  pub partition_key : ℕ
  pub publish_status : OutboxPublishStatus
  pub attempt_count : ℕ
  pub request_id : Option ℕ
  pub correlation_id : Option ℕ
  pub created_at_utc : ℕ
  pub next_attempt_at_utc : ℕ

-- the endpoint of a fingerprint; its path also names the driver
pub data Endpoint : Type 0 where
  inactivate reactivate soft_delete : Endpoint

pub record IdempotencyRecord : Type 0 where
  pub idempotency_key : ℕ
  pub endpoint : Endpoint
  pub path_id : ℕ
  pub response_code : ℕ
  pub response_body : Resource
  pub actor_id : ℕ
  pub created_at_utc : ℕ
  pub expires_at_utc : ℕ

pub record Db : Type 0 where
  pub drivers : List Driver
  pub audit_log : List AuditLog
  pub outbox : List OutboxRow
  pub idempotency : List IdempotencyRecord
