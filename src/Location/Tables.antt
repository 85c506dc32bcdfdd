-- ===== src/Location/Tables.antt =====
-- services/location-service/src/location_service/models.py and enums.py: route pairs, their routes,
-- versions and processing runs. Lengths and durations are whole metres and seconds.
use lojinextv.Prelude.{ℕ, String, Option, List}
use lojinextv.Exec.{Exec, Session}

pub data PairStatus : Type 0 where
  draft active soft_deleted : PairStatus

pub data DirectionCode : Type 0 where
  forward reverse : DirectionCode

pub data ProcessingStatus : Type 0 where
  calculated_draft active superseded discarded : ProcessingStatus

pub data ValidationResult : Type 0 where
  pass warning fail unvalidated : ValidationResult

pub data RunStatus : Type 0 where
  queued running succeeded failed cancelled : RunStatus

pub data TriggerType : Type 0 where
  initial_calculate manual_refresh scheduled_refresh import_calculate bulk_refresh_item :
      TriggerType

pub record RoutePair : Type 0 where
  pub route_pair_id : ℕ
  pub pair_code : String
  pub origin_location_id : ℕ
  pub destination_location_id : ℕ
  pub profile_code : ℕ
  pub pair_status : PairStatus
  pub forward_route_id : Option ℕ
  pub reverse_route_id : Option ℕ
  pub current_active_forward_version_no : Option ℕ
  pub current_active_reverse_version_no : Option ℕ
  pub pending_forward_version_no : Option ℕ
  pub pending_reverse_version_no : Option ℕ
  pub row_version : ℕ

pub record Route : Type 0 where
  pub route_id : ℕ
  pub route_pair_id : ℕ
  pub route_code : String
  pub direction : DirectionCode

pub record RouteVersionCounter : Type 0 where
  pub route_id : ℕ
  pub next_version_no : ℕ

pub record RouteVersion : Type 0 where
  pub route_id : ℕ
  pub version_no : ℕ
  pub processing_run_id : ℕ
  pub processing_status : ProcessingStatus
  pub total_distance_m : ℕ
  pub total_duration_s : ℕ
  pub segment_count : ℕ
  pub validation_result : ValidationResult

pub record ProcessingRun : Type 0 where
  pub processing_run_id : ℕ
  pub route_pair_id : ℕ
  pub run_status : RunStatus
  pub trigger_type : TriggerType
  pub attempt_no : ℕ
  pub error_message : Option String
  pub claim_token : Option ℕ
  pub claim_expires_at_utc : Option ℕ
  pub claimed_by_worker : Option ℕ
  pub started_at_utc : Option ℕ
  pub completed_at_utc : Option ℕ
  pub created_at_utc : ℕ

pub data AuditAction : Type 0 where
  approve discard : AuditAction

pub record AuditLog : Type 0 where
  pub audit_id : ℕ
  pub target_id : ℕ
  pub action_type : AuditAction
  pub old_snapshot : Option RoutePair
  pub new_snapshot : Option RoutePair

pub data EventName : Type 0 where
  route_activated route_discarded : EventName

pub record OutboxEvent : Type 0 where
  pub outbox_id : ℕ
  pub event_name : EventName
  pub pair : RoutePair

pub record LocationDb : Type 0 where
  pub pairs : List RoutePair
  pub routes : List Route
  pub counters : List RouteVersionCounter
  pub versions : List RouteVersion
  pub runs : List ProcessingRun
  pub audit_log : List AuditLog
  pub outbox : List OutboxEvent

pub data LocationError : Type 0 where
  if_match_required pair_version_mismatch pair_not_found soft_deleted_pair : LocationError
  no_pending_draft not_ready_for_approval missing_routes : LocationError
  already_running already_active_use_refresh pending_draft_exists not_active_use_calculate :
      LocationError
  run_not_found run_not_stuck : LocationError

-- the clock, the ids that are drawn in turn, and the error that the database raises at the commit
pub record Context : Type 0 where
  pub now : ℕ
  pub new_ulid : ℕ → ℕ
  pub refused : Option LocationError

abbrev pub Handler : Type 0 → Type 0
Handler A = Exec LocationError LocationDb A

-- the session at the beginning of a request
abbrev pub clean : LocationDb → Session LocationDb
clean d = record { committed = d; work = d }
