-- ===== src/Driver/Session.antt =====
-- What the lifecycle endpoints share: serializers.py, normalization.py's `derive_lifecycle_state`,
-- idempotency.py, errors.py, and the helpers at the top of routers/lifecycle.py.
use lojinextv.Prelude.{
  ℕ, ◌+◌, ◌*◌, String, Bool, true, false, not, ◌&&◌, Option, none, some, List, [], ◌∷◌, ◌++◌, ◌==◌,
  find, update_where, ite,
}
use lojinextv.Exec.{Exec, ◌>>=◌, ◌>>◌, pure, raise_if, raise_some, require, gets, modify, commit}
use lojinextv.StateMachine.Driver.{DriverStatus, active, DriverStatus-discrete}
use lojinextv.Outbox.{pending}
use lojinextv.Driver.{
  Driver, LifecycleState, soft_deleted, live, AdminView, ManagerView, InternalView, Resource,
  admin_view, manager_view, internal_view, Role, super_admin, admin, manager, AuthContext,
  AuditActionType, AuditLog, EventName, OutboxPayload, OutboxRow, Endpoint, inactivate, reactivate,
  soft_delete, IdempotencyRecord, Db,
}
use lojinextv.Driver.Masking.{mask_phone_for_manager}

pub data DriverError : Type 0 where
  if_match_required not_found version_mismatch : DriverError
  -- an empty body, and a body that pydantic refuses
  validation invalid_body : DriverError
  -- the ValueError of the state machine
  invalid_transition : DriverError
  phone_already_exists telegram_already_exists company_code_already_exists pending_outbox internal :
      DriverError

-- the constraint that an IntegrityError names
pub data Constraint : Type 0 where
  phone_live telegram_live company_code_live outbox_restrict unknown : Constraint

-- What a call has from outside: the clock, the caller, the request id, and the constraint (if any)
-- that the commit violates.
pub record Context : Type 0 where
  pub now : ℕ
  pub auth : AuthContext
  pub request_id : Option ℕ
  pub violated : Option Constraint

abbrev pub Handler : Type 0 → Type 0
Handler A = Exec DriverError Db A

abbrev pub derive_lifecycle_state : DriverStatus → Option ℕ → LifecycleState
derive_lifecycle_state status none = live status
derive_lifecycle_state status (some _) = soft_deleted

unfoldable pub serialize_driver_admin : Driver → AdminView
serialize_driver_admin d = record {
  driver_id = d.driver_id;
  company_driver_code = d.company_driver_code;
  full_name = d.full_name;
  phone = d.phone_e164;
  phone_normalization_status = d.phone_normalization_status;
  telegram_user_id = d.telegram_user_id;
  license_class = d.license_class;
  employment_start_date = d.employment_start_date;
  employment_end_date = d.employment_end_date;
  status = d.status;
  inactive_reason = d.inactive_reason;
  soft_delete_reason = d.inactive_reason;
  soft_deleted_at_utc = d.soft_deleted_at_utc;
  lifecycle_state = derive_lifecycle_state d.status d.soft_deleted_at_utc;
  is_assignable = d.is_assignable;
  note = d.note;
  row_version = d.row_version;
  created_at_utc = d.created_at_utc;
  updated_at_utc = d.updated_at_utc;
}

unfoldable pub serialize_driver_manager : Driver → ManagerView
unfolding mask_phone_for_manager
serialize_driver_manager d = record {
  driver_id = d.driver_id;
  company_driver_code = d.company_driver_code;
  full_name = d.full_name;
  phone = mask_phone_for_manager d.phone_e164;
  telegram_user_id = d.telegram_user_id;
  license_class = d.license_class;
  employment_start_date = d.employment_start_date;
  employment_end_date = d.employment_end_date;
  status = d.status;
  inactive_reason = d.inactive_reason;
  soft_delete_reason = d.inactive_reason;
  soft_deleted_at_utc = d.soft_deleted_at_utc;
  lifecycle_state = derive_lifecycle_state d.status d.soft_deleted_at_utc;
  is_assignable = d.is_assignable;
  row_version = d.row_version;
  updated_at_utc = d.updated_at_utc;
}

unfoldable pub serialize_driver_internal : Driver → InternalView
serialize_driver_internal d = record {
  driver_id = d.driver_id;
  company_driver_code = d.company_driver_code;
  full_name = d.full_name;
  telegram_user_id = d.telegram_user_id;
  license_class = d.license_class;
  status = d.status;
  inactive_reason = d.inactive_reason;
  soft_delete_reason = d.inactive_reason;
  soft_deleted_at_utc = d.soft_deleted_at_utc;
  lifecycle_state = derive_lifecycle_state d.status d.soft_deleted_at_utc;
  is_assignable = d.is_assignable;
}

unfoldable pub serialize_driver_for_role : Driver → Role → Resource
unfolding serialize_driver_admin serialize_driver_manager serialize_driver_internal
serialize_driver_for_role d super_admin = admin_view (serialize_driver_admin d)
serialize_driver_for_role d admin = admin_view (serialize_driver_admin d)
serialize_driver_for_role d manager = manager_view (serialize_driver_manager d)
serialize_driver_for_role d Role.other = internal_view (serialize_driver_internal d)

abbrev pub endpoint_eq : Endpoint → Endpoint → Bool
endpoint_eq inactivate inactivate = true
endpoint_eq reactivate reactivate = true
endpoint_eq soft_delete soft_delete = true
endpoint_eq _ _ = false

-- by the key and the fingerprint of the endpoint
unfoldable pub check_idempotency :
    ℕ → Endpoint → ℕ → List IdempotencyRecord → Option IdempotencyRecord
check_idempotency key e id =
    find (λ r. (r.idempotency_key == key) && (endpoint_eq r.endpoint e && (r.path_id == id)))

abbrev expiry : ℕ
expiry = 24 * 3600

unfoldable pub save_idempotency_record :
    Context → Endpoint → ℕ → Resource → Option ℕ → Handler (Unit {0})
save_idempotency_record ctx e id body none = pure tt
save_idempotency_record ctx e id body (some key) =
    modify (λ (d : Db). record d { idempotency = d.idempotency ++ entry ∷ [] })
  where
    entry : IdempotencyRecord
    entry = record {
      idempotency_key = key;
      endpoint = e;
      path_id = id;
      response_code = 200;
      response_body = body;
      actor_id = ctx.auth.actor_id;
      created_at_utc = ctx.now;
      expires_at_utc = ctx.now + expiry;
    }

unfoldable pub handle_integrity_error : Constraint → DriverError
handle_integrity_error phone_live = phone_already_exists
handle_integrity_error telegram_live = telegram_already_exists
handle_integrity_error company_code_live = company_code_already_exists
handle_integrity_error outbox_restrict = pending_outbox
handle_integrity_error unknown = internal

abbrev violation : Option Constraint → Option DriverError
violation none = none
violation (some c) = some (handle_integrity_error c)

-- `_write_audit`: snapshots are stored with the phone masked
abbrev pub masked : AdminView → AdminView
masked v = record v { phone = mask_phone_for_manager v.phone }

unfoldable pub write_audit :
    Context
    → ℕ
    → AuditActionType
    → DriverStatus × DriverStatus
    → AdminView
    → AdminView
    → Option String
    → Handler (Unit {0})
unfolding mask_phone_for_manager
write_audit ctx id action changed old new reason =
    modify (λ (d : Db). record d { audit_log = d.audit_log ++ entry ∷ [] })
  where
    entry : AuditLog
    entry = record {
      driver_id = id;
      action_type = action;
      changed_fields = changed;
      old_snapshot = masked old;
      new_snapshot = masked new;
      actor_id = ctx.auth.actor_id;
      actor_role = ctx.auth.role;
      reason = reason;
      request_id = ctx.request_id;
      created_at_utc = ctx.now;
    }

-- `_write_outbox`
unfoldable pub write_outbox : Context → ℕ → EventName → OutboxPayload → Handler (Unit {0})
write_outbox ctx id name payload = modify (λ (d : Db). record d { outbox = d.outbox ++ row ∷ [] })
  where
    row : OutboxRow
    row = record {
      aggregate_id = id;
      aggregate_version = 1;
      event_name = name;
      payload = payload;
      partition_key = id;
      publish_status = pending;
      attempt_count = 0;
      request_id = ctx.request_id;
      correlation_id = ctx.request_id;
      created_at_utc = ctx.now;
      next_attempt_at_utc = ctx.now;
    }

unfoldable pub select_driver : ℕ → List Driver → Option Driver
select_driver id = find (λ d. d.driver_id == id)

-- `_get_driver_with_etag_check`; the argument is what `parse_if_match` makes of the header
unfoldable pub get_driver_with_etag_check : ℕ → Option ℕ → Handler Driver
unfolding select_driver
get_driver_with_etag_check id if_match = do
  expected_version ← require if_match if_match_required
  found ← gets (λ (d : Db). select_driver id d.drivers)
  driver ← require found not_found
  raise_if (not (driver.row_version == expected_version)) version_mismatch
  pure driver

-- the row as the database has it after an UPDATE: it computes `is_assignable`
abbrev pub computed : Driver → Driver
computed d = record d { is_assignable = ite (DriverStatus-discrete d.status active) true false }

-- the commit writes the changed object, and fails as a whole if it violates a constraint
unfoldable pub commit_driver : Context → Driver → Handler (Unit {0})
unfolding handle_integrity_error
commit_driver ctx d' = do
  raise_some (violation ctx.violated)
  modify (λ (d : Db). record d {
    drivers = update_where (λ r. r.driver_id == d'.driver_id) (λ _. computed d') d.drivers;
  })
  commit
