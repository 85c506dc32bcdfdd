-- ===== src/Driver/Lifecycle.antt =====
-- services/driver-service/src/driver_service/routers/lifecycle.py: the endpoints that move a driver
-- between states. The body of a request is empty, refused by pydantic, or given.
pub mod Outcome
pub mod Moves
pub mod Sound
pub mod Replay
mod Tests
use lojinextv.Prelude.{
  ℕ, ◌+◌, String, Bool, true, false, Option, none, some, List, [], ◌∷◌, ◌++◌, ◌==◌, if◌then◌else◌,
  ite,
}
use lojinextv.Exec.{◌>>=◌, ◌>>◌, pure, raise, require, gets, modify}
use lojinextv.StateMachine.{StateMachine, transition_to}
use lojinextv.StateMachine.Driver.{
  DriverStatus, active, inactive, cancelled, DriverStatus-discrete, driver_transitions,
}
use lojinextv.Driver.{
  Driver, Resource, AuditActionType, status_change, EventName, driver_inactivated,
  driver_reactivated, driver_cancelled, OutboxPayload, Endpoint, IdempotencyRecord, Db,
}
use lojinextv.Driver.Session.{
  DriverError, validation, invalid_body, invalid_transition, Context, Handler,
  serialize_driver_admin, serialize_driver_for_role, check_idempotency, save_idempotency_record,
  write_audit, write_outbox, get_driver_with_etag_check, computed, commit_driver,
}

pub data Body (A : Type 0) : Type 0 where
  empty malformed : Body A
  given : A → Body A

pub record InactivateDriverRequest : Type 0 where
  pub inactive_reason : String
  pub employment_end_date : Option ℕ

-- the response body, and the row version of its ETag header, if it has one
abbrev pub Response : Type 0
Response = Resource × Option ℕ

abbrev pub status_is : DriverStatus → Driver → Bool
status_is s d = ite (DriverStatus-discrete d.status s) true false

unfoldable pub parse_body : {A : Type 0} → Body A → Handler A
parse_body empty = raise validation
parse_body malformed = raise invalid_body
parse_body (given a) = pure a

-- `DriverStateMachine(driver.status).transition_to(next)`
unfoldable pub check_transition : DriverStatus → DriverStatus → Handler (Unit {0})
unfolding transition_to driver_transitions
check_transition from next =
    require
      (transition_to DriverStatus-discrete
        (record { current_state = from; valid_transitions = driver_transitions }) next).1
      invalid_transition
    >>= λ _. pure tt

-- a known request is answered from its record, and all else by the handler
abbrev answer_or : Handler Response → Option IdempotencyRecord → Handler Response
answer_or handler none = handler
answer_or handler (some existing) = pure (existing.response_body, none)

unfoldable pub once : Context → Endpoint → ℕ → Handler Response → Handler Response
unfolding check_idempotency
once ctx e id handler = elim ctx.request_id [
  | none ↦ handler
  | some key ↦ gets (λ (d : Db). check_idempotency key e id d.idempotency) >>= answer_or handler
]

-- the answer for a driver that is in the state asked for
abbrev pub unchanged : Context → Driver → Handler Response
unchanged ctx d = pure (serialize_driver_for_role d ctx.auth.role, some d.row_version)

-- The end of the three endpoints: audit, outbox, idempotency record, commit and refresh.
unfoldable pub store :
    Context
    → Endpoint
    → ℕ
    → AuditActionType
    → EventName
    → Option String
    → Driver
    → Driver
    → Handler Response
unfolding serialize_driver_admin serialize_driver_for_role write_audit write_outbox
    save_idempotency_record commit_driver
store ctx e id action name reason old new = do
  write_audit ctx id action (old.status, new.status) (serialize_driver_admin old)
      (serialize_driver_admin new) reason
  write_outbox ctx id name
      (record { driver_id = id; reason = reason; row_version = new.row_version; at_utc = ctx.now })
  save_idempotency_record ctx e id (serialize_driver_for_role new ctx.auth.role) ctx.request_id
  commit_driver ctx new
  pure (serialize_driver_for_role (computed new) ctx.auth.role, some new.row_version)

abbrev or_keep : Option ℕ → Option ℕ → Option ℕ
or_keep none old = old
or_keep (some a) old = some a

abbrev pub inactivated : Context → InactivateDriverRequest → Driver → Driver
inactivated ctx body d = record d {
  status = inactive;
  inactive_reason = some body.inactive_reason;
  employment_end_date = or_keep body.employment_end_date d.employment_end_date;
  row_version = d.row_version + 1;
  updated_at_utc = ctx.now;
  updated_by_actor_id = ctx.auth.actor_id;
}

abbrev pub inactivate_live : Context → ℕ → InactivateDriverRequest → Driver → Handler Response
inactivate_live ctx id body d = do
  check_transition d.status inactive
  store ctx Endpoint.inactivate id status_change driver_inactivated (some body.inactive_reason) d
      (inactivated ctx body d)

unfoldable pub inactivate_driver :
    Context → ℕ → Body InactivateDriverRequest → Option ℕ → Handler Response
unfolding once get_driver_with_etag_check parse_body check_transition store
    serialize_driver_for_role
inactivate_driver ctx id body_bytes if_match = once ctx Endpoint.inactivate id (do
  d ← get_driver_with_etag_check id if_match
  body ← parse_body body_bytes
  if status_is inactive d then unchanged ctx d else inactivate_live ctx id body d)

abbrev pub reactivated : Context → Driver → Driver
reactivated ctx d = record d {
  status = active;
  inactive_reason = none;
  soft_deleted_at_utc = none;
  row_version = d.row_version + 1;
  updated_at_utc = ctx.now;
  updated_by_actor_id = ctx.auth.actor_id;
}

abbrev pub reactivate_live : Context → ℕ → Driver → Handler Response
reactivate_live ctx id d = do
  check_transition d.status active
  store ctx Endpoint.reactivate id status_change driver_reactivated none d (reactivated ctx d)

unfoldable pub reactivate_driver : Context → ℕ → Option ℕ → Handler Response
unfolding once get_driver_with_etag_check check_transition store serialize_driver_for_role
reactivate_driver ctx id if_match = once ctx Endpoint.reactivate id (do
  d ← get_driver_with_etag_check id if_match
  if status_is active d then unchanged ctx d else reactivate_live ctx id d)

-- the body is its `reason`
abbrev pub soft_deleted : Context → String → Driver → Driver
soft_deleted ctx reason d = record d {
  status = cancelled;
  inactive_reason = some reason;
  soft_deleted_at_utc = some ctx.now;
  row_version = d.row_version + 1;
  updated_at_utc = ctx.now;
  updated_by_actor_id = ctx.auth.actor_id;
}

abbrev pub soft_delete_live : Context → ℕ → Body String → Driver → Handler Response
soft_delete_live ctx id body_bytes d = do
  reason ← parse_body body_bytes
  check_transition d.status cancelled
  store ctx Endpoint.soft_delete id AuditActionType.soft_delete driver_cancelled (some reason) d
      (soft_deleted ctx reason d)

unfoldable pub soft_delete_driver : Context → ℕ → Body String → Option ℕ → Handler Response
unfolding once get_driver_with_etag_check parse_body check_transition store
    serialize_driver_for_role
soft_delete_driver ctx id body_bytes if_match = once ctx Endpoint.soft_delete id (do
  d ← get_driver_with_etag_check id if_match
  if status_is cancelled d then unchanged ctx d else soft_delete_live ctx id body_bytes d)
