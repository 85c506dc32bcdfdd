-- ===== src/Driver/Lifecycle/Tests.antt =====
-- The lifecycle theorems on a database with one driver.
use lojinextv.Prelude.{◌≡◌, ◌≢◌, refl, ap, true, none, some, [], ◌∷◌, All}
use lojinextv.Exec.{ok}
use lojinextv.StateMachine.Driver.{DriverStatus, DriverStatus-discrete}
use lojinextv.Driver.{Driver, Role, Db}
use lojinextv.Driver.Session.{Context, serialize_driver_for_role, computed}
use lojinextv.Driver.Lifecycle.{given, InactivateDriverRequest, Response, inactivated}
use lojinextv.Driver.Lifecycle.Outcome.{inactivate, soft_delete, handle, serve, Outcome}
use lojinextv.Driver.Lifecycle.Moves.{driver_outcome}
use lojinextv.Driver.Lifecycle.Sound.{Sound, driver-Sound}

abbrev driver : Driver
driver = record {
  driver_id = 1;
  company_driver_code = none;
  full_name = "Ali";
  phone_e164 = none;
  phone_normalization_status = "MISSING";
  telegram_user_id = none;
  license_class = "CE";
  employment_start_date = 10;
  employment_end_date = none;
  status = DriverStatus.active;
  inactive_reason = none;
  is_assignable = true;
  note = none;
  row_version = 2;
  created_at_utc = 10;
  updated_at_utc = 10;
  updated_by_actor_id = 7;
  soft_deleted_at_utc = none;
}

abbrev drivers : Db
drivers = record { drivers = driver ∷ []; audit_log = []; outbox = []; idempotency = [] }

abbrev context : Context
context = record {
  now = 50;
  auth = record { actor_id = 7; role = Role.super_admin };
  request_id = some 77;
  violated = none;
}

abbrev leave : InactivateDriverRequest
leave = record { inactive_reason = "leave"; employment_end_date = none }

abbrev answered : Response
answered = (
  serialize_driver_for_role (computed (inactivated context leave driver)) Role.super_admin,
  some 3,
)

served : (serve context 1 (inactivate (given leave)) (some 2) drivers).0 ≡ ok answered
unfolding handle DriverStatus-discrete
served = refl

changed : (serve context 1 (inactivate (given leave)) (some 2) drivers).1 ≢ drivers
unfolding handle DriverStatus-discrete
changed e = cc (ap (λ (d : Db). d.idempotency) e)

driver_outcome_example :
    Outcome context 1
      (inactivate (given leave))
      (some 2)
      drivers
      answered
      (serve context 1 (inactivate (given leave)) (some 2) drivers).1
driver_outcome_example =
    driver_outcome context 1 (some 2) drivers (inactivate (given leave)) answered served

driver-Sound_example :
    All Sound (serve context 1 (soft_delete (given "left")) (some 2) drivers).1.drivers
driver-Sound_example =
    driver-Sound context 1 (some 2) drivers (soft_delete (given "left"))
      ((tt, ((λ e. refl), (λ e. refl))), tt)
