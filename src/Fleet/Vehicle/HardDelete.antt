-- ===== src/Fleet/Vehicle/HardDelete.antt =====
-- `hard_delete_vehicle` of services/vehicle_service.py. While the trip service is asked for
-- references no lock is held: `meanwhile` is what other requests commit then. The session keeps
-- the object that stage 1 loaded; what it hands out for the row that stage 3 locks is the choice of
-- SQLAlchemy's identity map, `reload old row`: the object as it was, or the row's values now.
pub mod Outcome
use lojinextv.Prelude.{
  ℕ, String, Bool, true, false, not, Option, none, some, List, [], ◌∷◌, ◌++◌, ◌==◌, if◌then◌else◌,
  filter,
}
use lojinextv.Exec.{Session, ◌>>=◌, ◌>>◌, pure, raise, raise_if, require, gets, modify, commit, ok}
use lojinextv.Fleet.Tables.{
  DeleteResult, ReferenceCheckStatus, not_attempted, ReferenceCheck, Vehicle, DeleteAudit,
  DeleteSnapshot, TimelinePayload, OutboxData, Db,
}
use lojinextv.Fleet.Session.{
  FleetError, etag_mismatch, vehicle_not_found, invalid_status_transition,
  referenced_hard_delete_forbidden, dependency_unavailable, IfMatch, Context, Handler, is_some,
  build_vehicle_snapshot, select_vehicle, dead_letter_by_aggregate, expected_version,
}
use lojinextv.Fleet.Vehicle.{announce}

-- what the reference checker does: it raises, or answers
pub data TripAnswer : Type 0 where
  unavailable : TripAnswer
  answered : ReferenceCheck → TripAnswer

abbrev snapshot_of : Option Vehicle → Option DeleteSnapshot
snapshot_of none = none
snapshot_of (some v) = some (build_vehicle_snapshot v)

-- `_audit_hard_delete`, and the audit row of stage 3
unfoldable pub audit_hard_delete :
    Context
    → ℕ
    → ℕ
    → Option Vehicle
    → DeleteResult
    → String
    → ReferenceCheckStatus
    → Option ReferenceCheck
    → Handler (Unit {0})
unfolding build_vehicle_snapshot
audit_hard_delete ctx audit_id id v result reason status answer =
    modify (λ (d : Db). record d { delete_audits = d.delete_audits ++ entry ∷ [] })
  where
    entry : DeleteAudit
    entry = record {
      delete_audit_id = audit_id;
      aggregate_id = id;
      snapshot_json = snapshot_of v;
      reference_check_json = answer;
      reference_check_status = status;
      delete_attempted_by = ctx.auth;
      delete_result = result;
      delete_result_reason = reason;
      created_at_utc = ctx.now;
    }

-- An audit row and the error that follows it.
abbrev reject :
    {A : Type 0}
    → Context
    → ℕ
    → Option Vehicle
    → DeleteResult
    → String
    → ReferenceCheckStatus
    → Option ReferenceCheck
    → FleetError
    → Handler A
reject ctx id v result reason status answer e = do
  audit_hard_delete ctx (ctx.ulid 0) id v result reason status answer
  raise e

abbrev reject_if :
    Bool → Context → ℕ → Vehicle → DeleteResult → String → FleetError → Handler (Unit {0})
reject_if test ctx id v result reason e =
    if test then reject ctx id (some v) result reason not_attempted none e else pure tt

-- stage 1, from the row that the plain SELECT finds
abbrev pre_check : Context → ℕ → ℕ → Option Vehicle → Handler Vehicle
pre_check ctx id expected none =
    reject ctx id none DeleteResult.rejected_not_found "Vehicle not found" not_attempted none
      vehicle_not_found
pre_check ctx id expected (some v) = do
  reject_if (not (v.row_version == expected)) ctx id v DeleteResult.rejected_etag_mismatch
      "ETag mismatch" etag_mismatch
  reject_if (not (is_some v.soft_deleted_at_utc)) ctx id v DeleteResult.rejected_not_soft_deleted
      "Vehicle must be soft-deleted before hard-delete" invalid_status_transition
  pure v

-- stage 2: no checker, or its answer
unfoldable pub check_references :
    Context
    → ℕ
    → Vehicle
    → Option TripAnswer
    → Handler (ReferenceCheckStatus × Option ReferenceCheck)
unfolding audit_hard_delete
check_references ctx id v none = pure (not_attempted, none)
check_references ctx id v (some unavailable) =
    reject ctx id (some v) DeleteResult.rejected_dependency_unavailable "Trip service unavailable"
      ReferenceCheckStatus.dependency_unavailable none dependency_unavailable
check_references ctx id v (some (answered r)) =
    if r.has_references
    then reject ctx id (some v) DeleteResult.rejected_referenced "Vehicle is referenced by trips"
        ReferenceCheckStatus.succeeded (some r) referenced_hard_delete_forbidden
    else pure (ReferenceCheckStatus.succeeded, some r)

-- What other requests commit, this session sees: it has written nothing yet.
abbrev wait : (Db → Db) → Handler (Unit {0})
wait meanwhile s =
    (ok tt, record { committed = meanwhile s.committed; work = meanwhile s.committed })

-- the rows that go: the spec versions, then the vehicle; its outbox is dead-lettered before
unfoldable pub delete_rows : ℕ → Db → Db
unfolding dead_letter_by_aggregate
delete_rows id d = record d {
  outbox = dead_letter_by_aggregate id d.outbox;
  specs = filter (λ s. not (s.vehicle_id == id)) d.specs;
  vehicles = filter (λ v. not (v.vehicle_id == id)) d.vehicles;
}

-- stage 3: the id of the audit row is the answer
unfoldable pub delete_locked :
    (Vehicle → Vehicle → Vehicle)
    → Context
    → ℕ
    → String
    → ℕ
    → Vehicle
    → ReferenceCheckStatus
    → Option ReferenceCheck
    → Handler ℕ
unfolding select_vehicle delete_rows audit_hard_delete announce
delete_locked reload ctx id reason expected old status answer = do
  row ← gets (λ (d : Db). select_vehicle id d.vehicles)
  current ← require row vehicle_not_found
  let locked = reload old current
  raise_if (not (locked.row_version == expected)) etag_mismatch
  raise_if (not (is_some locked.soft_deleted_at_utc)) invalid_status_transition
  modify (delete_rows id)
  audit_hard_delete ctx (ctx.ulid 0) id (some locked) DeleteResult.succeeded reason status answer
  announce ctx (ctx.ulid 1) (ctx.ulid 2) id "fleet.vehicle.hard_deleted.v1"
      (TimelinePayload.tombstone reason (build_vehicle_snapshot locked)) none
      (OutboxData.tombstone (build_vehicle_snapshot locked))
  commit
  pure (ctx.ulid 0)

unfoldable pub hard_delete_vehicle :
    (Vehicle → Vehicle → Vehicle)
    → (Db → Db)
    → Context
    → ℕ
    → String
    → IfMatch
    → Option TripAnswer
    → Handler ℕ
unfolding expected_version select_vehicle check_references delete_locked audit_hard_delete
hard_delete_vehicle reload meanwhile ctx id reason if_match checker = do
  expected ← expected_version if_match
  found ← gets (λ (d : Db). select_vehicle id d.vehicles)
  v ← pre_check ctx id expected found
  wait meanwhile
  (status, answer) ← check_references ctx id v checker
  delete_locked reload ctx id reason expected v status answer
