-- ===== src/Fleet/Vehicle.antt =====
-- services/fleet-service/src/fleet_service/services/vehicle_service.py: create, patch, deactivate,
-- reactivate and soft delete. A handler runs in one session; its reads FOR UPDATE hold the row until
-- the commit, so between them no other request writes it. Create and HardDelete have the other two.
pub mod Create
pub mod Rows
pub mod Steps
pub mod Effects
pub mod Locking
pub mod Success
pub mod HardDelete
pub mod Tests
use lojinextv.Prelude.{
  ℕ, ◌+◌, ◌*◌, String, Bool, true, false, not, Option, none, some, List, [], ◌∷◌, ◌++◌, ◌==◌,
  if◌then◌else◌, find, any, str_eq,
}
use lojinextv.Exec.{◌>>=◌, ◌>>◌, pure, raise, raise_if, require, gets, modify, commit}
use lojinextv.Fleet.Plate.{Text, normalize_plate}
use lojinextv.Fleet.Tables.{
  MasterStatus, AggregateType, Actor, Vehicle, SpecAttributes, SpecVersion, VehiclePatchRequest,
  TimelinePayload, changes, lifecycle, admin, OutboxData, AuditReason, AuditLog, VehicleDetail,
  IdempotencyRecord, Db,
}
use lojinextv.Fleet.Session.{
  FleetError, idempotency_key_required, idempotency_hash_mismatch, etag_mismatch, vehicle_not_found,
  vehicle_soft_deleted, plate_already_exists, asset_code_already_exists, already_in_target_state,
  invalid_status_transition, invalid_plate, Library, IfMatch, Etag, master, spec, Context, Handler,
  is_some, status_eq, serialize_vehicle_admin, build_vehicle_detail_response, select_vehicle,
  get_current_vehicle_spec, check_asset_code_uniqueness, check_plate_uniqueness, update_vehicle,
  insert_timeline_event, outbox_row, event_payload, insert_outbox_event, expected_version,
}

abbrev pub vehicle : AggregateType
vehicle = AggregateType.vehicle

-- The row, locked, if the header names its version.
unfoldable pub locked_vehicle : IfMatch → ℕ → Handler Vehicle
unfolding expected_version select_vehicle
locked_vehicle if_match id = do
  expected ← expected_version if_match
  found ← gets (λ (d : Db). select_vehicle id d.vehicles)
  v ← require found vehicle_not_found
  raise_if (not (v.row_version == expected)) etag_mismatch
  pure v

-- the timeline event and the outbox event of a change, with the second and third ULIDs of the call
unfoldable pub announce :
    Context → ℕ → ℕ → ℕ → String → TimelinePayload → Option ℕ → OutboxData → Handler (Unit {0})
unfolding insert_timeline_event insert_outbox_event
announce ctx event_id outbox_id id name payload row_version content = do
  insert_timeline_event ctx event_id id name payload
  insert_outbox_event ctx
      (outbox_row ctx outbox_id id name (event_payload ctx event_id id name row_version content))

-- the answer that every mutation ends with, after its commit
unfoldable pub respond : ℕ → Vehicle → Handler (VehicleDetail × Etag)
unfolding get_current_vehicle_spec build_vehicle_detail_response
respond id v = do
  current_spec ← gets (λ (d : Db). get_current_vehicle_spec id d)
  pure (build_vehicle_detail_response v current_spec, master vehicle id v.row_version)

-- The end of a lifecycle change: the row, its two events, and the commit.
unfoldable pub store_change :
    Context → ℕ → Vehicle → String → TimelinePayload → Handler (VehicleDetail × Etag)
unfolding update_vehicle announce respond
store_change ctx id v' event_name payload = do
  update_vehicle ctx v'
  announce ctx (ctx.ulid 0) (ctx.ulid 1) id event_name payload (some v'.row_version)
      OutboxData.nothing
  commit
  respond id v'

-- `_lifecycle_transition`
abbrev transitioned : Context → MasterStatus → Vehicle → Vehicle
transitioned ctx target v = record v {
  status = target;
  row_version = v.row_version + 1;
  updated_at_utc = ctx.now;
  updated_by = ctx.auth;
}

unfoldable pub lifecycle_transition :
    Context
    → ℕ
    → String
    → MasterStatus
    → (MasterStatus → Bool)
    → String
    → IfMatch
    → Handler (VehicleDetail × Etag)
unfolding locked_vehicle store_change
lifecycle_transition ctx id reason target valid_from event_name if_match = do
  v ← locked_vehicle if_match id
  raise_if (is_some v.soft_deleted_at_utc) vehicle_soft_deleted
  raise_if (status_eq v.status target) already_in_target_state
  raise_if (not (valid_from v.status)) invalid_status_transition
  let v' = transitioned ctx target v
  store_change ctx id v' event_name (lifecycle reason v'.row_version (some target))

unfoldable pub deactivate_vehicle : Context → ℕ → String → IfMatch → Handler (VehicleDetail × Etag)
unfolding lifecycle_transition
deactivate_vehicle ctx id reason =
    lifecycle_transition ctx id reason MasterStatus.inactive (status_eq MasterStatus.active)
      "fleet.vehicle.deactivated.v1"

unfoldable pub reactivate_vehicle : Context → ℕ → String → IfMatch → Handler (VehicleDetail × Etag)
unfolding lifecycle_transition
reactivate_vehicle ctx id reason =
    lifecycle_transition ctx id reason MasterStatus.active (status_eq MasterStatus.inactive)
      "fleet.vehicle.reactivated.v1"

abbrev deleted : Context → String → Vehicle → Vehicle
deleted ctx reason v = record v {
  soft_deleted_at_utc = some ctx.now;
  soft_deleted_by = some ctx.auth;
  soft_delete_reason = some reason;
  row_version = v.row_version + 1;
  updated_at_utc = ctx.now;
  updated_by = ctx.auth;
}

unfoldable pub soft_delete_vehicle : Context → ℕ → String → IfMatch → Handler (VehicleDetail × Etag)
unfolding locked_vehicle store_change
soft_delete_vehicle ctx id reason if_match = do
  v ← locked_vehicle if_match id
  raise_if (is_some v.soft_deleted_at_utc) already_in_target_state
  let v' = deleted ctx reason v
  store_change ctx id v' "fleet.vehicle.soft_deleted.v1" (lifecycle reason v'.row_version none)

-- `x if x is not None else old`
abbrev new_or {ℓ} : {A : Type ℓ} → Option A → A → A
new_or none old = old
new_or (some a) old = a

abbrev some_or {ℓ} : {A : Type ℓ} → Option A → Option A → Option A
some_or none old = old
some_or (some a) old = some a

abbrev patched : Context → VehiclePatchRequest → Vehicle → Vehicle
patched ctx body v = record v {
  brand = some_or body.brand v.brand;
  model = some_or body.model v.model;
  model_year = some_or body.model_year v.model_year;
  ownership_type = new_or body.ownership_type v.ownership_type;
  notes = some_or body.notes v.notes;
  row_version = v.row_version + 1;
  updated_at_utc = ctx.now;
  updated_by = ctx.auth;
}

-- `body.notes or …`: an empty text counts as none
abbrev audit_reason : VehiclePatchRequest → AuditReason
audit_reason body = elim body.notes [
  | none ↦ AuditReason.fields_changed body
  | some text ↦ if str_eq text "" then AuditReason.fields_changed body else AuditReason.given text
]

-- `_write_fleet_audit` as `patch_vehicle` calls it
unfoldable pub write_fleet_audit :
    Context → ℕ → ℕ → Vehicle → Vehicle → VehiclePatchRequest → Handler (Unit {0})
unfolding serialize_vehicle_admin
write_fleet_audit ctx audit_id id old new body =
    modify (λ (d : Db). record d { audit_log = d.audit_log ++ entry ∷ [] })
  where
    entry : AuditLog
    entry = record {
      audit_id = audit_id;
      aggregate_id = id;
      action_type = "UPDATE";
      actor = ctx.auth;
      old_snapshot = serialize_vehicle_admin old;
      new_snapshot = serialize_vehicle_admin new;
      changed_fields = body;
      reason = audit_reason body;
      request_id = ctx.request_id;
    }

-- `normalize_plate(plate)`, or its ValueError
unfoldable pub normalized : Library → Text → Handler Text
unfolding normalize_plate
normalized lib plate = require (normalize_plate lib.upper lib.is_space plate) invalid_plate

-- the plate part of a PATCH
unfoldable pub patch_plate : Library → ℕ → Option Text → Vehicle → Handler Vehicle
unfolding normalized check_plate_uniqueness
patch_plate lib id none v = pure v
patch_plate lib id (some plate) v = do
  new_normalized ← normalized lib plate
  free ← gets (λ (d : Db). check_plate_uniqueness new_normalized (some id) d)
  raise_if (not free) plate_already_exists
  pure (record v { plate_raw_current = plate; normalized_plate_current = new_normalized })

-- The end of a PATCH: the row, the timeline, the audit log, the outbox, and the commit.
unfoldable pub store_patch :
    Context → ℕ → Vehicle → Vehicle → VehiclePatchRequest → Handler (VehicleDetail × Etag)
unfolding update_vehicle insert_timeline_event write_fleet_audit insert_outbox_event respond
store_patch ctx id v v' body = do
  update_vehicle ctx v'
  insert_timeline_event ctx (ctx.ulid 0) id "fleet.vehicle.updated.v1" (changes body v'.row_version)
  write_fleet_audit ctx (ctx.ulid 1) id v v' body
  insert_outbox_event ctx (
      outbox_row ctx (ctx.ulid 2) id "fleet.vehicle.updated.v1" (
        event_payload ctx (ctx.ulid 0) id "fleet.vehicle.updated.v1" (some v'.row_version)
          OutboxData.nothing))
  commit
  respond id v'

unfoldable pub patch_vehicle :
    Library → Context → ℕ → VehiclePatchRequest → IfMatch → Handler (VehicleDetail × Etag)
unfolding locked_vehicle patch_plate store_patch
patch_vehicle lib ctx id body if_match = do
  v ← locked_vehicle if_match id
  raise_if (is_some v.soft_deleted_at_utc) vehicle_soft_deleted
  w ← patch_plate lib id body.plate v
  store_patch ctx id v (patched ctx body w) body
