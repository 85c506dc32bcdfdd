-- ===== src/Fleet/Session.antt =====
-- What the handlers of services/vehicle_service.py share: errors, ETags, the repositories
-- (repositories/vehicle_repo.py, outbox_repo.py, timeline_repo.py, delete_audit_repo.py,
-- idempotency_repo.py) and the views of a vehicle that leave the service.
use lojinextv.Prelude.{
  ℕ, String, Bool, true, false, not, ◌&&◌, Option, none, some, List, [], ◌∷◌, ◌++◌, ltb, ◌==◌, find,
  zero, suc, any, update_where,
}
use lojinextv.Exec.{Exec, ◌>>◌, pure, raise, raise_if, raise_some, modify}
use lojinextv.Outbox.{pending, dead_letter, is_live}
use lojinextv.Fleet.Plate.{Text, text_eq}
use lojinextv.Fleet.Tables.{
  MasterStatus, LifecycleState, AggregateType, vehicle, Actor, Vehicle, SpecVersion, AdminSnapshot,
  DeleteSnapshot, TimelinePayload, TimelineEvent, OutboxData, OutboxPayload, OutboxRow,
  SpecAttributes, CurrentSpecSummary, VehicleDetail, VehicleCreateRequest, Db,
}

pub data FleetError : Type 0 where
  idempotency_key_required idempotency_hash_mismatch etag_required etag_mismatch : FleetError
  vehicle_not_found vehicle_soft_deleted plate_already_exists asset_code_already_exists : FleetError
  already_in_target_state invalid_status_transition : FleetError
  referenced_hard_delete_forbidden dependency_unavailable : FleetError
  -- ValueError of `normalize_plate`, ValueError of the outbox guard
  invalid_plate payload_too_large : FleetError
  spec_etag_mismatch asset_inactive_or_deleted spec_version_overlap : FleetError
  spec_not_initialized spec_not_found_for_instant : FleetError
  -- MultipleResultsFound of `scalar_one_or_none`
  multiple_results : FleetError
  -- what the database raises for a constraint, mapped or not
  integrity : FleetError

-- What `parse_master_etag` makes of the If-Match header: none given, no master ETag, or the row
-- version that it names (the handlers ignore the other two groups).
pub data IfMatch : Type 0 where
  missing malformed : IfMatch
  version : ℕ → IfMatch

-- what `generate_master_etag` and `generate_spec_etag` write down
pub data Etag : Type 0 where
  master spec : AggregateType → ℕ → ℕ → Etag

-- What a call has from outside: the clock, the caller, the ids of the request, the ULIDs that it
-- draws in turn, the error (if any) that the database raises when the master row is flushed, and
-- the length of a payload as JSON text.
pub record Context : Type 0 where
  pub now : ℕ
  pub auth : Actor
  pub request_id : Option ℕ
  pub correlation_id : Option ℕ
  pub ulid : ℕ → ℕ
  pub flush : Option FleetError
  pub json_length : OutboxPayload → ℕ

-- Python's whitespace and upper-casing, and `compute_request_hash` with its SHA-256.
pub record Library : Type 0 where
  pub upper : Text → Text
  pub is_space : ℕ → Bool
  pub request_hash : VehicleCreateRequest → ℕ

abbrev pub Handler : Type 0 → Type 0
Handler A = Exec FleetError Db A

abbrev pub is_some {ℓ} : {A : Type ℓ} → Option A → Bool
is_some none = false
is_some (some a) = true

abbrev pub status_eq : MasterStatus → MasterStatus → Bool
status_eq MasterStatus.active MasterStatus.active = true
status_eq MasterStatus.inactive MasterStatus.inactive = true
status_eq _ _ = false

abbrev pub aggregate_eq : AggregateType → AggregateType → Bool
aggregate_eq AggregateType.vehicle AggregateType.vehicle = true
aggregate_eq AggregateType.trailer AggregateType.trailer = true
aggregate_eq _ _ = false

-- The property `lifecycle_state` of models.py.
unfoldable pub lifecycle_state : Vehicle → LifecycleState
lifecycle_state v = elim v.soft_deleted_at_utc [
  | some _ ↦ LifecycleState.soft_deleted
  | none ↦ elim v.status [
    | MasterStatus.active ↦ LifecycleState.active
    | MasterStatus.inactive ↦ LifecycleState.inactive
  ]
]

unfoldable pub is_selectable : Vehicle → Bool
is_selectable v = not (is_some v.soft_deleted_at_utc) && status_eq v.status MasterStatus.active

unfoldable pub serialize_vehicle_admin : Vehicle → AdminSnapshot
serialize_vehicle_admin v = record {
  vehicle_id = v.vehicle_id;
  asset_code = v.asset_code;
  plate_raw = v.plate_raw_current;
  normalized_plate = v.normalized_plate_current;
  brand = v.brand;
  model = v.model;
  model_year = v.model_year;
  ownership_type = v.ownership_type;
  status = v.status;
  notes = v.notes;
  row_version = v.row_version;
  created_at_utc = v.created_at_utc;
  updated_at_utc = v.updated_at_utc;
}

unfoldable pub build_vehicle_snapshot : Vehicle → DeleteSnapshot
build_vehicle_snapshot v = record {
  vehicle_id = v.vehicle_id;
  asset_code = v.asset_code;
  plate_raw_current = v.plate_raw_current;
  normalized_plate_current = v.normalized_plate_current;
  brand = v.brand;
  model = v.model;
  model_year = v.model_year;
  ownership_type = v.ownership_type;
  status = v.status;
  row_version = v.row_version;
  spec_stream_version = v.spec_stream_version;
  created_at_utc = v.created_at_utc;
  updated_at_utc = v.updated_at_utc;
}

-- a column of the specification, by its position among the attributes
abbrev pub column : ℕ → SpecAttributes → Option String
column n [] = none
column zero (a ∷ rest) = a
column (suc n) (a ∷ rest) = column n rest

abbrev pub spec_summary : SpecVersion → CurrentSpecSummary
spec_summary s = record {
  version_no = s.version_no;
  fuel_type = column 0 s.attributes;
  powertrain_type = column 1 s.attributes;
  emission_class = column 4 s.attributes;
  curb_weight_kg = column 11 s.attributes;
  gvwr_kg = column 12 s.attributes;
  effective_from_utc = s.effective_from_utc;
}

abbrev map_summary : Option SpecVersion → Option CurrentSpecSummary
map_summary none = none
map_summary (some s) = some (spec_summary s)

unfoldable pub build_vehicle_detail_response : Vehicle → Option SpecVersion → VehicleDetail
unfolding lifecycle_state is_selectable
build_vehicle_detail_response v current_spec = record {
  vehicle = v;
  lifecycle_state = lifecycle_state v;
  is_selectable = is_selectable v;
  current_spec_summary = map_summary current_spec;
}

-- get_vehicle_by_id(include_soft_deleted=True) and get_vehicle_for_update
unfoldable pub select_vehicle : ℕ → List Vehicle → Option Vehicle
select_vehicle id = find (λ v. v.vehicle_id == id)

-- a flushed change of the row
unfoldable pub write_vehicle : Vehicle → List Vehicle → List Vehicle
write_vehicle v' = update_where (λ v. v.vehicle_id == v'.vehicle_id) (λ _. v')

unfoldable pub get_current_vehicle_spec : ℕ → Db → Option SpecVersion
get_current_vehicle_spec id d = find (λ s. (s.vehicle_id == id) && s.is_current) d.specs

unfoldable pub check_asset_code_uniqueness : Text → Db → Bool
unfolding text_eq
check_asset_code_uniqueness code d = not (any (λ v. text_eq v.asset_code code) d.vehicles)

-- `exclude` is the vehicle's own id, if it has a row
unfoldable pub check_plate_uniqueness : Text → Option ℕ → Db → Bool
unfolding text_eq
check_plate_uniqueness plate exclude d = not (
    any
      (λ v.
        text_eq v.normalized_plate_current plate
        && not (is_some v.soft_deleted_at_utc)
        && elim exclude [ none ↦ true | some id ↦ not (v.vehicle_id == id) ])
      d.vehicles)

-- the master row goes to the database, which may refuse it
unfoldable pub update_vehicle : Context → Vehicle → Handler (Unit {0})
unfolding write_vehicle
update_vehicle ctx v = do
  raise_some ctx.flush
  modify (λ (d : Db). record d { vehicles = write_vehicle v d.vehicles })

unfoldable pub insert_timeline_event :
    Context → ℕ → ℕ → String → TimelinePayload → Handler (Unit {0})
insert_timeline_event ctx event_id id name payload =
    modify (λ (d : Db). record d { timeline = d.timeline ++ event ∷ [] })
  where
    event : TimelineEvent
    event = record {
      event_id = event_id;
      aggregate_type = vehicle;
      aggregate_id = id;
      event_type = name;
      actor = ctx.auth;
      request_id = ctx.request_id;
      correlation_id = ctx.correlation_id;
      occurred_at_utc = ctx.now;
      payload = payload;
    }

abbrev pub max_payload : ℕ
max_payload = 512000

abbrev pub outbox_row : Context → ℕ → ℕ → String → OutboxPayload → OutboxRow
outbox_row ctx outbox_id id name payload = record {
  outbox_id = outbox_id;
  aggregate_type = vehicle;
  aggregate_id = id;
  event_name = name;
  partition_key = id;
  payload = payload;
  publish_status = pending;
  next_attempt_at_utc = ctx.now;
  created_at_utc = ctx.now;
  claim_token = none;
  claim_expires_at_utc = none;
  claimed_by_worker = none;
}

abbrev pub event_payload : Context → ℕ → ℕ → String → Option ℕ → OutboxData → OutboxPayload
event_payload ctx event_id id name row_version content = record {
  event_id = event_id;
  event_name = name;
  occurred_at_utc = ctx.now;
  aggregate_type = vehicle;
  aggregate_id = id;
  row_version = row_version;
  request_id = ctx.request_id;
  correlation_id = ctx.correlation_id;
  content = content;
}

-- The insert and its guard of 512 KB.
unfoldable pub insert_outbox_event : Context → OutboxRow → Handler (Unit {0})
insert_outbox_event ctx row = do
  raise_if (ltb max_payload (ctx.json_length row.payload)) payload_too_large
  modify (λ (d : Db). record d { outbox = d.outbox ++ row ∷ [] })

-- Every row of the vehicle that may still be published goes to the dead letters.
unfoldable pub dead_letter_by_aggregate : ℕ → List OutboxRow → List OutboxRow
dead_letter_by_aggregate id =
    update_where
      (λ r.
        aggregate_eq r.aggregate_type vehicle && (r.aggregate_id == id) && is_live r.publish_status)
      (λ r. record r {
        publish_status = dead_letter;
        claim_token = none;
        claim_expires_at_utc = none;
        claimed_by_worker = none;
      })

-- The guards on If-Match that every mutation begins with.
unfoldable pub expected_version : IfMatch → Handler ℕ
expected_version missing = raise etag_required
expected_version malformed = raise etag_mismatch
expected_version (version n) = pure n
