-- ===== src/Fleet/Vehicle/Create.antt =====
-- `create_vehicle` of services/vehicle_service.py: the idempotent create. Times are in seconds.
pub mod Idempotent
use lojinextv.Prelude.{
  ℕ, ◌+◌, ◌*◌, String, Bool, true, false, not, Option, none, some, List, [], ◌∷◌, ◌++◌, ◌==◌,
  if◌then◌else◌, find,
}
use lojinextv.Exec.{◌>>=◌, ◌>>◌, pure, raise_if, raise_some, require, gets, modify, commit}
use lojinextv.Fleet.Plate.{Text}
use lojinextv.Fleet.Tables.{
  MasterStatus, InitialSpec, VehicleCreateRequest, Vehicle, SpecVersion, snapshot, admin,
  VehicleDetail, IdempotencyRecord, Db,
}
use lojinextv.Fleet.Session.{
  Library, idempotency_key_required, idempotency_hash_mismatch, plate_already_exists,
  asset_code_already_exists, Etag, master, spec, Context, Handler, serialize_vehicle_admin,
  build_vehicle_detail_response, check_asset_code_uniqueness, check_plate_uniqueness,
}
use lojinextv.Fleet.Vehicle.{vehicle, normalized, announce}

-- response, master ETag, status code, spec ETag
abbrev pub Created : Type 0
Created = VehicleDetail × Etag × ℕ × Option Etag

abbrev idempotency_ttl : ℕ
idempotency_ttl = 72 * 3600

-- find_existing_record; every record of the model is one of this endpoint
unfoldable pub find_existing_record : ℕ → List IdempotencyRecord → Option IdempotencyRecord
find_existing_record key = find (λ r. r.idempotency_key == key)

-- Step 2: a known key answers with what it answered the first time.
unfoldable pub replay : IdempotencyRecord → Created
replay existing = (
  existing.response_body,
  master vehicle existing.response_body.vehicle.vehicle_id
      existing.response_body.vehicle.row_version,
  existing.response_status_code,
  elim existing.response_body.current_spec_summary [
    | none ↦ none
    | some _ ↦ some (
        spec vehicle existing.response_body.vehicle.vehicle_id
          existing.response_body.vehicle.spec_stream_version)
  ],
)

-- Steps 5 and 6: the rows of the new vehicle. With an initial spec the second ULID is the spec's.
abbrev spec_stream : Option InitialSpec → ℕ
spec_stream none = 0
spec_stream (some _) = 1

abbrev pub new_vehicle : Context → VehicleCreateRequest → Text → Vehicle
new_vehicle ctx body plate = record {
  vehicle_id = ctx.ulid 0;
  asset_code = body.asset_code;
  plate_raw_current = body.plate;
  normalized_plate_current = plate;
  brand = body.brand;
  model = body.model;
  model_year = body.model_year;
  ownership_type = body.ownership_type;
  status = MasterStatus.active;
  notes = body.notes;
  row_version = 1;
  spec_stream_version = spec_stream body.initial_spec;
  soft_deleted_at_utc = none;
  soft_deleted_by = none;
  soft_delete_reason = none;
  created_at_utc = ctx.now;
  created_by = ctx.auth;
  updated_at_utc = ctx.now;
  updated_by = ctx.auth;
}

abbrev effective_from : Context → Option ℕ → ℕ
effective_from ctx none = ctx.now
effective_from ctx (some t) = t

abbrev new_spec : Context → Option InitialSpec → Option SpecVersion
new_spec ctx none = none
new_spec ctx (some s) = some (record {
  vehicle_spec_version_id = ctx.ulid 1;
  vehicle_id = ctx.ulid 0;
  version_no = 1;
  effective_from_utc = effective_from ctx s.effective_from_utc;
  effective_to_utc = none;
  is_current = true;
  attributes = s.attributes;
  created_at_utc = ctx.now;
  created_by = ctx.auth;
})

abbrev with_spec : Option SpecVersion → List SpecVersion → List SpecVersion
with_spec none specs = specs
with_spec (some s) specs = specs ++ s ∷ []

unfoldable pub insert_rows : Context → Vehicle → Option SpecVersion → Handler (Unit {0})
insert_rows ctx v s = do
  raise_some ctx.flush
  modify (λ (d : Db). record d { vehicles = d.vehicles ++ v ∷ []; specs = with_spec s d.specs })

abbrev pub new_record : Context → ℕ → ℕ → VehicleDetail → IdempotencyRecord
new_record ctx key hash response = record {
  idempotency_key = key;
  request_hash = hash;
  response_status_code = 201;
  response_body = response;
  resource_id = ctx.ulid 0;
  created_at_utc = ctx.now;
  expires_at_utc = ctx.now + idempotency_ttl;
}

-- Step 10
unfoldable pub insert_record : Context → ℕ → ℕ → VehicleDetail → Handler (Unit {0})
insert_record ctx key hash response =
    modify (λ (d : Db). record d {
      idempotency = d.idempotency ++ new_record ctx key hash response ∷ [];
    })

abbrev spec_etag : ℕ → Option SpecVersion → ℕ → Option Etag
spec_etag id none n = none
spec_etag id (some _) n = some (spec vehicle id n)

-- Steps 6 to 11; `drawn` ULIDs have been drawn before the events.
unfoldable pub store_created : Context → ℕ → ℕ → Vehicle → Option SpecVersion → ℕ → Handler Created
unfolding insert_rows announce insert_record serialize_vehicle_admin build_vehicle_detail_response
store_created ctx key hash v current_spec drawn = do
  insert_rows ctx v current_spec
  announce ctx (ctx.ulid drawn) (ctx.ulid (drawn + 1)) v.vehicle_id "fleet.vehicle.created.v1"
      (snapshot (serialize_vehicle_admin v)) (some 1) (admin (serialize_vehicle_admin v))
  let response = build_vehicle_detail_response v current_spec
  insert_record ctx key hash response
  commit
  pure (
    response,
    master vehicle v.vehicle_id 1,
    201,
    spec_etag v.vehicle_id current_spec v.spec_stream_version,
  )

-- Steps 3 to 11, for a key that is new.
unfoldable pub create_fresh : Library → Context → ℕ → VehicleCreateRequest → Handler Created
unfolding normalized check_asset_code_uniqueness check_plate_uniqueness store_created
create_fresh lib ctx key body = do
  plate ← normalized lib body.plate
  code_free ← gets (λ (d : Db). check_asset_code_uniqueness body.asset_code d)
  raise_if (not code_free) asset_code_already_exists
  plate_free ← gets (λ (d : Db). check_plate_uniqueness plate none d)
  raise_if (not plate_free) plate_already_exists
  store_created ctx key (lib.request_hash body) (new_vehicle ctx body plate)
      (new_spec ctx body.initial_spec) (1 + spec_stream body.initial_spec)

abbrev replay_or_create :
    Library → Context → ℕ → VehicleCreateRequest → Option IdempotencyRecord → Handler Created
replay_or_create lib ctx key body none = create_fresh lib ctx key body
replay_or_create lib ctx key body (some existing) = do
  raise_if (not (existing.request_hash == lib.request_hash body)) idempotency_hash_mismatch
  pure (replay existing)

unfoldable pub create_vehicle :
    Library → Context → Option ℕ → VehicleCreateRequest → Handler Created
unfolding find_existing_record replay create_fresh
create_vehicle lib ctx idempotency_key body = do
  key ← require idempotency_key idempotency_key_required
  existing ← gets (λ (d : Db). find_existing_record key d.idempotency)
  replay_or_create lib ctx key body existing
