-- ===== src/Fleet/Vehicle/Tests.antt =====
-- The theorems on the vehicle service, on a database with one vehicle.
use lojinextv.Prelude.{ℕ, ◌+◌, ◌≡◌, ◌≢◌, ◌⊎◌, refl, Bool, false, none, some, List, [], ◌∷◌}
use lojinextv.Exec.{ok, request}
use lojinextv.Fleet.Plate.{Text}
use lojinextv.Fleet.Tables.{MasterStatus, Actor, Vehicle, VehicleCreateRequest, VehicleDetail, Db}
use lojinextv.Fleet.Session.{
  Library, FleetError, version, Etag, master, Context, build_vehicle_detail_response,
  select_vehicle,
}
use lojinextv.Fleet.Vehicle.{vehicle, deleted, transitioned}
use lojinextv.Fleet.Vehicle.Create.{Created, create_vehicle, new_vehicle}
use lojinextv.Fleet.Vehicle.Create.Idempotent.{create_again}
use lojinextv.Fleet.Vehicle.HardDelete.{TripAnswer, hard_delete_vehicle}
use lojinextv.Fleet.Vehicle.HardDelete.Outcome.{Gone, hard_delete-Gone, hard_delete_refused}
use lojinextv.Fleet.Vehicle.Locking.{
  deactivate, soft_delete, mutate, serve, serve_stale, serve_deleted,
}
use lojinextv.Fleet.Vehicle.Success.{serve_succeeds}

abbrev same_text : Text → Text
same_text s = s

abbrev no_space : ℕ → Bool
no_space c = false

abbrev hash_of : VehicleCreateRequest → ℕ
hash_of body = elim body.notes [ none ↦ 1 | some _ ↦ 2 ]

abbrev library : Library
library = record { upper = same_text; is_space = no_space; request_hash = hash_of }

abbrev pub admin : Actor
admin = record { actor_type = "ADMIN"; actor_id = "a" }

abbrev pub context : Context
context = record {
  now = 500;
  auth = admin;
  request_id = none;
  correlation_id = none;
  ulid = λ n. 100 + n;
  flush = none;
  json_length = λ p. 300;
}

abbrev pub truck : Vehicle
truck = record {
  vehicle_id = 1;
  asset_code = b'A' ∷ [];
  plate_raw_current = b'P' ∷ [];
  normalized_plate_current = b'P' ∷ [];
  brand = none;
  model = none;
  model_year = none;
  ownership_type = "OWNED";
  status = MasterStatus.active;
  notes = none;
  row_version = 3;
  spec_stream_version = 0;
  soft_deleted_at_utc = none;
  soft_deleted_by = none;
  soft_delete_reason = none;
  created_at_utc = 100;
  created_by = admin;
  updated_at_utc = 100;
  updated_by = admin;
}

abbrev pub with_vehicles : List Vehicle → Db
with_vehicles vs = record {
  vehicles = vs;
  specs = [];
  timeline = [];
  outbox = [];
  delete_audits = [];
  audit_log = [];
  idempotency = [];
}

abbrev fleet : Db
fleet = with_vehicles (truck ∷ [])

abbrev answer_for : Vehicle → VehicleDetail × Etag
answer_for v = (build_vehicle_detail_response v none, master vehicle 1 v.row_version)

abbrev parked : Vehicle
parked = transitioned context MasterStatus.inactive truck

abbrev gone : Vehicle
gone = deleted context "sold" truck

serve_stale_example :
    (serve library context 1
      (soft_delete "sold")
      (version 3)
      (serve library context 1 (deactivate "broken") (version 3) fleet).1).0
    ≢ ok (answer_for gone)
unfolding mutate
serve_stale_example =
    serve_stale library context context 1 (deactivate "broken") (soft_delete "sold") fleet
      (answer_for parked) 3 (answer_for gone) refl

serve_deleted_example :
    (serve library context 1
      (deactivate "broken")
      (version 4)
      (serve library context 1 (soft_delete "sold") (version 3) fleet).1).0
    ≢ ok (answer_for parked)
unfolding mutate
serve_deleted_example =
    serve_deleted library context context 1 (soft_delete "sold") (deactivate "broken") fleet
      (answer_for gone) "sold" (version 3) (version 4) (answer_for parked) refl

abbrev body : VehicleCreateRequest
body = record {
  asset_code = b'B' ∷ [];
  plate = b'Q' ∷ [];
  ownership_type = "OWNED";
  brand = none;
  model = none;
  model_year = none;
  notes = none;
  initial_spec = none;
}

abbrev other_body : VehicleCreateRequest
other_body = record body { notes = some "changed" }

abbrev created : Created
created = (
  build_vehicle_detail_response (new_vehicle context body (b'Q' ∷ [])) none,
  master vehicle 100 1,
  201,
  none,
)

create_again_example :
    request
      (create_vehicle library context (some 9) body)
      (request (create_vehicle library context (some 9) body) fleet).1
    ≡ (ok created, (request (create_vehicle library context (some 9) body) fleet).1)
unfolding create_vehicle
create_again_example = create_again library context context 9 body fleet created refl

abbrev reread : Vehicle → Vehicle → Vehicle
reread old row = row

abbrev nothing_else : Db → Db
nothing_else d = d

abbrev deleted_fleet : Db
deleted_fleet = with_vehicles (gone ∷ [])

hard_delete-Gone_example :
    Gone reread 1
      (version 4)
      (some (TripAnswer.answered record { has_references = false }))
      100
      deleted_fleet
      (request
        (hard_delete_vehicle reread nothing_else context 1 "audit"
          (version 4)
          (some (TripAnswer.answered record { has_references = false })))
        deleted_fleet).1
unfolding hard_delete_vehicle
hard_delete-Gone_example =
    hard_delete-Gone reread nothing_else context 1 "audit" (version 4)
      (some (TripAnswer.answered record { has_references = false })) deleted_fleet 100 refl

hard_delete_refused_example :
    ((request
        (hard_delete_vehicle reread nothing_else context 1 "audit"
          (version 4)
          (some TripAnswer.unavailable))
        deleted_fleet).1
      ≡ deleted_fleet)
    ⊎ ((request
          (hard_delete_vehicle reread nothing_else context 1 "audit"
            (version 4)
            (some TripAnswer.unavailable))
          deleted_fleet).1
        ≡ deleted_fleet)
unfolding hard_delete_vehicle
hard_delete_refused_example =
    hard_delete_refused reread nothing_else context 1 "audit" (version 4)
      (some TripAnswer.unavailable) deleted_fleet FleetError.dependency_unavailable refl

serve_succeeds_example :
    (x : VehicleDetail × Etag) × ((serve library context 1
        (deactivate "broken")
        (version 3)
        fleet).0
      ≡ ok x)
unfolding select_vehicle
serve_succeeds_example =
    serve_succeeds library context 1 fleet truck (deactivate "broken") refl refl refl refl
      (λ p. refl)
