-- ===== src/Fleet/Spec/Tests.antt =====
-- The theorems on specifications, on a vehicle with one version, and runs of the handlers.
use lojinextv.Prelude.{◌+◌, ◌≡◌, refl, Bool, true, none, some, [], ◌∷◌}
use lojinextv.Exec.{ok, err, request}
use lojinextv.Fleet.Tables.{Vehicle, SpecAttributes, SpecVersion, InitialSpec, Db}
use lojinextv.Fleet.Session.{version, Etag, spec, select_vehicle, spec_version_overlap}
use lojinextv.Fleet.Vehicle.{vehicle}
use lojinextv.Fleet.Vehicle.Tests.{admin, context, truck, with_vehicles}
use lojinextv.Fleet.Spec.{create_vehicle_spec_version, new_version, get_spec_as_of}
use lojinextv.Fleet.Spec.AsOf.{version_at, get_spec_as_of-version_at}
use lojinextv.Fleet.Spec.Create.{created}
use lojinextv.Fleet.Spec.Outcome.{Consistent, create-Consistent}
use lojinextv.Fleet.Spec.Append.{described, create-get_spec_as_of}
use lojinextv.Fleet.Spec.Success.{create_decides}

abbrev specified : Vehicle
specified = record truck { spec_stream_version = 1 }

abbrev first : SpecVersion
first = record {
  vehicle_spec_version_id = 50;
  vehicle_id = 1;
  version_no = 1;
  effective_from_utc = 200;
  effective_to_utc = none;
  is_current = true;
  attributes = [];
  created_at_utc = 200;
  created_by = admin;
}

abbrev garage : Db
garage = record (with_vehicles (specified ∷ [])) { specs = first ∷ [] }

abbrev any_value : SpecAttributes → Bool
any_value a = true

abbrev at_300 : InitialSpec
at_300 = record { effective_from_utc = some 300; attributes = some "DIESEL" ∷ [] }

abbrev at_100 : InitialSpec
at_100 = record { effective_from_utc = some 100; attributes = [] }

garage-Consistent : Consistent 1 garage
unfolding select_vehicle
garage-Consistent = record {
  master = specified;
  selected = refl;
  history = (some 200, (refl, refl, refl, tt, tt));
  counted = refl;
}

abbrev second : SpecVersion
second = new_version context 1 at_300 2

abbrev answer : SpecVersion × Etag
answer = (second, spec vehicle 1 2)

second_created : (created any_value context 1 at_300 (version 1) garage).0 ≡ ok answer
unfolding create_vehicle_spec_version
second_created = refl

get_spec_as_of-version_at_example :
    request (get_spec_as_of 1 250) garage ≡ (version_at 1 250 garage, garage)
get_spec_as_of-version_at_example = get_spec_as_of-version_at 1 250 garage garage-Consistent.history

create-get_spec_as_of_example :
    described
      (request (get_spec_as_of 1 250) (created any_value context 1 at_300 (version 1) garage).1).0
    ≡ described (request (get_spec_as_of 1 250) garage).0
create-get_spec_as_of_example =
    create-get_spec_as_of any_value context 1 at_300 (version 1) garage answer second_created 250
      garage-Consistent

create-Consistent_example :
    Consistent 1 (created any_value context 1 at_300 (version 1) garage).1
    × (second.version_no ≡ 1 + 1)
create-Consistent_example =
    create-Consistent any_value context 1 at_300 (version 1) garage answer second_created
      garage-Consistent

create_decides_example : (created any_value context 1 at_300 (version 1) garage).0 ≡ ok answer
unfolding select_vehicle
create_decides_example =
    create_decides any_value context 1 at_300 garage specified garage-Consistent refl refl refl refl
      refl (λ p. refl)

-- a version that begins before the current one is refused
backdated : (created any_value context 1 at_100 (version 1) garage).0 ≡ err spec_version_overlap
unfolding create_vehicle_spec_version
backdated = refl
