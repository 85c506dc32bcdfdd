-- ===== src/Fleet/Internal/Compat.antt =====
-- services/fleet-service/src/fleet_service/services/internal_service.py: the validation of a trip's
-- driver, vehicle and trailer. What the driver service answers is an argument; an empty trailer id is
-- none.
use lojinextv.Prelude.{
  ℕ, ◌≡◌, refl, ◌∙◌, find, ◌==◌, String, Bool, true, false, not, ◌&&◌, Option, none, some, List, [],
  ◌∷◌, ◌++◌, if◌then◌else◌,
}
use lojinextv.Fleet.Tables.{AggregateType, Vehicle}
use lojinextv.Fleet.Internal.{
  table, validated, Masters, ReasonCode, ValidateResponse, validate_single,
}
use lojinextv.Fleet.Internal.Usable.{usable}

-- the answer's keys, with the defaults that the code gives to a missing one
pub record DriverResult : Type 0 where
  pub exists : Bool
  pub is_usable_for_new_operation : Bool
  pub is_assignable : Bool
  pub reason_code : Option String
  pub status : Option String

-- the answer, or DependencyUnavailableError
pub data DriverAnswer : Type 0 where
  unavailable : DriverAnswer
  answered : DriverResult → DriverAnswer

pub data Field : Type 0 where
  driver_id vehicle_id trailer_id : Field

-- the code of an error, with its reason
pub data Code : Type 0 where
  not_found : Code
  driver_not_selectable driver_not_assignable : Option String → Code
  asset_not_selectable : Option ReasonCode → Code
  driver_service_unavailable : Code

abbrev pub Finding : Type 0
Finding = Field × Code

abbrev pub is_empty {ℓ} : {A : Type ℓ} → List A → Bool
is_empty [] = true
is_empty (x ∷ xs) = false

-- the check of a vehicle or trailer: its errors
abbrev pub asset_errors : Field → ValidateResponse → List Finding
asset_errors field r =
    if not r.exists
    then (field, not_found) ∷ []
    else if not (usable r)
    then (field, asset_not_selectable r.reason_code) ∷ []
    else []

pub record Compat : Type 0 where
  pub valid : Bool
  pub errors : List Finding
  pub warnings : List Finding
  pub driver_ok : Bool
  pub vehicle_exists : Bool

pub record Contract : Type 0 where
  pub valid : Bool
  pub errors : List Finding
  pub warnings : List Finding
  pub driver_valid : Bool
  pub vehicle_valid : Option Bool
  pub trailer_valid : Option Bool

-- what the check of the driver adds to the errors and the warnings, and whether the driver passes
abbrev pub DriverCheck : Type 0
DriverCheck = List Finding × List Finding × Bool

abbrev pub driver_check : (DriverResult → Bool) → (DriverResult → Code) → DriverAnswer → DriverCheck
driver_check passes code unavailable = ([], (driver_id, driver_service_unavailable) ∷ [], false)
driver_check passes code (answered r) =
    if not r.exists
    then ((driver_id, not_found) ∷ [], [], false)
    else if not (passes r)
    then ((driver_id, code r) ∷ [], [], false)
    else ([], [], true)

unfoldable pub validate_trip_compat : DriverAnswer → ℕ → Option ℕ → Masters → Compat
validate_trip_compat answer vehicle trailer f =
    let (driver_errors, warnings, driver_ok) =
      driver_check (λ r. r.is_usable_for_new_operation) (λ r. driver_not_selectable r.reason_code)
        answer in
    let vehicle_resp = validate_single AggregateType.vehicle vehicle f in
    let errors = driver_errors ++ asset_errors vehicle_id vehicle_resp ++ elim trailer [
      | none ↦ []
      | some id ↦ asset_errors trailer_id (validate_single AggregateType.trailer id f)
    ] in
    record {
      valid = is_empty errors;
      errors = errors;
      warnings = warnings;
      driver_ok = driver_ok;
      vehicle_exists = vehicle_resp.exists;
    }

-- the errors of an asset that may be missing from the request, and its verdict
abbrev pub optional_asset : Field → AggregateType → Option ℕ → Masters → List Finding × Option Bool
optional_asset field t none f = ([], none)
optional_asset field t (some id) f =
    let r = validate_single t id f in (asset_errors field r, some (r.exists && usable r))

unfoldable pub validate_trip_compat_contract :
    DriverAnswer → Option ℕ → Option ℕ → Masters → Contract
validate_trip_compat_contract answer vehicle trailer f =
    let (driver_errors, warnings, driver_valid) =
      driver_check (λ r. r.is_assignable) (λ r. driver_not_assignable r.status) answer in
    let (vehicle_errors, vehicle_valid) =
      optional_asset vehicle_id AggregateType.vehicle vehicle f in
    let (trailer_errors, trailer_valid) =
      optional_asset trailer_id AggregateType.trailer trailer f in
    let errors = driver_errors ++ vehicle_errors ++ trailer_errors in
    record {
      valid = is_empty errors;
      errors = errors;
      warnings = warnings;
      driver_valid = driver_valid;
      vehicle_valid = vehicle_valid;
      trailer_valid = trailer_valid;
    }

-- no answer, or an answer that the driver passes
abbrev pub not_refused : (DriverResult → Bool) → DriverAnswer → Bool
not_refused passes unavailable = true
not_refused passes (answered r) = r.exists && passes r

abbrev pub confirmed : (DriverResult → Bool) → DriverAnswer → Bool
confirmed passes unavailable = false
confirmed passes (answered r) = r.exists && passes r

-- usable, or not named by the request
abbrev pub usable_or_absent : AggregateType → Option ℕ → Masters → Bool
usable_or_absent t none f = true
usable_or_absent t (some id) f = usable (validate_single t id f)

is_empty-append : {A : Type 0} (xs ys : List A) → is_empty (xs ++ ys) ≡ (is_empty xs && is_empty ys)
is_empty-append [] ys = refl
is_empty-append (x ∷ xs) ys = refl

and_assoc : (a b c : Bool) → ((a && b) && c) ≡ (a && b && c)
and_assoc true b c = refl
and_assoc false b c = refl

all_empty :
    (xs ys zs : List Finding) (a b c : Bool)
    → is_empty xs ≡ a
    → is_empty ys ≡ b
    → is_empty zs ≡ c
    → is_empty (xs ++ ys ++ zs) ≡ (a && b && c)
all_empty xs ys zs a b c h i j =
    is_empty-append (xs ++ ys) zs ∙ rw (is_empty-append xs ys, h, i, j) (and_assoc a b c)

check_of :
    (x p : Bool) (c : Code)
    → let r : DriverCheck =
        if not x
        then ((driver_id, not_found) ∷ [], [], false)
        else if not p
        then ((driver_id, c) ∷ [], [], false)
        else ([], [], true) in
      (is_empty r.0 ≡ (x && p)) × (r.2 ≡ (x && p))
check_of true true c = (refl, refl)
check_of true false c = (refl, refl)
check_of false p c = (refl, refl)

driver_check-verdict :
    (passes : DriverResult → Bool) (code : DriverResult → Code) (a : DriverAnswer)
    → (is_empty (driver_check passes code a).0 ≡ not_refused passes a)
      × ((driver_check passes code a).2 ≡ confirmed passes a)
driver_check-verdict passes code unavailable = (refl, refl)
driver_check-verdict passes code (answered r) = check_of r.exists (passes r) (code r)

errors_of :
    (x u : Bool) (field : Field) (c : Code)
    → is_empty {A = Finding}
        (if not x then (field, not_found) ∷ [] else if not u then (field, c) ∷ [] else [])
      ≡ (x && u)
errors_of true true field c = refl
errors_of true false field c = refl
errors_of false u field c = refl

exists-usable :
    (o : Option Vehicle) → ((validated o).exists && usable (validated o)) ≡ usable (validated o)
unfolding validated
exists-usable none = refl
exists-usable (some v) = refl

asset_errors-verdict :
    (field : Field) (t : AggregateType) (id : ℕ) (f : Masters)
    → is_empty (asset_errors field (validate_single t id f)) ≡ usable (validate_single t id f)
unfolding validate_single
asset_errors-verdict field t id f =
    errors_of (validate_single t id f).exists (usable (validate_single t id f)) field
      (asset_not_selectable (validate_single t id f).reason_code)
    ∙ exists-usable (find (λ v. v.vehicle_id == id) (table t f))

optional_asset-verdict :
    (field : Field) (t : AggregateType) (o : Option ℕ) (f : Masters)
    → is_empty (optional_asset field t o f).0 ≡ usable_or_absent t o f
optional_asset-verdict field t none f = refl
optional_asset-verdict field t (some id) f = asset_errors-verdict field t id f

trailer-verdict :
    (o : Option ℕ) (f : Masters)
    → is_empty {A = Finding} (elim o [
      | none ↦ []
      | some id ↦ asset_errors trailer_id (validate_single AggregateType.trailer id f)
    ])
      ≡ usable_or_absent AggregateType.trailer o f
trailer-verdict none f = refl
trailer-verdict (some id) f = asset_errors-verdict trailer_id AggregateType.trailer id f

abbrev passes : DriverResult → Bool
passes r = r.is_usable_for_new_operation

module _ (a : DriverAnswer) (f : Masters) where
  -- A trip is valid when the driver service does not refuse the driver, the vehicle is usable, and
  -- so is the trailer, if one is named; the driver is confirmed only by an answer.
  pub validate_trip_compat-verdict :
      (vehicle : ℕ) (trailer : Option ℕ)
      → ((validate_trip_compat a vehicle trailer f).valid ≡ (
          not_refused passes a
          && usable (validate_single AggregateType.vehicle vehicle f)
          && usable_or_absent AggregateType.trailer trailer f))
        × ((validate_trip_compat a vehicle trailer f).driver_ok ≡ confirmed passes a)
  unfolding validate_trip_compat
  validate_trip_compat-verdict vehicle trailer =
      let driver = driver_check-verdict passes (λ r. driver_not_selectable r.reason_code) a in
      (
        all_empty _ _ _ _ _ _ driver.0
            (asset_errors-verdict vehicle_id AggregateType.vehicle vehicle f)
            (trailer-verdict trailer f),
        driver.1,
      )

  -- The contract of a trip is valid exactly when the driver service does not refuse the driver and
  -- the vehicle and the trailer are usable or not named; a driver service without an answer
  -- refuses nobody, but the driver is valid only by an answer that calls it assignable.
  pub contract-verdict :
      (vehicle trailer : Option ℕ)
      → ((validate_trip_compat_contract a vehicle trailer f).valid ≡ (
          not_refused (λ r. r.is_assignable) a
          && usable_or_absent AggregateType.vehicle vehicle f
          && usable_or_absent AggregateType.trailer trailer f))
        × ((validate_trip_compat_contract a vehicle trailer f).driver_valid
            ≡ confirmed (λ r. r.is_assignable) a)
  unfolding validate_trip_compat_contract
  contract-verdict vehicle trailer =
      let driver =
        driver_check-verdict (λ r. r.is_assignable) (λ r. driver_not_assignable r.status) a in
      (
        all_empty _ _ _ _ _ _ driver.0
            (optional_asset-verdict vehicle_id AggregateType.vehicle vehicle f)
            (optional_asset-verdict trailer_id AggregateType.trailer trailer f),
        driver.1,
      )
