-- ===== src/Fleet/Internal.antt =====
-- services/fleet-service/src/fleet_service/services/internal_service.py: the questions that the other
-- services ask. All of them only read. A table is the list of its rows in the order of their keys;
-- the rows of `fleet_trailers` have the columns of `fleet_vehicles`, with the trailer's id as key.
pub mod Rows
pub mod Pages
pub mod Bulk
pub mod Usable
pub mod Compat
mod Tests
use lojinextv.Prelude.{
  ℕ, ◌+◌, ◌<◌, String, Bool, true, false, not, ◌&&◌, ◌||◌, Option, none, some, List, [], ◌∷◌, ◌++◌,
  ltb, ◌==◌, if◌then◌else◌, find, filter, take, length, elem, map,
}
use lojinextv.Exec.{Result, ok, err}
use lojinextv.Fleet.Plate.{Text, text_eq}
use lojinextv.Fleet.Tables.{MasterStatus, LifecycleState, AggregateType, Vehicle}
use lojinextv.Fleet.Session.{is_some, lifecycle_state, is_selectable}

-- the two master tables
pub record Masters : Type 0 where
  pub vehicles : List Vehicle
  pub trailers : List Vehicle

abbrev pub table : AggregateType → Masters → List Vehicle
table AggregateType.vehicle f = f.vehicles
table AggregateType.trailer f = f.trailers

pub data PlateError : Type 0 where
  not_found multiple_results : PlateError

-- `get_vehicle_by_plate` and `get_trailer_by_plate`
abbrev one_or_none : List Vehicle → Result PlateError ℕ
one_or_none [] = err not_found
one_or_none (v ∷ []) = ok v.vehicle_id
one_or_none (v ∷ w ∷ vs) = err multiple_results

abbrev pub live_with_plate : Text → Vehicle → Bool
live_with_plate plate v =
    text_eq v.normalized_plate_current plate && not (is_some v.soft_deleted_at_utc)

unfoldable pub get_by_plate : AggregateType → Text → Masters → Result PlateError ℕ
get_by_plate t plate f = one_or_none (filter (live_with_plate plate) (table t f))

pub data ReasonCode : Type 0 where
  soft_deleted inactive : ReasonCode

unfoldable pub reason_code : Vehicle → Option ReasonCode
reason_code v = elim v.soft_deleted_at_utc [
  | some _ ↦ some soft_deleted
  | none ↦ elim v.status [ MasterStatus.inactive ↦ some inactive | MasterStatus.active ↦ none ]
]

pub record ValidateResponse : Type 0 where
  pub exists : Bool
  pub status : Option MasterStatus
  pub lifecycle_state : Option LifecycleState
  pub is_selectable : Option Bool
  pub is_usable_for_new_operation : Option Bool
  pub reason_code : Option ReasonCode

unfoldable pub validated : Option Vehicle → ValidateResponse
unfolding reason_code lifecycle_state is_selectable
validated none = record {
  exists = false;
  status = none;
  lifecycle_state = none;
  is_selectable = none;
  is_usable_for_new_operation = none;
  reason_code = none;
}
validated (some v) = record {
  exists = true;
  status = some v.status;
  lifecycle_state = some (lifecycle_state v);
  is_selectable = some (is_selectable v);
  is_usable_for_new_operation = some (is_selectable v);
  reason_code = reason_code v;
}

unfoldable pub validate_single : AggregateType → ℕ → Masters → ValidateResponse
unfolding validated
validate_single t id f = validated (find (λ v. v.vehicle_id == id) (table t f))

pub record BulkItem : Type 0 where
  pub asset_id : ℕ
  pub asset_type : AggregateType
  pub response : ValidateResponse

abbrev pub replaced : ℕ → Vehicle → Option Vehicle → Option Vehicle
replaced id v (some w) = some w
replaced id v none = if v.vehicle_id == id then some v else none

-- the lookup in the dictionary that is made of the rows, where a later row replaces an earlier one
abbrev pub dict_get : ℕ → List Vehicle → Option Vehicle
dict_get id [] = none
dict_get id (v ∷ vs) = replaced id v (dict_get id vs)

unfoldable pub bulk_items : AggregateType → List ℕ → List Vehicle → List BulkItem
unfolding validated
bulk_items t ids rows =
    let found = filter (λ v. elem v.vehicle_id ids) rows in
    map (λ id. record { asset_id = id; asset_type = t; response = validated (dict_get id found) })
      ids

-- the ids that a request names, where None and the empty list are alike
unfoldable pub validate_bulk : Option (List ℕ) → Option (List ℕ) → Masters → List BulkItem
unfolding bulk_items
validate_bulk vehicle_ids trailer_ids f =
    elim vehicle_ids [ none ↦ [] | some ids ↦ bulk_items AggregateType.vehicle ids f.vehicles ]
    ++ elim trailer_ids [ none ↦ [] | some ids ↦ bulk_items AggregateType.trailer ids f.trailers ]

pub record SelectableItem : Type 0 where
  pub asset_id : ℕ
  pub asset_code : Text
  pub plate_raw_current : Text
  pub normalized_plate_current : Text
  pub brand : Option String
  pub model : Option String
  pub model_year : Option ℕ

abbrev pub selectable_item : Vehicle → SelectableItem
selectable_item v = record {
  asset_id = v.vehicle_id;
  asset_code = v.asset_code;
  plate_raw_current = v.plate_raw_current;
  normalized_plate_current = v.normalized_plate_current;
  brand = v.brand;
  model = v.model;
  model_year = v.model_year;
}

pub record CursorResponse : Type 0 where
  pub items : List SelectableItem
  pub next_cursor : Option ℕ
  pub has_more : Bool

abbrev pub past : Option ℕ → ℕ → Bool
past none id = true
past (some c) id = ltb c id

abbrev pub last_id : List Vehicle → Option ℕ
last_id [] = none
last_id (v ∷ []) = some v.vehicle_id
last_id (v ∷ w ∷ vs) = last_id (w ∷ vs)

-- the row matches the query text: `q` is the ILIKE of the plate and the asset code
unfoldable pub listed : (Vehicle → Bool) → Vehicle → Bool
unfolding is_selectable
listed q v = is_selectable v && q v

-- `list_selectable_vehicles` and `list_selectable_trailers`
unfoldable pub list_selectable :
    AggregateType → (Vehicle → Bool) → Option ℕ → ℕ → Masters → CursorResponse
unfolding listed
list_selectable t q cursor limit f =
    let rows =
      take (limit + 1) (filter (λ v. listed q v && past cursor v.vehicle_id) (table t f)) in
    let items = take limit rows in
    let has_more = ltb limit (length rows) in
    record {
      items = map selectable_item items;
      next_cursor = if has_more then last_id items else none;
      has_more = has_more;
    }
