-- ===== src/Fleet/Spec.antt =====
-- services/fleet-service/src/fleet_service/services/vehicle_spec_service.py with
-- repositories/vehicle_spec_repo.py: the versions of a vehicle's specification, and the constraints
-- that alembic/versions/001_schema_bootstrap.py puts on their table. The errors are those that
-- constraint_error_mapper.py makes of a refused row.
pub mod History
pub mod AsOf
pub mod Create
pub mod Outcome
pub mod Append
pub mod Success
mod Tests
use lojinextv.Prelude.{
  ℕ, ◌+◌, String, Bool, true, false, not, ◌&&◌, ◌||◌, Option, none, some, List, [], ◌∷◌, ◌++◌, ltb,
  leb, ◌==◌, if◌then◌else◌, any, filter, update_where,
}
use lojinextv.Exec.{◌>>=◌, ◌>>◌, pure, raise, raise_if, require, gets, modify, commit}
use lojinextv.Fleet.Tables.{
  MasterStatus, AggregateType, Actor, Vehicle, SpecAttributes, SpecVersion, InitialSpec,
  TimelinePayload, OutboxData, Db,
}
use lojinextv.Fleet.Session.{
  FleetError, etag_required, spec_etag_mismatch, vehicle_not_found, asset_inactive_or_deleted,
  spec_version_overlap, spec_not_initialized, spec_not_found_for_instant, multiple_results,
  integrity, IfMatch, missing, malformed, version, Etag, spec, Context, Handler, is_some, status_eq,
  select_vehicle, update_vehicle,
}
use lojinextv.Fleet.Vehicle.{vehicle, announce}

-- the rows of one vehicle, in the order of their insertion
abbrev pub rows_of : ℕ → List SpecVersion → List SpecVersion
rows_of id = filter (λ s. s.vehicle_id == id)

abbrev pub max_version : List SpecVersion → ℕ
max_version [] = 0
max_version (s ∷ ss) = let m = max_version ss in if ltb m s.version_no then s.version_no else m

-- SELECT coalesce(max(version_no), 0)
unfoldable pub get_max_version_no : ℕ → Db → ℕ
get_max_version_no id d = max_version (rows_of id d.specs)

-- `chk_fleet_vspec_window`
abbrev pub window_valid : SpecVersion → Bool
window_valid s = elim s.effective_to_utc [ none ↦ true | some t ↦ ltb s.effective_from_utc t ]

-- whether the instant lies before the end of a window
abbrev pub ends_after : ℕ → Option ℕ → Bool
ends_after t none = true
ends_after t (some u) = ltb t u

-- the overlap of two windows, as `excl_fleet_vehicle_spec_no_overlap` has it
abbrev pub windows_overlap : SpecVersion → SpecVersion → Bool
windows_overlap a b =
    ends_after a.effective_from_utc b.effective_to_utc
    && ends_after b.effective_from_utc a.effective_to_utc

-- two rows that one of `ux_fleet_vehicle_spec_no`, `ux_fleet_vehicle_spec_current` and
-- `excl_fleet_vehicle_spec_no_overlap` excludes
unfoldable pub conflicts : SpecVersion → SpecVersion → Bool
conflicts a b =
    (a.vehicle_id == b.vehicle_id)
    && ((a.version_no == b.version_no) || (a.is_current && b.is_current) || windows_overlap a b)

abbrev pub closed : ℕ → SpecVersion → SpecVersion
closed t s = record s { is_current = false; effective_to_utc = some t }

abbrev pub is_open : ℕ → SpecVersion → Bool
is_open id s = (s.vehicle_id == id) && s.is_current

-- The UPDATE of the current row. Its window only shrinks, so that of the constraints only the
-- check on the window can refuse it.
unfoldable pub close_current_spec : ℕ → ℕ → Handler (Unit {0})
close_current_spec id t = do
  refused ← gets (λ (d : Db). any (λ s. is_open id s && not (window_valid (closed t s))) d.specs)
  raise_if refused spec_version_overlap
  modify (λ (d : Db). record d { specs = update_where (is_open id) (closed t) d.specs })

-- The INSERT. `checks` are the constraints on the descriptive columns, whose errors the mapper
-- raises again.
unfoldable pub insert_spec_version : (SpecAttributes → Bool) → SpecVersion → Handler (Unit {0})
unfolding conflicts
insert_spec_version checks s = do
  raise_if (not (checks s.attributes)) integrity
  refused ← gets (λ (d : Db). any (conflicts s) d.specs)
  raise_if refused spec_version_overlap
  modify (λ (d : Db). record d { specs = d.specs ++ s ∷ [] })

-- The guards of steps 1 and 2.
unfoldable pub expected_spec_version : IfMatch → Handler ℕ
expected_spec_version missing = raise etag_required
expected_spec_version malformed = raise spec_etag_mismatch
expected_spec_version (version n) = pure n

abbrev pub effective_from : Context → InitialSpec → ℕ
effective_from ctx body = elim body.effective_from_utc [ none ↦ ctx.now | some t ↦ t ]

-- the last of the descriptive columns
abbrev change_reason : SpecAttributes → Option String
change_reason [] = none
change_reason (a ∷ []) = a
change_reason (a ∷ b ∷ rest) = change_reason (b ∷ rest)

abbrev pub new_version : Context → ℕ → InitialSpec → ℕ → SpecVersion
new_version ctx id body number = record {
  vehicle_spec_version_id = ctx.ulid 0;
  vehicle_id = id;
  version_no = number;
  effective_from_utc = effective_from ctx body;
  effective_to_utc = none;
  is_current = true;
  attributes = body.attributes;
  created_at_utc = ctx.now;
  created_by = ctx.auth;
}

-- step 11
abbrev pub respecified : Context → Vehicle → Vehicle
respecified ctx v = record v {
  spec_stream_version = v.spec_stream_version + 1;
  updated_at_utc = ctx.now;
  updated_by = ctx.auth;
}

-- Steps 1 to 5: the locked row, if it is active and the header names its stream version.
unfoldable pub locked_active : IfMatch → ℕ → Handler Vehicle
unfolding expected_spec_version select_vehicle
locked_active if_match id = do
  expected ← expected_spec_version if_match
  found ← gets (λ (d : Db). select_vehicle id d.vehicles)
  v ← require found vehicle_not_found
  raise_if (is_some v.soft_deleted_at_utc || not (status_eq v.status MasterStatus.active))
      asset_inactive_or_deleted
  raise_if (not (v.spec_stream_version == expected)) spec_etag_mismatch
  pure v

-- Steps 9 to 13.
unfoldable pub store_version :
    (SpecAttributes → Bool) → Context → ℕ → SpecVersion → Vehicle → Handler (SpecVersion × Etag)
unfolding close_current_spec insert_spec_version update_vehicle announce
store_version checks ctx id s v' = do
  close_current_spec id s.effective_from_utc
  insert_spec_version checks s
  update_vehicle ctx v'
  announce ctx (ctx.ulid 1) (ctx.ulid 2) id "fleet.vehicle.spec_version_created.v1"
      (TimelinePayload.spec_created s.vehicle_spec_version_id s.version_no
        (change_reason s.attributes) v'.spec_stream_version)
      none (OutboxData.spec_created s.vehicle_spec_version_id s.version_no v'.spec_stream_version)
  commit
  pure (s, spec vehicle id v'.spec_stream_version)

unfoldable pub create_vehicle_spec_version :
    (SpecAttributes → Bool) → Context → ℕ → InitialSpec → IfMatch → Handler (SpecVersion × Etag)
unfolding locked_active get_max_version_no store_version
create_vehicle_spec_version checks ctx id body if_match = do
  v ← locked_active if_match id
  number ← gets (λ (d : Db). get_max_version_no id d)
  store_version checks ctx id (new_version ctx id body (number + 1)) (respecified ctx v)

-- `scalar_one_or_none`
unfoldable pub scalar_one_or_none : List SpecVersion → Handler (Option SpecVersion)
scalar_one_or_none [] = pure none
scalar_one_or_none (s ∷ []) = pure (some s)
scalar_one_or_none (s ∷ s' ∷ ss) = raise multiple_results

-- the window holds the instant
abbrev pub holds_at : ℕ → SpecVersion → Bool
holds_at t s = leb s.effective_from_utc t && ends_after t s.effective_to_utc

unfoldable pub select_current : ℕ → Handler (Option SpecVersion)
unfolding scalar_one_or_none
select_current id = do
  rows ← gets (λ (d : Db). filter (λ s. s.is_current) (rows_of id d.specs))
  scalar_one_or_none rows

unfoldable pub select_as_of : ℕ → ℕ → Handler (Option SpecVersion)
unfolding scalar_one_or_none
select_as_of id t = do
  rows ← gets (λ (d : Db). filter (holds_at t) (rows_of id d.specs))
  scalar_one_or_none rows

unfoldable pub get_current_spec : ℕ → Handler (SpecVersion × Etag)
unfolding select_vehicle select_current
get_current_spec id = do
  found ← gets (λ (d : Db). select_vehicle id d.vehicles)
  v ← require found vehicle_not_found
  row ← select_current id
  s ← require row spec_not_initialized
  pure (s, spec vehicle id v.spec_stream_version)

unfoldable pub get_spec_as_of : ℕ → ℕ → Handler SpecVersion
unfolding select_vehicle select_as_of
get_spec_as_of id t = do
  found ← gets (λ (d : Db). select_vehicle id d.vehicles)
  v ← require found vehicle_not_found
  row ← select_as_of id t
  require row spec_not_found_for_instant
