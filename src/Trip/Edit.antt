-- ===== src/Trip/Edit.antt =====
-- services/trip-service/src/trip_service/service.py: the edit of a trip. The start in UTC and the
-- context of the route pair that the edit ends with are arguments.
use Prim.Native.String.{◌++◌ as str_append}
use lojinextv.Prelude.{
  ℕ, ◌+◌, String, Bool, true, false, not, ◌||◌, ◌&&◌, Option, none, some, List, [], ◌∷◌, ltb, any,
  ◌++◌, ◌==◌, if◌then◌else◌, update_where, str_eq,
}
use lojinextv.Exec.{◌>>=◌, ◌>>◌, raise_if, raise_some, pure, modify, commit}
use lojinextv.StateMachine.Trip.{TripStatus}
use lojinextv.Trip.{
  locked_trip, normalize_trip_status, status_is, missing_of, trip_is_complete, set_enrichment_state,
  flush, add_timeline, write_audit, response, is_telegram,
}
use lojinextv.Trip.Tables.{
  SourceType, Trip, Answer, IfMatch, Context, TripDb, TripError, Handler, invalid_status_transition,
  completion_requirements_missing, change_reason_required, source_locked_field,
  weights_inconsistent, trip_edited, update,
}
use lojinextv.Trip.Overlap.{same_value, end_of, assert_no_trip_overlap}
use lojinextv.Trip.Create.{Externals, answered, apply_trip_context}

-- a field of the body, which may be absent, or null
pub data Sent : Type 0 where
  absent : Sent
  sent : Option ℕ → Sent

-- A null for the timezone, which the column does not take, is left out. `has_reason` tells whether
-- the reason for the change has a character that is not white space.
pub record EditTripRequest : Type 0 where
  pub route_pair_id : Sent
  pub sends_start : Bool
  pub trip_timezone : Option String
  pub driver_id : Sent
  pub vehicle_id : Sent
  pub trailer_id : Sent
  pub tare_weight_kg : Sent
  pub gross_weight_kg : Sent
  pub net_weight_kg : Sent
  pub note : Option String
  pub change_reason : Option String
  pub has_reason : Bool

abbrev pub is_sent : Sent → Bool
is_sent absent = false
is_sent (sent v) = true

-- `update_data.get(name, old)`
abbrev pub sent_or : Sent → Option ℕ → Option ℕ
sent_or absent old = old
sent_or (sent v) old = v

unfoldable pub editable : TripStatus → Bool
unfolding normalize_trip_status status_is
editable s =
    status_is (normalize_trip_status s) TripStatus.pending_review
    || status_is (normalize_trip_status s) TripStatus.completed

abbrev is_imported : SourceType → Bool
is_imported SourceType.telegram_trip_slip = true
is_imported SourceType.excel_import = true
is_imported _ = false

unfoldable pub maybe_require_change_reason :
    Context → EditTripRequest → Trip → Option ℕ → Option TripError
maybe_require_change_reason ctx body t new_driver_id =
    if missing_of new_driver_id
      || same_value new_driver_id t.driver_id
      || not (is_imported t.source_type)
    then none
    else if not ctx.is_super_admin
    then some source_locked_field
    else if body.has_reason
    then none
    else some change_reason_required

-- whether `_validate_trip_weights` raises
unfoldable pub invalid_weights : Option ℕ → Option ℕ → Option ℕ → Bool
invalid_weights (some tare) (some gross) (some net) =
    ltb gross tare || not (same_value (some (net + tare)) (some gross))
invalid_weights _ _ _ = false

-- a step of the edit: the row after it, and the names of what it changed
abbrev pub Step : Type 0
Step = Trip → Trip × List String

abbrev pub assign : (Trip → Option ℕ) → (Option ℕ → Trip → Trip) → String → Sent → Step
assign get set name absent t = (t, [])
assign get set name (sent v) t = if same_value (get t) v then (t, []) else (set v t, name ∷ [])

abbrev pub assign_start : Option ℕ → Step
assign_start none t = (t, [])
assign_start (some start) t =
    if same_value (some start) (some t.trip_datetime_utc)
    then (t, [])
    else (record t { trip_datetime_utc = start }, "trip_datetime_utc" ∷ [])

abbrev pub assign_timezone : Option String → Step
assign_timezone none t = (t, [])
assign_timezone (some zone) t =
    if str_eq zone t.trip_timezone
    then (t, [])
    else (record t { trip_timezone = zone }, "trip_timezone" ∷ [])

-- the assignments, in the order of the code
abbrev pub steps : Option ℕ → EditTripRequest → List Step
steps start body =
    assign_start start
    ∷ assign_timezone body.trip_timezone
    ∷ assign (λ t. t.driver_id) (λ v t. record t { driver_id = v }) "driver_id" body.driver_id
    ∷ assign (λ t. t.vehicle_id) (λ v t. record t { vehicle_id = v }) "vehicle_id" body.vehicle_id
    ∷ assign (λ t. t.trailer_id) (λ v t. record t { trailer_id = v }) "trailer_id" body.trailer_id
    ∷ assign (λ t. t.tare_weight_kg) (λ v t. record t { tare_weight_kg = v }) "tare_weight_kg"
        body.tare_weight_kg
    ∷ assign (λ t. t.gross_weight_kg) (λ v t. record t { gross_weight_kg = v }) "gross_weight_kg"
        body.gross_weight_kg
    ∷ assign (λ t. t.net_weight_kg) (λ v t. record t { net_weight_kg = v }) "net_weight_kg"
        body.net_weight_kg
    ∷ []

unfoldable pub run_steps : List Step → Step
run_steps [] t = (t, [])
run_steps (f ∷ fs) t =
    let (u, changed) = f t in let (w, more) = run_steps fs u in (w, changed ++ more)

-- whether the body sends another route pair than the trip's
abbrev pub other_pair : Sent → Option ℕ → Bool
other_pair absent old = false
other_pair (sent v) old = not (same_value v old)

-- the context of the route pair, when the pair or the start is sent
unfoldable pub reroute : Externals → EditTripRequest → Trip → Handler (Trip × List String)
unfolding apply_trip_context
reroute ext body t =
    if other_pair body.route_pair_id t.route_pair_id
    then answered ext.location
      >>= (λ c. pure (apply_trip_context c t.is_empty_return t, "route_pair_id" ∷ []))
    else if (body.sends_start || not (missing_of body.trip_timezone))
        && not (missing_of t.route_pair_id)
    then answered ext.location >>= (λ c. pure (apply_trip_context c t.is_empty_return t, []))
    else pure (t, [])

abbrev pub noted : Option String → List String
noted none = []
noted (some text) = "note" ∷ []

abbrev pub joined : List String → String
joined [] = ""
joined (x ∷ []) = x
joined (x ∷ y ∷ rest) = str_append (str_append x ", ") (joined (y ∷ rest))

-- `note or f"Trip edited: ..."`
abbrev pub edit_note : Option String → List String → String
edit_note none changed = str_append "Trip edited: " (joined changed)
edit_note (some text) changed =
    if str_eq text "" then str_append "Trip edited: " (joined changed) else text

-- one of `overlap_fields`
abbrev pub overlap_field : String → Bool
overlap_field name =
    str_eq name "driver_id"
    || str_eq name "vehicle_id"
    || str_eq name "trailer_id"
    || str_eq name "trip_datetime_utc"
    || str_eq name "route_pair_id"

-- the writes of an edit
unfoldable pub write_edit : Context → EditTripRequest → Trip → Trip → List String → Handler Answer
unfolding set_enrichment_state response
write_edit ctx body old t changed = do
  let t' = record t { version = t.version + 1; updated_at_utc = ctx.now }
  flush t'
  modify λ (d : TripDb). record d {
    enrichments =
        update_where (λ e. e.trip_id == t.id)
          (set_enrichment_state ctx t.source_type
            (not (missing_of t.route_id) && not (missing_of t.planned_end_utc)))
          d.enrichments;
  }
  add_timeline ctx (ctx.new_id 0) t.id trip_edited (edit_note body.note changed)
  write_audit ctx update old t' changed body.change_reason
  raise_some ctx.refused
  commit
  pure (response t')

-- an edit that `_ensure_complete_for_completion` refuses
unfoldable pub incomplete : Trip → Bool
unfolding status_is trip_is_complete
incomplete t =
    (status_is t.status TripStatus.completed || not (is_telegram t.source_type))
    && not (trip_is_complete t)

-- the checks and writes of an edit that changes something
unfoldable pub store_edit : Context → EditTripRequest → Trip → Trip → List String → Handler Answer
unfolding incomplete assert_no_trip_overlap end_of write_edit
store_edit ctx body old t changed = do
  raise_if (incomplete t) completion_requirements_missing
  if any overlap_field changed
      then assert_no_trip_overlap t.driver_id t.vehicle_id t.trailer_id t.trip_datetime_utc
          (end_of t) (some t.id)
      else pure tt
  write_edit ctx body old t changed

abbrev pub start_of : Externals → Bool → Handler (Option ℕ)
start_of ext false = pure none
start_of ext true = answered ext.start_utc >>= (λ start. pure (some start))

abbrev pub is_empty {ℓ} : {A : Type ℓ} → List A → Bool
is_empty [] = true
is_empty (x ∷ xs) = false

-- from the conversion of the start on, for a row that may be edited
unfoldable pub apply_edit : Context → Externals → EditTripRequest → Trip → Handler Answer
unfolding run_steps reroute store_edit response
apply_edit ctx ext body t = do
  start ← start_of ext body.sends_start
  let assigned = run_steps (steps start body) t
  routed ← reroute ext body assigned.0
  let changed = assigned.1 ++ routed.1 ++ noted body.note
  if is_empty changed then pure (response routed.0) else store_edit ctx body t routed.0 changed

-- what the fleet service refuses, which is asked when one of the three is sent
abbrev pub references_error : Externals → EditTripRequest → Option TripError
references_error ext body =
    if is_sent body.driver_id || is_sent body.vehicle_id || is_sent body.trailer_id
    then ext.references
    else none

unfoldable pub refused_weights : EditTripRequest → Trip → Bool
unfolding invalid_weights
refused_weights body t =
    (is_sent body.tare_weight_kg || is_sent body.gross_weight_kg || is_sent body.net_weight_kg)
    && invalid_weights (sent_or body.tare_weight_kg t.tare_weight_kg)
        (sent_or body.gross_weight_kg t.gross_weight_kg)
        (sent_or body.net_weight_kg t.net_weight_kg)

unfoldable pub edit_trip : Context → Externals → ℕ → EditTripRequest → IfMatch → Handler Answer
unfolding locked_trip editable maybe_require_change_reason refused_weights apply_edit
edit_trip ctx ext id body if_match = do
  t ← locked_trip id if_match
  raise_if (not (editable t.status)) invalid_status_transition
  raise_some (maybe_require_change_reason ctx body t (sent_or body.driver_id none))
  raise_some (references_error ext body)
  raise_if (refused_weights body t) weights_inconsistent
  apply_edit ctx ext body t
