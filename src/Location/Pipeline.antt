-- ===== src/Location/Pipeline.antt =====
-- services/location-service/src/location_service/processing/pipeline.py: the session that stores a
-- calculation. What the providers answer for the two directions comes in as an argument; segments,
-- distributions and hashes are stored beside the versions and are not kept here.
pub mod Numbers
pub mod Routes
pub mod Drafts
pub mod Claims
pub mod Forced
use lojinextv.Prelude.{
  ℕ, ◌+◌, String, Bool, true, false, not, ◌&&◌, ◌||◌, Option, none, some, List, [], ◌∷◌, ◌++◌, ◌==◌,
  find, if◌then◌else◌, update_where,
}
use lojinextv.Exec.{
  Result, ok, err, request, ◌>>=◌, ◌>>◌, pure, raise, raise_if, raise_some, require, gets, modify,
  commit,
}
use lojinextv.Location.Tables.{
  DirectionCode, ProcessingStatus, RunStatus, ValidationResult, RoutePair, Route,
  RouteVersionCounter, RouteVersion, ProcessingRun, LocationDb, LocationError, Context, Handler,
}
use lojinextv.Location.{select_pair, write_pair, route_in}
use lojinextv.Location.Runs.{
  is_queued, is_running, is_open, select_run, write_run, claimed_run, clear_claim,
  mark_processing_run_failed,
}

-- what was calculated for one direction
pub record Calculated : Type 0 where
  pub distance : ℕ
  pub duration : ℕ
  pub segments_count : ℕ
  pub validation_result : ValidationResult

-- the values that the service draws
pub record Draws : Type 0 where
  pub new_ulid : DirectionCode → ℕ
  pub generate_route_code : String → DirectionCode → String

abbrev pub new_route : Draws → RoutePair → DirectionCode → Route
new_route draws p dir = record {
  route_id = draws.new_ulid dir;
  route_pair_id = p.route_pair_id;
  route_code = draws.generate_route_code p.pair_code dir;
  direction = dir;
}

-- the route of the direction, which is created if there is none
unfoldable pub route_of : Draws → RoutePair → DirectionCode → List Route → Route × List Route
unfolding route_in
route_of draws p dir routes = elim (route_in p.route_pair_id dir routes) [
  | some r ↦ (r, routes)
  | none ↦ (new_route draws p dir, routes ++ new_route draws p dir ∷ [])
]

abbrev pub same_id : Option ℕ → ℕ → Bool
same_id none n = false
same_id (some m) n = m == n

-- the pair with the route's id in its place, and whether that changed it
unfoldable pub link_route : DirectionCode → ℕ → RoutePair → RoutePair × Bool
link_route DirectionCode.forward id p =
    if same_id p.forward_route_id id
    then (p, false)
    else (record p { forward_route_id = some id }, true)
link_route DirectionCode.reverse id p =
    if same_id p.reverse_route_id id
    then (p, false)
    else (record p { reverse_route_id = some id }, true)

abbrev pub counter_of : ℕ → List RouteVersionCounter → Option RouteVersionCounter
counter_of route = find (λ c. c.route_id == route)

-- the next number of a route, and the counters after it was drawn
unfoldable pub draw_number : ℕ → List RouteVersionCounter → ℕ × List RouteVersionCounter
draw_number route cs = elim (counter_of route cs) [
  | some c ↦ (
    c.next_version_no,
    update_where (λ k. k.route_id == route)
        (λ k. record k { next_version_no = c.next_version_no + 1 }) cs,
  )
  | none ↦ (1, cs ++ record { route_id = route; next_version_no = 2 } ∷ [])
]

abbrev pub draft_version : ℕ → ℕ → ℕ → Calculated → RouteVersion
draft_version run_id route n result = record {
  route_id = route;
  version_no = n;
  processing_run_id = run_id;
  processing_status = ProcessingStatus.calculated_draft;
  total_distance_m = result.distance;
  total_duration_s = result.duration;
  segment_count = result.segments_count;
  validation_result = result.validation_result;
}

pub record Stored : Type 0 where
  pub db : LocationDb
  pub pair : RoutePair
  pub changed : Bool
  pub version_no : ℕ

-- the loop's body over the results of the two directions
unfoldable pub store_version :
    Draws → ℕ → DirectionCode → Calculated → RoutePair → LocationDb → Stored
unfolding route_of link_route draw_number
store_version draws run_id dir result p d =
    let (route, routes) = route_of draws p dir d.routes in
    let (linked, changed) = link_route dir route.route_id p in
    let (n, counters) = draw_number route.route_id d.counters in
    record {
      db = record d {
        routes = routes;
        counters = counters;
        versions = d.versions ++ draft_version run_id route.route_id n result ∷ [];
      };
      pair = linked;
      changed = changed;
      version_no = n;
    }

-- the pair with the numbers of its new drafts; its own version counts the changes of a run as one
unfoldable pub with_drafts : Bool → ℕ → ℕ → RoutePair → RoutePair
with_drafts changed a b p =
    let moved =
      changed
      || not (same_id p.pending_forward_version_no a)
      || not (same_id p.pending_reverse_version_no b) in
    record p {
      pending_forward_version_no = some a;
      pending_reverse_version_no = some b;
      row_version = if moved then p.row_version + 1 else p.row_version;
    }

unfoldable pub store_drafts :
    Draws → ℕ → Calculated → Calculated → RoutePair → LocationDb → LocationDb
unfolding store_version with_drafts write_pair
store_drafts draws run_id forward reverse p d =
    let f = store_version draws run_id DirectionCode.forward forward p d in
    let r = store_version draws run_id DirectionCode.reverse reverse f.pair f.db in
    record r.db {
      pairs =
          write_pair (with_drafts (f.changed || r.changed) f.version_no r.version_no r.pair)
            r.db.pairs;
    }

abbrev pub succeeded : ℕ → ProcessingRun → ProcessingRun
succeeded now r = clear_claim (record r {
  run_status = RunStatus.succeeded;
  completed_at_utc = some now;
  error_message = none;
})

-- the end of the session: it commits only when the run is still the claim's own
unfoldable pub finish_run : Context → Option ProcessingRun → Handler Bool
unfolding write_run
finish_run ctx none = pure false
finish_run ctx (some r) = do
  modify λ (d : LocationDb). record d { runs = write_run (succeeded ctx.now r) d.runs }
  raise_some ctx.refused
  commit
  pure true

-- the second session of `_process_route_pair`; whether it committed
unfoldable pub persist_found :
    Context → Draws → ℕ → Option ℕ → Calculated → Calculated → Option RoutePair → Handler Bool
unfolding store_drafts claimed_run finish_run
persist_found ctx draws run_id token forward reverse none = pure false
persist_found ctx draws run_id token forward reverse (some p) = do
  modify (store_drafts draws run_id forward reverse p)
  run ← gets (λ (d : LocationDb). claimed_run run_id token d.runs)
  finish_run ctx run

unfoldable pub persist : Context → Draws → ℕ → ℕ → Option ℕ → Calculated → Calculated → Handler Bool
unfolding select_pair persist_found
persist ctx draws run_id pair_id token forward reverse = do
  found ← gets (λ (d : LocationDb). select_pair pair_id d.pairs)
  persist_found ctx draws run_id token forward reverse found
