-- ===== src/Location.antt =====
-- services/location-service/src/location_service: processing/approval.py with routers/approval.py.
-- A handler runs in one session; an If-Match that is no version is as none.
pub mod Tables
pub mod Approval
pub mod Outcome
pub mod Runs
pub mod Pipeline
pub mod Sessions
pub mod Reached
pub mod Segments
mod Tests
use lojinextv.Prelude.{
  ℕ, ◌+◌, String, Bool, true, false, not, ◌&&◌, ◌||◌, Option, none, some, List, [], ◌∷◌, ◌++◌, ◌==◌,
  any, find, if◌then◌else◌, update_where,
}
use lojinextv.Exec.{◌>>=◌, ◌>>◌, pure, raise, raise_if, raise_some, require, gets, modify, commit}
use lojinextv.Location.Tables.{
  PairStatus, DirectionCode, ProcessingStatus, RoutePair, Route, RouteVersion, AuditAction,
  AuditLog, EventName, LocationDb, LocationError, if_match_required, pair_version_mismatch,
  pair_not_found, soft_deleted_pair, no_pending_draft, not_ready_for_approval, missing_routes,
  route_activated, route_discarded, Context, Handler,
}

abbrev pub is_deleted : PairStatus → Bool
is_deleted PairStatus.soft_deleted = true
is_deleted _ = false

unfoldable pub select_pair : ℕ → List RoutePair → Option RoutePair
select_pair id = find (λ p. p.route_pair_id == id)

unfoldable pub write_pair : RoutePair → List RoutePair → List RoutePair
write_pair p' = update_where (λ p. p.route_pair_id == p'.route_pair_id) (λ _. p')

-- `check_version_match`
unfoldable pub check_version_match : Option ℕ → ℕ → Handler (Unit {0})
check_version_match none n = raise if_match_required
check_version_match (some m) n = raise_if (not (m == n)) pair_version_mismatch

abbrev pub write_audit :
    Context → AuditAction → ℕ → Option RoutePair → Option RoutePair → Handler (Unit {0})
write_audit ctx action target old new = modify λ (d : LocationDb). record d {
  audit_log =
      d.audit_log
      ++ record {
        audit_id = ctx.new_ulid 0;
        target_id = target;
        action_type = action;
        old_snapshot = old;
        new_snapshot = new;
      }
        ∷ [];
}

abbrev pub write_outbox : Context → EventName → RoutePair → Handler (Unit {0})
write_outbox ctx name p = modify λ (d : LocationDb). record d {
  outbox = d.outbox ++ record { outbox_id = ctx.new_ulid 1; event_name = name; pair = p } ∷ [];
}

abbrev pub same_direction : DirectionCode → DirectionCode → Bool
same_direction DirectionCode.forward DirectionCode.forward = true
same_direction DirectionCode.reverse DirectionCode.reverse = true
same_direction _ _ = false

-- the route of a pair in a direction; the dictionary keeps the last of several, a pair has one
unfoldable pub route_in : ℕ → DirectionCode → List Route → Option Route
route_in pair_id dir [] = none
route_in pair_id dir (r ∷ rs) = elim (route_in pair_id dir rs) [
  | some later ↦ some later
  | none ↦ if r.route_pair_id == pair_id && same_direction r.direction dir then some r else none
]

abbrev pub is_version : ℕ → ℕ → RouteVersion → Bool
is_version route n v = v.route_id == route && v.version_no == n

abbrev pub is_active_version : RouteVersion → Bool
is_active_version v = elim v.processing_status [ ProcessingStatus.active ↦ true | _ ↦ false ]

abbrev pub with_status : ProcessingStatus → RouteVersion → RouteVersion
with_status s v = record v { processing_status = s }

-- the three UPDATEs of an approval, in their order
unfoldable pub promote : ℕ → ℕ → ℕ → ℕ → List RouteVersion → List RouteVersion
promote forward reverse a b vs =
    update_where (is_version reverse b) (with_status ProcessingStatus.active) (
      update_where (is_version forward a) (with_status ProcessingStatus.active) (
        update_where (λ v. (v.route_id == forward || v.route_id == reverse) && is_active_version v)
          (with_status ProcessingStatus.superseded) vs))

unfoldable pub discard_drafts : ℕ → ℕ → ℕ → ℕ → List RouteVersion → List RouteVersion
discard_drafts forward reverse a b vs =
    update_where (is_version reverse b) (with_status ProcessingStatus.discarded)
      (update_where (is_version forward a) (with_status ProcessingStatus.discarded) vs)

-- `_get_locked_pair`
unfoldable pub locked_pair : ℕ → Handler RoutePair
unfolding select_pair
locked_pair id = do
  found ← gets (λ (d : LocationDb). select_pair id d.pairs)
  p ← require found pair_not_found
  raise_if (is_deleted p.pair_status) soft_deleted_pair
  pure p

-- the pair after an approval
abbrev pub approved : RoutePair → Route → Route → ℕ → ℕ → RoutePair
approved p f r a b = record p {
  forward_route_id = some f.route_id;
  reverse_route_id = some r.route_id;
  current_active_forward_version_no = some a;
  current_active_reverse_version_no = some b;
  pending_forward_version_no = none;
  pending_reverse_version_no = none;
  pair_status = PairStatus.active;
  row_version = p.row_version + 1;
}

abbrev pub without_drafts : RoutePair → RoutePair
without_drafts p = record p {
  pending_forward_version_no = none;
  pending_reverse_version_no = none;
  row_version = p.row_version + 1;
}

-- `_get_routes_by_direction`
unfoldable pub get_routes : ℕ → Handler (Route × Route)
unfolding route_in
get_routes pair_id = do
  forward ← gets (λ (d : LocationDb). route_in pair_id DirectionCode.forward d.routes)
  f ← require forward missing_routes
  reverse ← gets (λ (d : LocationDb). route_in pair_id DirectionCode.reverse d.routes)
  r ← require reverse missing_routes
  pure (f, r)

unfoldable pub approve_route_versions : Context → ℕ → Handler RoutePair
unfolding locked_pair get_routes promote write_pair
approve_route_versions ctx pair_id = do
  p ← locked_pair pair_id
  a ← require p.pending_forward_version_no not_ready_for_approval
  b ← require p.pending_reverse_version_no not_ready_for_approval
  (f, r) ← get_routes pair_id
  modify λ (d : LocationDb). record d {
    versions = promote f.route_id r.route_id a b d.versions;
    pairs = write_pair (approved p f r a b) d.pairs;
  }
  write_audit ctx AuditAction.approve pair_id none (some (approved p f r a b))
  write_outbox ctx route_activated (approved p f r a b)
  raise_some ctx.refused
  commit
  pure (approved p f r a b)

unfoldable pub discard_route_versions : Context → ℕ → Handler RoutePair
unfolding locked_pair get_routes discard_drafts write_pair
discard_route_versions ctx pair_id = do
  p ← locked_pair pair_id
  a ← require p.pending_forward_version_no no_pending_draft
  b ← require p.pending_reverse_version_no no_pending_draft
  (f, r) ← get_routes pair_id
  modify λ (d : LocationDb). record d {
    versions = discard_drafts f.route_id r.route_id a b d.versions;
    pairs = write_pair (without_drafts p) d.pairs;
  }
  write_audit ctx AuditAction.discard pair_id none none
  write_outbox ctx route_discarded (without_drafts p)
  raise_some ctx.refused
  commit
  pure (without_drafts p)

-- the endpoints: `seen` are the pairs when the endpoint reads them without a lock; the version of that
-- row is checked, and not that of the row which is locked afterwards
unfoldable pub approve : Context → List RoutePair → ℕ → Option ℕ → Handler RoutePair
unfolding select_pair check_version_match approve_route_versions
approve ctx seen pair_id if_match = do
  p ← require (select_pair pair_id seen) pair_not_found
  check_version_match if_match p.row_version
  approve_route_versions ctx pair_id

unfoldable pub discard : Context → List RoutePair → ℕ → Option ℕ → Handler RoutePair
unfolding select_pair check_version_match discard_route_versions
discard ctx seen pair_id if_match = do
  p ← require (select_pair pair_id seen) pair_not_found
  check_version_match if_match p.row_version
  discard_route_versions ctx pair_id
