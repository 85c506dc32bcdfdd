-- ===== src/Location/Outcome.antt =====
-- The requests that approve or discard the drafts of a pair.
use lojinextv.Prelude.{
  ◌++◌, [], ◌∷◌, ℕ, ◌≡◌, refl, ap, false, Option, none, some, List, ◌==◌, arith, Bool-cases,
  Option-cases, inl, inr,
}
use lojinextv.Exec.{ok, err, Session, request}
use lojinextv.Exec.Post.{Post, Post-bind, Post-request, Post-raise_some, Post-require}
use lojinextv.Location.Tables.{
  clean, AuditAction, EventName, DirectionCode, RoutePair, Route, LocationDb, LocationError,
  Context,
}
use lojinextv.Location.{
  promote, discard_drafts, is_deleted, select_pair, write_pair, check_version_match, route_in,
  locked_pair, approved, without_drafts, get_routes, approve_route_versions, discard_route_versions,
  approve, discard,
}
use lojinextv.Location.Approval.{status_at, promoted, dropped, promote-promoted, discard-dropped}

-- what an approval that succeeds has found, and what it leaves
pub record Approved (seen : List RoutePair) (id : ℕ) (m : Option ℕ) (before : LocationDb)
    (x : RoutePair) (after : LocationDb) : Type 0 where
  pub p : RoutePair
  pub a : ℕ
  pub b : ℕ
  pub f : Route
  pub r : Route
  pub found : select_pair id before.pairs ≡ some p
  pub q : RoutePair
  pub read : select_pair id seen ≡ some q
  pub named : m ≡ some q.row_version
  pub living : is_deleted p.pair_status ≡ false
  pub forward_draft : p.pending_forward_version_no ≡ some a
  pub reverse_draft : p.pending_reverse_version_no ≡ some b
  pub forward_route : route_in id DirectionCode.forward before.routes ≡ some f
  pub reverse_route : route_in id DirectionCode.reverse before.routes ≡ some r
  pub answer : x ≡ approved p f r a b
  pub pairs : after.pairs ≡ write_pair x before.pairs
  pub routes : after.routes ≡ before.routes
  pub runs : after.runs ≡ before.runs
  pub audit_id : ℕ
  pub audited :
      after.audit_log
      ≡ before.audit_log
        ++ record {
          audit_id = audit_id;
          target_id = id;
          action_type = AuditAction.approve;
          old_snapshot = none;
          new_snapshot = some x;
        }
          ∷ []
  pub outbox_id : ℕ
  pub sent :
      after.outbox
      ≡ before.outbox
        ++ record { outbox_id = outbox_id; event_name = EventName.route_activated; pair = x } ∷ []
  pub counters : after.counters ≡ before.counters
  pub rows : after.versions ≡ promote f.route_id r.route_id a b before.versions
  pub versions :
      (route n : ℕ)
      → status_at after.versions route n
        ≡ promoted f.route_id r.route_id a b (status_at before.versions) route n

-- what a discarding that succeeds has found, and what it leaves
pub record Discarded (seen : List RoutePair) (id : ℕ) (m : Option ℕ) (before : LocationDb)
    (x : RoutePair) (after : LocationDb) : Type 0 where
  pub p : RoutePair
  pub a : ℕ
  pub b : ℕ
  pub f : Route
  pub r : Route
  pub found : select_pair id before.pairs ≡ some p
  pub q : RoutePair
  pub read : select_pair id seen ≡ some q
  pub named : m ≡ some q.row_version
  pub living : is_deleted p.pair_status ≡ false
  pub forward_draft : p.pending_forward_version_no ≡ some a
  pub reverse_draft : p.pending_reverse_version_no ≡ some b
  pub forward_route : route_in id DirectionCode.forward before.routes ≡ some f
  pub reverse_route : route_in id DirectionCode.reverse before.routes ≡ some r
  pub answer : x ≡ without_drafts p
  pub pairs : after.pairs ≡ write_pair x before.pairs
  pub routes : after.routes ≡ before.routes
  pub runs : after.runs ≡ before.runs
  pub audit_id : ℕ
  pub audited :
      after.audit_log
      ≡ before.audit_log
        ++ record {
          audit_id = audit_id;
          target_id = id;
          action_type = AuditAction.discard;
          old_snapshot = none;
          new_snapshot = none;
        }
          ∷ []
  pub outbox_id : ℕ
  pub sent :
      after.outbox
      ≡ before.outbox
        ++ record { outbox_id = outbox_id; event_name = EventName.route_discarded; pair = x } ∷ []
  pub counters : after.counters ≡ before.counters
  pub rows : after.versions ≡ discard_drafts f.route_id r.route_id a b before.versions
  pub versions :
      (route n : ℕ)
      → status_at after.versions route n
        ≡ dropped f.route_id r.route_id a b (status_at before.versions) route n

-- both routes of the pair, and a session that nothing has been written to
record FoundRoutes (id : ℕ) (d : LocationDb) (x : Route × Route) (s : Session LocationDb)
    : Type 0 where
  pub forward_route : route_in id DirectionCode.forward d.routes ≡ some x.0
  pub reverse_route : route_in id DirectionCode.reverse d.routes ≡ some x.1
  pub same : s ≡ clean d

get_routes-FoundRoutes :
    (id : ℕ) (d : LocationDb) → Post (FoundRoutes id d) d (get_routes id (clean d))
unfolding get_routes
get_routes-FoundRoutes id d =
    Post-require _ d (route_in id DirectionCode.forward d.routes) _ _ _ refl (λ f e.
      Post-require _ d (route_in id DirectionCode.reverse d.routes) _ _ _ refl
        (λ r g. record { forward_route = e; reverse_route = g; same = refl }))

module _ (ctx : Context) (seen : List RoutePair) (id : ℕ) (d : LocationDb) where
  approve-Post :
      (m : Option ℕ)
      → Post (λ x s. Approved seen id m d x s.committed) d (approve ctx seen id m (clean d))
  unfolding approve approve_route_versions check_version_match locked_pair
  approve-Post none = elim (Option-cases (select_pair id seen)) [
    | inl e ↦ rw e refl
    | inr (p, e) ↦ rw e refl
  ]
  approve-Post (some m) = elim (Option-cases (select_pair id seen)) [
    | inl e ↦ rw e refl
    | inr (q, e) ↦ rw e (elim (Bool-cases (m == q.row_version)) [
      | inr y ↦ rw y refl
      | inl y ↦ rw y (elim (Option-cases (select_pair id d.pairs)) [
        | inl l ↦ rw l refl
        | inr (p, l) ↦ rw l (elim (Bool-cases (is_deleted p.pair_status)) [
          | inl z ↦ rw z refl
          | inr z ↦ rw z (
              Post-require _ d p.pending_forward_version_no _ _ _ refl (λ a u.
                Post-require _ d p.pending_reverse_version_no _ _ _ refl (λ b w.
                  Post-bind _ d (FoundRoutes id d) _ _ (get_routes-FoundRoutes id d) (λ fr s g.
                    rw g.same (
                      Post-raise_some _ d ctx.refused _ _ refl (λ n. record {
                        p = p;
                        a = a;
                        b = b;
                        f = fr.0;
                        r = fr.1;
                        found = l;
                        q = q;
                        read = e;
                        named = ap (λ k. some k) (ground arith);
                        living = z;
                        forward_draft = u;
                        reverse_draft = w;
                        forward_route = g.forward_route;
                        reverse_route = g.reverse_route;
                        answer = refl;
                        pairs = refl;
                        routes = refl;
                        runs = refl;
                        audit_id = ctx.new_ulid 0;
                        audited = refl;
                        outbox_id = ctx.new_ulid 1;
                        sent = refl;
                        counters = refl;
                        rows = refl;
                        versions = promote-promoted fr.0.route_id fr.1.route_id a b d.versions;
                      }))))))
        ])
      ])
    ])
  ]

  discard-Post :
      (m : Option ℕ)
      → Post (λ x s. Discarded seen id m d x s.committed) d (discard ctx seen id m (clean d))
  unfolding discard discard_route_versions check_version_match locked_pair
  discard-Post none = elim (Option-cases (select_pair id seen)) [
    | inl e ↦ rw e refl
    | inr (p, e) ↦ rw e refl
  ]
  discard-Post (some m) = elim (Option-cases (select_pair id seen)) [
    | inl e ↦ rw e refl
    | inr (q, e) ↦ rw e (elim (Bool-cases (m == q.row_version)) [
      | inr y ↦ rw y refl
      | inl y ↦ rw y (elim (Option-cases (select_pair id d.pairs)) [
        | inl l ↦ rw l refl
        | inr (p, l) ↦ rw l (elim (Bool-cases (is_deleted p.pair_status)) [
          | inl z ↦ rw z refl
          | inr z ↦ rw z (
              Post-require _ d p.pending_forward_version_no _ _ _ refl (λ a u.
                Post-require _ d p.pending_reverse_version_no _ _ _ refl (λ b w.
                  Post-bind _ d (FoundRoutes id d) _ _ (get_routes-FoundRoutes id d) (λ fr s g.
                    rw g.same (
                      Post-raise_some _ d ctx.refused _ _ refl (λ n. record {
                        p = p;
                        a = a;
                        b = b;
                        f = fr.0;
                        r = fr.1;
                        found = l;
                        q = q;
                        read = e;
                        named = ap (λ k. some k) (ground arith);
                        living = z;
                        forward_draft = u;
                        reverse_draft = w;
                        forward_route = g.forward_route;
                        reverse_route = g.reverse_route;
                        answer = refl;
                        pairs = refl;
                        routes = refl;
                        runs = refl;
                        audit_id = ctx.new_ulid 0;
                        audited = refl;
                        outbox_id = ctx.new_ulid 1;
                        sent = refl;
                        counters = refl;
                        rows = refl;
                        versions = discard-dropped fr.0.route_id fr.1.route_id a b d.versions;
                      }))))))
        ])
      ])
    ])
  ]

pub approve-Approved :
    (ctx : Context) (seen : List RoutePair) (id : ℕ) (m : Option ℕ) (d : LocationDb)
    → ((e : LocationError)
        → (request (approve ctx seen id m) d).0 ≡ err e
        → (request (approve ctx seen id m) d).1 ≡ d)
      × ((x : RoutePair)
          → (request (approve ctx seen id m) d).0 ≡ ok x
          → Approved seen id m d x (request (approve ctx seen id m) d).1)
approve-Approved ctx seen id m d =
    Post-request (Approved seen id m d) (approve ctx seen id m) d (approve-Post ctx seen id d m)

pub discard-Discarded :
    (ctx : Context) (seen : List RoutePair) (id : ℕ) (m : Option ℕ) (d : LocationDb)
    → ((e : LocationError)
        → (request (discard ctx seen id m) d).0 ≡ err e
        → (request (discard ctx seen id m) d).1 ≡ d)
      × ((x : RoutePair)
          → (request (discard ctx seen id m) d).0 ≡ ok x
          → Discarded seen id m d x (request (discard ctx seen id m) d).1)
discard-Discarded ctx seen id m d =
    Post-request (λ x after. Discarded seen id m d x after) (discard ctx seen id m) d
      (discard-Post ctx seen id d m)
