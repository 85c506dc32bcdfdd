-- ===== src/Trip/Edited.antt =====
-- Editing a trip, step by step: what an edit that answers has found and leaves.
use lojinextv.Prelude.{
  ℕ, ◌+◌, ◌≡◌, ◌≢◌, refl, ◌∙◌, sym, ap, ◌⊎◌, String, Bool, true, false, not, Option, none, some,
  List, [], ◌∷◌, ◌++◌, inl, inr, Option-cases, Bool-cases, if◌then◌else◌, any, ◌==◌, ◌&&◌, ◌||◌,
}
use lojinextv.Exec.{Result-cases, Result, ok, err, Session, request, pure, ◌>>=◌}
use lojinextv.Exec.Post.{Post, Post-request}
use lojinextv.Trip.{response, flush, select_trip, write_trip, missing_of}
use lojinextv.Trip.Tables.{
  Trip, Answer, IfMatch, version, Context, TripDb, TripError, Handler, AuditLog,
}
use lojinextv.Trip.Overlap.{end_of}
use lojinextv.Trip.Disjoint.{collides, checked-collides, Member}
use lojinextv.Trip.Steps.{Post-assert, Post-locked_trip, clean}
use lojinextv.Trip.Create.{LocationTripContext, Externals, answered, apply_trip_context}
use lojinextv.Trip.Edit.{
  Sent, EditTripRequest, editable, steps, run_steps, other_pair, reroute, noted, overlap_field,
  incomplete, write_edit, store_edit, start_of, is_empty, edit_trip, apply_edit, refused_weights,
  references_error, sent_or, maybe_require_change_reason,
}
use lojinextv.Trip.Named.{is, sent_start, Fields}
use lojinextv.Trip.Named.Each.{route-Foreign, assigned-Fields}
use lojinextv.Trip.Named.Rest.{rest-Fields, route_named, written-Fields}
use lojinextv.Trip.Frame.{Frame, assigned-Frame}

-- the row that an edit writes
pub record Edited (body : EditTripRequest) (before : TripDb) (t : Trip) (x : Answer)
    (after : TripDb) : Type 0 where
  pub row : Trip
  pub changed : List String
  -- the start that is sent, in UTC
  pub start : Sent
  -- each of these fields has the value that was sent, and is named exactly if that is another one
  pub fields : Fields body start t row changed
  pub routed : any (is "route_pair_id") changed ≡ other_pair body.route_pair_id t.route_pair_id
  pub id : row.id ≡ t.id
  pub version : row.version ≡ t.version + 1
  pub status : row.status ≡ t.status
  pub trips : after.trips ≡ write_trip row before.trips
  pub outbox : after.outbox ≡ before.outbox
  pub answer : x ≡ response row
  pub audited :
      (entry : AuditLog) × (after.audit_log ≡ before.audit_log ++ entry ∷ [])
      × (entry.old_snapshot ≡ t)
      × (entry.new_snapshot ≡ row)
      × (entry.changed_fields ≡ changed)
  -- a change of a resource, the start or the route pair was checked
  pub apart :
      any overlap_field changed ≡ true
      → (u : Trip) → Member u before.trips
      → (u.id == t.id) ≡ false
      → collides row u ≡ false

abbrev pub EditOutcome : EditTripRequest → ℕ → IfMatch → TripDb → Answer → TripDb → Type 0
EditOutcome body id m before x after =
    (t : Trip) × (select_trip id before.trips ≡ some t)
    × (m ≡ version t.version)
    × (editable t.status ≡ true)
    × ((after ≡ before) ⊎ Edited body before t x after)

distinct : true ≢ false
distinct e = cc

module _ (ctx : Context) (d : TripDb) (body : EditTripRequest) (t v : Trip) (frame : Frame t v)
    (changed : List String) (start : Sent) (fields : Fields body start t v changed)
    (routed : any (is "route_pair_id") changed
      ≡ other_pair body.route_pair_id t.route_pair_id) where
  abbrev E : Answer → Session TripDb → Type 0
  E x s = Edited body d t x s.committed

  write_edit-Post :
      (any overlap_field changed ≡ true
        → (u : Trip) → Member u d.trips
        → (u.id == t.id) ≡ false
        → collides v u ≡ false)
      → Post E d (write_edit ctx body t v changed (clean d))
  unfolding write_edit collides flush
  write_edit-Post a = elim (Option-cases ctx.refused) [
    | inr (e, y) ↦ rw y refl
    | inl y ↦ rw y (record {
      row = _;
      changed = changed;
      start = start;
      fields = written-Fields body start t v changed _ _ fields;
      routed = routed;
      id = frame.0;
      version = ap (λ n. n + 1) frame.1;
      status = frame.2;
      trips = refl;
      outbox = refl;
      answer = refl;
      audited = (_, refl, refl, refl, refl);
      apart = a;
    })
  ]

  store_edit-Post : Post E d (store_edit ctx body t v changed (clean d))
  unfolding store_edit
  store_edit-Post = elim (Bool-cases (incomplete v)) [
    | inl c ↦ rw c refl
    | inr c ↦ rw c (elim (Bool-cases (any overlap_field changed)) [
      | inr y ↦ rw y (write_edit-Post (λ z. absurd (distinct (sym z ∙ y))))
      | inl y ↦ rw y (
          Post-assert E d (clean d) refl v.driver_id v.vehicle_id v.trailer_id v.trip_datetime_utc
            (end_of v) (some v.id) (write_edit ctx body t v changed)
            λ c1 c2 c3. write_edit-Post λ z u m n.
              checked-collides v d (some v.id) c1 c2 c3 u m (ap (λ k. u.id == k) frame.0 ∙ n))
    ])
  ]

module _ (ctx : Context) (ext : Externals) (d : TripDb) (body : EditTripRequest) (t : Trip) where
  abbrev K : Answer → Session TripDb → Type 0
  K x s = (s.committed ≡ d) ⊎ Edited body d t x s.committed

  abbrev finish : Trip → List String → Trip × List String → Handler Answer
  finish u changed routed =
      let all = changed ++ routed.1 ++ noted body.note in
      if is_empty all then pure (response routed.0) else store_edit ctx body t routed.0 all

  widen :
      (r : Result TripError Answer × Session TripDb)
      → Post (λ x s. Edited body d t x s.committed) d r
      → Post K d r
  widen (ok x, s) h = inr h
  widen (err e, s) h = h

  finish-Post :
      (start : Sent) (u v : Trip) (c c' : List String)
      → Frame t v
      → Fields body start t v (c ++ c' ++ noted body.note)
      → any (is "route_pair_id") (c ++ c' ++ noted body.note)
        ≡ other_pair body.route_pair_id t.route_pair_id
      → Post K d (finish u c (v, c') (clean d))
  finish-Post start u v c c' f n r = elim (Bool-cases (is_empty (c ++ c' ++ noted body.note))) [
    | inl y ↦ rw y (inl refl)
    | inr y ↦
        rw y (widen _ (store_edit-Post ctx d body t v f (c ++ c' ++ noted body.note) start n r))
  ]

  abbrev go_on : Option ℕ → Handler Answer
  go_on start =
      reroute ext body (run_steps (steps start body) t).0
      >>= finish (run_steps (steps start body) t).0 (run_steps (steps start body) t).1

  module _ (start : Option ℕ) where
    abbrev u : Trip
    u = (run_steps (steps start body) t).0

    abbrev c : List String
    c = (run_steps (steps start body) t).1

    -- what the end of the edit records of the route pair
    routed_name :
        (b : Bool)
        → other_pair body.route_pair_id u.route_pair_id ≡ b
        → any
            (is "route_pair_id")
            (c ++ (if b then "route_pair_id" ∷ [] else []) ++ noted body.note)
          ≡ other_pair body.route_pair_id t.route_pair_id
    routed_name b h =
        route_named c b body.note (route-Foreign start body t).1
        ∙ sym h
        ∙ ap (other_pair body.route_pair_id) (route-Foreign start body t).0

    fresh-Post :
        (b : Bool) (context : LocationTripContext)
        → other_pair body.route_pair_id u.route_pair_id ≡ b
        → Post K d (
            finish u c
              (
                apply_trip_context context u.is_empty_return u,
                if b then "route_pair_id" ∷ [] else [],
              )
              (clean d))
    unfolding apply_trip_context
    fresh-Post b context h =
        finish-Post (sent_start start) u (apply_trip_context context u.is_empty_return u) c
          (if b then "route_pair_id" ∷ [] else []) (assigned-Frame start body t)
          (rest-Fields body (sent_start start) t u (apply_trip_context context u.is_empty_return u)
            c b (assigned-Fields start body t) (refl, refl, refl, refl, refl, refl, refl))
          (routed_name b h)

    go_on-Post : Post K d (go_on start (clean d))
    unfolding reroute
    go_on-Post = elim (Bool-cases (other_pair body.route_pair_id u.route_pair_id)) [
      | inl y ↦ rw y (elim (Result-cases ext.location) [
        | inr (e, l) ↦ rw l refl
        | inl (context, l) ↦ rw l (fresh-Post true context y)
      ])
      | inr y ↦
          rw y
            (elim (Bool-cases (
              (body.sends_start || not (missing_of body.trip_timezone))
              && not (missing_of u.route_pair_id))) [
                | inr z ↦ rw z (
                    finish-Post (sent_start start) u u c [] (assigned-Frame start body t)
                      (rest-Fields body (sent_start start) t u u c false
                        (assigned-Fields start body t) (refl, refl, refl, refl, refl, refl, refl))
                      (routed_name false y))
                | inl z ↦ rw z (elim (Result-cases ext.location) [
                  | inr (e, l) ↦ rw l refl
                  | inl (context, l) ↦ rw l (fresh-Post false context y)
                ])
              ])
    ]

  answered-Post :
      (r : Result TripError ℕ)
      → Post K d ((answered r >>= (λ start. pure (some start)) >>= go_on) (clean d))
  answered-Post (ok start) = go_on-Post (some start)
  answered-Post (err e) = refl

  started-Post : (b : Bool) → Post K d ((start_of ext b >>= go_on) (clean d))
  started-Post false = go_on-Post none
  started-Post true = answered-Post ext.start_utc

  apply_edit-Post : Post K d (apply_edit ctx ext body t (clean d))
  unfolding apply_edit
  apply_edit-Post = started-Post body.sends_start

module _ (ctx : Context) (ext : Externals) (id : ℕ) (body : EditTripRequest) (d : TripDb) where
  abbrev Q : IfMatch → Answer → Session TripDb → Type 0
  Q m x s = EditOutcome body id m d x s.committed

  found :
      (m : IfMatch) (t : Trip)
      → select_trip id d.trips ≡ some t
      → m ≡ version t.version
      → editable t.status ≡ true
      → (r : Result TripError Answer × Session TripDb) → Post (K ctx ext d body t) d r
      → Post (Q m) d r
  found m t f e y (ok x, s) h = (t, f, e, y, h)
  found m t f e y (err z, s) h = h

  edit-Post : (m : IfMatch) → Post (Q m) d (edit_trip ctx ext id body m (clean d))
  unfolding edit_trip
  edit-Post m = Post-locked_trip (Q m) d (clean d) refl id m _ λ t f e.
      elim (Bool-cases (editable t.status)) [
        | inr y ↦ rw y refl
        | inl y ↦
            rw y
              (elim (Option-cases
                (maybe_require_change_reason ctx body t (sent_or body.driver_id none))) [
                  | inr (z, a) ↦ rw a refl
                  | inl a ↦ rw a (elim (Option-cases (references_error ext body)) [
                    | inr (z, b) ↦ rw b refl
                    | inl b ↦ rw b (elim (Bool-cases (refused_weights body t)) [
                      | inl c ↦ rw c refl
                      | inr c ↦ rw c (found m t f e y _ (apply_edit-Post ctx ext d body t))
                    ])
                  ])
                ])
      ]

  -- An edit that raises leaves the committed tables as they were.
  edit_refused :
      (m : IfMatch) (e : TripError)
      → (request (edit_trip ctx ext id body m) d).0 ≡ err e
      → (request (edit_trip ctx ext id body m) d).1 ≡ d
  edit_refused m =
      (Post-request (EditOutcome body id m d) (edit_trip ctx ext id body m) d (edit-Post m)).0
