-- ===== src/Trip/Steps.antt =====
-- Cancelling, approving and rejecting, step by step: what a request that succeeds has read, and the
-- row that it leaves.
use lojinextv.Prelude.{
  ℕ, ◌≡◌, refl, String, Bool, true, false, not, ◌||◌, Option, some, [], ◌∷◌, ◌++◌, ◌⊎◌, arith, inl,
  inr, Option-cases, Bool-cases, ◌==◌,
}
use lojinextv.Exec.{ok, err, Session, ◌>>=◌, ◌>>◌, request}
use lojinextv.Exec.Post.{Post, Post-request}
use lojinextv.StateMachine.{transition_to}
use lojinextv.StateMachine.Trip.{TripStatus, TripStatus-discrete, trip_transitions}
use lojinextv.Trip.{
  status_is, normalize_trip_status, is_deleted_trip_status, response, select_trip, write_trip,
  locked_trip, require_pending, validate_trip_transition, moved, flush, sync_enrichment,
  cancelled_row, cancel_live, cancel_trip, missing_of, trip_is_complete, store_approval,
  approve_trip, reject_trip,
}
use lojinextv.Trip.Overlap.{end_of, assert_no_trip_overlap, find_overlap, if_given}
use lojinextv.Trip.Tables.{
  Trip, Answer, OutboxEvent, IfMatch, missing, malformed, version, Context, TripDb, Handler,
  TripError,
}

-- the requests on one trip
pub data Action : Type 0 where
  cancel : Action
  approve reject : Option String → Action

unfoldable pub act : Context → ℕ → Action → IfMatch → Handler Answer
unfolding cancel_trip approve_trip reject_trip
act ctx id cancel m = cancel_trip ctx id m
act ctx id (approve text) m = approve_trip ctx id text m
act ctx id (reject reason) m = reject_trip ctx id reason m

-- the row that an action leaves
unfoldable pub acted : Context → Action → Trip → Trip
unfolding cancelled_row moved
acted ctx cancel t = cancelled_row ctx t
acted ctx (approve text) t = moved ctx TripStatus.completed t
acted ctx (reject reason) t = moved ctx TripStatus.rejected t

-- the state that an action asks for
unfoldable pub is_pending : Trip → Bool
unfolding status_is normalize_trip_status
is_pending t = status_is (normalize_trip_status t.status) TripStatus.pending_review

unfoldable pub is_ready : Action → Trip → Bool
unfolding is_pending is_deleted_trip_status
is_ready cancel t = not (is_deleted_trip_status t.status)
is_ready (approve text) t = is_pending t
is_ready (reject reason) t = is_pending t

-- what the state machine answers
abbrev next_of : Trip → TripStatus → Option TripStatus
next_of t next =
    (transition_to TripStatus-discrete
      (record {
        current_state = normalize_trip_status t.status;
        valid_transitions = trip_transitions;
      })
      next).1

abbrev pub clean : TripDb → Session TripDb
clean d = record { committed = d; work = d }

module _ (Q : Answer → Session TripDb → Type 0) (c : TripDb) (s : Session TripDb)
    (h : s.committed ≡ c) where
  pub Post-locked_trip :
      (id : ℕ) (m : IfMatch) (f : Trip → Handler Answer)
      → ((t : Trip)
          → select_trip id s.work.trips ≡ some t
          → m ≡ version t.version
          → Post Q c (f t s))
      → Post Q c ((locked_trip id m >>= f) s)
  unfolding locked_trip
  Post-locked_trip id missing f k = elim (Option-cases (select_trip id s.work.trips)) [
    | inl e ↦ rw e h
    | inr (t, e) ↦ rw e h
  ]
  Post-locked_trip id malformed f k = elim (Option-cases (select_trip id s.work.trips)) [
    | inl e ↦ rw e h
    | inr (t, e) ↦ rw e h
  ]
  Post-locked_trip id (version n) f k = elim (Option-cases (select_trip id s.work.trips)) [
    | inl e ↦ rw e h
    | inr (t, e) ↦ rw e (elim (Bool-cases (n == t.version)) [
      | inl y ↦ rw y (k t e (ground arith))
      | inr y ↦ rw y h
    ])
  ]

  Post-require_pending :
      (t : Trip) (k : Handler Answer)
      → (is_pending t ≡ true → Post Q c (k s))
      → Post Q c ((require_pending t >> k) s)
  unfolding require_pending is_pending
  Post-require_pending t k p = elim (Bool-cases (is_pending t)) [
    | inl y ↦ rw y (p y)
    | inr y ↦ rw y h
  ]

  -- the rows that the overlap check looks at
  pub Post-assert :
      (driver vehicle trailer : Option ℕ) (start end : ℕ) (exclude : Option ℕ) (k : Handler Answer)
      → (find_overlap (λ u. u.driver_id) driver start end exclude s.work ≡ false
          → if_given vehicle (find_overlap (λ u. u.vehicle_id) vehicle start end exclude s.work)
            ≡ false
          → if_given trailer (find_overlap (λ u. u.trailer_id) trailer start end exclude s.work)
            ≡ false
          → Post Q c (k s))
      → Post Q c ((assert_no_trip_overlap driver vehicle trailer start end exclude >> k) s)
  unfolding assert_no_trip_overlap
  Post-assert driver vehicle trailer start end exclude k p =
      elim (Bool-cases (find_overlap (λ u. u.driver_id) driver start end exclude s.work)) [
        | inl y ↦ rw y h
        | inr y ↦
            rw y
              (elim (Bool-cases (
                if_given vehicle
                  (find_overlap (λ u. u.vehicle_id) vehicle start end exclude s.work))) [
                    | inl v ↦ rw v h
                    | inr v ↦
                        rw v
                          (elim (Bool-cases (
                            if_given trailer (
                              find_overlap (λ u. u.trailer_id) trailer start end exclude s.work))) [
                                | inl w ↦ rw w h
                                | inr w ↦ rw w (p y v w)
                              ])
                  ])
      ]

-- what a request that succeeds has found, and what it leaves
pub record Acted (ctx : Context) (id : ℕ) (a : Action) (before : TripDb) (t : Trip) (x : Answer)
    (after : TripDb) : Type 0 where
  pub event : OutboxEvent
  pub ready : is_ready a t ≡ true
  pub trips : after.trips ≡ write_trip (acted ctx a t) before.trips
  pub outbox : after.outbox ≡ before.outbox ++ event ∷ []
  pub about : event.payload ≡ acted ctx a t
  pub answer : x ≡ response (acted ctx a t)

-- a cancelled trip is cancelled again without an effect
pub record Kept (a : Action) (before : TripDb) (t : Trip) (x : Answer) (after : TripDb)
    : Type 0 where
  pub asked : a ≡ cancel
  pub gone : is_deleted_trip_status t.status ≡ true
  pub same : after ≡ before
  pub answer : x ≡ response t

abbrev pub Outcome : Context → ℕ → Action → IfMatch → TripDb → Answer → TripDb → Type 0
Outcome ctx id a m before x after =
    (t : Trip) × (select_trip id before.trips ≡ some t)
    × (m ≡ version t.version)
    × (Kept a before t x after ⊎ Acted ctx id a before t x after)

module _ (ctx : Context) (id : ℕ) (m : IfMatch) (d : TripDb) where
  abbrev Q : Action → Answer → Session TripDb → Type 0
  Q a x s = Outcome ctx id a m d x s.committed

  cancel_live-Post :
      (t : Trip)
      → select_trip id d.trips ≡ some t
      → m ≡ version t.version
      → is_deleted_trip_status t.status ≡ false
      → Post (Q cancel) d (cancel_live ctx t (clean d))
  unfolding cancel_live validate_trip_transition acted is_ready flush
  cancel_live-Post t f e y = elim (Option-cases (next_of t TripStatus.soft_deleted)) [
    | inl n ↦ rw n refl
    | inr (s, n) ↦ rw n (elim (Option-cases ctx.refused) [
      | inr (r, z) ↦ rw z refl
      | inl z ↦ rw z (
          (
            t,
            f,
            e,
            inr (record {
              event = _;
              ready = rw y refl;
              trips = refl;
              outbox = refl;
              about = refl;
              answer = refl;
            }),
          ))
    ])
  ]

  cancel-Post : Post (Q cancel) d (act ctx id cancel m (clean d))
  unfolding act cancel_trip
  cancel-Post = Post-locked_trip (Q cancel) d (clean d) refl id m _ λ t f e.
      elim (Bool-cases (is_deleted_trip_status t.status)) [
        | inl y ↦
            rw y (t, f, e, inl (record { asked = refl; gone = y; same = refl; answer = refl }))
        | inr y ↦ rw y (cancel_live-Post t f e y)
      ]

  reject-Post :
      (reason : Option String) → Post (Q (reject reason)) d (act ctx id (reject reason) m (clean d))
  unfolding act reject_trip validate_trip_transition acted is_ready flush
  reject-Post reason = Post-locked_trip (Q (reject reason)) d (clean d) refl id m _ λ t f e.
      Post-require_pending (Q (reject reason)) d (clean d) refl t _ λ y.
        elim (Option-cases (next_of t TripStatus.rejected)) [
          | inl n ↦ rw n refl
          | inr (s, n) ↦ rw n (elim (Option-cases ctx.refused) [
            | inr (r, z) ↦ rw z refl
            | inl z ↦ rw z (
                (
                  t,
                  f,
                  e,
                  inr (record {
                    event = _;
                    ready = y;
                    trips = refl;
                    outbox = refl;
                    about = refl;
                    answer = refl;
                  }),
                ))
          ])
        ]

  store_approval-Post :
      (text : Option String) (t : Trip)
      → select_trip id d.trips ≡ some t
      → m ≡ version t.version
      → is_pending t ≡ true
      → Post (Q (approve text)) d (store_approval ctx text t (clean d))
  unfolding store_approval validate_trip_transition acted is_ready flush sync_enrichment
  store_approval-Post text t f e y = elim (Option-cases (next_of t TripStatus.completed)) [
    | inl n ↦ rw n refl
    | inr (s, n) ↦ rw n (elim (Option-cases ctx.refused) [
      | inr (r, z) ↦ rw z refl
      | inl z ↦ rw z (
          (
            t,
            f,
            e,
            inr (record {
              event = _;
              ready = y;
              trips = refl;
              outbox = refl;
              about = refl;
              answer = refl;
            }),
          ))
    ])
  ]

  approve-Post :
      (text : Option String) → Post (Q (approve text)) d (act ctx id (approve text) m (clean d))
  unfolding act approve_trip
  approve-Post text = Post-locked_trip (Q (approve text)) d (clean d) refl id m _ λ t f e.
      Post-require_pending (Q (approve text)) d (clean d) refl t _ λ y.
        elim (Bool-cases (trip_is_complete t)) [
          | inr b ↦ rw b refl
          | inl b ↦
              rw b (elim (Bool-cases (missing_of t.route_id || missing_of t.planned_end_utc)) [
                | inl b' ↦ rw b' refl
                | inr b' ↦ rw b' (
                    Post-assert (Q (approve text)) d (clean d) refl t.driver_id t.vehicle_id
                      t.trailer_id t.trip_datetime_utc (end_of t) (some t.id)
                      (store_approval ctx text t) λ c1 c2 c3. store_approval-Post text t f e y)
              ])
        ]

  act-Post : (a : Action) → Post (Q a) d (act ctx id a m (clean d))
  act-Post cancel = cancel-Post
  act-Post (approve text) = approve-Post text
  act-Post (reject reason) = reject-Post reason

  -- A request on a trip that raises leaves the committed tables as they were.
  pub act_refused :
      (a : Action) (e : TripError)
      → (request (act ctx id a m) d).0 ≡ err e
      → (request (act ctx id a m) d).1 ≡ d
  act_refused a = (Post-request (Outcome ctx id a m d) (act ctx id a m) d (act-Post a)).0

  -- A cancellation, approval or rejection that succeeds named the version of the trip that it
  -- found, and either cancels a deleted trip again and changes nothing, or found the trip ready
  -- for it, writes its row in the new status with the next version, adds exactly one event, which
  -- carries that row, and answers with it.
  pub act-Outcome :
      (a : Action) (x : Answer)
      → (request (act ctx id a m) d).0 ≡ ok x
      → Outcome ctx id a m d x (request (act ctx id a m) d).1
  act-Outcome a = (Post-request (Outcome ctx id a m d) (act ctx id a m) d (act-Post a)).1
