-- ===== src/Trip/Inserted.antt =====
-- Creating a trip, step by step: the row that a request that succeeds adds collides with none.
use lojinextv.Prelude.{
  ℕ, ◌≡◌, refl, ◌⊎◌, String, Bool, true, false, Option, none, some, [], ◌∷◌, ◌++◌, inl, inr,
  Option-cases, Bool-cases, ltb, ◌==◌, find,
}
use lojinextv.Exec.{Result-cases, Result, ok, err, Session, request}
use lojinextv.Exec.Post.{Post, Post-request}
use lojinextv.StateMachine.Trip.{TripStatus}
use lojinextv.Trip.{response, status_is, select_trip}
use lojinextv.Trip.Tables.{Trip, Answer, Context, TripDb, TripError, Handler, ReviewReasonCode}
use lojinextv.Trip.Overlap.{end_of}
use lojinextv.Trip.Disjoint.{collides, checked-collides, Member}
use lojinextv.Trip.Steps.{Post-assert}
use lojinextv.Trip.Create.{
  Externals, ManualCreateRequest, apply_trip_context, classify_manual_status, fresh_trip,
  insert_trip, store_trip, place_trip, replay_or, check_idempotency_key, save_idempotency_record,
  create_trip, claims,
}
use lojinextv.Trip.Return.{
  EmptyReturnRequest, invalid_base, return_trip, return_fresh, create_empty_return,
}

-- the row that a creation adds
pub record Inserted (before : TripDb) (x : Answer) (after : TripDb) : Type 0 where
  pub trip : Trip
  pub trips : after.trips ≡ before.trips ++ trip ∷ []
  pub apart : (u : Trip) → Member u before.trips → collides trip u ≡ false
  pub answer : x ≡ response trip

module _ (d : TripDb) (s : Session TripDb) (h : s.committed ≡ d)
    (same : s.work.trips ≡ d.trips) where
  abbrev Q : Answer → Session TripDb → Type 0
  Q x s' = Inserted d x s'.committed

  insert_trip-Post :
      (ctx : Context) (ext : Externals) (key : Option ℕ) (text : String) (t : Trip)
      → ((u : Trip) → Member u d.trips → collides t u ≡ false)
      → Post Q d (insert_trip ctx ext key text t s)
  unfolding insert_trip save_idempotency_record
  insert_trip-Post ctx ext none text t a = elim (Bool-cases (ltb 524288 ext.payload_bytes)) [
    | inl y ↦ rw y h
    | inr y ↦ rw y (elim (Bool-cases (status_is t.status TripStatus.completed)) [
      | inl z ↦ rw z (elim (Option-cases ctx.refused) [
        | inr (r, w) ↦ rw w h
        | inl w ↦ rw w (record { trip = t; trips = rw same refl; apart = a; answer = refl })
      ])
      | inr z ↦ rw z (elim (Option-cases ctx.refused) [
        | inr (r, w) ↦ rw w h
        | inl w ↦ rw w (record { trip = t; trips = rw same refl; apart = a; answer = refl })
      ])
    ])
  ]
  insert_trip-Post ctx ext (some k) text t a = elim (Bool-cases (ltb 524288 ext.payload_bytes)) [
    | inl y ↦ rw y h
    | inr y ↦ rw y (elim (Bool-cases (status_is t.status TripStatus.completed)) [
      | inl z ↦ rw z (elim (Option-cases ctx.refused) [
        | inr (r, w) ↦ rw w h
        | inl w ↦ rw w (record { trip = t; trips = rw same refl; apart = a; answer = refl })
      ])
      | inr z ↦ rw z (elim (Option-cases ctx.refused) [
        | inr (r, w) ↦ rw w h
        | inl w ↦ rw w (record { trip = t; trips = rw same refl; apart = a; answer = refl })
      ])
    ])
  ]

  store_trip-Post :
      (ctx : Context) (ext : Externals) (key : Option ℕ) (text : String) (t : Trip)
      → Post Q d (store_trip ctx ext key text t s)
  unfolding store_trip
  store_trip-Post ctx ext key text t =
      Post-assert Q d s h t.driver_id t.vehicle_id t.trailer_id t.trip_datetime_utc (end_of t) none
        (insert_trip ctx ext key text t)
        λ c1 c2 c3.
          insert_trip-Post ctx ext key text t
            λ u m. checked-collides t s.work none c1 c2 c3 u (rw same m) refl

  place_trip-Post :
      (ctx : Context) (ext : Externals) (key : Option ℕ) (text : String) (reverse : Bool)
      (row : ℕ → TripStatus → Option ReviewReasonCode → Trip)
      → Post Q d (place_trip ctx ext key text reverse row s)
  unfolding place_trip
  place_trip-Post ctx ext key text reverse row = elim (Option-cases ext.references) [
    | inr (e, y) ↦ rw y h
    | inl y ↦ rw y (elim (Result-cases ext.location) [
      | inr (e, l) ↦ rw l h
      | inl (location, l) ↦ rw l (elim (Result-cases ext.start_utc) [
        | inr (e, b) ↦ rw b h
        | inl (start, b) ↦ rw b (elim (Result-cases (classify_manual_status ctx start)) [
          | inr (e, z) ↦ rw z h
          | inl (status, z) ↦ rw z (
              store_trip-Post ctx ext key text
                (apply_trip_context location reverse (row start status.0 status.1)))
        ])
      ])
    ])
  ]

  return_fresh-Post :
      (ctx : Context) (ext : Externals) (key : Option ℕ) (base_trip_id : ℕ)
      (body : EmptyReturnRequest)
      → Post Q d (return_fresh ctx ext key base_trip_id body s)
  unfolding return_fresh
  return_fresh-Post ctx ext key base_trip_id body =
      elim (Option-cases (select_trip base_trip_id s.work.trips)) [
        | inl e ↦ rw e h
        | inr (base, e) ↦ rw e (elim (Bool-cases (invalid_base base)) [
          | inl y ↦ rw y h
          | inr y ↦ rw y (place_trip-Post ctx ext key _ true (return_trip ctx base body))
        ])
      ]

abbrev clean : TripDb → Session TripDb
clean d = record { committed = d; work = d }

-- a request that is answered has a recorded answer, or adds a row
abbrev pub CreateOutcome : TripDb → Answer → TripDb → Type 0
CreateOutcome before x after = (after ≡ before) ⊎ Inserted before x after

widen :
    (d : TripDb) (r : Result TripError Answer × Session TripDb)
    → Post (λ x s. Inserted d x s.committed) d r
    → Post (λ x s. CreateOutcome d x s.committed) d r
widen d (ok x, s) h = inr h
widen d (err e, s) h = h

-- a handler that adds a row, behind its idempotency key
module _ (ctx : Context) (ext : Externals) (d : TripDb) (key : Option ℕ) (k : Handler Answer)
    (adds : (s : Session TripDb)
      → s.committed ≡ d
      → s.work.trips ≡ d.trips
      → Post (λ x s'. Inserted d x s'.committed) d (k s)) where
  replay_or-Post : Post (λ x s. CreateOutcome d x s.committed) d (replay_or ctx ext key k (clean d))
  unfolding replay_or check_idempotency_key
  replay_or-Post = elim (Option-cases key) [
    | inl e ↦ rw e (widen d (k (clean d)) (adds (clean d) refl refl))
    | inr (n, e) ↦ rw e (elim (Option-cases (find (claims n ext.fingerprint) d.idempotency)) [
      | inl f ↦ rw f (widen d _ (adds _ refl refl))
      | inr (r, f) ↦ rw f (elim (Bool-cases (r.request_hash == ext.request_hash)) [
        | inr y ↦ rw y refl
        | inl y ↦
            rw y (elim (Option-cases r.replay) [ inl z ↦ rw z refl | inr (a, z) ↦ rw z (inl refl) ])
      ])
    ])
  ]

-- what a request leaves, by its answer
abbrev pub Leaves : TripDb → Handler Answer → Type 0
Leaves d m =
    ((e : TripError) → (request m d).0 ≡ err e → (request m d).1 ≡ d)
    × ((x : Answer) → (request m d).0 ≡ ok x → CreateOutcome d x (request m d).1)

module _ (ctx : Context) (ext : Externals) (d : TripDb) (key : Option ℕ) where
  pub create_outcome : (body : ManualCreateRequest) → Leaves d (create_trip ctx ext key body)
  unfolding create_trip
  create_outcome body = Post-request (CreateOutcome d) (create_trip ctx ext key body) d (
      replay_or-Post ctx ext d key _
        λ s h same. place_trip-Post d s h same ctx ext key _ false (fresh_trip ctx body))

  pub return_outcome :
      (base_trip_id : ℕ) (body : EmptyReturnRequest)
      → Leaves d (create_empty_return ctx ext key base_trip_id body)
  unfolding create_empty_return
  return_outcome base_trip_id body =
      Post-request (CreateOutcome d) (create_empty_return ctx ext key base_trip_id body) d (
        replay_or-Post ctx ext d key _
          λ s h same. return_fresh-Post d s h same ctx ext key base_trip_id body)
