-- ===== src/Trip/Safety.antt =====
-- Sequences of requests on trips: creations, empty returns, cancellations, approvals, rejections.
use lojinextv.Prelude.{
  ℕ, ◌+◌, ◌≡◌, ◌≢◌, refl, sym, ap, ◌∙◌, Bool, true, false, Option, none, some, List, [], ◌∷◌, arith,
  inl, inr, Bool-cases, ◌==◌, ◌&&◌,
}
use mathlib.Core.Path.{subst}
use lojinextv.Exec.{Result-cases, Result, ok, request}
use lojinextv.StateMachine.{same}
use lojinextv.StateMachine.Trip.{TripStatus, TripStatus-discrete}
use lojinextv.Trip.{
  normalize_trip_status, status_is, select_trip, write_trip, response, moved, cancelled_row,
}
use lojinextv.Trip.Tables.{Trip, Answer, IfMatch, version, Context, TripDb, TripError, Handler}
use lojinextv.Trip.Overlap.{counts}
use lojinextv.Trip.Disjoint.{collides, Member, Disjoint, append-Disjoint, write-Disjoint}
use lojinextv.Trip.Create.{Externals, ManualCreateRequest, create_trip}
use lojinextv.Trip.Return.{EmptyReturnRequest, create_empty_return}
use lojinextv.Trip.Steps.{
  Action, cancel, approve, reject, act, acted, is_pending, is_ready, Outcome, act-Outcome,
  act_refused,
}
use lojinextv.Trip.Inserted.{CreateOutcome, Leaves, create_outcome, return_outcome}

some-injective : {A : Type 0} {a b : A} → ◌≡◌ {A = Option A} (some a) (some b) → a ≡ b
some-injective h = cc

module _ (id : ℕ) (u : Trip) (us : List Trip) where
  select-yes : (u.id == id) ≡ true → select_trip id (u ∷ us) ≡ some u
  unfolding select_trip
  select-yes y = rw y refl

  select-no : (u.id == id) ≡ false → select_trip id (u ∷ us) ≡ select_trip id us
  unfolding select_trip
  select-no y = rw y refl

eq_of : (a b : ℕ) → (a == b) ≡ true → a ≡ b
eq_of a b h = ground arith

select_trip-Member :
    (id : ℕ) (ts : List Trip) (t : Trip) → select_trip id ts ≡ some t → Member t ts × (t.id ≡ id)
unfolding select_trip
select_trip-Member id [] t h = cc
select_trip-Member id (u ∷ us) t h = elim (Bool-cases (u.id == id)) [
  | inl y ↦
      let same : u ≡ t = some-injective (sym (select-yes id u us y) ∙ h) in
      (inl (sym same), ap (λ z. z.id) (sym same) ∙ eq_of u.id id y)
  | inr y ↦ let (m, e) = select_trip-Member id us t (sym (select-no id u us y) ∙ h) in (inr m, e)
]

pending_counts :
    (s : TripStatus)
    → status_is (normalize_trip_status s) TripStatus.pending_review ≡ true
    → counts s ≡ true
unfolding counts normalize_trip_status status_is same TripStatus-discrete
pending_counts TripStatus.pending_review h = refl
pending_counts TripStatus.rejected h = cc
pending_counts TripStatus.cancelled h = cc
pending_counts TripStatus.soft_deleted h = cc
pending_counts TripStatus.planned h = refl
pending_counts TripStatus.assigned h = refl
pending_counts TripStatus.in_progress h = refl
pending_counts TripStatus.completed h = refl

completed_collides :
    (ct cu s p q : Bool)
    → ct ≡ true
    → (ct && cu && s && p && q) ≡ false
    → (true && cu && s && p && q) ≡ false
completed_collides ct cu s p q e h = ground arith

-- the row that an action leaves collides with no row with which the old one did not
acted-collides :
    (ctx : Context) (a : Action) (t u : Trip)
    → is_ready a t ≡ true
    → collides t u ≡ false
    → collides (acted ctx a t) u ≡ false
unfolding acted collides counts is_ready is_pending moved cancelled_row
acted-collides ctx cancel t u r h = refl
acted-collides ctx (approve text) t u r h =
    completed_collides (counts t.status) (counts u.status) _ _ _ (pending_counts t.status r) h
acted-collides ctx (reject reason) t u r h = refl

acted-id : (ctx : Context) (a : Action) (t : Trip) → (acted ctx a t).id ≡ t.id
unfolding acted moved cancelled_row
acted-id ctx cancel t = refl
acted-id ctx (approve text) t = refl
acted-id ctx (reject reason) t = refl

acted-version : (ctx : Context) (a : Action) (t : Trip) → (acted ctx a t).version ≡ t.version + 1
unfolding acted moved cancelled_row
acted-version ctx cancel t = refl
acted-version ctx (approve text) t = refl
acted-version ctx (reject reason) t = refl

-- the requests that write trips
pub data TripRequest : Type 0 where
  create : Externals → Option ℕ → ManualCreateRequest → TripRequest
  empty_return : Externals → Option ℕ → ℕ → EmptyReturnRequest → TripRequest
  on : ℕ → Action → IfMatch → TripRequest

unfoldable pub serve : Context → TripRequest → TripDb → Result TripError Answer × TripDb
serve ctx (create ext key body) d = request (create_trip ctx ext key body) d
serve ctx (empty_return ext key base_trip_id body) d =
    request (create_empty_return ctx ext key base_trip_id body) d
serve ctx (on id a m) d = request (act ctx id a m) d

module _ (ctx : Context) (d : TripDb) (apart : Disjoint d.trips) where
  acted-Disjoint :
      (id : ℕ) (a : Action) (m : IfMatch) (x : Answer) (after : TripDb)
      → Outcome ctx id a m d x after
      → Disjoint after.trips
  acted-Disjoint id a m x after (t, f, e, inl k) = subst (λ z. Disjoint z.trips) (sym k.same) apart
  acted-Disjoint id a m x after (t, f, e, inr k) =
      let (found, same_id) = select_trip-Member id d.trips t f in
      subst Disjoint (sym k.trips) (
        write-Disjoint t (acted ctx a t) d.trips apart found (acted-id ctx a t)
          λ u. acted-collides ctx a t u k.ready)

  created-Disjoint : (x : Answer) (after : TripDb) → CreateOutcome d x after → Disjoint after.trips
  created-Disjoint x after (inl e) = subst (λ z. Disjoint z.trips) (sym e) apart
  created-Disjoint x after (inr k) =
      subst Disjoint (sym k.trips) (append-Disjoint k.trip d.trips apart k.apart)

  left-Disjoint : (m : Handler Answer) → Leaves d m → Disjoint (request m d).1.trips
  left-Disjoint m (refused, added) = elim (Result-cases (request m d).0) [
    | inl (x, h) ↦ created-Disjoint x _ (added x h)
    | inr (e, h) ↦ subst (λ z. Disjoint z.trips) (sym (refused e h)) apart
  ]

  -- No creation of a trip or of an empty return, no cancellation, approval or rejection, answered
  -- or refused, lets two trips collide, when none did: no driver, vehicle or trailer has two trips
  -- that are neither rejected nor deleted and whose windows overlap, where a trip without a
  -- planned end takes a day.
  pub serve-Disjoint : (r : TripRequest) → Disjoint (serve ctx r d).1.trips
  unfolding serve
  serve-Disjoint (create ext key body) =
      left-Disjoint (create_trip ctx ext key body) (create_outcome ctx ext d key body)
  serve-Disjoint (empty_return ext key base_trip_id body) =
      left-Disjoint (create_empty_return ctx ext key base_trip_id body)
        (return_outcome ctx ext d key base_trip_id body)
  serve-Disjoint (on id a m) = elim (Result-cases (request (act ctx id a m) d).0) [
    | inl (x, h) ↦ acted-Disjoint id a m x _ (act-Outcome ctx id m d a x h)
    | inr (e, h) ↦ subst (λ z. Disjoint z.trips) (sym (act_refused ctx id m d a e h)) apart
  ]

select-write :
    (id : ℕ) (t t' : Trip) (ts : List Trip)
    → select_trip id ts ≡ some t
    → t'.id ≡ id
    → select_trip id (write_trip t' ts) ≡ some t'
unfolding select_trip write_trip
select-write id t t' [] f e = cc
select-write id t t' (u ∷ us) f e = ground (arith, select-write id t t' us)

version-injective : {a b : ℕ} → version a ≡ version b → a ≡ b
version-injective e = cc

abbrev version_of : Option Trip → ℕ
version_of none = 0
version_of (some t) = t.version

module _ (ctx ctx' : Context) (id n : ℕ) (a a' : Action) (d : TripDb) (x y : Answer) where
  stale :
      (after after' : TripDb)
      → Outcome ctx id a (version n) d x after
      → x.etag ≢ n
      → Outcome ctx' id a' (version n) after y after'
      → ⊥
  unfolding response
  stale after after' (t, f, e, inl k) new o =
      new (ap (λ z. z.etag) k.answer ∙ sym (version-injective e))
  stale after after' (t, f, e, inr k) new (t', f', e', o) =
      let (m, i) = select_trip-Member id d.trips t f in
      let here : some (acted ctx a t) ≡ some t' =
        sym (
          ap (select_trip id) k.trips
          ∙ select-write id t (acted ctx a t) d.trips f (acted-id ctx a t ∙ i))
        ∙ f' in
      omega (
        arith,
        version-injective e,
        version-injective e',
        acted-version ctx a t,
        ap version_of here,
      )

  -- No update of a trip is lost: once a cancellation, approval or rejection that named version n
  -- has answered with another version, the next one of that trip that names n, on the database
  -- that the first left, does not succeed.
  pub serve_stale_trip :
      (serve ctx (on id a (version n)) d).0 ≡ ok x
      → x.etag ≢ n
      → (serve ctx' (on id a' (version n)) (serve ctx (on id a (version n)) d).1).0 ≢ ok y
  unfolding serve
  serve_stale_trip h new h' =
      stale _ _ (act-Outcome ctx id (version n) d a x h) new
        (act-Outcome ctx' id (version n) (request (act ctx id a (version n)) d).1 a' y h')
