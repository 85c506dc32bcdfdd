-- ===== src/Trip/Overlap.antt =====
-- services/trip-service/src/trip_service/trip_helpers.py: the check that a driver, a vehicle or a
-- trailer has one trip at a time. The advisory locks that it takes serialize the requests that
-- share a resource, so that no other of them writes between the check and the commit.
use lojinextv.Prelude.{ℕ, ◌+◌, Bool, true, false, not, ◌&&◌, Option, none, some, ltb, ◌==◌, any}
use lojinextv.Exec.{◌>>=◌, ◌>>◌, raise_if, gets}
use lojinextv.StateMachine.Trip.{TripStatus}
use lojinextv.Trip.Tables.{Trip, TripDb, driver_overlap, vehicle_overlap, trailer_overlap, Handler}

-- not one of `_REFERENCE_EXCLUDED_STATUSES`
unfoldable pub counts : TripStatus → Bool
counts TripStatus.rejected = false
counts TripStatus.soft_deleted = false
counts TripStatus.cancelled = false
counts _ = true

abbrev pub day : ℕ
day = 86400

-- `coalesce(planned_end_utc, trip_datetime_utc + 24 hours)`
unfoldable pub end_of : Trip → ℕ
end_of t = elim t.planned_end_utc [ some e ↦ e | none ↦ t.trip_datetime_utc + day ]

-- a column equal to a value, where None asks for NULL
abbrev pub same_value : Option ℕ → Option ℕ → Bool
same_value none none = true
same_value (some a) (some b) = a == b
same_value _ _ = false

abbrev pub excluded : Option ℕ → Trip → Bool
excluded none t = false
excluded (some id) t = t.id == id

-- the WHERE clause of `_find_overlap`
unfoldable pub overlaps : (Trip → Option ℕ) → Option ℕ → ℕ → ℕ → Option ℕ → Trip → Bool
unfolding counts end_of
overlaps field value start end exclude t =
    same_value (field t) value
    && counts t.status
    && ltb t.trip_datetime_utc end
    && ltb start (end_of t)
    && not (excluded exclude t)

-- what `_find_overlap` finds, if it is anything
unfoldable pub find_overlap : (Trip → Option ℕ) → Option ℕ → ℕ → ℕ → Option ℕ → TripDb → Bool
unfolding overlaps
find_overlap field value start end exclude d = any (overlaps field value start end exclude) d.trips

-- a check that is made for a given resource only
abbrev pub if_given : Option ℕ → Bool → Bool
if_given none b = false
if_given (some id) b = b

unfoldable pub assert_no_trip_overlap :
    Option ℕ → Option ℕ → Option ℕ → ℕ → ℕ → Option ℕ → Handler (Unit {0})
unfolding find_overlap
assert_no_trip_overlap driver vehicle trailer start end exclude = do
  by_driver ← gets (find_overlap (λ t. t.driver_id) driver start end exclude)
  raise_if by_driver driver_overlap
  by_vehicle ← gets (find_overlap (λ t. t.vehicle_id) vehicle start end exclude)
  raise_if (if_given vehicle by_vehicle) vehicle_overlap
  by_trailer ← gets (find_overlap (λ t. t.trailer_id) trailer start end exclude)
  raise_if (if_given trailer by_trailer) trailer_overlap
