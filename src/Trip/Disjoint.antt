-- ===== src/Trip/Disjoint.antt =====
-- Trips that share a driver, a vehicle or a trailer and count do not overlap in time.
use lojinextv.Prelude.{
  ℕ, ◌≡◌, ◌≢◌, ◌⊎◌, refl, sym, ap, ◌∙◌, Bool, true, false, not, ◌&&◌, ◌||◌, Option, none, some,
  List, [], ◌∷◌, ◌++◌, arith, ltb, ◌==◌, any, inl, inr, Bool-cases,
}
use lojinextv.Trip.{write_trip}
use lojinextv.Trip.Tables.{Trip, TripDb}
use lojinextv.Trip.Overlap.{counts, end_of, same_value, if_given, excluded, overlaps, find_overlap}

-- both name the same resource
abbrev pub both_same : Option ℕ → Option ℕ → Bool
both_same (some a) (some b) = a == b
both_same _ _ = false

abbrev pub shares : Trip → Trip → Bool
shares a b =
    both_same a.driver_id b.driver_id
    || both_same a.vehicle_id b.vehicle_id
    || both_same a.trailer_id b.trailer_id

unfoldable pub collides : Trip → Trip → Bool
unfolding counts end_of
collides a b =
    counts a.status
    && counts b.status
    && shares a b
    && ltb a.trip_datetime_utc (end_of b)
    && ltb b.trip_datetime_utc (end_of a)

abbrev pub Member : Trip → List Trip → Type 0
Member t [] = ⊥
Member t (u ∷ us) = (t ≡ u) ⊎ Member t us

-- no two rows collide
abbrev pub Disjoint : List Trip → Type 0
Disjoint ts = (a b : Trip) → Member a ts → Member b ts → a.id ≢ b.id → collides a b ≡ false

both_same_comm : (x y : Option ℕ) → both_same x y ≡ both_same y x
both_same_comm none none = refl
both_same_comm none (some b) = refl
both_same_comm (some a) none = refl
both_same_comm (some a) (some b) = ground arith

swapped : (a b s p q : Bool) → (a && b && s && p && q) ≡ (b && a && s && q && p)
swapped a b s p q = ground arith

pub collides_comm : (a b : Trip) → collides a b ≡ collides b a
unfolding collides
collides_comm a b =
    swapped (counts a.status) (counts b.status) (shares a b) _ _
    ∙ rw
        (
          both_same_comm a.driver_id b.driver_id,
          both_same_comm a.vehicle_id b.vehicle_id,
          both_same_comm a.trailer_id b.trailer_id,
        )
        refl

-- a resource is free of a row that the check of it does not find
free :
    (x y : Option ℕ) (w : Bool)
    → if_given x (same_value y x && w) ≡ false
    → (both_same x y && w) ≡ false
free none y w h = refl
free (some a) none w h = refl
free (some a) (some b) w h = ground arith

-- the resources together, from each of them
none_collides :
    (ca cb d v r p q n : Bool)
    → n ≡ true
    → (d && (cb && p && q && n)) ≡ false
    → (v && (cb && p && q && n)) ≡ false
    → (r && (cb && p && q && n)) ≡ false
    → (ca && cb && (d || v || r) && q && p) ≡ false
none_collides ca cb d v r p q n hn hd hv hr = ground arith

or_left : (a b : Bool) → (a || b) ≡ false → a ≡ false
or_left true b h = cc
or_left false b h = refl

or_right : (a b : Bool) → (a || b) ≡ false → b ≡ false
or_right true b h = cc
or_right false b h = h

any-Member :
    (p : Trip → Bool) (t : Trip) (ts : List Trip) → any p ts ≡ false → Member t ts → p t ≡ false
any-Member p t [] h m = absurd m
any-Member p t (u ∷ us) h (inl e) = ap p e ∙ or_left (p u) (any p us) h
any-Member p t (u ∷ us) h (inr m) = any-Member p t us (or_right (p u) (any p us) h) m

given-Member :
    (x : Option ℕ) (p : Trip → Bool) (ts : List Trip) (u : Trip)
    → if_given x (any p ts) ≡ false
    → Member u ts
    → if_given x (p u) ≡ false
given-Member none p ts u h m = refl
given-Member (some a) p ts u h m = any-Member p u ts h m

regroup : (s c p q n : Bool) → (s && c && p && q && n) ≡ (s && (c && p && q && n))
regroup s c p q n = ground arith

clear :
    (field : Trip → Option ℕ) (x : Option ℕ) (start end : ℕ) (exclude : Option ℕ) (d : TripDb)
    (u : Trip)
    → if_given x (find_overlap field x start end exclude d) ≡ false
    → Member u d.trips
    → (both_same x (field u)
        && (counts u.status
            && ltb u.trip_datetime_utc end
            && ltb start (end_of u)
            && not (excluded exclude u)))
      ≡ false
unfolding find_overlap overlaps
clear field x start end exclude d u h m =
    free x (field u)
      (counts u.status
        && ltb u.trip_datetime_utc end
        && ltb start (end_of u)
        && not (excluded exclude u))
      (sym (ap (if_given x) (regroup (same_value (field u) x) (counts u.status) _ _ _))
        ∙ given-Member x (overlaps field x start end exclude) d.trips u h m)

given : (x : Option ℕ) (b : Bool) → b ≡ false → if_given x b ≡ false
given none b h = refl
given (some a) b h = h

-- a row that the three checks do not find
pub checked-collides :
    (t : Trip) (d : TripDb) (exclude : Option ℕ)
    → find_overlap (λ u. u.driver_id) t.driver_id t.trip_datetime_utc (end_of t) exclude d ≡ false
    → if_given t.vehicle_id
        (find_overlap (λ u. u.vehicle_id) t.vehicle_id t.trip_datetime_utc (end_of t) exclude d)
      ≡ false
    → if_given t.trailer_id
        (find_overlap (λ u. u.trailer_id) t.trailer_id t.trip_datetime_utc (end_of t) exclude d)
      ≡ false
    → (u : Trip) → Member u d.trips
    → excluded exclude u ≡ false
    → collides t u ≡ false
unfolding collides
checked-collides t d exclude hd hv hr u m x =
    none_collides (counts t.status) (counts u.status) _ _ _ _ _ _ (ap not x)
      (clear (λ w. w.driver_id) t.driver_id t.trip_datetime_utc (end_of t) exclude d u
        (given t.driver_id _ hd) m)
      (clear (λ w. w.vehicle_id) t.vehicle_id t.trip_datetime_utc (end_of t) exclude d u hv m)
      (clear (λ w. w.trailer_id) t.trailer_id t.trip_datetime_utc (end_of t) exclude d u hr m)

not_equal : (a b : ℕ) → (a == b) ≡ false → a ≢ b
not_equal a b h = ground arith

Member-append : (t a : Trip) (ts : List Trip) → Member a (ts ++ t ∷ []) → Member a ts ⊎ (a ≡ t)
Member-append t a [] (inl e) = inr e
Member-append t a [] (inr m) = absurd m
Member-append t a (u ∷ us) (inl e) = inl (inl e)
Member-append t a (u ∷ us) (inr m) = elim (Member-append t a us m) [
  | inl p ↦ inl (inr p)
  | inr e ↦ inr e
]

Member-write :
    (t a : Trip) (ts : List Trip)
    → Member a (write_trip t ts)
    → (a ≡ t) ⊎ (Member a ts × (a.id ≢ t.id))
unfolding write_trip
Member-write t a [] m = absurd m
Member-write t a (u ∷ us) (inr m) = elim (Member-write t a us m) [
  | inl e ↦ inl e
  | inr (p, n) ↦ inr (inr p, n)
]
Member-write t a (u ∷ us) (inl e) = elim (Bool-cases (u.id == t.id)) [
  | inl y ↦ inl (e ∙ rw y refl)
  | inr y ↦
      let same : a ≡ u = e ∙ rw y refl in
      inr (inl same, λ q. not_equal u.id t.id y (sym (ap (λ z. z.id) same) ∙ q))
]

-- a new row that collides with none
pub append-Disjoint :
    (t : Trip) (ts : List Trip)
    → Disjoint ts
    → ((u : Trip) → Member u ts → collides t u ≡ false)
    → Disjoint (ts ++ t ∷ [])
append-Disjoint t ts h n a b ma mb i = elim (Member-append t a ts ma) [
  | inl pa ↦ elim (Member-append t b ts mb) [
    | inl pb ↦ h a b pa pb i
    | inr eb ↦ collides_comm a b ∙ ap (λ z. collides z a) eb ∙ n a pa
  ]
  | inr ea ↦ elim (Member-append t b ts mb) [
    | inl pb ↦ ap (λ z. collides z b) ea ∙ n b pb
    | inr eb ↦ absurd (i (ap (λ z. z.id) (ea ∙ sym eb)))
  ]
]

-- a row that takes the place of one with its windows and resources, or that does not count
pub write-Disjoint :
    (t t' : Trip) (ts : List Trip)
    → Disjoint ts
    → Member t ts
    → t'.id ≡ t.id
    → ((u : Trip) → collides t u ≡ false → collides t' u ≡ false)
    → Disjoint (write_trip t' ts)
write-Disjoint t t' ts h m e k a b ma mb i = elim (Member-write t' a ts ma) [
  | inl ea ↦ elim (Member-write t' b ts mb) [
    | inl eb ↦ absurd (i (ap (λ z. z.id) (ea ∙ sym eb)))
    | inr (pb, nb) ↦ ap (λ z. collides z b) ea ∙ k b (h t b m pb (λ q. nb (sym q ∙ sym e)))
  ]
  | inr (pa, na) ↦ elim (Member-write t' b ts mb) [
    | inl eb ↦
        collides_comm a b ∙ ap (λ z. collides z a) eb ∙ k a (h t a m pa (λ q. na (sym q ∙ sym e)))
    | inr (pb, nb) ↦ h a b pa pb i
  ]
]
