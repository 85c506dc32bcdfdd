-- ===== src/Trip/Named/Rest.antt =====
-- What the other names that an edit records leave alone.
use lojinextv.Prelude.{
  ℕ, ◌≡◌, refl, ap, ◌∙◌, String, Bool, true, false, ◌||◌, Option, none, some, List, [], ◌∷◌, ◌++◌,
  any, if◌then◌else◌,
}
use lojinextv.Trip.Tables.{Trip}
use lojinextv.Trip.Edit.{Sent, EditTripRequest, noted}
use lojinextv.Trip.Named.{is, any-append, or_false, extend, retarget, Fields}

abbrev pub Rest : List String → Type 0
Rest rest =
    (any (is "trip_datetime_utc") rest ≡ false)
    × (any (is "driver_id") rest ≡ false)
    × (any (is "vehicle_id") rest ≡ false)
    × (any (is "trailer_id") rest ≡ false)
    × (any (is "tare_weight_kg") rest ≡ false)
    × (any (is "gross_weight_kg") rest ≡ false)
    × (any (is "net_weight_kg") rest ≡ false)

extend-Fields :
    (body : EditTripRequest) (start : Sent) (t u v : Trip) (c rest : List String)
    → Fields body start t u c
    → (v.trip_datetime_utc ≡ u.trip_datetime_utc)
      × (v.driver_id ≡ u.driver_id)
      × (v.vehicle_id ≡ u.vehicle_id)
      × (v.trailer_id ≡ u.trailer_id)
      × (v.tare_weight_kg ≡ u.tare_weight_kg)
      × (v.gross_weight_kg ≡ u.gross_weight_kg)
      × (v.net_weight_kg ≡ u.net_weight_kg)
    → Rest rest
    → Fields body start t v (c ++ rest)
extend-Fields body start t u v c rest o e a = record {
  begin =
      extend "trip_datetime_utc" (λ r. some r.trip_datetime_utc) start t u v c rest o.begin
        (ap (λ k. some k) e.0) a.0;
  driver = extend "driver_id" (λ r. r.driver_id) body.driver_id t u v c rest o.driver e.1 a.1;
  vehicle = extend "vehicle_id" (λ r. r.vehicle_id) body.vehicle_id t u v c rest o.vehicle e.2 a.2;
  trailer = extend "trailer_id" (λ r. r.trailer_id) body.trailer_id t u v c rest o.trailer e.3 a.3;
  tare =
      extend "tare_weight_kg" (λ r. r.tare_weight_kg) body.tare_weight_kg t u v c rest o.tare e.4
        a.4;
  gross =
      extend "gross_weight_kg" (λ r. r.gross_weight_kg) body.gross_weight_kg t u v c rest o.gross
        e.5 a.5;
  net = extend "net_weight_kg" (λ r. r.net_weight_kg) body.net_weight_kg t u v c rest o.net e.6 a.6;
}

-- the names that can follow the assignments
choice-Rest : (b : Bool) → Rest (if b then "route_pair_id" ∷ [] else [])
choice-Rest true = (refl, refl, refl, refl, refl, refl, refl)
choice-Rest false = (refl, refl, refl, refl, refl, refl, refl)

noted-Rest : (note : Option String) → Rest (noted note)
noted-Rest none = (refl, refl, refl, refl, refl, refl, refl)
noted-Rest (some x) = (refl, refl, refl, refl, refl, refl, refl)

pub rest-Fields :
    (body : EditTripRequest) (start : Sent) (t u v : Trip) (c : List String) (b : Bool)
    → Fields body start t u c
    → (v.trip_datetime_utc ≡ u.trip_datetime_utc)
      × (v.driver_id ≡ u.driver_id)
      × (v.vehicle_id ≡ u.vehicle_id)
      × (v.trailer_id ≡ u.trailer_id)
      × (v.tare_weight_kg ≡ u.tare_weight_kg)
      × (v.gross_weight_kg ≡ u.gross_weight_kg)
      × (v.net_weight_kg ≡ u.net_weight_kg)
    → Fields body start t v (c ++ (if b then "route_pair_id" ∷ [] else []) ++ noted body.note)
rest-Fields body start t u v c b o e =
    extend-Fields body start t v v (c ++ (if b then "route_pair_id" ∷ [] else [])) (noted body.note)
      (extend-Fields body start t u v c (if b then "route_pair_id" ∷ [] else []) o e
        (choice-Rest b))
      (refl, refl, refl, refl, refl, refl, refl) (noted-Rest body.note)

-- the version and the time of the write are no such field
pub written-Fields :
    (body : EditTripRequest) (start : Sent) (t u : Trip) (c : List String) (version now : ℕ)
    → Fields body start t u c
    → Fields body start t (record u { version = version; updated_at_utc = now }) c
written-Fields body start t u c version now o = record {
  begin = retarget _ o.begin refl;
  driver = retarget _ o.driver refl;
  vehicle = retarget _ o.vehicle refl;
  trailer = retarget _ o.trailer refl;
  tare = retarget _ o.tare refl;
  gross = retarget _ o.gross refl;
  net = retarget _ o.net refl;
}

choice_route : (b : Bool) → any (is "route_pair_id") (if b then "route_pair_id" ∷ [] else []) ≡ b
choice_route true = refl
choice_route false = refl

noted_route : (note : Option String) → any (is "route_pair_id") (noted note) ≡ false
noted_route none = refl
noted_route (some x) = refl

-- the route pair is named by what follows the assignments only
pub route_named :
    (c : List String) (b : Bool) (note : Option String)
    → any (is "route_pair_id") c ≡ false
    → any (is "route_pair_id") (c ++ (if b then "route_pair_id" ∷ [] else []) ++ noted note) ≡ b
route_named c b note h =
    let names = c ++ (if b then "route_pair_id" ∷ [] else []) in
    any-append (is "route_pair_id") names (noted note)
    ∙ ap (λ k. any (is "route_pair_id") names || k) (noted_route note)
    ∙ or_false (any (is "route_pair_id") names)
    ∙ any-append (is "route_pair_id") c (if b then "route_pair_id" ∷ [] else [])
    ∙ ap (λ k. k || any (is "route_pair_id") (if b then "route_pair_id" ∷ [] else [])) h
    ∙ choice_route b
