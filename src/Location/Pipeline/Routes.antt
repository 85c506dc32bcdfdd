-- ===== src/Location/Pipeline/Routes.antt =====
-- The two routes of a pair, and the pair's links to them.
use lojinextv.Prelude.{
  ℕ, ◌≡◌, refl, ap, ◌∙◌, Bool, true, false, ◌&&◌, Option, none, some, List, [], ◌∷◌, ◌++◌, ◌==◌,
  arith, Bool-cases, Option-cases, inl, inr,
}
use lojinextv.Location.Tables.{DirectionCode, RoutePair, Route}
use lojinextv.Location.{route_in, same_direction}
use lojinextv.Location.Pipeline.{Draws, new_route, route_of, same_id, link_route}

-- the columns that a calculation leaves
pub record SamePair (p q : RoutePair) : Type 0 where
  pub id : q.route_pair_id ≡ p.route_pair_id
  pub code : q.pair_code ≡ p.pair_code
  pub origin : q.origin_location_id ≡ p.origin_location_id
  pub destination : q.destination_location_id ≡ p.destination_location_id
  pub profile : q.profile_code ≡ p.profile_code
  pub status : q.pair_status ≡ p.pair_status
  pub active_forward : q.current_active_forward_version_no ≡ p.current_active_forward_version_no
  pub active_reverse : q.current_active_reverse_version_no ≡ p.current_active_reverse_version_no

unchanged : (p : RoutePair) → SamePair p p
unchanged p = record {
  id = refl;
  code = refl;
  origin = refl;
  destination = refl;
  profile = refl;
  status = refl;
  active_forward = refl;
  active_reverse = refl;
}

pub SamePair-trans : {p q r : RoutePair} → SamePair p q → SamePair q r → SamePair p r
SamePair-trans a b = record {
  id = b.id ∙ a.id;
  code = b.code ∙ a.code;
  origin = b.origin ∙ a.origin;
  destination = b.destination ∙ a.destination;
  profile = b.profile ∙ a.profile;
  status = b.status ∙ a.status;
  active_forward = b.active_forward ∙ a.active_forward;
  active_reverse = b.active_reverse ∙ a.active_reverse;
}

linked_id : (o : Option ℕ) (id : ℕ) → same_id o id ≡ true → o ≡ some id
linked_id none id h = cc
linked_id (some n) id h = let e : n ≡ id = ground arith in ap (λ k. some k) e

module _ (id : ℕ) (p : RoutePair) where
  pub link_route-SamePair : (dir : DirectionCode) → SamePair p (link_route dir id p).0
  unfolding link_route
  link_route-SamePair DirectionCode.forward = elim (Bool-cases (same_id p.forward_route_id id)) [
    | inl y ↦ rw y (unchanged p)
    | inr y ↦ rw y (record {
      id = refl;
      code = refl;
      origin = refl;
      destination = refl;
      profile = refl;
      status = refl;
      active_forward = refl;
      active_reverse = refl;
    })
  ]
  link_route-SamePair DirectionCode.reverse = elim (Bool-cases (same_id p.reverse_route_id id)) [
    | inl y ↦ rw y (unchanged p)
    | inr y ↦ rw y (record {
      id = refl;
      code = refl;
      origin = refl;
      destination = refl;
      profile = refl;
      status = refl;
      active_forward = refl;
      active_reverse = refl;
    })
  ]

  pub link_route-forward : (link_route DirectionCode.forward id p).0.forward_route_id ≡ some id
  unfolding link_route
  link_route-forward = elim (Bool-cases (same_id p.forward_route_id id)) [
    | inl y ↦ rw y (linked_id p.forward_route_id id y)
    | inr y ↦ rw y refl
  ]

  pub link_route-reverse : (link_route DirectionCode.reverse id p).0.reverse_route_id ≡ some id
  unfolding link_route
  link_route-reverse = elim (Bool-cases (same_id p.reverse_route_id id)) [
    | inl y ↦ rw y (linked_id p.reverse_route_id id y)
    | inr y ↦ rw y refl
  ]

  pub link_route-other :
      (link_route DirectionCode.reverse id p).0.forward_route_id ≡ p.forward_route_id
  unfolding link_route
  link_route-other = elim (Bool-cases (same_id p.reverse_route_id id)) [
    | inl y ↦ rw y refl
    | inr y ↦ rw y refl
  ]

abbrev is_route : ℕ → DirectionCode → Route → Bool
is_route id dir r = r.route_pair_id == id && same_direction r.direction dir

module _ (id : ℕ) (dir : DirectionCode) (n : Route) where
  pub append_last :
      (rs : List Route) → is_route id dir n ≡ true → route_in id dir (rs ++ n ∷ []) ≡ some n
  unfolding route_in
  append_last [] h = rw h refl
  append_last (r ∷ rs) h = rw (append_last rs h) refl

  pub append_foreign :
      (rs : List Route)
      → is_route id dir n ≡ false
      → route_in id dir (rs ++ n ∷ []) ≡ route_in id dir rs
  unfolding route_in
  append_foreign [] h = rw h refl
  append_foreign (r ∷ rs) h = rw (append_foreign rs h) refl

same_direction_refl : (dir : DirectionCode) → same_direction dir dir ≡ true
same_direction_refl DirectionCode.forward = refl
same_direction_refl DirectionCode.reverse = refl

module _ (draws : Draws) (p : RoutePair) (dir : DirectionCode) (rs : List Route) where
  -- the route that a direction gets is the pair's route in that direction from then on
  pub route_in-route_of :
      route_in p.route_pair_id dir (route_of draws p dir rs).1 ≡ some (route_of draws p dir rs).0
  unfolding route_of
  route_in-route_of = elim (Option-cases (route_in p.route_pair_id dir rs)) [
    | inl e ↦
        rw (route_of, e)
          (append_last p.route_pair_id dir (new_route draws p dir) rs
            (rw (same_direction_refl dir) (ground arith)))
    | inr (r, e) ↦ rw (route_of, e) e
  ]

-- a reverse route leaves the forward one
pub forward-route_of :
    (draws : Draws) (p : RoutePair) (id : ℕ) (rs : List Route)
    → route_in id DirectionCode.forward (route_of draws p DirectionCode.reverse rs).1
      ≡ route_in id DirectionCode.forward rs
unfolding route_of
forward-route_of draws p id rs =
    elim (Option-cases (route_in p.route_pair_id DirectionCode.reverse rs)) [
      | inl e ↦
          rw (route_of, e)
            (append_foreign id DirectionCode.forward (new_route draws p DirectionCode.reverse) rs
              (ground arith))
      | inr (r, e) ↦ rw (route_of, e) refl
    ]
