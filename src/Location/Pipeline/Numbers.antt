-- ===== src/Location/Pipeline/Numbers.antt =====
-- The numbers of versions and the counters of their routes.
use lojinextv.Prelude.{
  ℕ, ◌+◌, ◌≤◌, ◌<◌, ◌≡◌, refl, sym, ap, ◌∙◌, Bool, true, false, Option, none, some, List, [], ◌∷◌,
  ◌++◌, ◌==◌, arith, find, if◌then◌else◌, update_where, Bool-cases, Option-cases, inl, inr,
  find-yes, find-no, All,
}
use lojinextv.Location.Tables.{RouteVersionCounter, RouteVersion}
use lojinextv.Location.{is_version}
use lojinextv.Location.Pipeline.{counter_of, draw_number}

-- the number that the next version of a route takes
abbrev pub next_of : Option RouteVersionCounter → ℕ
next_of none = 1
next_of (some c) = c.next_version_no

abbrev pub next_no : ℕ → List RouteVersionCounter → ℕ
next_no route cs = next_of (counter_of route cs)

pub draw_number-next_no :
    (route : ℕ) (cs : List RouteVersionCounter) → (draw_number route cs).0 ≡ next_no route cs
unfolding draw_number
draw_number-next_no route cs = elim (Option-cases (counter_of route cs)) [
  | inl e ↦ rw (draw_number, e) refl
  | inr (c, e) ↦ rw (draw_number, e) refl
]

module _ (route n : ℕ) where
  abbrev has_route : ℕ → RouteVersionCounter → Bool
  has_route r k = k.route_id == r

  abbrev set_number : RouteVersionCounter → RouteVersionCounter
  set_number k = record k { next_version_no = n }

  set_head :
      (other : ℕ) (b : Bool) (k : RouteVersionCounter)
      → has_route other (if b then set_number k else k) ≡ has_route other k
  set_head other true k = refl
  set_head other false k = refl

  next_no-yes :
      (other : ℕ) (k : RouteVersionCounter) (cs : List RouteVersionCounter)
      → has_route other k ≡ true
      → next_no other (k ∷ cs) ≡ k.next_version_no
  next_no-yes other k cs y = rw y refl

  next_no-no :
      (other : ℕ) (k : RouteVersionCounter) (cs : List RouteVersionCounter)
      → has_route other k ≡ false
      → next_no other (k ∷ cs) ≡ next_no other cs
  next_no-no other k cs y = rw y refl

  number_kept :
      (b : Bool) (k : RouteVersionCounter)
      → b ≡ false
      → (if b then set_number k else k).next_version_no ≡ k.next_version_no
  number_kept true k h = cc
  number_kept false k h = refl

  number_set :
      (b : Bool) (k : RouteVersionCounter)
      → b ≡ true
      → (if b then set_number k else k).next_version_no ≡ n
  number_set true k h = refl
  number_set false k h = cc

  -- the counter of another route is not touched
  update-other :
      (other : ℕ) (cs : List RouteVersionCounter)
      → other == route ≡ false
      → next_no other (update_where (has_route route) set_number cs) ≡ next_no other cs
  update-other other [] h = refl
  update-other other (k ∷ cs) h = elim (Bool-cases (has_route other k)) [
    | inl y ↦
        next_no-yes other _ _ (set_head other (has_route route k) k ∙ y)
        ∙ number_kept (has_route route k) k (ground arith)
        ∙ sym (next_no-yes other k cs y)
    | inr y ↦
        next_no-no other _ _ (set_head other (has_route route k) k ∙ y)
        ∙ update-other other cs h
        ∙ sym (next_no-no other k cs y)
  ]

  update-same :
      (c : RouteVersionCounter) (cs : List RouteVersionCounter)
      → counter_of route cs ≡ some c
      → next_no route (update_where (has_route route) set_number cs) ≡ n
  update-same c [] h = cc
  update-same c (k ∷ cs) h = elim (Bool-cases (has_route route k)) [
    | inl y ↦
        next_no-yes route _ _ (set_head route (has_route route k) k ∙ y)
        ∙ number_set (has_route route k) k y
    | inr y ↦
        next_no-no route _ _ (set_head route (has_route route k) k ∙ y)
        ∙ update-same c cs (sym (find-no (has_route route) k cs y) ∙ h)
  ]

  append-other :
      (other : ℕ) (cs : List RouteVersionCounter)
      → other == route ≡ false
      → next_no other (cs ++ record { route_id = route; next_version_no = n } ∷ [])
        ≡ next_no other cs
  append-other other [] h = ground arith
  append-other other (k ∷ cs) h = elim (Bool-cases (has_route other k)) [
    | inl y ↦ next_no-yes other k _ y ∙ sym (next_no-yes other k cs y)
    | inr y ↦ next_no-no other k _ y ∙ append-other other cs h ∙ sym (next_no-no other k cs y)
  ]

  append-same :
      (cs : List RouteVersionCounter)
      → counter_of route cs ≡ none
      → next_no route (cs ++ record { route_id = route; next_version_no = n } ∷ []) ≡ n
  append-same [] h = ground arith
  append-same (k ∷ cs) h = elim (Bool-cases (has_route route k)) [
    | inl y ↦ let e = find-yes (has_route route) k cs y in cc
    | inr y ↦ next_no-no route k _ y ∙ append-same cs (sym (find-no (has_route route) k cs y) ∙ h)
  ]

pub next_no-drawn :
    (route : ℕ) (cs : List RouteVersionCounter)
    → next_no route (draw_number route cs).1 ≡ next_no route cs + 1
unfolding draw_number
next_no-drawn route cs = elim (Option-cases (counter_of route cs)) [
  | inl e ↦ rw (draw_number, e) (append-same route 2 cs e)
  | inr (c, e) ↦ rw (draw_number, e) (update-same route (c.next_version_no + 1) c cs e)
]

draw-other :
    (route other : ℕ) (cs : List RouteVersionCounter)
    → other == route ≡ false
    → next_no other (draw_number route cs).1 ≡ next_no other cs
unfolding draw_number
draw-other route other cs y = elim (Option-cases (counter_of route cs)) [
  | inl e ↦ rw (draw_number, e) (append-other route 2 other cs y)
  | inr (c, e) ↦ rw (draw_number, e) (update-other route (c.next_version_no + 1) other cs y)
]

-- drawing a number advances the counter of its route and no other
pub next_no-draw_number :
    (route other : ℕ) (cs : List RouteVersionCounter)
    → next_no other (draw_number route cs).1
      ≡ (if other == route then next_no other cs + 1 else next_no other cs)
next_no-draw_number route other cs = elim (Bool-cases (other == route)) [
  | inl y ↦
      let p : other ≡ route = ground arith in
      rw y (
        ap (λ r. next_no r (draw_number route cs).1) p
        ∙ next_no-drawn route cs
        ∙ sym (ap (λ r. next_no r cs + 1) p))
  | inr y ↦ rw y (draw-other route other cs y)
]

-- every version's number is below the next one of its route
abbrev pub AllBelow : List RouteVersionCounter → List RouteVersion → Type 0
AllBelow cs = All (λ (v : RouteVersion). v.version_no < next_no v.route_id cs)

module _ (cs cs' : List RouteVersionCounter) where
  pub grow :
      ((r : ℕ) → next_no r cs ≤ next_no r cs')
      → (vs : List RouteVersion) → AllBelow cs vs
      → AllBelow cs' vs
  grow h [] t = t
  grow h (v ∷ vs) (x, t) = (omega (arith, x, h v.route_id), grow h vs t)

  pub add :
      (v : RouteVersion) (vs : List RouteVersion)
      → v.version_no < next_no v.route_id cs'
      → AllBelow cs' vs
      → AllBelow cs' (vs ++ v ∷ [])
  add v [] h t = (h, t)
  add v (w ∷ vs) h (x, t) = (x, add v vs h t)

-- the number that is drawn is no version's
module _ (cs : List RouteVersionCounter) (route : ℕ) where
  pub not_stored :
      (n : ℕ) (vs : List RouteVersion)
      → next_no route cs ≤ n
      → AllBelow cs vs
      → find (is_version route n) vs ≡ none
  not_stored n [] h t = refl
  not_stored n (v ∷ vs) h (x, t) =
      let q : is_version route n v ≡ false = elim (Bool-cases (v.route_id == route)) [
        | inl y ↦
            let e : v.route_id ≡ route = ground arith in
            let k : next_no v.route_id cs ≡ next_no route cs = ap (λ r. next_no r cs) e in
            ground arith
        | inr y ↦ rw y refl
      ] in
      find-no (is_version route n) v vs q ∙ not_stored n vs h t
