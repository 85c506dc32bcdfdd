-- ===== src/Fleet/Internal/Rows.antt =====
-- Tables in the order of their keys: filters, cursors and pages of rows.
use lojinextv.Prelude.{
  ℕ, zero, suc, ◌+◌, ◌-◌, ◌<◌, ◌≤◌, ◌≡◌, refl, sym, ap, ◌∙◌, Bool, true, ◌&&◌, Option, none, some,
  List, [], ◌∷◌, ◌++◌, arith, ltb, lt→ltb, le→not-ltb, filter, take, drop, ltb→lt, ◌⊎◌, length, map,
  All, inl, inr, Bool-cases,
}
use lojinextv.Fleet.Tables.{Vehicle}
use lojinextv.Fleet.Internal.{selectable_item, past, last_id}

-- in the order of the primary key, which is unique
abbrev pub Ascending : List Vehicle → Type 0
Ascending [] = Unit
Ascending (v ∷ vs) = All (λ w. v.vehicle_id < w.vehicle_id) vs × Ascending vs

abbrev pub after : ℕ → Vehicle → Bool
after c v = ltb c v.vehicle_id

module _ (c : ℕ) where
  filter_all : (vs : List Vehicle) → All (λ w. c < w.vehicle_id) vs → filter (after c) vs ≡ vs
  filter_all [] h = refl
  filter_all (v ∷ vs) (h, t) = rw (lt→ltb c v.vehicle_id h, filter_all vs t) refl

All_lower :
    (a b : ℕ) (vs : List Vehicle)
    → a ≤ b
    → All (λ w. b < w.vehicle_id) vs
    → All (λ w. a < w.vehicle_id) vs
All_lower a b [] l h = tt
All_lower a b (v ∷ vs) l (h, t) = (omega (arith, l, h), All_lower a b vs l t)

some-injective : {a b : ℕ} → ◌≡◌ {A = Option ℕ} (some a) (some b) → a ≡ b
some-injective h = cc

last_id-take :
    (b c n : ℕ) (vs : List Vehicle)
    → All (λ w. b < w.vehicle_id) vs
    → last_id (take n vs) ≡ some c
    → b < c
last_id-take b c zero vs a h = cc
last_id-take b c (suc n) [] a h = cc
last_id-take b c (suc zero) (v ∷ vs) a h = omega (arith, a.0, some-injective h)
last_id-take b c (suc (suc n)) (v ∷ []) a h = omega (arith, a.0, some-injective h)
last_id-take b c (suc (suc n)) (v ∷ w ∷ vs) a h = last_id-take b c (suc n) (w ∷ vs) a.1 h

-- what follows the last row of a page is what the page left out
pub filter-after :
    (n : ℕ) (vs : List Vehicle) (c : ℕ)
    → Ascending vs
    → last_id (take n vs) ≡ some c
    → filter (after c) vs ≡ drop n vs
filter-after zero vs c a h = cc
filter-after (suc n) [] c a h = refl
filter-after (suc zero) (v ∷ vs) c a h =
    rw (le→not-ltb c v.vehicle_id (omega (arith, some-injective h)))
      (filter_all c vs (All_lower c v.vehicle_id vs (omega (arith, some-injective h)) a.0))
filter-after (suc (suc n)) (v ∷ []) c a h =
    rw (le→not-ltb c v.vehicle_id (omega (arith, some-injective h))) refl
filter-after (suc (suc n)) (v ∷ w ∷ vs) c a h =
    rw
      (le→not-ltb c v.vehicle_id
        (omega (arith, last_id-take v.vehicle_id c (suc n) (w ∷ vs) a.0 h)))
      (filter-after (suc n) (w ∷ vs) c a.1 h)

All-filter :
    (p : Vehicle → Bool) (b : ℕ) (vs : List Vehicle)
    → All (λ w. b < w.vehicle_id) vs
    → All (λ w. b < w.vehicle_id) (filter p vs)
All-filter p b [] a = tt
All-filter p b (v ∷ vs) (h, t) = elim (Bool-cases (p v)) [
  | inl y ↦ rw y (h, All-filter p b vs t)
  | inr y ↦ rw y (All-filter p b vs t)
]

pub Ascending-filter :
    (p : Vehicle → Bool) (vs : List Vehicle) → Ascending vs → Ascending (filter p vs)
Ascending-filter p [] a = tt
Ascending-filter p (v ∷ vs) (h, t) = elim (Bool-cases (p v)) [
  | inl y ↦ rw y (All-filter p v.vehicle_id vs h, Ascending-filter p vs t)
  | inr y ↦ rw y (Ascending-filter p vs t)
]

pub filter_both :
    (p r : Vehicle → Bool) (vs : List Vehicle)
    → filter (λ v. p v && r v) vs ≡ filter r (filter p vs)
filter_both p r [] = refl
filter_both p r (v ∷ vs) = elim (Bool-cases (p v)) [
  | inl y ↦ elim (Bool-cases (r v)) [
    | inl z ↦ rw (y, z, filter_both p r vs) refl
    | inr z ↦ rw (y, z, filter_both p r vs) refl
  ]
  | inr y ↦ rw (y, filter_both p r vs) refl
]

pub take-take : (n : ℕ) (vs : List Vehicle) → take n (take (suc n) vs) ≡ take n vs
take-take zero vs = refl
take-take (suc n) [] = refl
take-take (suc n) (v ∷ vs) = ap (λ ws. v ∷ ws) (take-take n vs)

ltb-suc : (a b : ℕ) → ltb (suc a) (suc b) ≡ ltb a b
ltb-suc a b = ground arith

-- one more row than the page is read exactly when there is one more
pub ltb-length-take :
    (n : ℕ) (vs : List Vehicle) → ltb n (length (take (suc n) vs)) ≡ ltb n (length vs)
ltb-length-take zero [] = refl
ltb-length-take zero (v ∷ vs) = ground arith
ltb-length-take (suc n) [] = refl
ltb-length-take (suc n) (v ∷ vs) = ltb-suc n _ ∙ ltb-length-take n vs ∙ sym (ltb-suc n (length vs))

pub take_all : (n : ℕ) (vs : List Vehicle) → length vs ≤ n → take n vs ≡ vs
take_all zero [] h = refl
take_all zero (v ∷ vs) h = absurd (omega (arith, h))
take_all (suc n) [] h = refl
take_all (suc n) (v ∷ vs) h = ap (λ ws. v ∷ ws) (take_all n vs (omega (arith, h)))

pub length-drop : (n : ℕ) (vs : List Vehicle) → length (drop n vs) ≡ length vs - n
length-drop zero vs = omega arith
length-drop (suc n) [] = omega arith
length-drop (suc n) (v ∷ vs) = omega (arith, length-drop n vs)

pub map-take-drop :
    (n : ℕ) (vs : List Vehicle)
    → map selectable_item (take n vs) ++ map selectable_item (drop n vs) ≡ map selectable_item vs
map-take-drop zero vs = refl
map-take-drop (suc n) [] = refl
map-take-drop (suc n) (v ∷ vs) = ap (λ ws. selectable_item v ∷ ws) (map-take-drop n vs)

last_id-some : (v : Vehicle) (vs : List Vehicle) → (c : ℕ) × (last_id (v ∷ vs) ≡ some c)
last_id-some v [] = (v.vehicle_id, refl)
last_id-some v (w ∷ vs) = last_id-some w vs

pub last_id-page :
    (n : ℕ) (vs : List Vehicle) → n < length vs → 0 < n → (c : ℕ) × (last_id (take n vs) ≡ some c)
last_id-page zero vs l k = absurd (omega (arith, k))
last_id-page (suc n) [] l k = absurd (omega (arith, l))
last_id-page (suc n) (v ∷ vs) l k = last_id-some v (take n vs)

pub refilter :
    (p r : Vehicle → Bool) (vs : List Vehicle)
    → ((v : Vehicle) → r v ≡ true → p v ≡ true)
    → filter r (filter p vs) ≡ filter r vs
refilter p r [] h = refl
refilter p r (v ∷ vs) h = elim (Bool-cases (r v)) [
  | inl y ↦ rw (y, h v y, refilter p r vs h) (rw y refl)
  | inr y ↦ elim (Bool-cases (p v)) [
    | inl z ↦ rw (z, y) (refilter p r vs h)
    | inr z ↦ rw (z, y) (refilter p r vs h)
  ]
]

All-after : (b : ℕ) (vs : List Vehicle) → All (λ w. b < w.vehicle_id) (filter (after b) vs)
All-after b [] = tt
All-after b (v ∷ vs) = elim (Bool-cases (after b v)) [
  | inl y ↦ rw y (ltb→lt b v.vehicle_id y, All-after b vs)
  | inr y ↦ rw y (All-after b vs)
]

pub past-after :
    (cursor : Option ℕ) (vs : List Vehicle) (n c : ℕ)
    → last_id (take n (filter (λ v. past cursor v.vehicle_id) vs)) ≡ some c
    → (v : Vehicle) → after c v ≡ true
    → past cursor v.vehicle_id ≡ true
past-after none vs n c e v h = refl
past-after (some b) vs n c e v h =
    let l = last_id-take b c n (filter (after b) vs) (All-after b vs) e in
    lt→ltb b v.vehicle_id (omega (arith, l, ltb→lt c v.vehicle_id h))

pub filter-true : (vs : List Vehicle) → filter (λ v. true) vs ≡ vs
filter-true [] = refl
filter-true (v ∷ vs) = ap (λ ws. v ∷ ws) (filter-true vs)

pub length-filter : (p : Vehicle → Bool) (vs : List Vehicle) → length (filter p vs) ≤ length vs
length-filter p [] = omega arith
length-filter p (v ∷ vs) = elim (Bool-cases (p v)) [
  | inl y ↦ rw y (omega (arith, length-filter p vs))
  | inr y ↦ rw y (omega (arith, length-filter p vs))
]

pub lt-or-le : (a b : ℕ) → (a < b) ⊎ (b ≤ a)
lt-or-le a b = ground arith

pub plus_one : (n : ℕ) → n + 1 ≡ suc n
plus_one n = omega arith
