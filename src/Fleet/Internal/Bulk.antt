-- ===== src/Fleet/Internal/Bulk.antt =====
-- The bulk validation answers for each id what the single one answers.
use lojinextv.Prelude.{
  ℕ, ◌<◌, ◌≡◌, ◌≢◌, sym, refl, ap, ◌∙◌, Bool, true, false, ◌||◌, Option, none, some, List, [], ◌∷◌,
  ◌++◌, arith, ◌==◌, elem, filter, find, map, All, inl, inr, Bool-cases,
}
use lojinextv.Fleet.Tables.{AggregateType, Vehicle}
use lojinextv.Fleet.Internal.{
  Masters, table, validated, validate_single, BulkItem, dict_get, replaced, bulk_items,
  validate_bulk,
}
use lojinextv.Fleet.Internal.Rows.{Ascending}

-- the answer to one id, asked by itself
abbrev pub single_item : AggregateType → Masters → ℕ → BulkItem
single_item t f id = record { asset_id = id; asset_type = t; response = validate_single t id f }

abbrev asked : Option (List ℕ) → List ℕ
asked none = []
asked (some ids) = ids

dict_get-above :
    (id : ℕ) (vs : List Vehicle) → All (λ w. id < w.vehicle_id) vs → dict_get id vs ≡ none
dict_get-above id [] a = refl
dict_get-above id (v ∷ vs) a = ground (arith, a.0, dict_get-above id vs a.1)

true≢false : true ≢ false
true≢false e = cc

pub eq_of : (id : ℕ) (v : Vehicle) → (v.vehicle_id == id) ≡ true → v.vehicle_id ≡ id
eq_of id v h = ground arith

pub own_above :
    (id : ℕ) (v : Vehicle) (vs : List Vehicle)
    → v.vehicle_id ≡ id
    → All (λ w. v.vehicle_id < w.vehicle_id) vs
    → All (λ w. id < w.vehicle_id) vs
own_above id v [] e a = tt
own_above id v (w ∷ vs) e (h, t) = (omega (arith, h, e), own_above id v vs e t)

replaced_not :
    (id : ℕ) (v : Vehicle) (o : Option Vehicle) → (v.vehicle_id == id) ≡ false → replaced id v o ≡ o
replaced_not id v none h = rw h refl
replaced_not id v (some w) h = refl

dict_get-find :
    (id : ℕ) (vs : List Vehicle) → Ascending vs → dict_get id vs ≡ find (λ v. v.vehicle_id == id) vs
dict_get-find id [] a = refl
dict_get-find id (v ∷ vs) a = elim (Bool-cases (v.vehicle_id == id)) [
  | inl y ↦ rw (dict_get-above id vs (own_above id v vs (eq_of id v y) a.0), y) refl
  | inr y ↦ replaced_not id v (dict_get id vs) y ∙ dict_get-find id vs a.1 ∙ rw y refl
]

not_asked :
    (id : ℕ) (v : Vehicle) (ids : List ℕ)
    → elem id ids ≡ true
    → elem v.vehicle_id ids ≡ false
    → (v.vehicle_id == id) ≡ false
not_asked id v ids m n = elim (Bool-cases (v.vehicle_id == id)) [
  | inr y ↦ y
  | inl y ↦ absurd (true≢false (sym m ∙ ap (λ k. elem k ids) (sym (eq_of id v y)) ∙ n))
]

-- the rows that the query leaves out are not asked for
dict_get-filter :
    (id : ℕ) (ids : List ℕ) (vs : List Vehicle)
    → elem id ids ≡ true
    → dict_get id (filter (λ v. elem v.vehicle_id ids) vs) ≡ dict_get id vs
dict_get-filter id ids [] m = refl
dict_get-filter id ids (v ∷ vs) m = elim (Bool-cases (elem v.vehicle_id ids)) [
  | inl y ↦ rw (y, dict_get-filter id ids vs m) refl
  | inr y ↦ rw y (
      dict_get-filter id ids vs m
      ∙ sym (replaced_not id v (dict_get id vs) (not_asked id v ids m y)))
]

or_true : (b : Bool) → (b || true) ≡ true
or_true true = refl
or_true false = refl

==_self : (n : ℕ) → (n == n) ≡ true
==_self n = ground arith

elem_weaken :
    (i : ℕ) (ids js : List ℕ)
    → All (λ j. elem j ids ≡ true) js
    → All (λ j. elem j (i ∷ ids) ≡ true) js
elem_weaken i ids [] a = tt
elem_weaken i ids (j ∷ js) (h, t) = (rw h (or_true _), elem_weaken i ids js t)

elem_all : (ids : List ℕ) → All (λ j. elem j ids ≡ true) ids
elem_all [] = tt
elem_all (i ∷ ids) = (rw (==_self i) refl, elem_weaken i ids ids (elem_all ids))

module _ (t : AggregateType) (f : Masters) (sorted : Ascending (table t f)) (ids : List ℕ) where
  abbrev found_item : ℕ → BulkItem
  found_item id = record {
    asset_id = id;
    asset_type = t;
    response = validated (dict_get id (filter (λ v. elem v.vehicle_id ids) (table t f)));
  }

  found-single : (id : ℕ) → elem id ids ≡ true → found_item id ≡ single_item t f id
  unfolding validate_single
  found-single id m =
      ap (λ o. record { asset_id = id; asset_type = t; response = validated o })
        (dict_get-filter id ids (table t f) m ∙ dict_get-find id (table t f) sorted)

  items-single :
      (js : List ℕ) → All (λ j. elem j ids ≡ true) js → map found_item js ≡ map (single_item t f) js
  items-single [] a = refl
  items-single (j ∷ js) (h, a) = rw (found-single j h, items-single js a) refl

-- If the tables are in the order of their unique keys, the validation in bulk answers for every
-- vehicle and trailer id, in the order of the request and for each repetition, what the single
-- validation answers.
pub validate_bulk-single :
    (f : Masters) (vehicle_ids trailer_ids : Option (List ℕ))
    → Ascending f.vehicles
    → Ascending f.trailers
    → validate_bulk vehicle_ids trailer_ids f
      ≡ map (single_item AggregateType.vehicle f) (asked vehicle_ids)
        ++ map (single_item AggregateType.trailer f) (asked trailer_ids)
unfolding validate_bulk bulk_items
validate_bulk-single f none none v t = refl
validate_bulk-single f (some vs) none v t =
    ap (λ z. z ++ []) (items-single AggregateType.vehicle f v vs vs (elem_all vs))
validate_bulk-single f none (some ts) v t =
    items-single AggregateType.trailer f t ts ts (elem_all ts)
validate_bulk-single f (some vs) (some ts) v t =
    ap (λ z. z ++ bulk_items AggregateType.trailer ts f.trailers)
      (items-single AggregateType.vehicle f v vs vs (elem_all vs))
    ∙ ap (λ z. map (single_item AggregateType.vehicle f) vs ++ z)
        (items-single AggregateType.trailer f t ts ts (elem_all ts))
