-- ===== src/Fleet/Internal/Usable.antt =====
-- An asset is in the listing of selectable assets exactly when its validation calls it usable.
use lojinextv.Prelude.{
  ℕ, ◌<◌, ◌≡◌, refl, ap, ◌∙◌, Bool, true, false, not, ◌⊎◌, Option-cases, ◌&&◌, Option, none, some,
  List, [], ◌∷◌, arith, ◌==◌, any, filter, find, map, length, All, inl, inr, Bool-cases,
}
use lojinextv.Fleet.Tables.{AggregateType, MasterStatus, Vehicle}
use lojinextv.Fleet.Session.{is_selectable, is_some}
use lojinextv.Fleet.Internal.{
  Masters, table, SelectableItem, selectable_item, ValidateResponse, validated, validate_single,
  listed, reason_code,
}
use lojinextv.Fleet.Internal.Rows.{Ascending}
use lojinextv.Fleet.Internal.Bulk.{own_above, eq_of}
use lojinextv.Fleet.Internal.Pages.{read_pages, read_pages_all}

abbrev pub usable : ValidateResponse → Bool
usable r = elim r.is_usable_for_new_operation [ none ↦ false | some b ↦ b ]

abbrev pub anything : Vehicle → Bool
anything v = true

abbrev pub lists : ℕ → List SelectableItem → Bool
lists id = any (λ i. i.asset_id == id)

lists-above :
    (p : Vehicle → Bool) (id : ℕ) (vs : List Vehicle)
    → All (λ w. id < w.vehicle_id) vs
    → lists id (map selectable_item (filter p vs)) ≡ false
lists-above p id [] a = refl
lists-above p id (v ∷ vs) a = elim (Bool-cases (p v)) [
  | inl y ↦ rw y (ground (arith, a.0, lists-above p id vs a.1))
  | inr y ↦ rw y (lists-above p id vs a.1)
]

lists-find :
    (id : ℕ) (vs : List Vehicle)
    → Ascending vs
    → lists id (map selectable_item (filter (listed anything) vs))
      ≡ usable (validated (find (λ v. v.vehicle_id == id) vs))
unfolding listed validated
lists-find id [] a = refl
lists-find id (v ∷ vs) a = elim (Bool-cases (v.vehicle_id == id)) [
  | inl y ↦ elim (Bool-cases (is_selectable v)) [
    | inl z ↦ rw (y, z) (rw y refl)
    | inr z ↦ rw (y, z) (lists-above (listed anything) id vs (own_above id v vs (eq_of id v y) a.0))
  ]
  | inr y ↦ elim (Bool-cases (is_selectable v)) [
    | inl z ↦ rw (y, z) (rw y (lists-find id vs a.1))
    | inr z ↦ rw (y, z) (lists-find id vs a.1)
  ]
]

status_cases : (s : MasterStatus) → (s ≡ MasterStatus.active) ⊎ (s ≡ MasterStatus.inactive)
status_cases MasterStatus.active = inl refl
status_cases MasterStatus.inactive = inr refl

module _ (t : AggregateType) (f : Masters) (id : ℕ) where
  -- An asset is on the pages of the listing of selectable assets, without a query, exactly when
  -- its validation calls it usable for a new operation.
  pub read_pages-usable :
      (limit fuel : ℕ)
      → Ascending (table t f)
      → 0 < limit
      → length (table t f) < fuel
      → lists id (read_pages t anything limit f fuel none) ≡ usable (validate_single t id f)
  unfolding validate_single
  read_pages-usable limit fuel a p h =
      ap (lists id) (read_pages_all t anything limit f a p fuel h) ∙ lists-find id (table t f) a

  usable-reason :
      (o : Option Vehicle)
      → usable (validated o) ≡ ((validated o).exists && not (is_some (validated o).reason_code))
  unfolding validated reason_code is_selectable
  usable-reason none = refl
  usable-reason (some v) = elim (Option-cases v.soft_deleted_at_utc) [
    | inl e ↦ elim (status_cases v.status) [ inl a ↦ rw (e, a) refl | inr a ↦ rw (e, a) refl ]
    | inr (u, e) ↦ rw e refl
  ]

  -- An asset is usable exactly when it exists and there is no reason against it.
  pub validate_single-usable :
      usable (validate_single t id f)
      ≡ ((validate_single t id f).exists && not (is_some (validate_single t id f).reason_code))
  unfolding validate_single
  validate_single-usable = usable-reason (find (λ v. v.vehicle_id == id) (table t f))
