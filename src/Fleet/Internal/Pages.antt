-- ===== src/Fleet/Internal/Pages.antt =====
-- The pages of a listing, one after the other, are the listing.
use lojinextv.Prelude.{
  ℕ, zero, suc, ◌<◌, ◌≤◌, ◌≡◌, refl, sym, ap, ◌∙◌, Bool, Option, none, some, List, [], ◌++◌, arith,
  lt→ltb, le→not-ltb, filter, take, drop, append_nil, length, map, inl, inr,
}
use lojinextv.Fleet.Tables.{AggregateType, Vehicle}
use lojinextv.Fleet.Internal.{
  Masters, table, SelectableItem, selectable_item, past, last_id, listed, list_selectable,
}
use lojinextv.Fleet.Internal.Rows.{
  Ascending, Ascending-filter, after, filter-after, filter_both, filter-true, last_id-page,
  length-drop, length-filter, lt-or-le, ltb-length-take, map-take-drop, past-after, plus_one,
  refilter, take-take, take_all,
}

-- the pages that a client reads by following `next_cursor`
unfoldable pub read_pages :
    AggregateType → (Vehicle → Bool) → ℕ → Masters → ℕ → Option ℕ → List SelectableItem
unfolding list_selectable
read_pages t q limit f zero cursor = []
read_pages t q limit f (suc fuel) cursor =
    let page = list_selectable t q cursor limit f in
    page.items
    ++ elim page.next_cursor [ none ↦ [] | some c ↦ read_pages t q limit f fuel (some c) ]

module _ (t : AggregateType) (q : Vehicle → Bool) (limit : ℕ) (f : Masters) where
  abbrev listing : List Vehicle
  listing = filter (listed q) (table t f)

  abbrev rest_from : Option ℕ → List Vehicle
  rest_from cursor = filter (λ v. past cursor v.vehicle_id) listing

  -- what a page holds
  last_page :
      (cursor : Option ℕ) (fuel : ℕ)
      → length (rest_from cursor) ≤ limit
      → read_pages t q limit f (suc fuel) cursor ≡ map selectable_item (rest_from cursor)
  unfolding read_pages
  last_page cursor fuel h =
      rw
        (
          plus_one limit,
          filter_both (listed q) (λ v. past cursor v.vehicle_id) (table t f),
          take-take limit (rest_from cursor),
          ltb-length-take limit (rest_from cursor),
          le→not-ltb limit (length (rest_from cursor)) h,
          take_all limit (rest_from cursor) h,
        )
        (append_nil (map selectable_item (rest_from cursor)))

  more_pages :
      (cursor : Option ℕ) (fuel c : ℕ)
      → limit < length (rest_from cursor)
      → last_id (take limit (rest_from cursor)) ≡ some c
      → read_pages t q limit f (suc fuel) cursor
        ≡ map selectable_item (take limit (rest_from cursor))
          ++ read_pages t q limit f fuel (some c)
  unfolding read_pages
  more_pages cursor fuel c h e =
      rw
        (
          plus_one limit,
          filter_both (listed q) (λ v. past cursor v.vehicle_id) (table t f),
          take-take limit (rest_from cursor),
          ltb-length-take limit (rest_from cursor),
          lt→ltb limit (length (rest_from cursor)) h,
          e,
        )
        refl

  rest_step :
      (cursor : Option ℕ) (c : ℕ)
      → Ascending listing
      → last_id (take limit (rest_from cursor)) ≡ some c
      → rest_from (some c) ≡ drop limit (rest_from cursor)
  rest_step cursor c a e =
      sym (
        refilter (λ v. past cursor v.vehicle_id) (after c) listing
          (past-after cursor listing limit c e))
      ∙ filter-after limit (rest_from cursor) c
          (Ascending-filter (λ v. past cursor v.vehicle_id) listing a) e

  read_rest :
      (fuel : ℕ) (cursor : Option ℕ)
      → Ascending listing
      → 0 < limit
      → length (rest_from cursor) < fuel
      → read_pages t q limit f fuel cursor ≡ map selectable_item (rest_from cursor)
  read_rest zero cursor a p h = absurd (omega (arith, h))
  read_rest (suc fuel) cursor a p h = elim (lt-or-le limit (length (rest_from cursor))) [
    | inr l ↦ last_page cursor fuel l
    | inl l ↦
        let (c, e) = last_id-page limit (rest_from cursor) l p in
        let step = rest_step cursor c a e in
        more_pages cursor fuel c l e
        ∙ ap (λ z. map selectable_item (take limit (rest_from cursor)) ++ z)
            (read_rest fuel (some c) a p
                (rw step (omega (arith, length-drop limit (rest_from cursor), h, p, l)))
              ∙ ap (map selectable_item) step)
        ∙ map-take-drop limit (rest_from cursor)
  ]

  -- Following the cursors of the listing of selectable assets from the first page on, with a
  -- positive limit, gives each row of the table that is selectable and matches the query, once and
  -- in the order of the keys; one request more than the table has rows is enough.
  pub read_pages_all :
      Ascending (table t f)
      → 0 < limit
      → (fuel : ℕ) → length (table t f) < fuel
      → read_pages t q limit f fuel none ≡ map selectable_item (filter (listed q) (table t f))
  read_pages_all a p fuel h =
      read_rest fuel none (Ascending-filter (listed q) (table t f) a) p
        (rw (filter-true listing) (omega (arith, length-filter (listed q) (table t f), h)))
      ∙ ap (map selectable_item) (filter-true listing)
