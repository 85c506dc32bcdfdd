-- ===== src/Location/Segments/Latest.antt =====
-- The sweep over the markers and the last marker at or before a segment.
use lojinextv.Prelude.{
  ℕ, suc, zero, ◌+◌, ◌≤◌, ◌≡◌, refl, sym, ap, ◌∙◌, true, false, Option, none, some, List, [], ◌∷◌,
  map, arith, leb, le→leb, All, replicate, if◌then◌else◌, Bool-cases, inl, inr,
}
use lojinextv.Location.Segments.{
  SegmentMetadata, default_segment_metadata, Marker, insert, sort, advance, resolve,
  segment_metadata_by_index,
}

abbrev later : Marker → Option Marker → Marker
later x none = x
later x (some y) = if leb x.geometry_index y.geometry_index then y else x

-- of the markers at or before an index, the one with the greatest index, and of equals the last
unfoldable pub latest_marker : ℕ → List Marker → Option Marker
latest_marker i [] = none
latest_marker i (x ∷ xs) =
    let rest = latest_marker i xs in if leb x.geometry_index i then some (later x rest) else rest

abbrev pub metadata_or : SegmentMetadata → Option Marker → SegmentMetadata
metadata_or default none = default
metadata_or default (some x) = x.metadata

swap :
    (i : ℕ) (x y : Marker) (o : Option Marker)
    → leb x.geometry_index y.geometry_index ≡ false
    → (if leb y.geometry_index i
        then some (later y (if leb x.geometry_index i then some (later x o) else o))
        else if leb x.geometry_index i
        then some (later x o)
        else o)
      ≡ (if leb x.geometry_index i
          then some (later x (if leb y.geometry_index i then some (later y o) else o))
          else if leb y.geometry_index i
          then some (later y o)
          else o)
swap i x y none h = ground arith
swap i x y (some z) h = ground arith

abbrev taken : ℕ → Marker → Option Marker → Option Marker
taken i x o = if leb x.geometry_index i then some (later x o) else o

insert-yes :
    (x y : Marker) (ys : List Marker)
    → leb x.geometry_index y.geometry_index ≡ true
    → insert x (y ∷ ys) ≡ x ∷ y ∷ ys
unfolding insert
insert-yes x y ys h = rw h refl

insert-no :
    (x y : Marker) (ys : List Marker)
    → leb x.geometry_index y.geometry_index ≡ false
    → insert x (y ∷ ys) ≡ y ∷ insert x ys
unfolding insert
insert-no x y ys h = rw h refl

latest_marker-insert :
    (i : ℕ) (x : Marker) (ys : List Marker)
    → latest_marker i (insert x ys) ≡ latest_marker i (x ∷ ys)
unfolding insert latest_marker
latest_marker-insert i x [] = refl
latest_marker-insert i x (y ∷ ys) = elim (Bool-cases (leb x.geometry_index y.geometry_index)) [
  | inl h ↦ ap (latest_marker i) (insert-yes x y ys h)
  | inr h ↦
      ap (latest_marker i) (insert-no x y ys h)
      ∙ ap (taken i y) (latest_marker-insert i x ys)
      ∙ swap i x y (latest_marker i ys) h
]

latest_marker-sort : (i : ℕ) (xs : List Marker) → latest_marker i (sort xs) ≡ latest_marker i xs
unfolding sort latest_marker
latest_marker-sort i [] = refl
latest_marker-sort i (x ∷ xs) =
    latest_marker-insert i x (sort xs) ∙ ap (taken i x) (latest_marker-sort i xs)

-- indices in order
abbrev From : ℕ → List Marker → Type 0
From k = All (λ (y : Marker). k ≤ y.geometry_index)

abbrev Ascending : List Marker → Type 0
Ascending [] = Unit {0}
Ascending (x ∷ xs) = From x.geometry_index xs × Ascending xs

From-down : (k l : ℕ) (xs : List Marker) → k ≤ l → From l xs → From k xs
From-down k l [] h t = t
From-down k l (x ∷ xs) h (y, t) = (omega (arith, h, y), From-down k l xs h t)

insert-From :
    (k : ℕ) (x : Marker) (ys : List Marker)
    → k ≤ x.geometry_index
    → From k ys
    → From k (insert x ys)
unfolding insert
insert-From k x [] h t = (h, tt)
insert-From k x (y ∷ ys) h (z, t) = elim (Bool-cases (leb x.geometry_index y.geometry_index)) [
  | inl q ↦ rw q (h, (z, t))
  | inr q ↦ rw q (z, insert-From k x ys h t)
]

insert-Ascending : (x : Marker) (ys : List Marker) → Ascending ys → Ascending (insert x ys)
unfolding insert
insert-Ascending x [] h = (tt, tt)
insert-Ascending x (y ∷ ys) (f, a) = elim (Bool-cases (leb x.geometry_index y.geometry_index)) [
  | inl q ↦
      let l : x.geometry_index ≤ y.geometry_index = ground arith in
      rw q ((l, From-down _ _ ys l f), (f, a))
  | inr q ↦
      let l : y.geometry_index ≤ x.geometry_index = ground arith in
      rw q (insert-From _ x ys l f, insert-Ascending x ys a)
]

sort-Ascending : (xs : List Marker) → Ascending (sort xs)
unfolding sort
sort-Ascending [] = tt
sort-Ascending (x ∷ xs) = insert-Ascending x (sort xs) (sort-Ascending xs)

-- the metadata after every marker at or before an index was taken
upto : ℕ → SegmentMetadata → List Marker → SegmentMetadata
upto i latest [] = latest
upto i latest (x ∷ xs) = upto i (if leb x.geometry_index i then x.metadata else latest) xs

upto-none :
    (i k : ℕ) (latest : SegmentMetadata) (xs : List Marker)
    → leb k i ≡ false
    → From k xs
    → upto i latest xs ≡ latest
unfolding upto
upto-none i k latest [] h t = refl
upto-none i k latest (x ∷ xs) h (y, t) =
    let q : leb x.geometry_index i ≡ false = ground arith in rw q (upto-none i k latest xs h t)

upto-advance :
    (i j : ℕ) (latest : SegmentMetadata) (xs : List Marker)
    → i ≤ j
    → upto j (advance i latest xs).0 (advance i latest xs).1 ≡ upto j latest xs
unfolding upto advance
upto-advance i j latest [] h = refl
upto-advance i j latest (x ∷ xs) h = elim (Bool-cases (leb x.geometry_index i)) [
  | inl q ↦
      let r : leb x.geometry_index j ≡ true = ground arith in
      rw (q, r) (upto-advance i j x.metadata xs h)
  | inr q ↦ rw q refl
]

advance-upto :
    (i : ℕ) (latest : SegmentMetadata) (xs : List Marker)
    → Ascending xs
    → (advance i latest xs).0 ≡ upto i latest xs
unfolding upto advance
advance-upto i latest [] a = refl
advance-upto i latest (x ∷ xs) (f, a) = elim (Bool-cases (leb x.geometry_index i)) [
  | inl q ↦ rw q (advance-upto i x.metadata xs a)
  | inr q ↦ rw q (sym (upto-none i x.geometry_index latest xs q f))
]

advance-Ascending :
    (i : ℕ) (latest : SegmentMetadata) (xs : List Marker)
    → Ascending xs
    → Ascending (advance i latest xs).1
unfolding advance
advance-Ascending i latest [] a = a
advance-Ascending i latest (x ∷ xs) (f, a) = elim (Bool-cases (leb x.geometry_index i)) [
  | inl q ↦ rw q (advance-Ascending i x.metadata xs a)
  | inr q ↦ rw q (f, a)
]

-- in ascending order the latest marker is the last one taken
abbrev AtLeast : ℕ → Option Marker → Type 0
AtLeast k none = Unit {0}
AtLeast k (some y) = k ≤ y.geometry_index

later-AtLeast :
    (k : ℕ) (x : Marker) (o : Option Marker)
    → k ≤ x.geometry_index
    → AtLeast k o
    → k ≤ (later x o).geometry_index
later-AtLeast k x none h t = h
later-AtLeast k x (some y) h t = elim (Bool-cases (leb x.geometry_index y.geometry_index)) [
  | inl q ↦ rw q t
  | inr q ↦ rw q h
]

latest_marker-AtLeast : (i k : ℕ) (xs : List Marker) → From k xs → AtLeast k (latest_marker i xs)
unfolding latest_marker
latest_marker-AtLeast i k [] t = tt
latest_marker-AtLeast i k (x ∷ xs) (l, t) = elim (Bool-cases (leb x.geometry_index i)) [
  | inl q ↦ rw q (later-AtLeast k x (latest_marker i xs) l (latest_marker-AtLeast i k xs t))
  | inr q ↦ rw q (latest_marker-AtLeast i k xs t)
]

later-metadata :
    (x : Marker) (o : Option Marker)
    → AtLeast x.geometry_index o
    → metadata_or x.metadata o ≡ (later x o).metadata
later-metadata x none h = refl
later-metadata x (some y) h = rw (le→leb x.geometry_index y.geometry_index h) refl

upto-latest :
    (i : ℕ) (latest : SegmentMetadata) (xs : List Marker)
    → Ascending xs
    → upto i latest xs ≡ metadata_or latest (latest_marker i xs)
unfolding upto latest_marker
upto-latest i latest [] a = refl
upto-latest i latest (x ∷ xs) (f, a) = elim (Bool-cases (leb x.geometry_index i)) [
  | inl q ↦ rw q (
      upto-latest i x.metadata xs a
      ∙ later-metadata x (latest_marker i xs) (latest_marker-AtLeast i x.geometry_index xs f))
  | inr q ↦ rw q (upto-latest i latest xs a)
]

abbrev pub range : ℕ → ℕ → List ℕ
range i zero = []
range i (suc n) = i ∷ range (i + 1) n

resolve-range :
    (f : ℕ → SegmentMetadata) (n i : ℕ) (latest : SegmentMetadata) (xs : List Marker)
    → Ascending xs
    → ((j : ℕ) → i ≤ j → upto j latest xs ≡ f j)
    → resolve n i latest xs ≡ map f (range i n)
unfolding resolve
resolve-range f zero i latest xs a h = refl
resolve-range f (suc n) i latest xs a h =
    ap (λ z. z ∷ resolve n (i + 1) (advance i latest xs).0 (advance i latest xs).1)
      (advance-upto i latest xs a ∙ h i (omega arith))
    ∙ ap (λ zs. f i ∷ zs)
        (resolve-range f n (i + 1) (advance i latest xs).0 (advance i latest xs).1
          (advance-Ascending i latest xs a)
          (λ j l. upto-advance i j latest xs (omega (arith, l)) ∙ h j (omega (arith, l))))

replicate-range :
    (n i : ℕ)
    → replicate n default_segment_metadata ≡ map (λ k. default_segment_metadata) (range i n)
replicate-range zero i = refl
replicate-range (suc n) i = ap (λ zs. default_segment_metadata ∷ zs) (replicate-range n (i + 1))

-- The sweep over the sorted markers gives each segment the metadata of the marker with the
-- greatest index at or before it, of equal ones the last in the order of the legs, and the default
-- where there is none.
pub metadata-latest :
    (n : ℕ) (markers : List Marker)
    → segment_metadata_by_index n markers
      ≡ map (λ i. metadata_or default_segment_metadata (latest_marker i markers)) (range 0 n)
unfolding segment_metadata_by_index latest_marker
metadata-latest n [] = replicate-range n 0
metadata-latest n (x ∷ xs) =
    resolve-range (λ i. metadata_or default_segment_metadata (latest_marker i (x ∷ xs))) n 0
      default_segment_metadata (sort (x ∷ xs)) (sort-Ascending (x ∷ xs))
      (λ j l.
        upto-latest j default_segment_metadata (sort (x ∷ xs)) (sort-Ascending (x ∷ xs))
        ∙ ap (metadata_or default_segment_metadata) (latest_marker-sort j (x ∷ xs)))
