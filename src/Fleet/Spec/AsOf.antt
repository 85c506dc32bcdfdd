-- ===== src/Fleet/Spec/AsOf.antt =====
-- The lookup of the version in force at an instant, against a history without windows: the version
-- in force is the last one that has begun.
use lojinextv.Prelude.{
  ℕ, ◌+◌, ◌<◌, ◌≤◌, ◌≡◌, refl, ap, ◌∙◌, Bool, true, false, Option, none, some, List, [], ◌∷◌, arith,
  leb, lt→not-leb, le→leb, lt→ltb, le→not-ltb, if◌then◌else◌, filter, ◌&&◌, inl, inr, Option-cases,
  ◌⊎◌,
}
use lojinextv.Exec.{Result, ok, err, Session, require, request}
use lojinextv.Fleet.Tables.{Vehicle, SpecVersion, Db}
use lojinextv.Fleet.Session.{
  FleetError, vehicle_not_found, spec_not_found_for_instant, select_vehicle,
}
use lojinextv.Fleet.Spec.{get_spec_as_of, holds_at, scalar_one_or_none, rows_of}
use lojinextv.Fleet.Spec.History.{Chain, IsHistory, last_open, middle_closed}

-- the later version if there is one, and else this one, if it has begun
abbrev pub later_or : ℕ → SpecVersion → Option SpecVersion → Option SpecVersion
later_or t s (some r) = some r
later_or t s none = if leb s.effective_from_utc t then some s else none

-- the abstract lookup
unfoldable pub last_begun : ℕ → List SpecVersion → Option SpecVersion
last_begun t [] = none
last_begun t (s ∷ ss) = later_or t s (last_begun t ss)

module _ (t : ℕ) (s : SpecVersion) (ss : List SpecVersion) where
  filter_no : holds_at t s ≡ false → filter (holds_at t) (s ∷ ss) ≡ filter (holds_at t) ss
  filter_no h = rw h refl

  filter_yes : holds_at t s ≡ true → filter (holds_at t) (s ∷ ss) ≡ s ∷ filter (holds_at t) ss
  filter_yes h = rw h refl

  last_begun_later : (r : SpecVersion) → last_begun t ss ≡ some r → last_begun t (s ∷ ss) ≡ some r
  unfolding last_begun
  last_begun_later r h = rw h refl

  last_begun_here :
      last_begun t ss ≡ none
      → last_begun t (s ∷ ss) ≡ (if leb s.effective_from_utc t then some s else none)
  unfolding last_begun
  last_begun_here h = rw h refl

  before : t < s.effective_from_utc → holds_at t s ≡ false
  before l = rw (lt→not-leb s.effective_from_utc t l) refl

lt-or-le : (a b : ℕ) → (a < b) ⊎ (b ≤ a)
lt-or-le a b = ground arith

both_false : (b : Bool) → (b && false) ≡ false
both_false true = refl
both_false false = refl

begun_none : (t : ℕ) → last_begun t [] ≡ none
unfolding last_begun
begun_none t = refl

not_begun :
    (t b n : ℕ) (rows : List SpecVersion)
    → t < b
    → Chain n (some b) rows
    → (filter (holds_at t) rows ≡ []) × (last_begun t rows ≡ none)
not_begun t b n [] l c = absurd c
not_begun t b n (s ∷ []) l c =
    let h : t < s.effective_from_utc = omega (arith, l, c.1) in
    (
      filter_no t s [] (before t s [] h),
      last_begun_here t s [] (begun_none t) ∙ rw (lt→not-leb s.effective_from_utc t h) refl,
    )
not_begun t b n (s ∷ x ∷ xs) l c =
    let (u, o, k, m, r) = middle_closed n b s x xs c in
    let (e, g) = not_begun t u (n + 1) (x ∷ xs) (omega (arith, l, m)) r in
    let h : t < s.effective_from_utc = omega (arith, l, c.1) in
    (
      filter_no t s (x ∷ xs) (before t s (x ∷ xs) h) ∙ e,
      last_begun_here t s (x ∷ xs) g ∙ rw (lt→not-leb s.effective_from_utc t h) refl,
    )

-- From the beginning of the first version on, exactly one window holds the instant, and it is that
-- of the last version begun.
begun :
    (t b n : ℕ) (rows : List SpecVersion)
    → b ≤ t
    → Chain n (some b) rows
    → (r : SpecVersion) × (filter (holds_at t) rows ≡ r ∷ []) × (last_begun t rows ≡ some r)
begun t b n [] l c = absurd c
begun t b n (s ∷ []) l c =
    let (o, k) = last_open n b s c in
    let h : leb s.effective_from_utc t ≡ true =
      le→leb s.effective_from_utc t (omega (arith, l, c.1)) in
    (s, filter_yes t s [] (rw (h, o) refl), last_begun_here t s [] (begun_none t) ∙ rw h refl)
begun t b n (s ∷ x ∷ xs) l c = elim (lt-or-le t (middle_closed n b s x xs c).0) [
  | inl y ↦
      let (u, o, k, m, r) = middle_closed n b s x xs c in
      let (e, g) = not_begun t u (n + 1) (x ∷ xs) y r in
      let h : leb s.effective_from_utc t ≡ true =
        le→leb s.effective_from_utc t (omega (arith, l, c.1)) in
      (
        s,
        filter_yes t s (x ∷ xs) (rw (h, o, lt→ltb t u y) refl) ∙ ap (λ z. s ∷ z) e,
        last_begun_here t s (x ∷ xs) g ∙ rw h refl,
      )
  | inr y ↦
      let (u, o, k, m, r) = middle_closed n b s x xs c in
      let (z, e, g) = begun t u (n + 1) (x ∷ xs) y r in
      (
        z,
        filter_no t s (x ∷ xs) (rw (o, le→not-ltb t u y) (both_false _)) ∙ e,
        last_begun_later t s (x ∷ xs) z g,
      )
]

select_as_of-ok :
    (n t : ℕ) (o : Option ℕ) (rows : List SpecVersion) (s : Session Db)
    → Chain n o rows
    → scalar_one_or_none (filter (holds_at t) rows) s ≡ (ok (last_begun t rows), s)
unfolding scalar_one_or_none
select_as_of-ok n t none [] s c = rw (begun_none t) refl
select_as_of-ok n t none (x ∷ xs) s c = absurd c
select_as_of-ok n t (some b) rows s c = elim (lt-or-le t b) [
  | inl y ↦ let (e, g) = not_begun t b n rows y c in rw (e, g) refl
  | inr y ↦ let (r, e, g) = begun t b n rows y c in rw (e, g) refl
]

-- what the endpoint promises, with no window in sight
abbrev pub found_or : {A : Type 0} → Option A → FleetError → Result FleetError A
found_or none e = err e
found_or (some a) e = ok a

abbrev pub for_vehicle :
    Option Vehicle → Result FleetError SpecVersion → Result FleetError SpecVersion
for_vehicle none r = err vehicle_not_found
for_vehicle (some v) r = r

unfoldable pub version_at : ℕ → ℕ → Db → Result FleetError SpecVersion
unfolding select_vehicle last_begun
version_at id t d =
    for_vehicle (select_vehicle id d.vehicles)
      (found_or (last_begun t (rows_of id d.specs)) spec_not_found_for_instant)

as_of_found :
    (o : Option SpecVersion) (e : FleetError) (s : Session Db) → require o e s ≡ (found_or o e, s)
as_of_found none e s = refl
as_of_found (some a) e s = refl

-- If the rows of a vehicle are a history, the request for its specification at an instant answers
-- as the abstract lookup does, which knows no windows and takes the last version that has begun;
-- it never finds two rows, and changes nothing.
pub get_spec_as_of-version_at :
    (id t : ℕ) (d : Db)
    → IsHistory (rows_of id d.specs)
    → request (get_spec_as_of id t) d ≡ (version_at id t d, d)
unfolding get_spec_as_of version_at
get_spec_as_of-version_at id t d (o, c) = elim (Option-cases (select_vehicle id d.vehicles)) [
  | inl h ↦ rw h refl
  | inr (v, h) ↦
      rw (h, select_as_of-ok 1 t o (rows_of id d.specs) _ c)
        (ap (λ p. (p.0, p.1.committed)) (as_of_found _ _ (record { committed = d; work = d })))
]
