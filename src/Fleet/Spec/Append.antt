-- ===== src/Fleet/Spec/Append.antt =====
-- A history is only appended to: a new version leaves what was in force before it begins as it was,
-- and no update is lost.
use lojinextv.Prelude.{
  ℕ, ◌≡◌, ◌≢◌, refl, sym, ap, ◌∙◌, Bool, true, false, Option, none, some, List, [], ◌∷◌, ◌++◌,
  arith, leb, if◌then◌else◌, inl, inr, Bool-cases,
}
use lojinextv.Exec.{Result, ok, err, request}
use lojinextv.Fleet.Tables.{SpecVersion, SpecAttributes, InitialSpec, Db}
use lojinextv.Fleet.Session.{
  FleetError, IfMatch, version, Etag, Context, select_vehicle, spec_not_found_for_instant,
}
use lojinextv.Fleet.Vehicle.Locking.{version-injective}
use lojinextv.Fleet.Vehicle.Rows.{select-write_self, select_vehicle-id}
use lojinextv.Fleet.Spec.{rows_of, closed, respecified, get_spec_as_of}
use lojinextv.Fleet.Spec.History.{appended, close_last}
use lojinextv.Fleet.Spec.AsOf.{
  later_or, last_begun, version_at, found_or, get_spec_as_of-version_at,
}
use lojinextv.Fleet.Spec.Create.{created, create-Versioned}
use lojinextv.Fleet.Spec.Outcome.{Consistent, create-Consistent, own_rows, stream_of}

-- what a version says, whether or not it is still current
pub record Content : Type 0 where
  pub vehicle_spec_version_id : ℕ
  pub version_no : ℕ
  pub effective_from_utc : ℕ
  pub attributes : SpecAttributes

abbrev pub content : SpecVersion → Content
content s = record {
  vehicle_spec_version_id = s.vehicle_spec_version_id;
  version_no = s.version_no;
  effective_from_utc = s.effective_from_utc;
  attributes = s.attributes;
}

abbrev recalled : Option SpecVersion → Option Content
recalled none = none
recalled (some s) = some (content s)

abbrev pub described : Result FleetError SpecVersion → Result FleetError Content
described (ok s) = ok (content s)
described (err e) = err e

module _ (t : ℕ) where
  recalled-later_or :
      (u : ℕ) (s : SpecVersion) (c : Bool) (o o' : Option SpecVersion)
      → recalled o ≡ recalled o'
      → recalled (later_or t (if c then closed u s else s) o) ≡ recalled (later_or t s o')
  recalled-later_or u s c (some r) (some r') h = h
  recalled-later_or u s c (some r) none h = cc
  recalled-later_or u s c none (some r') h = cc
  recalled-later_or u s false none none h = refl
  recalled-later_or u s true none none h = elim (Bool-cases (leb s.effective_from_utc t)) [
    | inl y ↦ rw y refl
    | inr y ↦ rw y refl
  ]

  last_begun-closed :
      (u : ℕ) (rows : List SpecVersion)
      → recalled (last_begun t (close_last u rows)) ≡ recalled (last_begun t rows)
  unfolding last_begun
  last_begun-closed u [] = refl
  last_begun-closed u (s ∷ ss) =
      recalled-later_or u s s.is_current (last_begun t (close_last u ss)) (last_begun t ss)
        (last_begun-closed u ss)

  last_begun-append :
      (s : SpecVersion) (rows : List SpecVersion)
      → last_begun t (rows ++ s ∷ [])
        ≡ (if leb s.effective_from_utc t then some s else last_begun t rows)
  unfolding last_begun
  last_begun-append s [] = refl
  last_begun-append s (x ∷ xs) = elim (Bool-cases (leb s.effective_from_utc t)) [
    | inl y ↦ rw (last_begun-append s xs, y) refl
    | inr y ↦ rw (last_begun-append s xs, y) refl
  ]

  last_begun-appended :
      (s : SpecVersion) (rows : List SpecVersion)
      → recalled (last_begun t (appended s rows))
        ≡ (if leb s.effective_from_utc t then some (content s) else recalled (last_begun t rows))
  last_begun-appended s rows =
      ap recalled (last_begun-append s (close_last s.effective_from_utc rows))
      ∙ elim (Bool-cases (leb s.effective_from_utc t)) [
        | inl y ↦ rw y refl
        | inr y ↦ rw y (last_begun-closed s.effective_from_utc rows)
      ]

abbrev recalled_or : Option Content → FleetError → Result FleetError Content
recalled_or none e = err e
recalled_or (some s) e = ok s

either :
    (b : Bool) (o : Option Content) (c : Content) (e : FleetError)
    → recalled_or (if b then some c else o) e ≡ (if b then ok c else recalled_or o e)
either true o c e = refl
either false o c e = refl

described-found_or :
    (o : Option SpecVersion) (e : FleetError)
    → described (found_or o e) ≡ recalled_or (recalled o) e
described-found_or none e = refl
described-found_or (some s) e = refl

described_at :
    (id t : ℕ) (d : Db)
    → Consistent id d
    → described (request (get_spec_as_of id t) d).0
      ≡ recalled_or (recalled (last_begun t (rows_of id d.specs))) spec_not_found_for_instant
unfolding version_at
described_at id t d c =
    ap (λ p. described p.0) (get_spec_as_of-version_at id t d c.history)
    ∙ rw c.selected
        (described-found_or (last_begun t (rows_of id d.specs)) spec_not_found_for_instant)

module _ (checks : SpecAttributes → Bool) (ctx : Context) (id : ℕ) (body : InitialSpec)
    (m : IfMatch) (d : Db) (x : SpecVersion × Etag)
    (done : (created checks ctx id body m d).0 ≡ ok x) where
  -- After a new version is taken on a consistent vehicle, the request for the specification at an
  -- instant answers what it answered before for an instant before the beginning of the new
  -- version, and the new version from then on (the window ends aside).
  pub create-get_spec_as_of :
      (t : ℕ)
      → Consistent id d
      → described (request (get_spec_as_of id t) (created checks ctx id body m d).1).0 ≡ (
          if leb x.0.effective_from_utc t
          then ok (content x.0)
          else described (request (get_spec_as_of id t) d).0)
  create-get_spec_as_of t c =
      described_at id t (created checks ctx id body m d).1
        (create-Consistent checks ctx id body m d x done c).0
      ∙ rw
          (
            own_rows checks ctx id body m d x done,
            last_begun-appended t x.0 (rows_of id d.specs),
            described_at id t d c,
          )
          (either (leb x.0.effective_from_utc t) _ _ _)

  -- No new version is lost: once one that named stream version n has been taken, another one for
  -- that vehicle that names n is not.
  pub create_stale :
      (n : ℕ) (ctx' : Context) (body' : InitialSpec) (y : SpecVersion × Etag)
      → m ≡ version n
      → (created checks ctx' id body' (version n) (created checks ctx id body m d).1).0 ≢ ok y
  create_stale n ctx' body' y e h =
      let v = create-Versioned checks ctx id body m d x done in
      let w =
        create-Versioned checks ctx' id body' (version n) (created checks ctx id body m d).1 y h in
      let selected : some (respecified ctx v.old) ≡ some w.old =
        sym (
          ap (select_vehicle id) v.written
          ∙ select-write_self id (respecified ctx v.old) v.old d.vehicles v.found
              (select_vehicle-id id d.vehicles v.old v.found))
        ∙ w.found in
      omega (
        arith,
        version-injective (sym e ∙ v.matched),
        version-injective w.matched,
        ap stream_of selected,
      )
