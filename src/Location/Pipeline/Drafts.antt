-- ===== src/Location/Pipeline/Drafts.antt =====
-- What storing the drafts of a run does to the numbers and the statuses of versions.
use lojinextv.Prelude.{
  ℕ, ◌≤◌, ◌<◌, ◌≡◌, refl, sym, ap, ◌∙◌, true, false, ◌&&◌, Option, none, some, List, [], ◌∷◌, ◌++◌,
  ◌==◌, arith, find, if◌then◌else◌, Bool-cases, inl, inr, find-yes, find-no,
}
use lojinextv.Location.Tables.{DirectionCode, ProcessingStatus, RoutePair, RouteVersion, LocationDb}
use lojinextv.Location.{is_version}
use lojinextv.Location.Approval.{status_at, status_of}
use lojinextv.Location.Pipeline.{
  Calculated, Draws, Stored, route_of, draw_number, draft_version, store_version, store_drafts,
}
use lojinextv.Location.Pipeline.Numbers.{
  AllBelow, next_no, draw_number-next_no, next_no-draw_number, next_no-drawn, grow, add, not_stored,
}

abbrev pub Numbered : LocationDb → Type 0
Numbered d = AllBelow d.counters d.versions

-- the abstract view of a version that is stored as a draft
abbrev pub drafted : ℕ → ℕ → (ℕ → ℕ → Option ProcessingStatus) → ℕ → ℕ → Option ProcessingStatus
drafted r m status route n =
    if route == r && n == m then some ProcessingStatus.calculated_draft else status route n

append-new :
    (v : RouteVersion) (route n : ℕ) (vs : List RouteVersion)
    → is_version route n v ≡ true
    → find (is_version route n) vs ≡ none
    → status_at (vs ++ v ∷ []) route n ≡ some v.processing_status
append-new v route n [] y h = ap status_of (find-yes (is_version route n) v [] y)
append-new v route n (w ∷ vs) y h = elim (Bool-cases (is_version route n w)) [
  | inl z ↦ let e = find-yes (is_version route n) w vs z in cc
  | inr z ↦
      ap status_of (find-no (is_version route n) w (vs ++ v ∷ []) z)
      ∙ append-new v route n vs y (sym (find-no (is_version route n) w vs z) ∙ h)
]

append-old :
    (v : RouteVersion) (route n : ℕ) (vs : List RouteVersion)
    → is_version route n v ≡ false
    → status_at (vs ++ v ∷ []) route n ≡ status_at vs route n
append-old v route n [] y = ap status_of (find-no (is_version route n) v [] y)
append-old v route n (w ∷ vs) y = elim (Bool-cases (is_version route n w)) [
  | inl z ↦ ap status_of (
      find-yes (is_version route n) w (vs ++ v ∷ []) z ∙ sym (find-yes (is_version route n) w vs z))
  | inr z ↦
      ap status_of (find-no (is_version route n) w (vs ++ v ∷ []) z)
      ∙ append-old v route n vs y
      ∙ sym (ap status_of (find-no (is_version route n) w vs z))
]

append-drafted :
    (v : RouteVersion)
    → v.processing_status ≡ ProcessingStatus.calculated_draft
    → (vs : List RouteVersion) → find (is_version v.route_id v.version_no) vs ≡ none
    → (route n : ℕ)
    → status_at (vs ++ v ∷ []) route n ≡ drafted v.route_id v.version_no (status_at vs) route n
append-drafted v q vs h route n = elim (Bool-cases (is_version route n v)) [
  | inl y ↦
      let e : v.route_id ≡ route = ground arith in
      let e' : v.version_no ≡ n = ground arith in
      let z : (route == v.route_id && n == v.version_no) ≡ true = ground arith in
      append-new v route n vs y (
        sym (ap (λ r. find (is_version r n) vs) e)
        ∙ sym (ap (λ k. find (is_version v.route_id k) vs) e')
        ∙ h)
      ∙ ap (λ s. some s) q
      ∙ rw z refl
  | inr y ↦
      let z : (route == v.route_id && n == v.version_no) ≡ false = ground arith in
      append-old v route n vs y ∙ rw z refl
]

-- a step of the loop: the version's number is its route's next one, and it is a new draft
pub record Drafted (r : ℕ) (before : LocationDb) (s : Stored) : Type 0 where
  pub number : s.version_no ≡ next_no r before.counters
  pub numbered : Numbered s.db
  pub fresh : find (is_version r s.version_no) before.versions ≡ none
  pub view :
      (route n : ℕ)
      → status_at s.db.versions route n ≡ drafted r s.version_no (status_at before.versions) route n

module _ (draws : Draws) (run_id : ℕ) (dir : DirectionCode) (result : Calculated) (p : RoutePair)
    (d : LocationDb) where
  abbrev route_id : ℕ
  route_id = (route_of draws p dir d.routes).0.route_id

  abbrev version : RouteVersion
  version = draft_version run_id route_id (draw_number route_id d.counters).0 result

  later_numbers : (r : ℕ) → next_no r d.counters ≤ next_no r (draw_number route_id d.counters).1
  later_numbers r = rw (next_no-draw_number route_id r d.counters) (ground arith)

  own_number : version.version_no < next_no route_id (draw_number route_id d.counters).1
  own_number =
      omega (arith, draw_number-next_no route_id d.counters, next_no-drawn route_id d.counters)

  pub store_version-Drafted :
      Numbered d → Drafted route_id d (store_version draws run_id dir result p d)
  unfolding store_version
  store_version-Drafted h =
      let e = draw_number-next_no route_id d.counters in
      let fresh : find (is_version route_id version.version_no) d.versions ≡ none =
        not_stored d.counters route_id version.version_no d.versions (omega (arith, e)) h in
      record {
        number = e;
        numbered =
            add d.counters _ version d.versions own_number
              (grow d.counters _ later_numbers d.versions h);
        fresh = fresh;
        view = append-drafted version refl d.versions fresh;
      }

module _ (draws : Draws) (run_id : ℕ) (forward reverse : Calculated) (p : RoutePair)
    (d : LocationDb) where
  abbrev pub forward_draft : Stored
  forward_draft = store_version draws run_id DirectionCode.forward forward p d

  abbrev pub reverse_draft : Stored
  reverse_draft =
      store_version draws run_id DirectionCode.reverse reverse forward_draft.pair forward_draft.db

  abbrev pub forward_id : ℕ
  forward_id = (route_of draws p DirectionCode.forward d.routes).0.route_id

  abbrev pub reverse_id : ℕ
  reverse_id =
      (route_of draws forward_draft.pair DirectionCode.reverse forward_draft.db.routes).0.route_id

  pub forward-Drafted : Numbered d → Drafted forward_id d forward_draft
  forward-Drafted h = store_version-Drafted draws run_id DirectionCode.forward forward p d h

  pub reverse-Drafted : Numbered d → Drafted reverse_id forward_draft.db reverse_draft
  reverse-Drafted h =
      store_version-Drafted draws run_id DirectionCode.reverse reverse forward_draft.pair
        forward_draft.db (forward-Drafted h).numbered

  -- storing both drafts
  pub store_drafts-Numbered : Numbered d → Numbered (store_drafts draws run_id forward reverse p d)
  unfolding store_drafts
  store_drafts-Numbered h = (reverse-Drafted h).numbered

  pub status_at-store_drafts :
      Numbered d
      → (route n : ℕ)
      → status_at (store_drafts draws run_id forward reverse p d).versions route n
        ≡ drafted reverse_id reverse_draft.version_no
            (drafted forward_id forward_draft.version_no (status_at d.versions))
            route
            n
  unfolding store_drafts
  status_at-store_drafts h route n =
      (reverse-Drafted h).view route n
      ∙ ap
          (λ s.
            if route == reverse_id && n == reverse_draft.version_no
            then some ProcessingStatus.calculated_draft
            else s)
          ((forward-Drafted h).view route n)
