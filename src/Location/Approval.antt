-- ===== src/Location/Approval.antt =====
-- What an approval and a discarding do to the versions of a pair.
use lojinextv.Prelude.{
  ℕ, ◌≡◌, refl, sym, ap, ◌∙◌, Bool, true, false, ◌&&◌, ◌||◌, Option, none, some, List, [], ◌∷◌,
  ◌==◌, arith, find, if◌then◌else◌, update_where, Bool-cases, inl, inr,
}
use lojinextv.Location.Tables.{ProcessingStatus, RouteVersion}
use lojinextv.Location.{is_version, is_active_version, with_status, promote, discard_drafts}

-- the abstract view of the versions: the status of a version of a route
abbrev pub status_of : Option RouteVersion → Option ProcessingStatus
status_of none = none
status_of (some v) = some v.processing_status

abbrev pub status_at : List RouteVersion → ℕ → ℕ → Option ProcessingStatus
status_at vs route n = status_of (find (is_version route n) vs)

abbrev pub onto :
    (ProcessingStatus → ProcessingStatus) → Option ProcessingStatus → Option ProcessingStatus
onto f none = none
onto f (some s) = some (f s)

abbrev pub retire : ProcessingStatus → ProcessingStatus
retire ProcessingStatus.active = ProcessingStatus.superseded
retire s = s

-- an approval, all at once: the two drafts become active, every other active version of the two routes
-- is superseded, and nothing else changes
unfoldable pub promoted :
    ℕ → ℕ → ℕ → ℕ → (ℕ → ℕ → Option ProcessingStatus) → ℕ → ℕ → Option ProcessingStatus
promoted forward reverse a b status route n =
    if (route == reverse && n == b) || (route == forward && n == a)
    then onto (λ s. ProcessingStatus.active) (status route n)
    else if route == forward || route == reverse
    then onto retire (status route n)
    else status route n

unfoldable pub dropped :
    ℕ → ℕ → ℕ → ℕ → (ℕ → ℕ → Option ProcessingStatus) → ℕ → ℕ → Option ProcessingStatus
dropped forward reverse a b status route n =
    if (route == reverse && n == b) || (route == forward && n == a)
    then onto (λ s. ProcessingStatus.discarded) (status route n)
    else status route n

module _ (route n : ℕ) where
  at-yes :
      (v : RouteVersion) (vs : List RouteVersion)
      → is_version route n v ≡ true
      → status_at (v ∷ vs) route n ≡ some v.processing_status
  at-yes v vs y = rw y refl

  at-no :
      (v : RouteVersion) (vs : List RouteVersion)
      → is_version route n v ≡ false
      → status_at (v ∷ vs) route n ≡ status_at vs route n
  at-no v vs y = rw y refl

  head_kept :
      (s : ProcessingStatus) (b : Bool) (v : RouteVersion)
      → is_version route n (if b then with_status s v else v) ≡ is_version route n v
  head_kept s true v = refl
  head_kept s false v = refl

  head_status :
      (s : ProcessingStatus) (b : Bool) (v : RouteVersion)
      → (if b then with_status s v else v).processing_status
        ≡ (if b then s else v.processing_status)
  head_status s true v = refl
  head_status s false v = refl

  -- an UPDATE of the status, whose test depends on the status alone for the version in question
  status_at-update_where :
      (p : RouteVersion → Bool) (s : ProcessingStatus) (test : ProcessingStatus → Bool)
      (vs : List RouteVersion)
      → ((v : RouteVersion) → is_version route n v ≡ true → p v ≡ test v.processing_status)
      → status_at (update_where p (with_status s) vs) route n
        ≡ onto (λ t. if test t then s else t) (status_at vs route n)
  status_at-update_where p s test [] h = refl
  status_at-update_where p s test (v ∷ vs) h = elim (Bool-cases (is_version route n v)) [
    | inl y ↦
        at-yes (if p v then with_status s v else v) _ (head_kept s (p v) v ∙ y)
        ∙ ap (λ z. some z)
            (head_status s (p v) v ∙ ap (λ k. if k then s else v.processing_status) (h v y))
        ∙ sym (ap (onto (λ t. if test t then s else t)) (at-yes v vs y))
    | inr y ↦
        at-no (if p v then with_status s v else v) _ (head_kept s (p v) v ∙ y)
        ∙ status_at-update_where p s test vs h
        ∙ sym (ap (onto (λ t. if test t then s else t)) (at-no v vs y))
  ]

abbrev is_active_status : ProcessingStatus → Bool
is_active_status ProcessingStatus.active = true
is_active_status _ = false

compose_some :
    (b3 b2 c : Bool) (t : ProcessingStatus)
    → onto
        (λ u. if b3 then ProcessingStatus.active else u)
        (onto
          (λ u. if b2 then ProcessingStatus.active else u)
          (onto (λ u. if c && is_active_status u then ProcessingStatus.superseded else u) (some t)))
      ≡ (if b3 || b2
          then onto (λ u. ProcessingStatus.active) (some t)
          else if c
          then onto retire (some t)
          else some t)
compose_some b3 b2 c ProcessingStatus.calculated_draft = ground arith
compose_some b3 b2 c ProcessingStatus.active = ground arith
compose_some b3 b2 c ProcessingStatus.superseded = ground arith
compose_some b3 b2 c ProcessingStatus.discarded = ground arith

compose :
    (b3 b2 c : Bool) (o : Option ProcessingStatus)
    → onto
        (λ u. if b3 then ProcessingStatus.active else u)
        (onto
          (λ u. if b2 then ProcessingStatus.active else u)
          (onto (λ u. if c && is_active_status u then ProcessingStatus.superseded else u) o))
      ≡ (if b3 || b2 then onto (λ u. ProcessingStatus.active) o else if c then onto retire o else o)
compose b3 b2 c none = ground arith
compose b3 b2 c (some t) = compose_some b3 b2 c t

compose_drop :
    (b3 b2 : Bool) (o : Option ProcessingStatus)
    → onto
        (λ u. if b3 then ProcessingStatus.discarded else u)
        (onto (λ u. if b2 then ProcessingStatus.discarded else u) o)
      ≡ (if b3 || b2 then onto (λ u. ProcessingStatus.discarded) o else o)
compose_drop b3 b2 none = ground arith
compose_drop b3 b2 (some t) = ground arith

same_key :
    (route n : ℕ) (v : RouteVersion)
    → is_version route n v ≡ true
    → (v.route_id ≡ route) × (v.version_no ≡ n)
same_key route n v y = ground arith

module _ (forward reverse a b : ℕ) (vs : List RouteVersion) (route n : ℕ) where
  key_test :
      (r m : ℕ) (v : RouteVersion)
      → is_version route n v ≡ true
      → is_version r m v ≡ (route == r && n == m)
  key_test r m v y =
      let (e, e') = same_key route n v y in
      ap (λ k. k == r && v.version_no == m) e ∙ ap (λ k. route == r && k == m) e'

  retire_test :
      (v : RouteVersion)
      → is_version route n v ≡ true
      → ((v.route_id == forward || v.route_id == reverse) && is_active_version v)
        ≡ ((route == forward || route == reverse) && is_active_status v.processing_status)
  retire_test v y =
      ap (λ k. (k == forward || k == reverse) && is_active_version v) (same_key route n v y).0

  pub promote-promoted :
      status_at (promote forward reverse a b vs) route n
      ≡ promoted forward reverse a b (status_at vs) route n
  unfolding promote promoted
  promote-promoted =
      status_at-update_where route n _ ProcessingStatus.active (λ t. route == reverse && n == b) _
        (key_test reverse b)
      ∙ ap (onto (λ t. if route == reverse && n == b then ProcessingStatus.active else t)) (
          status_at-update_where route n _ ProcessingStatus.active (λ t. route == forward && n == a)
            _ (key_test forward a)
          ∙ ap (onto (λ t. if route == forward && n == a then ProcessingStatus.active else t)) (
              status_at-update_where route n _ ProcessingStatus.superseded
                (λ t. (route == forward || route == reverse) && is_active_status t) vs retire_test))
      ∙ compose (route == reverse && n == b) (route == forward && n == a)
          (route == forward || route == reverse) (status_at vs route n)

  pub discard-dropped :
      status_at (discard_drafts forward reverse a b vs) route n
      ≡ dropped forward reverse a b (status_at vs) route n
  unfolding discard_drafts dropped
  discard-dropped =
      status_at-update_where route n _ ProcessingStatus.discarded (λ t. route == reverse && n == b)
        _ (key_test reverse b)
      ∙ ap (onto (λ t. if route == reverse && n == b then ProcessingStatus.discarded else t)) (
          status_at-update_where route n _ ProcessingStatus.discarded
            (λ t. route == forward && n == a) vs (key_test forward a))
      ∙ compose_drop (route == reverse && n == b) (route == forward && n == a)
          (status_at vs route n)
