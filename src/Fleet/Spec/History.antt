-- ===== src/Fleet/Spec/History.antt =====
-- The history of one vehicle's specification: versions numbered from 1, whose windows follow each
-- other without a gap, the last of them open and current.
use lojinextv.Prelude.{
  ℕ, ◌+◌, ◌<◌, ◌≤◌, ◌≡◌, refl, ap, ◌∙◌, true, false, not, Option, none, some, List, [], ◌∷◌, ◌++◌,
  arith, ltb, if◌then◌else◌, update_where, length,
}
use lojinextv.Fleet.Tables.{SpecVersion}
use lojinextv.Fleet.Session.{is_some}
use lojinextv.Fleet.Spec.{closed, max_version}

abbrev pub Later : ℕ → Option ℕ → Type 0
Later t none = Unit
Later t (some u) = t < u

-- `Chain n o rows`: the rows are the versions from number `n` on; the first of them begins at the
-- instant that `o` names, and there are none when `o` names none.
abbrev pub Chain : ℕ → Option ℕ → List SpecVersion → Type 0
Chain n none [] = Unit
Chain n none (s ∷ ss) = ⊥
Chain n (some t) [] = ⊥
Chain n (some t) (s ∷ ss) =
    (s.version_no ≡ n)
    × (s.effective_from_utc ≡ t)
    × (s.is_current ≡ not (is_some s.effective_to_utc))
    × Later t s.effective_to_utc
    × Chain (n + 1) s.effective_to_utc ss

abbrev pub IsHistory : List SpecVersion → Type 0
IsHistory rows = (o : Option ℕ) × Chain 1 o rows

-- the close of the current row, on the rows of one vehicle
abbrev pub close_last : ℕ → List SpecVersion → List SpecVersion
close_last t = update_where (λ s. s.is_current) (closed t)

-- the instant is after the beginning of the current version, if there is one
abbrev pub IsAfter : ℕ → List SpecVersion → Type 0
IsAfter t [] = Unit
IsAfter t (s ∷ []) = s.effective_from_utc < t
IsAfter t (s ∷ s' ∷ ss) = IsAfter t (s' ∷ ss)

Chain-end : (n : ℕ) (o : Option ℕ) → Chain n o [] → o ≡ none
Chain-end n none r = refl
Chain-end n (some u) r = absurd r

-- the last version is open
pub last_open :
    (n t : ℕ) (s : SpecVersion)
    → Chain n (some t) (s ∷ [])
    → (s.effective_to_utc ≡ none) × (s.is_current ≡ true)
last_open n t s (a, b, c, l, r) =
    let e = Chain-end (n + 1) s.effective_to_utc r in (e, c ∙ ap (λ o. not (is_some o)) e)

Chain-more :
    (n t : ℕ) (o : Option ℕ) (x : SpecVersion) (xs : List SpecVersion)
    → Later t o
    → Chain n o (x ∷ xs)
    → (u : ℕ) × (o ≡ some u) × (t < u) × Chain n (some u) (x ∷ xs)
Chain-more n t none x xs l r = absurd r
Chain-more n t (some u) x xs l r = (u, refl, l, r)

-- every other version is closed at the instant at which the next begins
pub middle_closed :
    (n t : ℕ) (s x : SpecVersion) (xs : List SpecVersion)
    → Chain n (some t) (s ∷ x ∷ xs)
    → (u : ℕ) × (s.effective_to_utc ≡ some u)
      × (s.is_current ≡ false)
      × (t < u)
      × Chain (n + 1) (some u) (x ∷ xs)
middle_closed n t s x xs (a, b, c, l, r) =
    let (u, e, k, r') = Chain-more (n + 1) t s.effective_to_utc x xs l r in
    (u, e, c ∙ ap (λ o. not (is_some o)) e, k, r')

-- the number of the last of the versions from `n` on
abbrev pub top : ℕ → List SpecVersion → ℕ
top n [] = 0
top n (s ∷ ss) = n + length ss

larger : (m k : ℕ) → k ≤ m → (if ltb m k then k else m) ≡ m
larger m k h = ground arith

positive : (k : ℕ) → (if ltb 0 k then k else 0) ≡ k
positive k = ground arith

pub max_version-Chain :
    (n : ℕ) (o : Option ℕ) (rows : List SpecVersion)
    → Chain n o rows
    → max_version rows ≡ top n rows
max_version-Chain n none [] c = refl
max_version-Chain n none (s ∷ ss) c = absurd c
max_version-Chain n (some t) [] c = refl
max_version-Chain n (some t) (s ∷ []) (e, a, b, l, r) = positive s.version_no ∙ omega (arith, e)
max_version-Chain n (some t) (s ∷ x ∷ xs) (e, a, b, l, r) =
    let rest = max_version-Chain (n + 1) s.effective_to_utc (x ∷ xs) r in
    larger (max_version (x ∷ xs)) s.version_no (omega (arith, rest, e)) ∙ rest ∙ omega arith

-- the rows that a new version leaves
abbrev pub appended : SpecVersion → List SpecVersion → List SpecVersion
appended new rows = close_last new.effective_from_utc rows ++ new ∷ []

pub appended-Chain :
    (n : ℕ) (t : ℕ) (new : SpecVersion) (rows : List SpecVersion)
    → Chain n (some t) rows
    → IsAfter new.effective_from_utc rows
    → new.version_no ≡ n + length rows
    → new.effective_to_utc ≡ none
    → new.is_current ≡ true
    → Chain n (some t) (appended new rows)
appended-Chain n t new [] c a v e i = absurd c
appended-Chain n t new (s ∷ []) (p, q, b, l, r) a v e i =
    let (o, k) = last_open n t s (p, q, b, l, r) in
    rw (k, e) (p, q, refl, rw⁻¹ q a, (v, refl, i, tt, tt))
appended-Chain n t new (s ∷ x ∷ xs) (p, q, b, l, r) a v e i =
    let (u, o, k, m, r') = middle_closed n t s x xs (p, q, b, l, r) in
    rw (k, o) (p, q, refl, m, appended-Chain (n + 1) u new (x ∷ xs) r' a (omega (arith, v)) e i)
