-- ===== src/Fleet/Plate/Canonical.antt =====
-- What a normalized plate looks like, and that normalizing it again changes nothing.
use lojinextv.Prelude.{
  ℕ, ◌≡◌, ◌≢◌, refl, ap, inl, inr, Bool, true, false, not, ◌||◌, ◌&&◌, some, [], ◌∷◌, arith, ◌==◌,
  if◌then◌else◌, filter, All, Bool-cases,
}
use lojinextv.Fleet.Plate.{
  Text, fold_all, fold_combined, all_space, is_blank, strip_separators, normalize_plate,
}

-- a character that a plate keeps
abbrev pub Kept : (ℕ → Bool) → ℕ → Type 0
Kept is_space c = (is_space c ≡ false) × (c ≢ b'-')

-- characters that the folding leaves alone
abbrev pub Upper : ℕ → Type 0
Upper c = (c ≢ b'i') × (c ≢ 0x130) × (c ≢ 0x131)

fold_all_same : (s : Text) → All Upper s → fold_all s ≡ s
fold_all_same [] h = refl
fold_all_same (c ∷ s) h = ground (arith, fold_all_same s)

fold_combined_same : (s : Text) → All Upper s → fold_combined s ≡ s
unfolding fold_combined
fold_combined_same [] h = refl
fold_combined_same (c ∷ []) h = refl
fold_combined_same (c ∷ d ∷ s) h = ground (arith, fold_combined_same (d ∷ s))

-- folding leaves no dotted or dotless capital
abbrev pub Folded : ℕ → Type 0
Folded c = (c ≢ 0x130) × (c ≢ 0x131)

fold_all-Folded : (s : Text) → All Folded (fold_all s)
fold_all-Folded [] = tt
fold_all-Folded (c ∷ s) = (ground arith, fold_all-Folded s)

capital-Folded : Folded b'I'
capital-Folded = (λ e. omega arith, λ e. omega arith)

All-either :
    (P : ℕ → Type 0) (b : Bool) (s t : Text) → All P s → All P t → All P (if b then s else t)
All-either P true s t h k = h
All-either P false s t h k = k

fold_combined-Folded : (s : Text) → All Folded s → All Folded (fold_combined s)
unfolding fold_combined
fold_combined-Folded [] h = tt
fold_combined-Folded (c ∷ []) h = h
fold_combined-Folded (c ∷ d ∷ s) h =
    All-either Folded ((c == b'i') && (d == 0x307)) _ _
      (capital-Folded, fold_combined-Folded s h.1.1) (h.0, fold_combined-Folded (d ∷ s) h.1)

module _ (p : ℕ → Bool) where
  filter_again : (s : Text) → filter p (filter p s) ≡ filter p s
  filter_again [] = refl
  filter_again (c ∷ s) = ground (arith, filter_again s)

  pub All-filter_text : (P : ℕ → Type 0) (s : Text) → All P s → All P (filter p s)
  All-filter_text P [] h = tt
  All-filter_text P (c ∷ s) h = elim (Bool-cases (p c)) [
    | inl y ↦ rw y (h.0, All-filter_text P s h.1)
    | inr n ↦ rw n (All-filter_text P s h.1)
  ]

module _ (upper : Text → Text) (is_space : ℕ → Bool) where
  strip-Kept : (s : Text) → All (Kept is_space) (strip_separators upper is_space s)
  unfolding strip_separators
  strip-Kept [] = tt
  strip-Kept (c ∷ s) = elim (Bool-cases (not (is_space c || c == b'-'))) [
    | inl y ↦ rw y ((ground arith, λ e. ground arith), strip-Kept s)
    | inr n ↦ rw n (strip-Kept s)
  ]

  -- the text that is normalized, if there is one
  normalize_plate-some :
      (raw p : Text)
      → normalize_plate upper is_space raw ≡ some p
      → (p ≡ strip_separators upper is_space (upper (fold_combined (fold_all raw))))
        × (is_blank p ≡ false)
  unfolding normalize_plate
  normalize_plate-some raw p h = ground arith

  Kept-not_space :
      (s : Text) → is_blank s ≡ false → All (Kept is_space) s → all_space is_space s ≡ false
  Kept-not_space [] b h = cc
  Kept-not_space (c ∷ s) b h = ground arith

  -- A normalized plate is not empty, and has neither whitespace nor a dash.
  pub normalize_plate-Kept :
      (raw p : Text)
      → normalize_plate upper is_space raw ≡ some p
      → (p ≢ []) × All (Kept is_space) p
  normalize_plate-Kept raw p h =
      let (e, b) = normalize_plate-some raw p h in
      ((λ k. cc (ap is_blank k, b)), rw e (strip-Kept (upper (fold_combined (fold_all raw)))))

  -- Normalizing a normalized plate gives it back, for an upper-casing that leaves upper-case
  -- characters as they are, and whose result has no i and no dotless one, and a dotted capital
  -- only if its argument has one.
  pub normalize_plate_idempotent :
      ((s : Text) (p : ℕ → Bool) → upper (filter p (upper s)) ≡ filter p (upper s))
      → ((s : Text) → All Folded s → All Upper (upper s))
      → (raw p : Text) → normalize_plate upper is_space raw ≡ some p
      → normalize_plate upper is_space p ≡ some p
  unfolding normalize_plate strip_separators
  normalize_plate_idempotent fixed cased raw p h =
      let (e, b) = normalize_plate-some raw p h in
      let f = fold_combined (fold_all raw) in
      let keep : ℕ → Bool = λ c. not (is_space c || c == b'-') in
      let up : All Upper p = rw e (
        All-filter_text keep Upper (upper f)
          (cased f (fold_combined-Folded (fold_all raw) (fold_all-Folded raw)))) in
      let same : upper p ≡ p = rw e (fixed f keep) in
      let stripped : filter keep p ≡ p = rw e (filter_again keep (upper f)) in
      rw
        (
          Kept-not_space p b (rw e (strip-Kept (upper f))),
          fold_all_same p up,
          fold_combined_same p up,
          same,
          stripped,
          b,
        )
        refl
