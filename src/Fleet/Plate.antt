-- ===== src/Fleet/Plate.antt =====
-- services/fleet-service/src/fleet_service/domain/normalization.py. A text is the list of its code
-- points. Python's `str.upper` and its notion of whitespace (`str.strip`, `\s`) are outside the
-- repository and are the parameters `upper` and `is_space`.
pub mod Canonical
mod Tests
use lojinextv.Prelude.{
  ℕ, Bool, true, false, not, ◌||◌, Option, none, some, List, [], ◌∷◌, ◌==◌, ◌&&◌, if◌then◌else◌,
  filter,
}

abbrev pub Text : Type 0
Text = List ℕ

unfoldable pub text_eq : Text → Text → Bool
text_eq [] [] = true
text_eq [] (d ∷ t) = false
text_eq (c ∷ s) [] = false
text_eq (c ∷ s) (d ∷ t) = c == d && text_eq s t

-- İ (U+0130) and ı (U+0131) become I
abbrev pub fold_turkish : ℕ → ℕ
fold_turkish c = if c == 0x130 then b'I' else if c == 0x131 then b'I' else c

abbrev pub fold_all : Text → Text
fold_all [] = []
fold_all (c ∷ s) = fold_turkish c ∷ fold_all s

-- the pair i, U+0307 (combining dot above) becomes I
unfoldable pub fold_combined : Text → Text
fold_combined [] = []
fold_combined (c ∷ []) = c ∷ []
fold_combined (c ∷ d ∷ s) =
    let joined = b'I' ∷ fold_combined s in
    let kept = c ∷ fold_combined (d ∷ s) in if (c == b'i') && (d == 0x307) then joined else kept

abbrev pub all_space : (ℕ → Bool) → Text → Bool
all_space is_space [] = true
all_space is_space (c ∷ s) = is_space c && all_space is_space s

abbrev pub is_blank : Text → Bool
is_blank [] = true
is_blank _ = false

module _ (upper : Text → Text) (is_space : ℕ → Bool) where
  -- re.sub(r"[\s\-]+", "", …)
  unfoldable pub strip_separators : Text → Text
  strip_separators s = filter (λ c. not (is_space c || c == b'-')) s

  -- `none` is the ValueError
  unfoldable pub normalize_plate : Text → Option Text
  unfolding strip_separators fold_combined
  normalize_plate raw =
      if all_space is_space raw
      then none
      else (let normalized = strip_separators (upper (fold_combined (fold_all raw))) in
          if is_blank normalized then none else some normalized)
