-- ===== src/Fleet/Plate/Tests.antt =====
-- The normalization of one plate, with an upper-casing of ASCII letters.
use lojinextv.Prelude.{
  ℕ, ◌≡◌, refl, Bool, some, [], ◌∷◌, ◌==◌, All, filter, leb, arith, ◌&&◌, ◌-◌, if◌then◌else◌,
}
use lojinextv.Fleet.Plate.{Text, normalize_plate}
use lojinextv.Fleet.Plate.Canonical.{Upper, Folded, All-filter_text, normalize_plate_idempotent}

abbrev same : Text → Text
same s = s

abbrev is_blank_char : ℕ → Bool
is_blank_char c = c == b' '

-- "34 A-1"
abbrev raw : Text
raw = b'3' ∷ b'4' ∷ b' ' ∷ b'A' ∷ b'-' ∷ b'1' ∷ []

abbrev plate : Text
plate = b'3' ∷ b'4' ∷ b'A' ∷ b'1' ∷ []

normalized : normalize_plate same is_blank_char raw ≡ some plate
unfolding normalize_plate
normalized = refl

-- upper-casing of ASCII letters
abbrev upper_char : ℕ → ℕ
upper_char c = if leb b'a' c && leb c b'z' then c - 32 else c

abbrev upper_text : Text → Text
upper_text [] = []
upper_text (c ∷ s) = upper_char c ∷ upper_text s

abbrev Unchanged : ℕ → Type 0
Unchanged c = upper_char c ≡ c

upper_again : (s : Text) → All Unchanged s → upper_text s ≡ s
upper_again [] h = refl
upper_again (c ∷ s) h = rw (h.0, upper_again s h.1) refl

upper_text-Unchanged : (s : Text) → All Unchanged (upper_text s)
upper_text-Unchanged [] = tt
upper_text-Unchanged (c ∷ s) = (ground arith, upper_text-Unchanged s)

upper_fixed :
    (s : Text) (p : ℕ → Bool) → upper_text (filter p (upper_text s)) ≡ filter p (upper_text s)
upper_fixed s p =
    upper_again _ (All-filter_text p Unchanged (upper_text s) (upper_text-Unchanged s))

upper_char-Upper : (c : ℕ) → Folded c → Upper (upper_char c)
upper_char-Upper c h =
    (λ e. ground (arith, h.0, h.1), λ e. ground (arith, h.0, h.1), λ e. ground (arith, h.0, h.1))

upper_text-Upper : (s : Text) → All Folded s → All Upper (upper_text s)
upper_text-Upper [] h = tt
upper_text-Upper (c ∷ s) h = (upper_char-Upper c h.0, upper_text-Upper s h.1)

-- "34 a-1"
abbrev lower_raw : Text
lower_raw = b'3' ∷ b'4' ∷ b' ' ∷ b'a' ∷ b'-' ∷ b'1' ∷ []

normalized_upper : normalize_plate upper_text is_blank_char lower_raw ≡ some plate
unfolding normalize_plate
normalized_upper = refl

normalize_plate_idempotent_example : normalize_plate upper_text is_blank_char plate ≡ some plate
normalize_plate_idempotent_example =
    normalize_plate_idempotent upper_text is_blank_char upper_fixed upper_text-Upper lower_raw plate
      normalized_upper
