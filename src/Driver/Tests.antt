-- ===== src/Driver/Tests.antt =====
-- The masking of one phone number.
use lojinextv.Prelude.{ℕ, List, [], ◌∷◌}

-- +905551234567 and +905559876567
abbrev phone : List ℕ
phone =
    b'+' ∷ b'9' ∷ b'0' ∷ b'5' ∷ b'5' ∷ b'5' ∷ b'1' ∷ b'2' ∷ b'3' ∷ b'4' ∷ b'5' ∷ b'6' ∷ b'7' ∷ []

abbrev phone' : List ℕ
phone' =
    b'+' ∷ b'9' ∷ b'0' ∷ b'5' ∷ b'5' ∷ b'5' ∷ b'9' ∷ b'8' ∷ b'7' ∷ b'6' ∷ b'5' ∷ b'6' ∷ b'7' ∷ []
