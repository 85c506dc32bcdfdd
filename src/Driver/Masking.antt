-- ===== src/Driver/Masking.antt =====
-- services/driver-service/src/driver_service/normalization.py: `mask_phone_for_manager`.
use lojinextv.Prelude.{
  ℕ, zero, suc, ◌+◌, ◌-◌, ◌≤◌, ◌<◌, ◌≡◌, refl, ap, ◌∙◌, ◌⊎◌, inl, inr, Option, none, some, List, [],
  ◌∷◌, ◌++◌, arith, ltb, if◌then◌else◌, length, take, drop, replicate, length-append,
}

abbrev star : ℕ
star = b'*'

abbrev pub mask : List ℕ → List ℕ
mask phone =
    if ltb (length phone) 8
    then replicate (length phone) star
    else take 5 phone ++ replicate (length phone - 7) star ++ drop (length phone - 2) phone

-- no phone and an empty one have no mask
unfoldable pub mask_phone_for_manager : Option (List ℕ) → Option (List ℕ)
mask_phone_for_manager none = none
mask_phone_for_manager (some []) = none
mask_phone_for_manager (some (c ∷ phone)) = some (mask (c ∷ phone))

length-replicate : (n x : ℕ) → length (replicate n x) ≡ n
length-replicate zero x = refl
length-replicate (suc n) x = omega (arith, length-replicate n x)

length-take : (n : ℕ) (xs : List ℕ) → n ≤ length xs → length (take n xs) ≡ n
length-take zero xs h = refl
length-take (suc n) [] h = omega arith
length-take (suc n) (x ∷ xs) h = omega (arith, length-take n xs (omega arith))

length-drop : (n : ℕ) (xs : List ℕ) → n ≤ length xs → length (drop n xs) + n ≡ length xs
length-drop zero xs h = omega arith
length-drop (suc n) [] h = omega arith
length-drop (suc n) (x ∷ xs) h = omega (arith, length-drop n xs (omega arith))

-- the masked form of a number of eight digits or more
mask_long :
    (phone : List ℕ)
    → 8 ≤ length phone
    → mask phone
      ≡ take 5 phone ++ replicate (length phone - 7) star ++ drop (length phone - 2) phone
mask_long phone h = ground arith

mask_short : (phone : List ℕ) → length phone < 8 → mask phone ≡ replicate (length phone) star
mask_short phone h = ground arith

lt-or-le : (a b : ℕ) → (a < b) ⊎ (b ≤ a)
lt-or-le a b = omega arith

length-mask : (phone : List ℕ) → length (mask phone) ≡ length phone
length-mask phone = elim (lt-or-le (length phone) 8) [
  | inl h ↦ rw (mask_short phone h) (length-replicate (length phone) star)
  | inr h ↦ ap length (mask_long phone h) ∙ long h
]
  where
    long :
        8 ≤ length phone
        → length
            (take 5 phone ++ replicate (length phone - 7) star ++ drop (length phone - 2) phone)
          ≡ length phone
    long h = omega (
      arith,
      length-append (take 5 phone ++ replicate (length phone - 7) star)
          (drop (length phone - 2) phone),
      length-append (take 5 phone) (replicate (length phone - 7) star),
      length-replicate (length phone - 7) star,
      length-take 5 phone (omega arith),
      length-drop (length phone - 2) phone (omega arith),
    )

mask_agrees :
    (p q : List ℕ)
    → length p ≡ length q
    → (8 ≤ length p → (take 5 p ≡ take 5 q) × (drop (length p - 2) p ≡ drop (length q - 2) q))
    → mask p ≡ mask q
mask_agrees p q l h = elim (lt-or-le (length p) 8) [
  | inl s ↦ rw (mask_short p s, mask_short q (omega arith), l) refl
  | inr s ↦ (let (e, f) = h s in rw (mask_long p s, mask_long q (omega arith), e, f, l) refl)
]

mask-some :
    (p q : List ℕ)
    → length p ≡ length q
    → mask p ≡ mask q
    → mask_phone_for_manager (some p) ≡ mask_phone_for_manager (some q)
unfolding mask_phone_for_manager
mask-some [] [] l e = refl
mask-some [] (d ∷ q) l e = absurd (omega arith)
mask-some (c ∷ p) [] l e = absurd (omega arith)
mask-some (c ∷ p) (d ∷ q) l e = ap some e

-- A masked phone number has the length of the number, and numbers of one length that agree, from
-- eight characters on, on the first five and the last two have the same mask.
pub mask_hides :
    (p q : List ℕ)
    → length p ≡ length q
    → (8 ≤ length p → (take 5 p ≡ take 5 q) × (drop (length p - 2) p ≡ drop (length q - 2) q))
    → (mask_phone_for_manager (some p) ≡ mask_phone_for_manager (some q))
      × (length (mask p) ≡ length p)
mask_hides p q l h = (mask-some p q l (mask_agrees p q l h), length-mask p)
