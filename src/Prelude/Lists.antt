-- ===== src/Prelude/Lists.antt =====
-- Lists over the native numbers, with Boolean tests.
use Prim.Native.Nat.{ℕ, zero, suc, ◌+◌}
use mathlib.Core.Path.{◌≡◌, refl, sym, ap, ◌∙◌}
use mathlib.Core.Logic.{inl, inr}
use mathlib.Core.Bool.{Bool, true, false, ◌||◌}
use mathlib.Core.Option.{Option, none, some}
use mathlib.Core.List.{List, [], ◌∷◌, ◌++◌}
use native.Mathlib.Omega.{arith}
use lojinextv.Prelude.Tests.{if◌then◌else◌, ◌==◌, Bool-cases}

module _ {ℓ} {A : Type ℓ} where
  abbrev pub length : List A → ℕ
  length [] = 0
  length (x ∷ xs) = suc (length xs)

  pub length-append : (xs ys : List A) → length (xs ++ ys) ≡ length xs + length ys
  length-append [] ys = omega arith
  length-append (x ∷ xs) ys = omega (arith, length-append xs ys)

  pub append_nil : (xs : List A) → xs ++ [] ≡ xs
  append_nil [] = refl
  append_nil (x ∷ xs) = ap (λ ys. x ∷ ys) (append_nil xs)

  -- some element passes the test
  abbrev pub any : (A → Bool) → List A → Bool
  any p [] = false
  any p (x ∷ xs) = p x || any p xs

  -- the first element that passes the test: a SELECT by primary key
  abbrev pub find : (A → Bool) → List A → Option A
  find p [] = none
  find p (x ∷ xs) = if p x then some x else find p xs

  abbrev pub filter : (A → Bool) → List A → List A
  filter p [] = []
  filter p (x ∷ xs) = let rest = filter p xs in if p x then x ∷ rest else rest

  -- UPDATE … WHERE test
  abbrev pub update_where : (A → Bool) → (A → A) → List A → List A
  update_where p f [] = []
  update_where p f (x ∷ xs) = (if p x then f x else x) ∷ update_where p f xs

  abbrev pub take : ℕ → List A → List A
  take zero xs = []
  take (suc n) [] = []
  take (suc n) (x ∷ xs) = x ∷ take n xs

  abbrev pub drop : ℕ → List A → List A
  drop zero xs = xs
  drop (suc n) [] = []
  drop (suc n) (x ∷ xs) = drop n xs

  abbrev pub replicate : ℕ → A → List A
  replicate zero x = []
  replicate (suc n) x = x ∷ replicate n x

  abbrev pub All {κ} : (A → Type κ) → List A → Type κ
  All P [] = Unit
  All P (x ∷ xs) = P x × All P xs

pub some-injective {ℓ} : {A : Type ℓ} {a b : A} → ◌≡◌ {A = Option A} (some a) (some b) → a ≡ b
some-injective h = cc

-- the SELECT after an INSERT and after an UPDATE
module _ {ℓ} {A : Type ℓ} (p : A → Bool) where
  pub find-yes : (x : A) (xs : List A) → p x ≡ true → find p (x ∷ xs) ≡ some x
  find-yes x xs y = rw y refl

  pub find-no : (x : A) (xs : List A) → p x ≡ false → find p (x ∷ xs) ≡ find p xs
  find-no x xs y = rw y refl

  pub find-append : (xs ys : List A) (a : A) → find p xs ≡ some a → find p (xs ++ ys) ≡ some a
  find-append [] ys a h = cc
  find-append (x ∷ xs) ys a h = elim (Bool-cases (p x)) [
    | inl y ↦ find-yes x (xs ++ ys) y ∙ sym (find-yes x xs y) ∙ h
    | inr y ↦ find-no x (xs ++ ys) y ∙ find-append xs ys a (sym (find-no x xs y) ∙ h)
  ]

  pub find-update_where :
      (q : A → Bool) (f : A → A) (xs : List A) (a : A)
      → ((x : A) → p (f x) ≡ p x)
      → find p xs ≡ some a
      → find p (update_where q f xs) ≡ some (if q a then f a else a)
  find-update_where q f [] a k h = cc
  find-update_where q f (x ∷ xs) a k h = elim (Bool-cases (p x)) [
    | inl y ↦
        let e : x ≡ a = some-injective (sym (find-yes x xs y) ∙ h) in
        find-yes (if q x then f x else x) (update_where q f xs) (kept (q x) x ∙ y)
        ∙ ap (λ z. some (if q z then f z else z)) e
    | inr y ↦
        find-no (if q x then f x else x) (update_where q f xs) (kept (q x) x ∙ y)
        ∙ find-update_where q f xs a k (sym (find-no x xs y) ∙ h)
  ]
    where
      kept : (b : Bool) (z : A) → p (if b then f z else z) ≡ p z
      kept true z = k z
      kept false z = refl

-- membership of a number
abbrev pub elem : ℕ → List ℕ → Bool
elem a [] = false
elem a (x ∷ xs) = a == x || elem a xs
