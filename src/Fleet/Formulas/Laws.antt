-- ===== src/Fleet/Formulas/Laws.antt =====
-- The combined aero package is the least upper bound of the packages.
use lojinextv.Prelude.{
  ℕ, ◌+◌, ◌≤◌, ◌<◌, ◌≡◌, ◌↔◌, true, false, Option, none, some, arith, leb, leb→le, inl, inr,
  Bool-cases,
}
use lojinextv.Fleet.Formulas.{AeroPackageLevel, ordering, composite_aero_package_level}

-- the rank of a level, where a missing one is below all others
unfoldable pub rank : Option AeroPackageLevel → ℕ
unfolding ordering
rank none = 0
rank (some a) = 1 + ordering a

not-leb→lt : (a b : ℕ) → leb a b ≡ false → b < a
not-leb→lt a b h = ground arith

-- With a trailer, the combined aero package is the least upper bound of the packages of the
-- vehicle and the trailer, where a missing package is below all others.
pub composite_aero_package_level-lub :
    (v t c : Option AeroPackageLevel)
    → (rank (composite_aero_package_level v t true) ≤ rank c)
      ↔ ((rank v ≤ rank c) × (rank t ≤ rank c))
unfolding rank composite_aero_package_level
composite_aero_package_level-lub none t c = ground arith
composite_aero_package_level-lub (some v) none c = ground arith
composite_aero_package_level-lub (some v) (some t) c =
    elim (Bool-cases (leb (ordering t) (ordering v))) [
      | inl y ↦ rw y (λ h. (h, omega (arith, h, leb→le (ordering t) (ordering v) y)), λ (h, k). h)
      | inr y ↦
          rw y (λ h. (omega (arith, h, not-leb→lt (ordering t) (ordering v) y), h), λ (h, k). k)
    ]
