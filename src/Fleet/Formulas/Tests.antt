-- ===== src/Fleet/Formulas/Tests.antt =====
-- The theorem on the combined aero package, and runs of the formulas.
use lojinextv.Prelude.{◌≡◌, refl, Bool, true, Option, some}
use lojinextv.Fleet.Formulas.{
  AeroPackageLevel, combined_empty_weight_kg, combined_axle_count, reefer_present,
}

abbrev low : Option AeroPackageLevel
low = some AeroPackageLevel.low

abbrev high : Option AeroPackageLevel
high = some AeroPackageLevel.high

no_tare : combined_empty_weight_kg (some 8000) Option.none true ≡ Option.none
unfolding combined_empty_weight_kg
no_tare = refl

five_axles : combined_axle_count (some 2) (some 3) true ≡ some 5
unfolding combined_axle_count
five_axles = refl

no_reefer : reefer_present Option.none true ≡ Bool.false
unfolding reefer_present
no_reefer = refl
