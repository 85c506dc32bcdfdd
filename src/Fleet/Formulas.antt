-- ===== src/Fleet/Formulas.antt =====
-- services/fleet-service/src/fleet_service/domain/formulas.py: the figures of a vehicle with its
-- trailer.
pub mod Laws
mod Tests
use lojinextv.Prelude.{ℕ, ◌+◌, Bool, true, false, Option, some, leb, if◌then◌else◌}

pub data AeroPackageLevel : Type 0 where
  none low medium high : AeroPackageLevel

-- `AeroPackageLevel.ordering`
unfoldable pub ordering : AeroPackageLevel → ℕ
ordering AeroPackageLevel.none = 0
ordering AeroPackageLevel.low = 1
ordering AeroPackageLevel.medium = 2
ordering AeroPackageLevel.high = 3

abbrev add_both : Option ℕ → Option ℕ → Option ℕ
add_both (some a) (some b) = some (a + b)
add_both _ _ = Option.none

unfoldable pub combined_empty_weight_kg : Option ℕ → Option ℕ → Bool → Option ℕ
combined_empty_weight_kg curb tare has_trailer = if has_trailer then add_both curb tare else curb

unfoldable pub combined_axle_count : Option ℕ → Option ℕ → Bool → Option ℕ
combined_axle_count total axles has_trailer = if has_trailer then add_both total axles else total

abbrev truthy : Option Bool → Bool
truthy Option.none = false
truthy (some b) = b

unfoldable pub reefer_present : Option Bool → Bool → Bool
reefer_present present has_trailer = if has_trailer then truthy present else false

-- `none` is the rank -1
abbrev higher : Option AeroPackageLevel → Option AeroPackageLevel → Option AeroPackageLevel
unfolding ordering
higher Option.none t = t
higher (some v) Option.none = some v
higher (some v) (some t) = if leb (ordering t) (ordering v) then some v else some t

unfoldable pub composite_aero_package_level :
    Option AeroPackageLevel → Option AeroPackageLevel → Bool → Option AeroPackageLevel
unfolding higher
composite_aero_package_level vehicle trailer has_trailer =
    if has_trailer then higher vehicle trailer else vehicle
