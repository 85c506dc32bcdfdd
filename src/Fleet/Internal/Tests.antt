-- ===== src/Fleet/Internal/Tests.antt =====
-- The theorems on the internal questions, on a fleet of three vehicles, the second of them inactive.
use lojinextv.Prelude.{◌≡◌, refl, none, some, [], ◌∷◌, ◌++◌, map, filter, arith}
use lojinextv.Fleet.Tables.{AggregateType, MasterStatus, Vehicle}
use lojinextv.Fleet.Session.{is_selectable}
use lojinextv.Fleet.Vehicle.Tests.{truck}
use lojinextv.Fleet.Internal.{Masters, selectable_item, listed, validate_bulk, list_selectable}
use lojinextv.Fleet.Internal.Rows.{Ascending}
use lojinextv.Fleet.Internal.Pages.{read_pages, read_pages_all}
use lojinextv.Fleet.Internal.Bulk.{single_item, validate_bulk-single}
use lojinextv.Fleet.Internal.Usable.{anything}

abbrev parked : Vehicle
parked = record truck { vehicle_id = 2; status = MasterStatus.inactive }

abbrev spare : Vehicle
spare = record truck { vehicle_id = 3 }

abbrev yard : Masters
yard = record {
  vehicles = truck ∷ parked ∷ spare ∷ [];
  trailers = record truck { vehicle_id = 7 } ∷ [];
}

yard-Ascending : Ascending yard.vehicles
yard-Ascending = ((omega arith, (omega arith, tt)), ((omega arith, tt), (tt, tt)))

trailers-Ascending : Ascending yard.trailers
trailers-Ascending = (tt, tt)

-- two pages of one row each
yard_pages :
    read_pages AggregateType.vehicle anything 1 yard 4 none
    ≡ selectable_item truck ∷ selectable_item spare ∷ []
unfolding read_pages list_selectable listed is_selectable
yard_pages = refl

read_pages_all_example :
    read_pages AggregateType.vehicle anything 1 yard 4 none
    ≡ map selectable_item (filter (listed anything) yard.vehicles)
read_pages_all_example =
    read_pages_all AggregateType.vehicle anything 1 yard yard-Ascending (omega arith) 4
      (omega arith)

validate_bulk-single_example :
    validate_bulk (some (3 ∷ 9 ∷ [])) (some (7 ∷ [])) yard
    ≡ map (single_item AggregateType.vehicle yard) (3 ∷ 9 ∷ [])
      ++ map (single_item AggregateType.trailer yard) (7 ∷ [])
validate_bulk-single_example =
    validate_bulk-single yard (some (3 ∷ 9 ∷ [])) (some (7 ∷ [])) yard-Ascending trailers-Ascending
