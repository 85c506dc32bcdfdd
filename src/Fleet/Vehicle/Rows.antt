-- ===== src/Fleet/Vehicle/Rows.antt =====
-- Reading a row after writing it.
use lojinextv.Prelude.{ℕ, ◌≡◌, none, some, List, [], ◌∷◌, arith, ◌==◌, if◌then◌else◌}
use lojinextv.Fleet.Tables.{Vehicle}
use lojinextv.Fleet.Session.{select_vehicle, write_vehicle}

-- the row that a SELECT by id finds has that id
pub select_vehicle-id :
    (id : ℕ) (vs : List Vehicle) (v : Vehicle) → select_vehicle id vs ≡ some v → v.vehicle_id ≡ id
unfolding select_vehicle
select_vehicle-id id [] v h = cc
select_vehicle-id id (x ∷ vs) v h = ground (arith, select_vehicle-id id vs v)

-- a written row is found under its id if there was a row, and every other row is as it was
pub select-write :
    (id : ℕ) (v' : Vehicle) (vs : List Vehicle)
    → select_vehicle id (write_vehicle v' vs) ≡ (
        if v'.vehicle_id == id
        then elim (select_vehicle id vs) [ none ↦ none | some _ ↦ some v' ]
        else select_vehicle id vs)
unfolding select_vehicle write_vehicle
select-write id v' [] = ground arith
select-write id v' (x ∷ vs) = ground (arith, select-write id v' vs)

pub select-write_self :
    (id : ℕ) (v' v : Vehicle) (vs : List Vehicle)
    → select_vehicle id vs ≡ some v
    → v'.vehicle_id ≡ id
    → select_vehicle id (write_vehicle v' vs) ≡ some v'
select-write_self id v' v vs f e = ground (arith, select-write id v' vs)
