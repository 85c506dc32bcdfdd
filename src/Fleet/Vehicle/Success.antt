-- ===== src/Fleet/Vehicle/Success.antt =====
-- When a mutation of a vehicle succeeds.
use lojinextv.Prelude.{ℕ, ◌≡◌, refl, true, false, none, some, arith, ltb, ◌==◌}
use lojinextv.Exec.{Result, ok, err}
use lojinextv.Fleet.Tables.{MasterStatus, Vehicle, VehicleDetail, OutboxPayload, Db}
use lojinextv.Fleet.Session.{
  Library, FleetError, version, Etag, Context, max_payload, select_vehicle,
}
use lojinextv.Fleet.Vehicle.Locking.{
  Mutation, deactivate, reactivate, soft_delete, patch, mutate, serve,
}

-- the state that a mutation asks of a live row
abbrev pub Applies : Mutation → Vehicle → Type 0
Applies (deactivate reason) v = v.status ≡ MasterStatus.active
Applies (reactivate reason) v = v.status ≡ MasterStatus.inactive
Applies (soft_delete reason) v = Unit
Applies (patch body) v = body.plate ≡ none

==_self : (n : ℕ) → (n == n) ≡ true
==_self n = ground arith

abbrev IsOk : Result FleetError (VehicleDetail × Etag) → Type 0
IsOk (ok x) = Unit
IsOk (err e) = ⊥

IsOk→ok :
    (r : Result FleetError (VehicleDetail × Etag))
    → IsOk r
    → (x : VehicleDetail × Etag) × (r ≡ ok x)
IsOk→ok (ok x) p = (x, refl)
IsOk→ok (err e) p = absurd p

module _ (lib : Library) (ctx : Context) (id : ℕ) (d : Db) (v : Vehicle) where
  serve-IsOk :
      (mu : Mutation)
      → select_vehicle id d.vehicles ≡ some v
      → v.soft_deleted_at_utc ≡ none
      → Applies mu v
      → ctx.flush ≡ none
      → ((p : OutboxPayload) → ltb max_payload (ctx.json_length p) ≡ false)
      → IsOk (serve lib ctx id mu (version v.row_version) d).0
  unfolding mutate
  serve-IsOk (deactivate reason) f l a c p = rw (f, ==_self v.row_version, l, a, c, p _) tt
  serve-IsOk (reactivate reason) f l a c p = rw (f, ==_self v.row_version, l, a, c, p _) tt
  serve-IsOk (soft_delete reason) f l a c p = rw (f, ==_self v.row_version, l, c, p _) tt
  serve-IsOk (patch body) f l a c p = rw (f, ==_self v.row_version, l, a, c, p _) tt

  -- A mutation of a live row that names its version succeeds, if the row is in the state that it
  -- asks for (a PATCH: if it has no plate), the database takes the row, and no event is too large.
  pub serve_succeeds :
      (mu : Mutation)
      → select_vehicle id d.vehicles ≡ some v
      → v.soft_deleted_at_utc ≡ none
      → Applies mu v
      → ctx.flush ≡ none
      → ((p : OutboxPayload) → ltb max_payload (ctx.json_length p) ≡ false)
      → (x : VehicleDetail × Etag) × ((serve lib ctx id mu (version v.row_version) d).0 ≡ ok x)
  serve_succeeds mu f l a c p = IsOk→ok _ (serve-IsOk mu f l a c p)
