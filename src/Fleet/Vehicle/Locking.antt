-- ===== src/Fleet/Vehicle/Locking.antt =====
-- Optimistic locking, atomicity and the finality of a soft delete, for every mutation of a vehicle.
use lojinextv.Prelude.{ℕ, ◌≡◌, ◌≢◌, ap, ◌∙◌, sym, String, Option, none, some, arith, true}
use lojinextv.Exec.{Result, ok, err, request}
use lojinextv.Exec.Post.{Post, Post-request}
use lojinextv.Fleet.Tables.{MasterStatus, Vehicle, VehiclePatchRequest, VehicleDetail, Db}
use lojinextv.Fleet.Session.{
  Library, FleetError, IfMatch, version, Etag, Context, Handler, select_vehicle, status_eq,
}
use lojinextv.Fleet.Vehicle.{
  deactivate_vehicle, reactivate_vehicle, soft_delete_vehicle, patch_vehicle, deleted, transitioned,
}
use lojinextv.Fleet.Vehicle.Rows.{select-write_self}
use lojinextv.Fleet.Vehicle.Steps.{Changed, Done, clean_session}
use lojinextv.Fleet.Vehicle.Effects.{
  Patches, soft_delete-Post, lifecycle_transition-Post, patch_vehicle-Post,
}

-- the requests that change one vehicle, by the handler that serves them
pub data Mutation : Type 0 where
  deactivate reactivate soft_delete : String → Mutation
  patch : VehiclePatchRequest → Mutation

unfoldable pub mutate : Library → Context → ℕ → Mutation → IfMatch → Handler (VehicleDetail × Etag)
unfolding deactivate_vehicle reactivate_vehicle soft_delete_vehicle patch_vehicle
mutate lib ctx id (deactivate reason) m = deactivate_vehicle ctx id reason m
mutate lib ctx id (reactivate reason) m = reactivate_vehicle ctx id reason m
mutate lib ctx id (soft_delete reason) m = soft_delete_vehicle ctx id reason m
mutate lib ctx id (patch body) m = patch_vehicle lib ctx id body m

abbrev pub serve :
    Library → Context → ℕ → Mutation → IfMatch → Db → Result FleetError (VehicleDetail × Etag) × Db
serve lib ctx id mu m d = request (mutate lib ctx id mu m) d

-- what each mutation makes of the row
abbrev pub Effect : Library → Context → Mutation → Vehicle → Vehicle → Type 0
Effect lib ctx (deactivate reason) v v' =
    (status_eq MasterStatus.active v.status ≡ true)
    × (v' ≡ transitioned ctx MasterStatus.inactive v)
Effect lib ctx (reactivate reason) v v' =
    (status_eq MasterStatus.inactive v.status ≡ true)
    × (v' ≡ transitioned ctx MasterStatus.active v)
Effect lib ctx (soft_delete reason) v v' = v' ≡ deleted ctx reason v
Effect lib ctx (patch body) v v' = Patches lib ctx body v v'

abbrev Q : Library → ℕ → Context → Mutation → IfMatch → Db → VehicleDetail × Etag → Db → Type 0
Q lib id ctx mu m d x d' = (n : ℕ) × (m ≡ version n) × Changed (Effect lib ctx mu) id n d x d'

module _ (lib : Library) (ctx : Context) (id : ℕ) where
  mutate-Post :
      (mu : Mutation) (m : IfMatch) (d : Db)
      → Post (Done id m d (Effect lib ctx mu)) d (mutate lib ctx id mu m (clean_session d))
  unfolding mutate
  mutate-Post (deactivate reason) m d = lifecycle_transition-Post ctx id reason m d _ _ _
  mutate-Post (reactivate reason) m d = lifecycle_transition-Post ctx id reason m d _ _ _
  mutate-Post (soft_delete reason) m d = soft_delete-Post ctx id reason m d
  mutate-Post (patch body) m d = patch_vehicle-Post lib ctx id body m d

  -- A mutation that raises, for whatever reason, leaves the committed database as it was.
  pub serve_atomic :
      (mu : Mutation) (m : IfMatch) (d : Db) (e : FleetError)
      → (serve lib ctx id mu m d).0 ≡ err e
      → (serve lib ctx id mu m d).1 ≡ d
  serve_atomic mu m d e h =
      (Post-request (Q lib id ctx mu m d) (mutate lib ctx id mu m) d (mutate-Post mu m d)).0 e h

  pub serve_changes :
      (mu : Mutation) (m : IfMatch) (d : Db) (x : VehicleDetail × Etag)
      → (serve lib ctx id mu m d).0 ≡ ok x
      → (n : ℕ) × (m ≡ version n) × Changed (Effect lib ctx mu) id n d x (serve lib ctx id mu m d).1
  serve_changes mu m d x h =
      (Post-request (Q lib id ctx mu m d) (mutate lib ctx id mu m) d (mutate-Post mu m d)).1 x h

abbrev row_of : Option Vehicle → ℕ
row_of none = 0
row_of (some v) = v.row_version

abbrev mark_of : Vehicle → Option ℕ
mark_of v = v.soft_deleted_at_utc

pub version-injective : {a b : ℕ} → version a ≡ version b → a ≡ b
version-injective e = cc

-- the row that a successful mutation leaves, as the next request reads it
new_row :
    {K : Vehicle → Vehicle → Type 0} {id n : ℕ} {d d' : Db} {x : VehicleDetail × Etag}
    (c : Changed K id n d x d')
    → select_vehicle id d'.vehicles ≡ some c.new
new_row {id = id} {d = d} c =
    rw c.written (select-write_self id c.new c.old d.vehicles c.found c.same_id)

module _ (lib : Library) (ctx ctx' : Context) (id : ℕ) (mu mu' : Mutation) (d : Db)
    (x : VehicleDetail × Etag) where
  -- No update of a vehicle is lost: once a mutation that named version n has succeeded, another
  -- mutation of that vehicle that names n does not succeed.
  pub serve_stale :
      (n : ℕ) (y : VehicleDetail × Etag)
      → (serve lib ctx id mu (version n) d).0 ≡ ok x
      → (serve lib ctx' id mu' (version n) (serve lib ctx id mu (version n) d).1).0 ≢ ok y
  serve_stale n y h h' =
      let (k, e, c) = serve_changes lib ctx id mu (version n) d x h in
      let (k', e', c') =
        serve_changes lib ctx' id mu' (version n) (serve lib ctx id mu (version n) d).1 y h' in
      let same : some c.new ≡ some c'.old = sym (new_row c) ∙ c'.found in
      omega (
        arith,
        version-injective e,
        version-injective e',
        c.next_version,
        c'.matched,
        ap row_of same,
      )

  -- A soft delete is final: after it no mutation of the vehicle succeeds, whatever version it
  -- names.
  pub serve_deleted :
      (reason : String) (m m' : IfMatch) (y : VehicleDetail × Etag)
      → (serve lib ctx id (soft_delete reason) m d).0 ≡ ok x
      → (serve lib ctx' id mu' m' (serve lib ctx id (soft_delete reason) m d).1).0 ≢ ok y
  serve_deleted reason m m' y h h' =
      let (k, e, c) = serve_changes lib ctx id (soft_delete reason) m d x h in
      let (k', e', c') =
        serve_changes lib ctx' id mu' m' (serve lib ctx id (soft_delete reason) m d).1 y h' in
      let same : some c.new ≡ some c'.old = sym (new_row c) ∙ c'.found in
      cc (c.effect, c'.live, same, ap mark_of c.effect)
