-- ===== src/Fleet/Vehicle/Steps.antt =====
-- The steps that the mutations of a vehicle share: the guarded read of the row, and the write of
-- the row and its events.
use lojinextv.Prelude.{
  ℕ, ◌+◌, ◌≡◌, refl, inl, inr, String, none, some, [], ◌∷◌, ◌++◌, arith, Option-cases, Bool-cases,
  ltb, ◌==◌,
}
use lojinextv.Exec.{Session, ◌>>=◌}
use lojinextv.Outbox.{pending}
use lojinextv.Exec.Post.{Post}
use lojinextv.Fleet.Tables.{
  Vehicle, VehiclePatchRequest, VehicleDetail, Db, TimelinePayload, OutboxData, OutboxRow,
  OutboxPayload,
}
use lojinextv.Fleet.Session.{
  IfMatch, version, Etag, master, Context, Handler, select_vehicle, write_vehicle, max_payload,
  event_payload, outbox_row,
}
use lojinextv.Fleet.Vehicle.{vehicle, locked_vehicle, store_change, store_patch}

-- What a successful mutation of the row `id` does: `old` is the row before, `new` the row after, and
-- `event` the one row that the same transaction adds to the outbox.
pub record Changed (K : Vehicle → Vehicle → Type 0) (id : ℕ) (n : ℕ) (before : Db)
    (x : VehicleDetail × Etag) (after : Db) : Type 0 where
  pub old : Vehicle
  pub new : Vehicle
  pub event : OutboxRow
  pub found : select_vehicle id before.vehicles ≡ some old
  pub matched : old.row_version ≡ n
  pub live : old.soft_deleted_at_utc ≡ none
  pub written : after.vehicles ≡ write_vehicle new before.vehicles
  pub same_id : new.vehicle_id ≡ id
  pub next_version : new.row_version ≡ n + 1
  pub effect : K old new
  pub etag : x.1 ≡ master vehicle id (n + 1)
  pub outbox : after.outbox ≡ before.outbox ++ event ∷ []
  pub about : event.aggregate_id ≡ id
  pub waiting : event.publish_status ≡ pending

abbrev pub row_payload : Context → ℕ → Vehicle → String → OutboxPayload
row_payload ctx id v name =
    event_payload ctx (ctx.ulid 0) id name (some v.row_version) OutboxData.nothing

module _ (Q : VehicleDetail × Etag → Session Db → Type 0) (c : Db) (s : Session Db)
    (clean : s.committed ≡ c) where
  -- the row is the one that the header names, and nothing has been written
  pub Post-locked :
      (m : IfMatch) (id : ℕ) (f : Vehicle → Handler (VehicleDetail × Etag))
      → ((v : Vehicle)
          → select_vehicle id s.work.vehicles ≡ some v
          → m ≡ version v.row_version
          → Post Q c (f v s))
      → Post Q c ((locked_vehicle m id >>= f) s)
  unfolding locked_vehicle
  Post-locked IfMatch.missing id f t = clean
  Post-locked IfMatch.malformed id f t = clean
  Post-locked (version n) id f t = elim (Option-cases (select_vehicle id s.work.vehicles)) [
    | inl e ↦ rw e clean
    | inr (v, e) ↦ rw e (elim (Bool-cases (v.row_version == n)) [
      | inl y ↦ rw y (t v e (ground arith))
      | inr y ↦ rw y clean
    ])
  ]

  pub Post-store_change :
      (ctx : Context) (id : ℕ) (v : Vehicle) (name : String) (payload : TimelinePayload)
      → ((x : VehicleDetail × Etag) (s' : Session Db) (event : OutboxRow)
          → x.1 ≡ master vehicle id v.row_version
          → s'.committed.vehicles ≡ write_vehicle v s.work.vehicles
          → s'.committed.outbox ≡ s.work.outbox ++ event ∷ []
          → event.aggregate_id ≡ id
          → event.publish_status ≡ pending
          → Q x s')
      → Post Q c (store_change ctx id v name payload s)
  unfolding store_change
  Post-store_change ctx id v name payload t = elim (Option-cases ctx.flush) [
    | inr (e, h) ↦ rw h clean
    | inl h ↦
        rw h (elim (Bool-cases (ltb max_payload (ctx.json_length (row_payload ctx id v name)))) [
          | inl y ↦ rw y clean
          | inr y ↦ rw y (
              t _ _ (outbox_row ctx (ctx.ulid 1) id name (row_payload ctx id v name)) refl refl refl
                refl refl)
        ])
  ]

  pub Post-store_patch :
      (ctx : Context) (id : ℕ) (old v : Vehicle) (body : VehiclePatchRequest)
      → ((x : VehicleDetail × Etag) (s' : Session Db) (event : OutboxRow)
          → x.1 ≡ master vehicle id v.row_version
          → s'.committed.vehicles ≡ write_vehicle v s.work.vehicles
          → s'.committed.outbox ≡ s.work.outbox ++ event ∷ []
          → event.aggregate_id ≡ id
          → event.publish_status ≡ pending
          → Q x s')
      → Post Q c (store_patch ctx id old v body s)
  unfolding store_patch
  Post-store_patch ctx id old v body t = elim (Option-cases ctx.flush) [
    | inr (e, h) ↦ rw h clean
    | inl h ↦
        rw h
          (elim (Bool-cases
            (ltb max_payload (ctx.json_length (row_payload ctx id v "fleet.vehicle.updated.v1")))) [
              | inl y ↦ rw y clean
              | inr y ↦ rw y (
                  t _ _
                    (outbox_row ctx (ctx.ulid 2) id "fleet.vehicle.updated.v1"
                      (row_payload ctx id v "fleet.vehicle.updated.v1"))
                    refl refl refl refl refl)
            ])
  ]

abbrev pub clean_session : Db → Session Db
clean_session d = record { committed = d; work = d }

module _ (id : ℕ) (m : IfMatch) (d : Db) where
  abbrev pub Done : (Vehicle → Vehicle → Type 0) → VehicleDetail × Etag → Session Db → Type 0
  Done K x s = (n : ℕ) × (m ≡ version n) × Changed K id n d x s.committed
