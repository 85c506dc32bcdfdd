-- ===== src/Fleet/Vehicle/Create/Idempotent.antt =====
-- A create that is sent again.
use lojinextv.Prelude.{
  ℕ, ◌≡◌, ◌≢◌, refl, inl, inr, not, Option, none, some, List, [], ◌∷◌, ◌++◌, arith, Option-cases,
  Bool-cases, ◌==◌, ltb,
}
use lojinextv.Exec.{Session, ok, err, request}
use lojinextv.Exec.Post.{Post, Post-raise_if, Post-request}
use lojinextv.Fleet.Tables.{
  VehicleCreateRequest, Vehicle, SpecVersion, IdempotencyRecord, OutboxPayload, admin, Db,
}
use lojinextv.Fleet.Session.{
  Library, Context, max_payload, event_payload, serialize_vehicle_admin,
  build_vehicle_detail_response, master, check_asset_code_uniqueness, check_plate_uniqueness,
  idempotency_hash_mismatch,
}
use lojinextv.Fleet.Vehicle.{vehicle}
use lojinextv.Fleet.Vehicle.Steps.{clean_session}
use lojinextv.Fleet.Vehicle.Effects.{normalized_cases}
use lojinextv.Fleet.Vehicle.Create.{
  Created, find_existing_record, replay, create_fresh, create_vehicle, store_created, new_record,
  spec_etag, new_vehicle,
}

-- What a create leaves for the next one with its key: a record from which the same answer is made.
pub record Recorded (key hash : ℕ) (x : Created) (d : Db) : Type 0 where
  pub entry : IdempotencyRecord
  pub stored : find_existing_record key d.idempotency ≡ some entry
  pub same_hash : entry.request_hash ≡ hash
  pub answers : replay entry ≡ x

find-append_new :
    (key : ℕ) (rs : List IdempotencyRecord) (r : IdempotencyRecord)
    → find_existing_record key rs ≡ none
    → r.idempotency_key ≡ key
    → find_existing_record key (rs ++ r ∷ []) ≡ some r
unfolding find_existing_record
find-append_new key [] r h e = ground arith
find-append_new key (x ∷ rs) r h e = ground (arith, find-append_new key rs r)

module _ (ctx : Context) (key hash : ℕ) (v : Vehicle) (spec : Option SpecVersion) (drawn : ℕ)
    (d : Db) where
  abbrev created_payload : OutboxPayload
  created_payload =
      event_payload ctx (ctx.ulid drawn) v.vehicle_id "fleet.vehicle.created.v1" (some 1)
        (admin (serialize_vehicle_admin v))

  answer_replayed :
      v.row_version ≡ 1
      → replay (new_record ctx key hash (build_vehicle_detail_response v spec)) ≡ (
        build_vehicle_detail_response v spec,
        master vehicle v.vehicle_id 1,
        201,
        spec_etag v.vehicle_id spec v.spec_stream_version,
      )
  unfolding replay build_vehicle_detail_response
  answer_replayed one = ground arith

  store_created-Post :
      find_existing_record key d.idempotency ≡ none
      → v.row_version ≡ 1
      → Post
          (λ x s. Recorded key hash x s.committed)
          d
          (store_created ctx key hash v spec drawn (clean_session d))
  unfolding store_created
  store_created-Post new one = elim (Option-cases ctx.flush) [
    | inr (e, h) ↦ rw h refl
    | inl h ↦ rw h (elim (Bool-cases (ltb max_payload (ctx.json_length created_payload))) [
      | inl y ↦ rw y refl
      | inr y ↦ rw y (record {
        entry = new_record ctx key hash (build_vehicle_detail_response v spec);
        stored = find-append_new key d.idempotency _ new refl;
        same_hash = refl;
        answers = answer_replayed one;
      })
    ])
  ]

module _ (lib : Library) (ctx : Context) (key : ℕ) (body : VehicleCreateRequest) (d : Db) where
  abbrev Q : Created → Db → Type 0
  Q x d' = Recorded key (lib.request_hash body) x d'

  abbrev Qs : Created → Session Db → Type 0
  Qs x s = Q x s.committed

  create_fresh-Post :
      find_existing_record key d.idempotency ≡ none
      → Post Qs d (create_fresh lib ctx key body (clean_session d))
  unfolding create_fresh
  create_fresh-Post new = elim (normalized_cases lib body.plate (clean_session d)) [
    | inl e ↦ rw e refl
    | inr (p, e, n) ↦ rw e (
        Post-raise_if Qs d (not (check_asset_code_uniqueness body.asset_code d)) _ _ _ refl λ _.
          Post-raise_if Qs d (not (check_plate_uniqueness p none d)) _ _ _ refl λ _.
            store_created-Post ctx key (lib.request_hash body) (new_vehicle ctx body p) _ _ d new
              refl)
  ]

  create_vehicle-Post : Post Qs d (create_vehicle lib ctx (some key) body (clean_session d))
  unfolding create_vehicle
  create_vehicle-Post = elim (Option-cases (find_existing_record key d.idempotency)) [
    | inl e ↦ rw e (create_fresh-Post e)
    | inr (r, e) ↦ rw e (
        Post-raise_if Qs d (not (r.request_hash == lib.request_hash body)) _ _ _ refl
          λ t. record { entry = r; stored = e; same_hash = ground arith; answers = refl })
  ]

  -- a recorded answer is given again, and nothing is written
  create-Recorded :
      (x : Created) (ctx' : Context)
      → Recorded key (lib.request_hash body) x d
      → request (create_vehicle lib ctx' (some key) body) d ≡ (ok x, d)
  unfolding create_vehicle
  create-Recorded x ctx' r = rw r.stored (ground (arith, r.same_hash, r.answers))

  -- the same key for another body is refused, and nothing is written
  create-Recorded_other :
      (x : Created) (ctx' : Context) (other : VehicleCreateRequest)
      → Recorded key (lib.request_hash body) x d
      → lib.request_hash other ≢ lib.request_hash body
      → request (create_vehicle lib ctx' (some key) other) d ≡ (err idempotency_hash_mismatch, d)
  unfolding create_vehicle
  create-Recorded_other x ctx' other r ne = rw r.stored (ground (arith, r.same_hash))

module _ (lib : Library) (ctx ctx' : Context) (key : ℕ) (body : VehicleCreateRequest) (d : Db)
    (x : Created) where
  -- A create that succeeded and is sent again with its idempotency key and body answers as it did
  -- the first time, and the second request changes nothing.
  pub create_again :
      (request (create_vehicle lib ctx (some key) body) d).0 ≡ ok x
      → request
          (create_vehicle lib ctx' (some key) body)
          (request (create_vehicle lib ctx (some key) body) d).1
        ≡ (ok x, (request (create_vehicle lib ctx (some key) body) d).1)
  create_again h =
      create-Recorded lib ctx key body (request (create_vehicle lib ctx (some key) body) d).1 x ctx'
        ((Post-request (Q lib ctx key body d) (create_vehicle lib ctx (some key) body) d
            (create_vehicle-Post lib ctx key body d)).1
          x h)

  -- The idempotency key of a create that succeeded, sent with a body of another hash, is refused,
  -- and nothing is written.
  pub create_other_body :
      (other : VehicleCreateRequest)
      → lib.request_hash other ≢ lib.request_hash body
      → (request (create_vehicle lib ctx (some key) body) d).0 ≡ ok x
      → request
          (create_vehicle lib ctx' (some key) other)
          (request (create_vehicle lib ctx (some key) body) d).1
        ≡ (err idempotency_hash_mismatch, (request (create_vehicle lib ctx (some key) body) d).1)
  create_other_body other ne h =
      create-Recorded_other lib ctx key body (request (create_vehicle lib ctx (some key) body) d).1
        x ctx' other
        ((Post-request (Q lib ctx key body d) (create_vehicle lib ctx (some key) body) d
            (create_vehicle-Post lib ctx key body d)).1
          x h)
        ne
