-- ===== src/Fleet/Vehicle/Effects.antt =====
-- What each mutation of a vehicle does when it succeeds; one that raises commits nothing.
use lojinextv.Prelude.{
  ℕ, ◌+◌, ◌≡◌, refl, ap, ◌∙◌, ◌⊎◌, inl, inr, String, Bool, true, Option, none, some, arith,
  Option-cases, Bool-cases, not,
}
use lojinextv.Exec.{Session, ok, err, ◌>>=◌}
use lojinextv.Exec.Post.{Post, Post-raise_if}
use lojinextv.Fleet.Plate.{Text, normalize_plate}
use lojinextv.Fleet.Tables.{MasterStatus, Vehicle, VehiclePatchRequest, VehicleDetail, Db}
use lojinextv.Fleet.Session.{
  Library, IfMatch, Etag, master, Context, Handler, is_some, status_eq, check_plate_uniqueness,
  invalid_plate,
}
use lojinextv.Fleet.Vehicle.{
  vehicle, normalized, patch_plate, lifecycle_transition, soft_delete_vehicle, patch_vehicle,
  patched, deleted, transitioned, new_or, some_or,
}
use lojinextv.Fleet.Vehicle.Steps.{
  Done, Post-locked, Post-store_change, Post-store_patch, clean_session,
}
use lojinextv.Fleet.Vehicle.Rows.{select_vehicle-id}

pub normalized_cases :
    (lib : Library) (plate : Text) (s : Session Db)
    → (normalized lib plate s ≡ (err invalid_plate, s))
      ⊎ ((p : Text) × (normalized lib plate s ≡ (ok p, s))
          × (normalize_plate lib.upper lib.is_space plate ≡ some p))
unfolding normalized
normalized_cases lib plate s = elim (Option-cases (normalize_plate lib.upper lib.is_space plate)) [
  | inl e ↦ inl (rw e refl)
  | inr (p, e) ↦ inr (p, rw e refl, e)
]

module _ (ctx : Context) (id : ℕ) (reason : String) (m : IfMatch) (d : Db) where
  abbrev Deletes : Vehicle → Vehicle → Type 0
  Deletes v v' = v' ≡ deleted ctx reason v

  pub soft_delete-Post :
      Post (Done id m d Deletes) d (soft_delete_vehicle ctx id reason m (clean_session d))
  unfolding soft_delete_vehicle
  soft_delete-Post =
      let Q = Done id m d Deletes in
      Post-locked Q d (clean_session d) refl m id _ λ v found names.
        Post-raise_if Q d (is_some v.soft_deleted_at_utc) _ _ _ refl λ live.
          Post-store_change Q d (clean_session d) refl ctx id (deleted ctx reason v) _ _
            λ x s event etag written outbox about waiting. (
              v.row_version,
              names,
              record {
                old = v;
                new = deleted ctx reason v;
                event = event;
                found = found;
                matched = refl;
                live = ground arith;
                written = written;
                same_id = select_vehicle-id id d.vehicles v found;
                next_version = refl;
                effect = refl;
                etag = etag;
                outbox = outbox;
                about = about;
                waiting = waiting;
              },
            )

  abbrev Moves : MasterStatus → (MasterStatus → Bool) → Vehicle → Vehicle → Type 0
  Moves target valid_from v v' = (valid_from v.status ≡ true) × (v' ≡ transitioned ctx target v)

  pub lifecycle_transition-Post :
      (target : MasterStatus) (valid_from : MasterStatus → Bool) (name : String)
      → Post
          (Done id m d (Moves target valid_from))
          d
          (lifecycle_transition ctx id reason target valid_from name m (clean_session d))
  unfolding lifecycle_transition
  lifecycle_transition-Post target valid_from name =
      let Q = Done id m d (Moves target valid_from) in
      Post-locked Q d (clean_session d) refl m id _ λ v found names.
        Post-raise_if Q d (is_some v.soft_deleted_at_utc) _ _ _ refl λ live.
          Post-raise_if Q d (status_eq v.status target) _ _ _ refl λ _.
            Post-raise_if Q d (not (valid_from v.status)) _ _ _ refl λ valid.
              Post-store_change Q d (clean_session d) refl ctx id (transitioned ctx target v) _ _
                λ x s event etag written outbox about waiting. (
                  v.row_version,
                  names,
                  record {
                    old = v;
                    new = transitioned ctx target v;
                    event = event;
                    found = found;
                    matched = refl;
                    live = ground arith;
                    written = written;
                    same_id = select_vehicle-id id d.vehicles v found;
                    next_version = refl;
                    effect = (ground arith, refl);
                    etag = etag;
                    outbox = outbox;
                    about = about;
                    waiting = waiting;
                  },
                )

-- a column after a PATCH that may send it
abbrev pub Assigned : {A : Type 0} → Option A → A → A → Type 0
Assigned none old new = new ≡ old
Assigned (some a) old new = new ≡ a

abbrev pub AssignedSome : {A : Type 0} → Option A → Option A → Option A → Type 0
AssignedSome none old new = new ≡ old
AssignedSome (some a) old new = new ≡ some a

-- the two plate columns
abbrev pub Plated : Library → Option Text → Vehicle → Vehicle → Type 0
Plated lib none v w =
    (w.plate_raw_current ≡ v.plate_raw_current)
    × (w.normalized_plate_current ≡ v.normalized_plate_current)
Plated lib (some plate) v w =
    (w.plate_raw_current ≡ plate)
    × (normalize_plate lib.upper lib.is_space plate ≡ some w.normalized_plate_current)

-- the columns that no PATCH touches
pub record Kept (v w : Vehicle) : Type 0 where
  pub status : w.status ≡ v.status
  pub mark : w.soft_deleted_at_utc ≡ v.soft_deleted_at_utc
  pub marked_by : w.soft_deleted_by ≡ v.soft_deleted_by
  pub reason : w.soft_delete_reason ≡ v.soft_delete_reason
  pub code : w.asset_code ≡ v.asset_code
  pub spec : w.spec_stream_version ≡ v.spec_stream_version
  pub id : w.vehicle_id ≡ v.vehicle_id
  pub created_at : w.created_at_utc ≡ v.created_at_utc
  pub created_by : w.created_by ≡ v.created_by

-- the row that the plate part of a PATCH gives
record PlateSet (lib : Library) (plate : Option Text) (v w : Vehicle) : Type 0 where
  kept : Kept v w
  plated : Plated lib plate v w
  brand : w.brand ≡ v.brand
  model : w.model ≡ v.model
  model_year : w.model_year ≡ v.model_year
  ownership_type : w.ownership_type ≡ v.ownership_type
  notes : w.notes ≡ v.notes
  row : w.row_version ≡ v.row_version

abbrev kept_all : (v : Vehicle) → Kept v v
kept_all v = record {
  status = refl;
  mark = refl;
  marked_by = refl;
  reason = refl;
  code = refl;
  spec = refl;
  id = refl;
  created_at = refl;
  created_by = refl;
}

assigned :
    {A : Type 0} (sent : Option A) (old old' : A)
    → old' ≡ old
    → Assigned sent old (new_or sent old')
assigned none old old' e = e
assigned (some a) old old' e = refl

assigned_some :
    {A : Type 0} (sent : Option A) (old old' : Option A)
    → old' ≡ old
    → AssignedSome sent old (some_or sent old')
assigned_some none old old' e = e
assigned_some (some a) old old' e = refl

module _ (lib : Library) (id : ℕ) (d : Db) (Q : VehicleDetail × Etag → Session Db → Type 0)
    (s : Session Db) (clean : s.committed ≡ d) where
  Post-patch_plate :
      (plate : Option Text) (v : Vehicle) (f : Vehicle → Handler (VehicleDetail × Etag))
      → ((w : Vehicle) → PlateSet lib plate v w → Post Q d (f w s))
      → Post Q d ((patch_plate lib id plate v >>= f) s)
  unfolding patch_plate
  Post-patch_plate none v f t = t v (record {
    kept = kept_all v;
    plated = (refl, refl);
    brand = refl;
    model = refl;
    model_year = refl;
    ownership_type = refl;
    notes = refl;
    row = refl;
  })
  Post-patch_plate (some plate) v f t = elim (normalized_cases lib plate s) [
    | inl e ↦ rw e clean
    | inr (p, e, n) ↦ rw e (elim (Bool-cases (check_plate_uniqueness p (some id) s.work)) [
      | inl y ↦ rw y (
          t (record v { plate_raw_current = plate; normalized_plate_current = p })
            (record {
              kept = record {
                status = refl;
                mark = refl;
                marked_by = refl;
                reason = refl;
                code = refl;
                spec = refl;
                id = refl;
                created_at = refl;
                created_by = refl;
              };
              plated = (refl, n);
              brand = refl;
              model = refl;
              model_year = refl;
              ownership_type = refl;
              notes = refl;
              row = refl;
            }))
      | inr y ↦ rw y clean
    ])
  ]

-- the row that a PATCH leaves: every column that is sent has the value that was sent, and all others
-- are as they were
pub record Patches (lib : Library) (ctx : Context) (body : VehiclePatchRequest) (v w : Vehicle)
    : Type 0 where
  pub kept : Kept v w
  pub plated : Plated lib body.plate v w
  pub brand : AssignedSome body.brand v.brand w.brand
  pub model : AssignedSome body.model v.model w.model
  pub model_year : AssignedSome body.model_year v.model_year w.model_year
  pub ownership_type : Assigned body.ownership_type v.ownership_type w.ownership_type
  pub notes : AssignedSome body.notes v.notes w.notes
  pub updated_at : w.updated_at_utc ≡ ctx.now
  pub updated_by : w.updated_by ≡ ctx.auth

Plated-patched :
    (lib : Library) (ctx : Context) (body : VehiclePatchRequest) (plate : Option Text)
    (v w : Vehicle)
    → Plated lib plate v w
    → Plated lib plate v (patched ctx body w)
Plated-patched lib ctx body none v w h = h
Plated-patched lib ctx body (some plate) v w h = h

module _ (lib : Library) (ctx : Context) (id : ℕ) (body : VehiclePatchRequest) (m : IfMatch)
    (d : Db) where
  pub patch_vehicle-Post :
      Post
        (Done id m d (Patches lib ctx body))
        d
        (patch_vehicle lib ctx id body m (clean_session d))
  unfolding patch_vehicle
  patch_vehicle-Post =
      let Q = Done id m d (Patches lib ctx body) in
      Post-locked Q d (clean_session d) refl m id _ λ v found names.
        Post-raise_if Q d (is_some v.soft_deleted_at_utc) _ _ _ refl λ live.
          Post-patch_plate lib id d Q (clean_session d) refl body.plate v _ λ w same.
            Post-store_patch Q d (clean_session d) refl ctx id v (patched ctx body w) body
              λ x s event etag written outbox about waiting. (
                v.row_version,
                names,
                record {
                  old = v;
                  new = patched ctx body w;
                  event = event;
                  found = found;
                  matched = refl;
                  live = ground arith;
                  written = written;
                  same_id = same.kept.id ∙ select_vehicle-id id d.vehicles v found;
                  next_version = ap (λ k. k + 1) same.row;
                  effect = record {
                    kept = record {
                      status = same.kept.status;
                      mark = same.kept.mark;
                      marked_by = same.kept.marked_by;
                      reason = same.kept.reason;
                      code = same.kept.code;
                      spec = same.kept.spec;
                      id = same.kept.id;
                      created_at = same.kept.created_at;
                      created_by = same.kept.created_by;
                    };
                    plated = Plated-patched lib ctx body body.plate v w same.plated;
                    brand = assigned_some body.brand v.brand w.brand same.brand;
                    model = assigned_some body.model v.model w.model same.model;
                    model_year =
                        assigned_some body.model_year v.model_year w.model_year same.model_year;
                    ownership_type =
                        assigned body.ownership_type v.ownership_type w.ownership_type
                          same.ownership_type;
                    notes = assigned_some body.notes v.notes w.notes same.notes;
                    updated_at = refl;
                    updated_by = refl;
                  };
                  etag = etag ∙ ap (λ k. master vehicle id (k + 1)) same.row;
                  outbox = outbox;
                  about = about;
                  waiting = waiting;
                },
              )
