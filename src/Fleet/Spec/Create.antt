-- ===== src/Fleet/Spec/Create.antt =====
-- A new version of a specification, step by step: what a request that succeeds has checked, and what
-- it leaves.
use lojinextv.Prelude.{
  ℕ, ◌+◌, ◌≡◌, refl, Bool, true, false, not, Option, none, some, List, [], ◌∷◌, ◌++◌, arith, ltb,
  ◌==◌, any, update_where, ◌&&◌, ◌||◌, inl, inr, Option-cases, Bool-cases,
}
use lojinextv.Exec.{Result, ok, err, Session, ◌>>=◌, request}
use lojinextv.Exec.Post.{Post, Post-request}
use lojinextv.Fleet.Tables.{
  MasterStatus, Vehicle, SpecVersion, SpecAttributes, InitialSpec, OutboxPayload, OutboxData, Db,
}
use lojinextv.Fleet.Session.{
  FleetError, IfMatch, missing, malformed, version, Etag, spec, Context, Handler, is_some,
  status_eq, select_vehicle, write_vehicle, max_payload, event_payload,
}
use lojinextv.Fleet.Vehicle.{vehicle}
use lojinextv.Fleet.Vehicle.Steps.{clean_session}
use lojinextv.Fleet.Spec.{
  get_max_version_no, window_valid, conflicts, closed, is_open, new_version, respecified,
  effective_from, locked_active, store_version, create_vehicle_spec_version,
}

-- the rows of all vehicles that a new version leaves
abbrev pub with_version : ℕ → SpecVersion → List SpecVersion → List SpecVersion
with_version id s specs = update_where (is_open id) (closed s.effective_from_utc) specs ++ s ∷ []

-- the UPDATE would leave a window with no instant in it
abbrev pub inverted : ℕ → ℕ → List SpecVersion → Bool
inverted id t = any (λ s. is_open id s && not (window_valid (closed t s)))

-- What a request that succeeds has found and left.
pub record Versioned (ctx : Context) (id : ℕ) (body : InitialSpec) (m : IfMatch) (before : Db)
    (x : SpecVersion × Etag) (after : Db) : Type 0 where
  pub old : Vehicle
  pub found : select_vehicle id before.vehicles ≡ some old
  pub live : old.soft_deleted_at_utc ≡ none
  pub active : status_eq old.status MasterStatus.active ≡ true
  pub matched : m ≡ version old.spec_stream_version
  pub answer : x.0 ≡ new_version ctx id body (get_max_version_no id before + 1)
  pub etag : x.1 ≡ spec vehicle id (old.spec_stream_version + 1)
  pub in_order : inverted id (effective_from ctx body) before.specs ≡ false
  pub rows : after.specs ≡ with_version id x.0 before.specs
  pub written : after.vehicles ≡ write_vehicle (respecified ctx old) before.vehicles

abbrev pub version_payload : Context → ℕ → SpecVersion → Vehicle → OutboxPayload
version_payload ctx id s v =
    event_payload ctx (ctx.ulid 1) id "fleet.vehicle.spec_version_created.v1" none
      (OutboxData.spec_created s.vehicle_spec_version_id s.version_no v.spec_stream_version)

abbrev Answer : Type 0
Answer = SpecVersion × Etag

abbrev is_inactive : Vehicle → Bool
is_inactive v = is_some v.soft_deleted_at_utc || not (status_eq v.status MasterStatus.active)

not_inactive_by : (o : Option ℕ) (b : Bool) → (is_some o || not b) ≡ false → (o ≡ none) × (b ≡ true)
not_inactive_by none true h = (refl, refl)
not_inactive_by none false h = cc
not_inactive_by (some a) b h = cc

not_inactive :
    (v : Vehicle)
    → is_inactive v ≡ false
    → (v.soft_deleted_at_utc ≡ none) × (status_eq v.status MasterStatus.active ≡ true)
not_inactive v = not_inactive_by v.soft_deleted_at_utc (status_eq v.status MasterStatus.active)

module _ (Q : Answer → Session Db → Type 0) (c : Db) (s : Session Db)
    (clean : s.committed ≡ c) where
  Post-locked_active :
      (m : IfMatch) (id : ℕ) (f : Vehicle → Handler Answer)
      → ((v : Vehicle)
          → select_vehicle id s.work.vehicles ≡ some v
          → v.soft_deleted_at_utc ≡ none
          → status_eq v.status MasterStatus.active ≡ true
          → m ≡ version v.spec_stream_version
          → Post Q c (f v s))
      → Post Q c ((locked_active m id >>= f) s)
  unfolding locked_active
  Post-locked_active missing id f t = clean
  Post-locked_active malformed id f t = clean
  Post-locked_active (version n) id f t = elim (Option-cases (select_vehicle id s.work.vehicles)) [
    | inl e ↦ rw e clean
    | inr (v, e) ↦ rw e (elim (Bool-cases (is_inactive v)) [
      | inl a ↦ rw a clean
      | inr a ↦ rw a (elim (Bool-cases (v.spec_stream_version == n)) [
        | inr y ↦ rw y clean
        | inl y ↦ rw y (let (l, k) = not_inactive v a in t v e l k (ground arith))
      ])
    ])
  ]

  Post-store_version :
      (checks : SpecAttributes → Bool) (ctx : Context) (id : ℕ) (v : SpecVersion) (w : Vehicle)
      → ((x : Answer) (s' : Session Db)
          → x.0 ≡ v
          → x.1 ≡ spec vehicle id w.spec_stream_version
          → inverted id v.effective_from_utc s.work.specs ≡ false
          → s'.committed.specs ≡ with_version id v s.work.specs
          → s'.committed.vehicles ≡ write_vehicle w s.work.vehicles
          → Q x s')
      → Post Q c (store_version checks ctx id v w s)
  unfolding store_version
  Post-store_version checks ctx id v w t =
      elim (Bool-cases (inverted id v.effective_from_utc s.work.specs)) [
        | inl y ↦ rw y clean
        | inr y ↦ rw y (elim (Bool-cases (checks v.attributes)) [
          | inr a ↦ rw a clean
          | inl a ↦
              rw a
                (elim (Bool-cases (
                  any (conflicts v)
                    (update_where (is_open id) (closed v.effective_from_utc) s.work.specs))) [
                      | inl b ↦ rw b clean
                      | inr b ↦ rw b (elim (Option-cases ctx.flush) [
                        | inr (e, h) ↦ rw h clean
                        | inl h ↦
                            rw h
                              (elim (Bool-cases
                                (ltb max_payload (ctx.json_length (version_payload ctx id v w)))) [
                                  | inl z ↦ rw z clean
                                  | inr z ↦ rw z (t _ _ refl refl y refl refl)
                                ])
                      ])
                    ])
        ])
      ]

module _ (checks : SpecAttributes → Bool) (ctx : Context) (id : ℕ) (body : InitialSpec)
    (m : IfMatch) (d : Db) where
  create-Post :
      Post
        (λ x s. Versioned ctx id body m d x s.committed)
        d
        (create_vehicle_spec_version checks ctx id body m (clean_session d))
  unfolding create_vehicle_spec_version
  create-Post = Post-locked_active _ d (clean_session d) refl m id _ λ v f l a e.
      Post-store_version _ d (clean_session d) refl checks ctx id
        (new_version ctx id body (get_max_version_no id d + 1)) (respecified ctx v)
        λ x s p q r w u. record {
          old = v;
          found = f;
          live = l;
          active = a;
          matched = e;
          answer = p;
          etag = q;
          in_order = r;
          rows = rw p w;
          written = u;
        }

  abbrev pub created : Result FleetError (SpecVersion × Etag) × Db
  created = request (create_vehicle_spec_version checks ctx id body m) d

  pub create-Versioned :
      (x : SpecVersion × Etag) → created.0 ≡ ok x → Versioned ctx id body m d x created.1
  create-Versioned =
      (Post-request (λ x d'. Versioned ctx id body m d x d')
        (create_vehicle_spec_version checks ctx id body m) d create-Post).1

  -- A request for a new version that raises leaves the committed database as it was.
  pub create_refused : (e : FleetError) → created.0 ≡ err e → created.1 ≡ d
  create_refused =
      (Post-request (λ x d'. Versioned ctx id body m d x d')
        (create_vehicle_spec_version checks ctx id body m) d create-Post).0
