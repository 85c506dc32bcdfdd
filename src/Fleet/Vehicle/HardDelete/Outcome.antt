-- ===== src/Fleet/Vehicle/HardDelete/Outcome.antt =====
-- What a hard delete leaves.
use mathlib.Core.Path.{subst}
use lojinextv.Prelude.{
  ℕ, ◌≡◌, refl, ◌⊎◌, inl, inr, String, true, false, not, ◌&&◌, Option, none, some, List, [], ◌∷◌,
  ◌++◌, arith, Option-cases, Bool-cases, ◌==◌, filter, ltb, All,
}
use lojinextv.Exec.{Session, Result, ok, err, request, ◌>>=◌}
use lojinextv.Exec.Post.{Post, Post-raise_if, Post-require}
use lojinextv.Outbox.{is_live, pending}
use lojinextv.Fleet.Tables.{
  Vehicle, DeleteResult, SpecVersion, OutboxRow, DeleteAudit, ReferenceCheck, ReferenceCheckStatus,
  OutboxPayload, OutboxData, Db, AggregateType,
}
use lojinextv.Fleet.Session.{
  FleetError, Context, IfMatch, version, aggregate_eq, select_vehicle, dead_letter_by_aggregate,
  is_some, max_payload, event_payload, outbox_row, build_vehicle_snapshot,
}
use lojinextv.Fleet.Vehicle.Steps.{clean_session}
use lojinextv.Fleet.Vehicle.HardDelete.{
  TripAnswer, hard_delete_vehicle, delete_locked, check_references, unavailable, answered,
}

select-filter :
    (id : ℕ) (vs : List Vehicle)
    → select_vehicle id (filter (λ v. not (v.vehicle_id == id)) vs) ≡ none
unfolding select_vehicle
select-filter id [] = refl
select-filter id (v ∷ vs) = ground (arith, select-filter id vs)

-- no spec version of the vehicle is left
abbrev pub NoSpecs : ℕ → List SpecVersion → Type 0
NoSpecs id = All (λ s. (s.vehicle_id == id) ≡ false)

NoSpecs-filter :
    (id : ℕ) (ss : List SpecVersion) → NoSpecs id (filter (λ s. not (s.vehicle_id == id)) ss)
NoSpecs-filter id [] = tt
NoSpecs-filter id (s ∷ ss) = ground (arith, NoSpecs-filter id ss)

-- no event of the vehicle is left that the relay could still publish
abbrev pub Silenced : ℕ → List OutboxRow → Type 0
Silenced id = All (λ r.
    (aggregate_eq r.aggregate_type AggregateType.vehicle
      && (r.aggregate_id == id)
      && is_live r.publish_status)
    ≡ false)

Silenced-dead_letter : (id : ℕ) (rs : List OutboxRow) → Silenced id (dead_letter_by_aggregate id rs)
unfolding dead_letter_by_aggregate
Silenced-dead_letter id [] = tt
Silenced-dead_letter id (r ∷ rs) = ground (arith, Silenced-dead_letter id rs)

-- the trip service was not asked, or knows of no reference
abbrev pub Allows : Option TripAnswer → Type 0
Allows none = Unit
Allows (some unavailable) = ⊥
Allows (some (answered r)) = r.has_references ≡ false

-- What a hard delete that succeeds leaves of the database `d` that its last stage found. `seen` is
-- the vehicle that it checked: the object loaded first, or the locked row, as the session chose.
pub record Gone (reload : Vehicle → Vehicle → Vehicle) (id : ℕ) (m : IfMatch)
    (checker : Option TripAnswer) (audit : ℕ) (d after : Db) : Type 0 where
  pub loaded : Vehicle
  pub row : Vehicle
  pub found : select_vehicle id d.vehicles ≡ some row
  pub named : m ≡ version (reload loaded row).row_version
  pub marked : is_some (reload loaded row).soft_deleted_at_utc ≡ true
  pub allowed : Allows checker
  pub vehicle : select_vehicle id after.vehicles ≡ none
  pub specs : NoSpecs id after.specs
  pub earlier : List OutboxRow
  pub tombstone : OutboxRow
  pub outbox : after.outbox ≡ earlier ++ tombstone ∷ []
  pub silenced : Silenced id earlier
  pub waiting : tombstone.publish_status ≡ pending
  pub entry : DeleteAudit
  pub audited : after.delete_audits ≡ d.delete_audits ++ entry ∷ []
  pub audit_id : entry.delete_audit_id ≡ audit
  pub success : entry.delete_result ≡ DeleteResult.succeeded

module _ (reload : Vehicle → Vehicle → Vehicle) (ctx : Context) (id : ℕ) (reason : String)
    (expected : ℕ) (d : Db) (checker : Option TripAnswer) (allowed : Allows checker)
    (old : Vehicle) where
  abbrev Q : ℕ → Session Db → Type 0
  Q audit s = Gone reload id (version expected) checker audit d s.committed

  delete_locked-Post :
      (status : ReferenceCheckStatus) (answer : Option ReferenceCheck)
      → Post Q d (delete_locked reload ctx id reason expected old status answer (clean_session d))
  unfolding delete_locked
  delete_locked-Post status answer =
      Post-require Q d (select_vehicle id d.vehicles) _ _ _ refl λ row found.
        Post-raise_if Q d (not ((reload old row).row_version == expected)) _ _ _ refl λ same.
          Post-raise_if Q d (not (is_some (reload old row).soft_deleted_at_utc)) _ _ _ refl
            λ marked.
              elim (Bool-cases (ltb max_payload (ctx.json_length (tombstone_payload row)))) [
                | inl y ↦ rw y refl
                | inr y ↦ rw y (record {
                  loaded = old;
                  row = row;
                  found = found;
                  named = ground arith;
                  marked = ground arith;
                  allowed = allowed;
                  vehicle = select-filter id d.vehicles;
                  specs = NoSpecs-filter id d.specs;
                  earlier = dead_letter_by_aggregate id d.outbox;
                  tombstone =
                      outbox_row ctx (ctx.ulid 2) id "fleet.vehicle.hard_deleted.v1"
                        (tombstone_payload row);
                  outbox = refl;
                  silenced = Silenced-dead_letter id d.outbox;
                  waiting = refl;
                  entry = _;
                  audited = refl;
                  audit_id = refl;
                  success = refl;
                })
              ]
    where
      tombstone_payload : Vehicle → OutboxPayload
      tombstone_payload row =
          event_payload ctx (ctx.ulid 1) id "fleet.vehicle.hard_deleted.v1" none
            (OutboxData.tombstone (build_vehicle_snapshot (reload old row)))

audit-injective : (a b : ℕ) → ◌≡◌ {A = Result FleetError ℕ} (ok a) (ok b) → a ≡ b
audit-injective a b q = cc

module _ (reload : Vehicle → Vehicle → Vehicle) (meanwhile : Db → Db) (ctx : Context) (id : ℕ)
    (reason : String) (checker : Option TripAnswer) (d : Db) where
  abbrev End : IfMatch → Result FleetError ℕ × Session Db → Type 0
  End m (ok audit, s) = Gone reload id m checker audit (meanwhile d) s.committed
  End m (err e, s) = (s.committed ≡ d) ⊎ (s.committed ≡ meanwhile d)

  Post→End :
      (n : ℕ) (r : Result FleetError ℕ × Session Db)
      → Post
          (λ audit s. Gone reload id (version n) checker audit (meanwhile d) s.committed)
          (meanwhile d)
          r
      → End (version n) r
  Post→End n (ok audit, s) p = p
  Post→End n (err e, s) p = inr p

  stage_3 :
      (n : ℕ) (v : Vehicle) (status : ReferenceCheckStatus) (answer : Option ReferenceCheck)
      → Allows checker
      → End
          (version n)
          (delete_locked reload ctx id reason n v status answer (clean_session (meanwhile d)))
  stage_3 n v status answer allowed =
      Post→End n
        (delete_locked reload ctx id reason n v status answer (clean_session (meanwhile d)))
        (delete_locked-Post reload ctx id reason n (meanwhile d) checker allowed v status answer)

  stage_2 :
      (n : ℕ) (v : Vehicle) (o : Option TripAnswer)
      → checker ≡ o
      → End (version n) (
          (check_references ctx id v o >>= λ (status, answer).
          delete_locked reload ctx id reason n v status answer)
            (clean_session (meanwhile d)))
  unfolding check_references
  stage_2 n v none e = stage_3 n v _ _ (rw e tt)
  stage_2 n v (some unavailable) e = inr refl
  stage_2 n v (some (answered r)) e = elim (Bool-cases r.has_references) [
    | inl y ↦ rw y (inr refl)
    | inr y ↦ rw y (stage_3 n v _ _ (rw e y))
  ]

  hard_delete_End :
      (m : IfMatch)
      → End m (hard_delete_vehicle reload meanwhile ctx id reason m checker (clean_session d))
  unfolding hard_delete_vehicle
  hard_delete_End IfMatch.missing = inl refl
  hard_delete_End IfMatch.malformed = inl refl
  hard_delete_End (version n) = elim (Option-cases (select_vehicle id d.vehicles)) [
    | inl e ↦ rw e (inl refl)
    | inr (v, e) ↦ rw e (elim (Bool-cases (v.row_version == n)) [
      | inr y ↦ rw y (inl refl)
      | inl y ↦ rw y (elim (Bool-cases (is_some v.soft_deleted_at_utc)) [
        | inr u ↦ rw u (inl refl)
        | inl u ↦ rw u (stage_2 n v checker refl)
      ])
    ])
  ]

  abbrev Ends : IfMatch → Result FleetError ℕ × Session Db → Type 0
  Ends m r =
      ((e : FleetError) → r.0 ≡ err e → (r.1.committed ≡ d) ⊎ (r.1.committed ≡ meanwhile d))
      × ((audit : ℕ) → r.0 ≡ ok audit → Gone reload id m checker audit (meanwhile d) r.1.committed)

  End→Ends : (m : IfMatch) (r : Result FleetError ℕ × Session Db) → End m r → Ends m r
  End→Ends m (ok audit, s) p = (
    λ e q. cc,
    λ a q.
        subst (λ k. Gone reload id m checker k (meanwhile d) s.committed)
          (audit-injective audit a q) p,
  )
  End→Ends m (err e, s) p = (λ _ _. p, λ a q. cc)

module _ (reload : Vehicle → Vehicle → Vehicle) (meanwhile : Db → Db) (ctx : Context) (id : ℕ)
    (reason : String) (m : IfMatch) (checker : Option TripAnswer) (d : Db) where
  -- A hard delete that is refused commits nothing, the audit row of the refusal included: the
  -- database is the one before it, or that with what other requests committed meanwhile.
  pub hard_delete_refused :
      (e : FleetError)
      → (request (hard_delete_vehicle reload meanwhile ctx id reason m checker) d).0 ≡ err e
      → ((request (hard_delete_vehicle reload meanwhile ctx id reason m checker) d).1 ≡ d)
        ⊎ ((request (hard_delete_vehicle reload meanwhile ctx id reason m checker) d).1
            ≡ meanwhile d)
  hard_delete_refused =
      (End→Ends reload meanwhile ctx id reason checker d m _
        (hard_delete_End reload meanwhile ctx id reason checker d m)).0

  -- A hard delete that succeeds was not told of a reference, and leaves no row, no spec version
  -- and no event to publish of the vehicle but its tombstone, with one audit row; the vehicle that
  -- it checked had the version that was named and was soft-deleted.
  pub hard_delete-Gone :
      (audit : ℕ)
      → (request (hard_delete_vehicle reload meanwhile ctx id reason m checker) d).0 ≡ ok audit
      → Gone reload id m checker audit
          (meanwhile d)
          (request (hard_delete_vehicle reload meanwhile ctx id reason m checker) d).1
  hard_delete-Gone =
      (End→Ends reload meanwhile ctx id reason checker d m _
        (hard_delete_End reload meanwhile ctx id reason checker d m)).1
