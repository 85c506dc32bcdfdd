-- ===== src/Driver/Lifecycle/Replay.antt =====
-- A request that is sent again with its request id.
use mathlib.Core.Path.{subst}
use lojinextv.Prelude.{
  ℕ, ◌≡◌, ◌≢◌, refl, ap, ◌∙◌, inl, inr, Bool, true, false, Option, none, some, List, [], ◌∷◌, ◌++◌,
  arith,
}
use lojinextv.Exec.{ok}
use lojinextv.StateMachine.Driver.{DriverStatus-discrete}
use lojinextv.Driver.{
  Driver, Resource, admin_view, manager_view, internal_view, Role, super_admin, admin, manager,
  Endpoint, IdempotencyRecord, Db,
}
use lojinextv.Driver.Session.{
  Context, serialize_driver_for_role, serialize_driver_admin, serialize_driver_manager,
  serialize_driver_internal, check_idempotency, select_driver, computed, endpoint_eq,
}
use lojinextv.Driver.Lifecycle.{
  Body, InactivateDriverRequest, Response, once, inactivate_driver, reactivate_driver,
  soft_delete_driver,
}
use lojinextv.Driver.Lifecycle.Outcome.{
  Request, inactivate, reactivate, soft_delete, handle, serve, endpoint, Effect, Moved,
}
use lojinextv.Driver.Lifecycle.Moves.{driver_outcome}

endpoint_eq_self : (e : Endpoint) → endpoint_eq e e ≡ true
endpoint_eq_self Endpoint.inactivate = refl
endpoint_eq_self Endpoint.reactivate = refl
endpoint_eq_self Endpoint.soft_delete = refl

endpoint_eq_same : (a b : Endpoint) → a ≡ b → endpoint_eq a b ≡ true
endpoint_eq_same a b e = subst (λ c. endpoint_eq a c ≡ true) e (endpoint_eq_self a)

find-append_record :
    (key : ℕ) (e : Endpoint) (id : ℕ) (rs : List IdempotencyRecord) (r : IdempotencyRecord)
    → check_idempotency key e id rs ≡ none
    → r.idempotency_key ≡ key
    → r.endpoint ≡ e
    → r.path_id ≡ id
    → check_idempotency key e id (rs ++ r ∷ []) ≡ some r
unfolding check_idempotency
find-append_record key e id [] r h a b c = ground (arith, endpoint_eq_same r.endpoint e b, a, c)
find-append_record key e id (x ∷ rs) r h a b c = ground (arith, find-append_record key e id rs r)

-- a request whose answer is recorded
handle_recorded :
    (ctx : Context) (id : ℕ) (q : Request) (if_match : Option ℕ) (d : Db) (key : ℕ)
    (r : IdempotencyRecord)
    → ctx.request_id ≡ some key
    → check_idempotency key (endpoint q) id d.idempotency ≡ some r
    → serve ctx id q if_match d ≡ (ok (r.response_body, none), d)
unfolding handle inactivate_driver reactivate_driver soft_delete_driver once
handle_recorded ctx id (inactivate body) if_match d key r e f = rw (e, f) refl
handle_recorded ctx id reactivate if_match d key r e f = rw (e, f) refl
handle_recorded ctx id (soft_delete body) if_match d key r e f = rw (e, f) refl

module _ (ctx ctx' : Context) (id : ℕ) (q q' : Request) (if_match if_match' : Option ℕ) (d : Db)
    (x : Response) (key : ℕ) where
  abbrev After : Db
  After = (serve ctx id q if_match d).1

  Moved-replay :
      (c : Moved ctx id q if_match d x After)
      → ctx.request_id ≡ some key
      → ctx'.request_id ≡ some key
      → endpoint q' ≡ endpoint q
      → serve ctx' id q' if_match' After
        ≡ (ok (serialize_driver_for_role c.new ctx.auth.role, none), After)
  Moved-replay c e e' s =
      let (r, recorded, k, end, path, body) = c.recorded key e in
      handle_recorded ctx' id q' if_match' After key r e' (
        rw (recorded, s)
          (find-append_record key (endpoint q) id d.idempotency r (c.fresh key e) k end path))
      ∙ ap (λ b. (ok (b, none), After)) body

  -- A lifecycle request that changed the database is answered again, for its request id, with the
  -- driver as the first request changed it, and the second changes nothing.
  pub driver_replay :
      (serve ctx id q if_match d).0 ≡ ok x
      → (serve ctx id q if_match d).1 ≢ d
      → ctx.request_id ≡ some key
      → ctx'.request_id ≡ some key
      → endpoint q' ≡ endpoint q
      → (old new : Driver) × (select_driver id d.drivers ≡ some old)
        × Effect ctx q old new
        × (x ≡ (serialize_driver_for_role (computed new) ctx.auth.role, some new.row_version))
        × (serve ctx' id q' if_match' After
            ≡ (ok (serialize_driver_for_role new ctx.auth.role, none), After))
  driver_replay h n e e' s = elim (driver_outcome ctx id if_match d q x h) [
    | inl (_, same) ↦ absurd (n same)
    | inr c ↦ (c.old, c.new, c.found, c.effect, c.answer, Moved-replay c e e' s)
  ]

abbrev pub assignable_of : Resource → Bool
assignable_of (admin_view v) = v.is_assignable
assignable_of (manager_view v) = v.is_assignable
assignable_of (internal_view v) = v.is_assignable

assignable_view :
    (d : Driver) (role : Role) → assignable_of (serialize_driver_for_role d role) ≡ d.is_assignable
unfolding serialize_driver_for_role serialize_driver_admin serialize_driver_manager
    serialize_driver_internal
assignable_view d super_admin = refl
assignable_view d admin = refl
assignable_view d manager = refl
assignable_view d Role.other = refl

module _ (ctx ctx' : Context) (id : ℕ) (body body' : Body InactivateDriverRequest)
    (if_match if_match' : Option ℕ) (d : Db) (x : Response) (key : ℕ) (old : Driver) where
  -- When an assignable driver has been inactivated by a request with a request id, the first
  -- answer says that it is not assignable, and the answer to the same request sent again says that
  -- it is.
  pub inactivate_replay_stale :
      (serve ctx id (inactivate body) if_match d).0 ≡ ok x
      → (serve ctx id (inactivate body) if_match d).1 ≢ d
      → ctx.request_id ≡ some key
      → ctx'.request_id ≡ some key
      → select_driver id d.drivers ≡ some old
      → old.is_assignable ≡ true
      → (y : Response) × ((serve ctx' id
            (inactivate body')
            if_match'
            (serve ctx id (inactivate body) if_match d).1).0
          ≡ ok y)
        × (assignable_of x.0 ≡ false)
        × (assignable_of y.0 ≡ true)
  unfolding DriverStatus-discrete
  inactivate_replay_stale h n e e' f t =
      let (old', new, g, (b, _, made), answer, again) =
        driver_replay ctx ctx' id (inactivate body) (inactivate body') if_match if_match' d x key h
          n e e' refl in
      (
        (serialize_driver_for_role new ctx.auth.role, none),
        ap (λ r. r.0) again,
        ap (λ r. assignable_of r.0) answer
            ∙ assignable_view (computed new) ctx.auth.role
            ∙ rw made refl,
        assignable_view new ctx.auth.role ∙ rw made (cc (f, g, t)),
      )
