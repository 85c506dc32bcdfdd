-- ===== src/Driver/Lifecycle/Moves.antt =====
-- The lifecycle endpoints: what their requests do, and what they leave as it was.
use lojinextv.Prelude.{ℕ, ◌≡◌, ◌≢◌, refl, inl, String, Option, none, some, if◌then◌else◌}
use lojinextv.Exec.{ok, err, ◌>>=◌}
use lojinextv.Exec.Post.{Post, Post-request}
use lojinextv.StateMachine.Driver.{active, inactive, cancelled}
use lojinextv.Driver.{Driver, Endpoint, IdempotencyRecord, Db}
use lojinextv.Driver.Session.{DriverError, Context, check_idempotency, select_driver}
use lojinextv.Driver.Lifecycle.{
  Body, empty, malformed, given, InactivateDriverRequest, Response, status_is, parse_body,
  inactivated, inactivate_live, inactivate_driver, reactivated, reactivate_driver, soft_deleted,
  soft_delete_live, soft_delete_driver, unchanged,
}
use lojinextv.Driver.Lifecycle.Outcome.{
  Request, inactivate, reactivate, soft_delete, handle, serve, endpoint, Fresh, Outcome,
  clean_session, Q, Post-once, Post-found, Post-transition, Post-store, moves_or_stays,
}

module _ (ctx : Context) (id : ℕ) (if_match : Option ℕ) (d : Db) where
  replayed :
      (q : Request) (key : ℕ) (r : IdempotencyRecord)
      → ctx.request_id ≡ some key
      → check_idempotency key (endpoint q) id d.idempotency ≡ some r
      → Q ctx id q if_match d (r.response_body, none) (clean_session d)
  replayed q key r e f = inl (inl (key, r, e, f, refl), refl)

  inactivate_found :
      (body : Body InactivateDriverRequest) (old : Driver)
      → Fresh ctx Endpoint.inactivate id d
      → select_driver id d.drivers ≡ some old
      → if_match ≡ some old.row_version
      → Post (Q ctx id (inactivate body) if_match d) d (
          (parse_body body >>= λ b.
          if status_is inactive old then unchanged ctx old else inactivate_live ctx id b old)
            (clean_session d))
  unfolding parse_body
  inactivate_found empty old n f m = refl
  inactivate_found malformed old n f m = refl
  inactivate_found (given b) old n f m =
      moves_or_stays ctx id (inactivate (given b)) if_match d old _ f m λ p.
        Post-transition (Q ctx id (inactivate (given b)) if_match d) d old.status inactive _ λ a.
          Post-store ctx id (inactivate (given b)) if_match d _ _ _ old (inactivated ctx b old) n f
            m p a (b, refl, refl)

  soft_delete_body :
      (body : Body String) (old : Driver)
      → Fresh ctx Endpoint.soft_delete id d
      → select_driver id d.drivers ≡ some old
      → if_match ≡ some old.row_version
      → old.status ≢ cancelled
      → Post
          (Q ctx id (soft_delete body) if_match d)
          d
          (soft_delete_live ctx id body old (clean_session d))
  unfolding parse_body
  soft_delete_body empty old n f m p = refl
  soft_delete_body malformed old n f m p = refl
  soft_delete_body (given reason) old n f m p =
      Post-transition (Q ctx id (soft_delete (given reason)) if_match d) d old.status cancelled _
        λ a.
          Post-store ctx id (soft_delete (given reason)) if_match d _ _ _ old
            (soft_deleted ctx reason old) n f m p a (reason, refl, refl)

  handle-Post :
      (q : Request) → Post (Q ctx id q if_match d) d (handle ctx id q if_match (clean_session d))
  unfolding handle inactivate_driver reactivate_driver soft_delete_driver
  handle-Post (inactivate body) =
      Post-once (Q ctx id (inactivate body) if_match d) d ctx Endpoint.inactivate id _
        (λ n.
          Post-found (Q ctx id (inactivate body) if_match d) d if_match id _
            (λ old. inactivate_found body old n))
        (replayed (inactivate body))
  handle-Post reactivate =
      Post-once (Q ctx id reactivate if_match d) d ctx Endpoint.reactivate id _
        (λ n. Post-found (Q ctx id reactivate if_match d) d if_match id _ λ old f m.
          moves_or_stays ctx id reactivate if_match d old _ f m λ p.
            Post-transition (Q ctx id reactivate if_match d) d old.status active _ λ a.
              Post-store ctx id reactivate if_match d _ _ _ old (reactivated ctx old) n f m p a
                refl)
        (replayed reactivate)
  handle-Post (soft_delete body) =
      Post-once (Q ctx id (soft_delete body) if_match d) d ctx Endpoint.soft_delete id _
        (λ n. Post-found (Q ctx id (soft_delete body) if_match d) d if_match id _ λ old f m.
          moves_or_stays ctx id (soft_delete body) if_match d old _ f m
            λ p. soft_delete_body body old n f m p)
        (replayed (soft_delete body))

  -- A lifecycle request that raises leaves the committed database as it was.
  pub driver_atomic :
      (q : Request) (e : DriverError)
      → (serve ctx id q if_match d).0 ≡ err e
      → (serve ctx id q if_match d).1 ≡ d
  driver_atomic q =
      (Post-request (Outcome ctx id q if_match d) (handle ctx id q if_match) d (handle-Post q)).0

  -- A lifecycle request that answers either leaves the database as it was, because its answer was
  -- recorded or the driver is in the state asked for, or moves the driver along a transition of
  -- its machine and names the version of the row and writes one row, one masked audit entry, one
  -- event and, with a request id, one record of the answer.
  pub driver_outcome :
      (q : Request) (x : Response)
      → (serve ctx id q if_match d).0 ≡ ok x
      → Outcome ctx id q if_match d x (serve ctx id q if_match d).1
  driver_outcome q =
      (Post-request (Outcome ctx id q if_match d) (handle ctx id q if_match) d (handle-Post q)).1
