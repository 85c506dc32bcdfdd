-- ===== src/Driver/Lifecycle/Outcome.antt =====
-- What a request to a lifecycle endpoint does to the database, and what it answers.
use mathlib.Core.Path.{subst}
use lojinextv.Prelude.{
  ℕ, ◌≡◌, ◌≢◌, refl, ◌∙◌, ◌⊎◌, inl, inr, String, true, false, Option, none, some, [], ◌∷◌, ◌++◌,
  arith, ◌==◌, Option-cases, Bool-cases, update_where, if◌then◌else◌, ite,
}
use lojinextv.Exec.{Session, Result, request, ◌>>=◌, ◌>>◌}
use lojinextv.Exec.Post.{Post}
use lojinextv.Outbox.{pending}
use lojinextv.StateMachine.{StateMachine}
use lojinextv.StateMachine.Laws.{Allowed, transition_to_iff, transition_to_state}
use lojinextv.StateMachine.Driver.{
  DriverStatus, active, inactive, cancelled, DriverStatus-discrete, driver_transitions,
}
use lojinextv.Driver.{
  Driver, AuditLog, AuditActionType, EventName, OutboxRow, Endpoint, IdempotencyRecord, Db,
}
use lojinextv.Driver.Session.{
  DriverError, Context, Handler, serialize_driver_admin, serialize_driver_for_role,
  check_idempotency, masked, get_driver_with_etag_check, select_driver, computed,
}
use lojinextv.Driver.Lifecycle.{
  Body, given, InactivateDriverRequest, Response, status_is, check_transition, once, unchanged,
  store, inactivated, inactivate_driver, reactivated, reactivate_driver, soft_deleted,
  soft_delete_driver,
}

-- the requests, by the endpoint that serves them
pub data Request : Type 0 where
  inactivate : Body InactivateDriverRequest → Request
  reactivate : Request
  soft_delete : Body String → Request

unfoldable pub handle : Context → ℕ → Request → Option ℕ → Handler Response
unfolding inactivate_driver reactivate_driver soft_delete_driver
handle ctx id (inactivate body) if_match = inactivate_driver ctx id body if_match
handle ctx id reactivate if_match = reactivate_driver ctx id if_match
handle ctx id (soft_delete body) if_match = soft_delete_driver ctx id body if_match

abbrev pub serve : Context → ℕ → Request → Option ℕ → Db → Result DriverError Response × Db
serve ctx id q if_match d = request (handle ctx id q if_match) d

abbrev pub endpoint : Request → Endpoint
endpoint (inactivate body) = Endpoint.inactivate
endpoint reactivate = Endpoint.reactivate
endpoint (soft_delete body) = Endpoint.soft_delete

abbrev pub target : Request → DriverStatus
target (inactivate body) = inactive
target reactivate = active
target (soft_delete body) = cancelled

-- what each request makes of the row
abbrev pub Effect : Context → Request → Driver → Driver → Type 0
Effect ctx (inactivate body) d d' =
    (b : InactivateDriverRequest) × (body ≡ given b) × (d' ≡ inactivated ctx b d)
Effect ctx reactivate d d' = d' ≡ reactivated ctx d
Effect ctx (soft_delete body) d d' =
    (reason : String) × (body ≡ given reason) × (d' ≡ soft_deleted ctx reason d)

abbrev pub driver_machine : DriverStatus → StateMachine DriverStatus
driver_machine s = record { current_state = s; valid_transitions = driver_transitions }

-- no answer to the request id is recorded
abbrev pub Fresh : Context → Endpoint → ℕ → Db → Type 0
Fresh ctx e id d =
    (key : ℕ) → ctx.request_id ≡ some key → check_idempotency key e id d.idempotency ≡ none

-- A request that moves the driver from `old` to `new`.
pub record Moved (ctx : Context) (id : ℕ) (q : Request) (if_match : Option ℕ) (d : Db)
    (x : Response) (d' : Db) : Type 0 where
  pub old : Driver
  pub new : Driver
  pub entry : AuditLog
  pub event : OutboxRow
  pub fresh : Fresh ctx (endpoint q) id d
  pub found : select_driver id d.drivers ≡ some old
  pub matched : if_match ≡ some old.row_version
  pub proper : old.status ≢ target q
  pub allowed : Allowed DriverStatus-discrete (driver_machine old.status) (target q)
  pub effect : Effect ctx q old new
  pub written :
      d'.drivers ≡ update_where (λ r. r.driver_id == new.driver_id) (λ _. computed new) d.drivers
  pub answer : x ≡ (serialize_driver_for_role (computed new) ctx.auth.role, some new.row_version)
  pub audited : d'.audit_log ≡ d.audit_log ++ entry ∷ []
  pub before : entry.old_snapshot ≡ masked (serialize_driver_admin old)
  pub after : entry.new_snapshot ≡ masked (serialize_driver_admin new)
  pub changes : entry.changed_fields ≡ (old.status, new.status)
  pub sent : d'.outbox ≡ d.outbox ++ event ∷ []
  pub about : event.aggregate_id ≡ id
  pub event_version : event.payload.row_version ≡ new.row_version
  pub waiting : event.publish_status ≡ pending
  pub recorded :
      (key : ℕ)
      → ctx.request_id ≡ some key
      → (r : IdempotencyRecord) × (d'.idempotency ≡ d.idempotency ++ r ∷ [])
        × (r.idempotency_key ≡ key)
        × (r.endpoint ≡ endpoint q)
        × (r.path_id ≡ id)
        × (r.response_body ≡ serialize_driver_for_role new ctx.auth.role)

-- A request whose answer was recorded, or whose driver is in the state asked for.
abbrev pub Stays : Context → ℕ → Request → Option ℕ → Db → Response → Type 0
Stays ctx id q if_match d x =
    ((key : ℕ) × (r : IdempotencyRecord) × (ctx.request_id ≡ some key)
      × (check_idempotency key (endpoint q) id d.idempotency ≡ some r)
      × (x ≡ (r.response_body, none)))
    ⊎ ((old : Driver) × (select_driver id d.drivers ≡ some old)
        × (if_match ≡ some old.row_version)
        × (old.status ≡ target q)
        × (x ≡ (serialize_driver_for_role old ctx.auth.role, some old.row_version)))

abbrev pub Outcome : Context → ℕ → Request → Option ℕ → Db → Response → Db → Type 0
Outcome ctx id q if_match d x d' =
    (Stays ctx id q if_match d x × (d' ≡ d)) ⊎ Moved ctx id q if_match d x d'

abbrev pub clean_session : Db → Session Db
clean_session d = record { committed = d; work = d }

module _ (Q : Response → Session Db → Type 0) (d : Db) where
  pub Post-once :
      (ctx : Context) (e : Endpoint) (id : ℕ) (h : Handler Response)
      → (Fresh ctx e id d → Post Q d (h (clean_session d)))
      → ((key : ℕ) (r : IdempotencyRecord)
          → ctx.request_id ≡ some key
          → check_idempotency key e id d.idempotency ≡ some r
          → Q (r.response_body, none) (clean_session d))
      → Post Q d (once ctx e id h (clean_session d))
  unfolding once
  Post-once ctx e id h p t = elim (Option-cases ctx.request_id) [
    | inl f ↦ rw f (p (λ key k. cc (f, k)))
    | inr (key, f) ↦ rw f (elim (Option-cases (check_idempotency key e id d.idempotency)) [
      | inl g ↦ rw g (p (λ key' k. only key key' g (cc (f, k))))
      | inr (r, g) ↦ rw g (t key r f g)
    ])
  ]
    where
      only :
          (key key' : ℕ)
          → check_idempotency key e id d.idempotency ≡ none
          → key ≡ key'
          → check_idempotency key' e id d.idempotency ≡ none
      only key key' g k = subst (λ n. check_idempotency n e id d.idempotency ≡ none) k g

  pub Post-found :
      (if_match : Option ℕ) (id : ℕ) (f : Driver → Handler Response)
      → ((old : Driver)
          → select_driver id d.drivers ≡ some old
          → if_match ≡ some old.row_version
          → Post Q d (f old (clean_session d)))
      → Post Q d ((get_driver_with_etag_check id if_match >>= f) (clean_session d))
  unfolding get_driver_with_etag_check
  Post-found none id f t = refl
  Post-found (some n) id f t = elim (Option-cases (select_driver id d.drivers)) [
    | inl e ↦ rw e refl
    | inr (old, e) ↦ rw e (elim (Bool-cases (old.row_version == n)) [
      | inl y ↦ rw y (t old e (ground arith))
      | inr y ↦ rw y refl
    ])
  ]

  pub Post-transition :
      (from next : DriverStatus) (k : Handler Response)
      → (Allowed DriverStatus-discrete (driver_machine from) next → Post Q d (k (clean_session d)))
      → Post Q d ((check_transition from next >> k) (clean_session d))
  unfolding check_transition
  Post-transition from next k t =
      elim (transition_to_state DriverStatus-discrete (driver_machine from) next) [
        | inl (y, _) ↦
            rw y (t ((transition_to_iff DriverStatus-discrete (driver_machine from) next).0 y))
        | inr (n, _, _) ↦ rw n refl
      ]

module _ (ctx : Context) (id : ℕ) (q : Request) (if_match : Option ℕ) (d : Db) where
  abbrev pub Q : Response → Session Db → Type 0
  Q x s = Outcome ctx id q if_match d x s.committed

  pub Post-store :
      (action : AuditActionType) (name : EventName) (reason : Option String) (old new : Driver)
      → Fresh ctx (endpoint q) id d
      → select_driver id d.drivers ≡ some old
      → if_match ≡ some old.row_version
      → old.status ≢ target q
      → Allowed DriverStatus-discrete (driver_machine old.status) (target q)
      → Effect ctx q old new
      → Post Q d (store ctx (endpoint q) id action name reason old new (clean_session d))
  unfolding store
  Post-store action name reason old new n f m p a e = elim (Option-cases ctx.violated) [
    | inr (c, v) ↦
        rw v (elim (Option-cases ctx.request_id) [ inl r ↦ rw r refl | inr (key, r) ↦ rw r refl ])
    | inl v ↦ rw v (elim (Option-cases ctx.request_id) [
      | inl r ↦ rw r (
          inr (record {
            old = old;
            new = new;
            entry = _;
            event = _;
            fresh = λ k e'. n k (r ∙ e');
            found = f;
            matched = m;
            proper = p;
            allowed = a;
            effect = e;
            written = refl;
            answer = refl;
            audited = refl;
            before = refl;
            after = refl;
            changes = refl;
            sent = refl;
            about = refl;
            event_version = refl;
            waiting = refl;
            recorded = λ key k. cc;
          }))
      | inr (key, r) ↦ rw r (
          inr (record {
            old = old;
            new = new;
            entry = _;
            event = _;
            fresh = λ k e'. n k (r ∙ e');
            found = f;
            matched = m;
            proper = p;
            allowed = a;
            effect = e;
            written = refl;
            answer = refl;
            audited = refl;
            before = refl;
            after = refl;
            changes = refl;
            sent = refl;
            about = refl;
            event_version = refl;
            waiting = refl;
            recorded = λ key' k. (_, refl, ground arith, refl, refl, refl);
          }))
    ])
  ]

  pub moves_or_stays :
      (old : Driver) (k : Handler Response)
      → select_driver id d.drivers ≡ some old
      → if_match ≡ some old.row_version
      → (old.status ≢ target q → Post Q d (k (clean_session d)))
      → Post Q d ((if status_is (target q) old then unchanged ctx old else k) (clean_session d))
  moves_or_stays old k f m t =
      elim (DriverStatus-discrete old.status (target q))
        as (λ x. Post Q d ((if ite x true false then unchanged ctx old else k) (clean_session d))) [
          | yes e ↦ inl (inr (old, f, m, e, refl), refl)
          | no n ↦ t n
        ]
