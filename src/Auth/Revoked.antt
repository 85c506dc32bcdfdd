-- ===== src/Auth/Revoked.antt =====
-- A refresh token that has been revoked, over sequences of requests.
use mathlib.Core.Path.{subst}
use lojinextv.Prelude.{
  ℕ, ◌≡◌, refl, sym, Bool, true, false, ◌&&◌, some, List, [], ◌∷◌, ◌++◌, ◌==◌, leb, arith, find,
  update_where, if◌then◌else◌, Bool-cases, Option-cases, inl, inr, find-append, find-update_where,
}
use lojinextv.Exec.{Result, ok, err, Session, request, ◌>>=◌, ◌>>◌, commit, pure, continue}
use lojinextv.Auth.Tables.{
  RefreshToken, Credentials, AuthDb, AuthError, token_reuse, Context, TokenPair,
}
use lojinextv.Auth.{
  live, has_hash, revoke, revoke_row, new_refresh_token, register_user, register, authenticate_user,
  login, issue_token_pair, rotate_row, rotate_refresh_token, refresh, revoke_family,
}
use lojinextv.Auth.Kept.{
  Rows, Takes, Takes-bind, issue_token_pair-Takes, register_user-Takes, logout-Takes, service-Takes,
}
use lojinextv.Auth.Families.{
  Call, registers, logs_in, refreshes, logs_out, asks_service_token, after,
}

abbrev start : AuthDb → Session AuthDb
start d = record { committed = d; work = d }

-- a property that survives every revocation and every new row survives every request
module _ (I : Rows)
    (revoking : (p : RefreshToken → Bool) (now : ℕ) (rs : List RefreshToken)
      → I rs
      → I (update_where p (revoke now) rs))
    (adding : (r : RefreshToken) (rs : List RefreshToken) → I rs → I (rs ++ r ∷ [])) where
  same_rows : (rs : List RefreshToken) → I rs → I rs
  same_rows rs h = h

  issue-Closed :
      (ctx : Context) (cred : Credentials) (family : ℕ)
      → Takes I I I (issue_token_pair ctx cred family)
  issue-Closed ctx cred family =
      issue_token_pair-Takes I I I ctx cred family same_rows
        (λ rs h. adding (new_refresh_token ctx cred.id family) rs h)

  rotate_row-Closed : (ctx : Context) (r : RefreshToken) → Takes I I I (rotate_row ctx r)
  unfolding rotate_row
  rotate_row-Closed ctx r s o = elim (Bool-cases (leb r.expires_at_utc ctx.now)) [
    | inl y ↦ rw y o
    | inr y ↦ rw y (elim (Option-cases (find (λ c. c.id == r.user_id) s.work.credentials)) [
      | inl z ↦ rw z o
      | inr (cred, z) ↦ rw z (elim (Bool-cases cred.is_active) [
        | inr a ↦ rw a o
        | inl a ↦ rw a (
            issue-Closed ctx cred r.family_id (record s { work = revoke_row ctx.now r s.work })
              (o.0, revoking (λ q. q.token_id == r.token_id) ctx.now s.work.refresh_tokens o.1))
      ])
    ])
  ]

  refresh-Closed : (ctx : Context) (raw : ℕ) → Takes I I I (refresh ctx raw)
  unfolding refresh rotate_refresh_token
  refresh-Closed ctx raw =
      Takes-bind I I I I same_rows (rotate_refresh_token ctx raw) _
        (λ s o. elim (Option-cases (find (has_hash (ctx.hash_token raw)) s.work.refresh_tokens)) [
          | inl e ↦ rw e o
          | inr (r, e) ↦ rw e (elim (Bool-cases (live r)) [
            | inl y ↦ rw y (rotate_row-Closed ctx r s o)
            | inr y ↦ rw y (
              revoking (λ q. q.family_id == r.family_id && live q) ctx.now
                  s.committed.refresh_tokens o.0,
              o.1,
            )
          ])
        ])
        λ pair s h. (h.1, h.1)

  paired-Closed :
      (ctx : Context) (cred : Credentials)
      → Takes I I I
          (λ s. (issue_token_pair ctx cred (ctx.new_ulid 5) >>= (λ pair. commit >> pure pair)) s)
  paired-Closed ctx cred =
      Takes-bind I I I I same_rows (issue_token_pair ctx cred (ctx.new_ulid 5)) _
        (issue-Closed ctx cred (ctx.new_ulid 5)) λ pair s h. (h.1, h.1)

  login-Closed : (ctx : Context) (email password : ℕ) → Takes I I I (login ctx email password)
  unfolding login
  login-Closed ctx email password s o =
      elim (Option-cases (authenticate_user ctx email password s.work)) [
        | inl e ↦ rw e o
        | inr (cred, e) ↦ rw e (paired-Closed ctx cred s o)
      ]

  register-Closed : (ctx : Context) (email password : ℕ) → Takes I I I (register ctx email password)
  unfolding register
  register-Closed ctx email password =
      Takes-bind I I I I same_rows (register_user ctx email password) _
        (register_user-Takes I I ctx email password) λ cred. paired-Closed ctx cred

  pub after-Closed :
      (ctx : Context) (c : Call) (d : AuthDb)
      → I d.refresh_tokens
      → I (after ctx c d).refresh_tokens
  unfolding after
  after-Closed ctx (registers email password) d h =
      (register-Closed ctx email password (start d) (h, h)).0
  after-Closed ctx (logs_in email password) d h =
      (login-Closed ctx email password (start d) (h, h)).0
  after-Closed ctx (refreshes raw) d h = (refresh-Closed ctx raw (start d) (h, h)).0
  after-Closed ctx (logs_out raw payload) d h =
      (logout-Takes I ctx raw payload (λ p rs o. revoking p ctx.now rs o) (start d) (h, h)).0
  after-Closed ctx (asks_service_token id secret audience) d h =
      (service-Takes I ctx id secret audience (start d) (h, h)).0

-- the requests of a history, each with what it has from outside
abbrev pub afters : List (Context × Call) → AuthDb → AuthDb
afters [] d = d
afters ((ctx, c) ∷ cs) d = afters cs (after ctx c d)

-- the row with the hash is there and revoked
abbrev pub Revoked : ℕ → Rows
Revoked h rs = (r : RefreshToken) × (find (has_hash h) rs ≡ some r) × (live r ≡ false)

module _ (h : ℕ) where
  adding-Revoked :
      (q : RefreshToken) (rs : List RefreshToken) → Revoked h rs → Revoked h (rs ++ q ∷ [])
  adding-Revoked q rs (r, f, l) = (r, find-append (has_hash h) rs (q ∷ []) r f, l)

  revoked_dead :
      (now : ℕ) (b : Bool) (r : RefreshToken)
      → live r ≡ false
      → live (if b then revoke now r else r) ≡ false
  revoked_dead now true r l = refl
  revoked_dead now false r l = l

  revoking-Revoked :
      (p : RefreshToken → Bool) (now : ℕ) (rs : List RefreshToken)
      → Revoked h rs
      → Revoked h (update_where p (revoke now) rs)
  revoking-Revoked p now rs (r, f, l) = (
    _,
    find-update_where (has_hash h) p (revoke now) rs r (λ x. refl) f,
    revoked_dead now (p r) r l,
  )

  afters-Revoked :
      (cs : List (Context × Call)) (d : AuthDb)
      → Revoked h d.refresh_tokens
      → Revoked h (afters cs d).refresh_tokens
  afters-Revoked [] d v = v
  afters-Revoked ((ctx, c) ∷ cs) d v =
      afters-Revoked cs (after ctx c d)
        (after-Closed (Revoked h) revoking-Revoked adding-Revoked ctx c d v)

-- a revoked token is refused as reused
refused :
    (ctx : Context) (raw : ℕ) (d : AuthDb)
    → Revoked (ctx.hash_token raw) d.refresh_tokens
    → (request (refresh ctx raw) d).0 ≡ err token_reuse
unfolding refresh rotate_refresh_token
refused ctx raw d (r, f, l) = rw f (rw l refl)

-- what a refresh that answers leaves of the token that it takes
module _ (h : ℕ) where
  abbrev Spent : {A : Type 0} → Result AuthError A × Session AuthDb → Type 0
  Spent (ok a, s) = Revoked h s.committed.refresh_tokens
  Spent (err e, s) = Unit {0}

  Spent-ok :
      {A : Type 0} (r : Result AuthError A × Session AuthDb) (a : A)
      → Spent r
      → r.0 ≡ ok a
      → Revoked h r.1.committed.refresh_tokens
  Spent-ok (ok b, s) a v e = v
  Spent-ok (err b, s) a v e = cc

  committed-Spent :
      {A : Type 0} (r : Result AuthError A × Session AuthDb)
      → Revoked h r.1.work.refresh_tokens
      → Spent (continue r (λ a. commit >> pure a))
  committed-Spent (ok a, s) v = v
  committed-Spent (err e, s) v = tt

  itself : (n : ℕ) → (n == n) ≡ true
  itself n = ground arith

  rotate_row-Spent :
      (ctx : Context) (r : RefreshToken) (s : Session AuthDb)
      → find (has_hash h) s.work.refresh_tokens ≡ some r
      → Spent ((rotate_row ctx r >>= (λ pair. commit >> pure pair)) s)
  unfolding rotate_row
  rotate_row-Spent ctx r s f = elim (Bool-cases (leb r.expires_at_utc ctx.now)) [
    | inl y ↦ rw y tt
    | inr y ↦ rw y (elim (Option-cases (find (λ c. c.id == r.user_id) s.work.credentials)) [
      | inl z ↦ rw z tt
      | inr (cred, z) ↦ rw z (elim (Bool-cases cred.is_active) [
        | inr a ↦ rw a tt
        | inl a ↦ rw a (
            committed-Spent
              (issue_token_pair ctx cred r.family_id
                (record s { work = revoke_row ctx.now r s.work }))
              (issue_token_pair-Takes (λ rs. Unit {0}) (Revoked h) (Revoked h) ctx cred r.family_id
                (λ rs v. v)
                (λ rs v. adding-Revoked h (new_refresh_token ctx cred.id r.family_id) rs v)
                (record s { work = revoke_row ctx.now r s.work })
                (
                  tt,
                  (
                    _,
                    find-update_where (has_hash h) (λ q. q.token_id == r.token_id) (revoke ctx.now)
                        s.work.refresh_tokens r (λ x. refl) f,
                    rw (itself r.token_id) refl,
                  ),
                )).1)
      ])
    ])
  ]

refresh-Spent :
    (ctx : Context) (raw : ℕ) (d : AuthDb) → Spent (ctx.hash_token raw) (refresh ctx raw (start d))
unfolding refresh rotate_refresh_token
refresh-Spent ctx raw d =
    elim (Option-cases (find (has_hash (ctx.hash_token raw)) d.refresh_tokens)) [
      | inl e ↦ rw e tt
      | inr (r, e) ↦ rw e (elim (Bool-cases (live r)) [
        | inl y ↦ rw y (rotate_row-Spent (ctx.hash_token raw) ctx r (start d) e)
        | inr y ↦ rw y tt
      ])
    ]

killed :
    (now : ℕ) (b : Bool) (q : RefreshToken)
    → b ≡ true
    → live (if b && live q then revoke now q else q) ≡ false
killed now b q e = elim (Bool-cases (live q)) [ inl y ↦ rw (e, y) refl | inr y ↦ rw (e, y) y ]

same_number : (a b : ℕ) → a ≡ b → (a == b) ≡ true
same_number a b e = ground arith

-- what is committed when a revoked token is presented
reuse_commits :
    (ctx : Context) (raw : ℕ) (d : AuthDb) (r : RefreshToken)
    → find (has_hash (ctx.hash_token raw)) d.refresh_tokens ≡ some r
    → live r ≡ false
    → (refresh ctx raw (start d)).1.committed ≡ revoke_family ctx.now r.family_id d
unfolding refresh rotate_refresh_token
reuse_commits ctx raw d r f l = rw f (rw l refl)

module _ (ctx ctx' : Context) (raw : ℕ) (d : AuthDb) (cs : List (Context × Call)) where
  -- A refresh token works once: after a refresh with it has answered, and whatever requests
  -- follow, a refresh with it is refused as a reuse, if the hash of the token is the same.
  pub refresh_once :
      (pair : TokenPair)
      → (request (refresh ctx raw) d).0 ≡ ok pair
      → ctx'.hash_token raw ≡ ctx.hash_token raw
      → (request (refresh ctx' raw) (afters cs (after ctx (refreshes raw) d))).0 ≡ err token_reuse
  unfolding after
  refresh_once pair h e = refused ctx' raw (afters cs (after ctx (refreshes raw) d)) (
      rw e (
        afters-Revoked (ctx.hash_token raw) cs (request (refresh ctx raw) d).1 (
          Spent-ok (ctx.hash_token raw) (refresh ctx raw (start d)) pair (refresh-Spent ctx raw d)
            h)))

  -- When a revoked refresh token is presented, every token that is then in its family is refused
  -- from then on, whatever requests follow, although the request itself is rolled back.
  pub reuse_kills :
      (raw' : ℕ) (r q : RefreshToken)
      → find (has_hash (ctx.hash_token raw)) d.refresh_tokens ≡ some r
      → live r ≡ false
      → find (has_hash (ctx'.hash_token raw')) d.refresh_tokens ≡ some q
      → q.family_id ≡ r.family_id
      → (request (refresh ctx' raw') (afters cs (after ctx (refreshes raw) d))).0 ≡ err token_reuse
  unfolding after
  reuse_kills raw' r q f l g e = refused ctx' raw' (afters cs (after ctx (refreshes raw) d)) (
      afters-Revoked (ctx'.hash_token raw') cs (request (refresh ctx raw) d).1 (
        subst (λ z. Revoked (ctx'.hash_token raw') z.refresh_tokens)
          (sym (reuse_commits ctx raw d r f l))
          (
            _,
            find-update_where (has_hash (ctx'.hash_token raw'))
                (λ u. u.family_id == r.family_id && live u) (revoke ctx.now) d.refresh_tokens q
                (λ x. refl) g,
            killed ctx.now (q.family_id == r.family_id) q (same_number q.family_id r.family_id e),
          )))
