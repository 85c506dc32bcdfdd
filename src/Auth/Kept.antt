-- ===== src/Auth/Kept.antt =====
-- What a handler makes of a property of the refresh tokens, of those that are committed and of those
-- that its session sees, whether it answers or raises.
use lojinextv.Prelude.{
  ℕ, Bool, true, false, Option, none, some, List, ◌++◌, [], ◌∷◌, any, filter, inl, inr, Bool-cases,
  Option-cases, ltb, ◌==◌, ◌&&◌, ◌||◌, find, update_where,
}
use lojinextv.Exec.{Result, ok, err, Session, continue, ◌>>=◌, ◌>>◌, raise_some, raise_if}
use lojinextv.Auth.Tables.{
  RefreshToken, Credentials, AuthDb, AuthError, Context, Handler, unauthorized, invalid_audience,
}
use lojinextv.Auth.{
  ensure_active_signing_key, newest, new_refresh_token, clashes, issue_token_pair, register_user,
  block_token, live, has_hash, revoke, revoke_refresh_token, logout, issue_service_token,
}

abbrev pub Rows : Type 1
Rows = List RefreshToken → Type 0

-- the committed rows satisfy `C`, and those of the session `W`
abbrev pub Holds : Rows → Rows → Session AuthDb → Type 0
Holds C W s = C s.committed.refresh_tokens × W s.work.refresh_tokens

abbrev pub Takes : {A : Type 0} → Rows → Rows → Rows → Handler A → Type 0
Takes C W V m = (s : Session AuthDb) → Holds C W s → Holds C V (m s).1

module _ (C W M V : Rows) (weak : (rs : List RefreshToken) → M rs → V rs) where
  continued :
      {A B : Type 0} (r : Result AuthError A × Session AuthDb) (f : A → Handler B)
      → Holds C M r.1
      → ((a : A) → Takes C M V (f a))
      → Holds C V (continue r f).1
  continued (ok a, s) f h k = k a s h
  continued (err e, s) f h k = (h.0, weak s.work.refresh_tokens h.1)

  pub Takes-bind :
      {A B : Type 0} (m : Handler A) (f : A → Handler B)
      → Takes C W M m
      → ((a : A) → Takes C M V (f a))
      → Takes C W V (m >>= f)
  Takes-bind m f h k s o = continued (m s) f (h s o) k

  pub Takes-then :
      {B : Type 0} (m : Handler (Unit {0})) (k : Handler B)
      → Takes C W M m
      → Takes C M V k
      → Takes C W V (m >> k)
  Takes-then m k h h' s o = continued (m s) (λ _. k) (h s o) (λ _. h')

module _ (C W : Rows) where
  pub raise_some-Takes : (o : Option AuthError) → Takes C W W (raise_some {E = AuthError} o)
  raise_some-Takes none s h = h
  raise_some-Takes (some e) s h = h

  pub raise_if-Takes : (b : Bool) (e : AuthError) → Takes C W W (raise_if b e)
  raise_if-Takes true e s h = h
  raise_if-Takes false e s h = h

  pub ensure_active_signing_key-Takes :
      (ctx : Context) → Takes C W W (ensure_active_signing_key ctx)
  unfolding ensure_active_signing_key
  ensure_active_signing_key-Takes ctx s h =
      elim (Option-cases (newest (filter (λ k. k.is_active) s.work.signing_keys))) [
        | inr (k, e) ↦ rw e h
        | inl e ↦ rw e (elim (Option-cases ctx.kek) [ inr (z, y) ↦ rw y h | inl y ↦ rw y h ])
      ]

  -- a pair is issued where the row may be added
  pub issue_token_pair-Takes :
      (V : Rows) (ctx : Context) (cred : Credentials) (family_id : ℕ)
      → ((rs : List RefreshToken) → W rs → V rs)
      → ((rs : List RefreshToken) → W rs → V (rs ++ new_refresh_token ctx cred.id family_id ∷ []))
      → Takes C W V (issue_token_pair ctx cred family_id)
  unfolding issue_token_pair
  issue_token_pair-Takes V ctx cred family_id weak add =
      Takes-bind C W W V weak (ensure_active_signing_key ctx) _
        (ensure_active_signing_key-Takes ctx)
        λ key. Takes-then C W W V weak (raise_some ctx.kek) _ (raise_some-Takes ctx.kek) λ s h.
          elim (Bool-cases
            (any (clashes (new_refresh_token ctx cred.id family_id)) s.work.refresh_tokens)) [
              | inl y ↦ rw y (h.0, weak s.work.refresh_tokens h.1)
              | inr y ↦ rw y (h.0, add s.work.refresh_tokens h.1)
            ]

  pub register_user-Takes :
      (ctx : Context) (email password : ℕ) → Takes C W W (register_user ctx email password)
  unfolding register_user
  register_user-Takes ctx email password s h =
      elim (Bool-cases (any (λ c. c.id == ctx.new_ulid 2 || c.email == email) s.work.credentials)) [
        | inl y ↦ rw y h
        | inr y ↦ rw y h
      ]

  pub block_token-Takes :
      (ctx : Context) (payload : Option (Option ℕ × ℕ)) → Takes C W W (block_token ctx payload)
  unfolding block_token
  block_token-Takes ctx none s h = h
  block_token-Takes ctx (some (none, exp)) s h = h
  block_token-Takes ctx (some (some jti, exp)) s h =
      elim (Bool-cases (ltb ctx.now exp && ctx.redis_answers)) [ inl y ↦ rw y h | inr y ↦ rw y h ]

  pub revoke_refresh_token-Takes :
      (ctx : Context) (raw : ℕ)
      → ((p : RefreshToken → Bool) (rs : List RefreshToken)
          → W rs
          → W (update_where p (revoke ctx.now) rs))
      → Takes C W W (revoke_refresh_token ctx raw)
  unfolding revoke_refresh_token
  revoke_refresh_token-Takes ctx raw closed s h =
      elim (Option-cases (find (has_hash (ctx.hash_token raw)) s.work.refresh_tokens)) [
        | inl e ↦ rw e h
        | inr (r, e) ↦ rw e (elim (Bool-cases (live r)) [
          | inl y ↦ rw y (h.0, closed (λ q. q.token_id == r.token_id) s.work.refresh_tokens h.1)
          | inr y ↦ rw y h
        ])
      ]

-- a logout, a service's token and a look at the profile, for a property that revoking keeps
module _ (I : Rows) where
  same_rows : (rs : List RefreshToken) → I rs → I rs
  same_rows rs h = h

  pub logout-Takes :
      (ctx : Context) (raw : ℕ) (payload : Option (Option ℕ × ℕ))
      → ((p : RefreshToken → Bool) (rs : List RefreshToken)
          → I rs
          → I (update_where p (revoke ctx.now) rs))
      → Takes I I I (logout ctx raw payload)
  unfolding logout
  logout-Takes ctx raw payload closed =
      Takes-then I I I I same_rows (revoke_refresh_token ctx raw) _
        (revoke_refresh_token-Takes I I ctx raw closed)
        (Takes-then I I I I same_rows (block_token ctx payload) _
          (block_token-Takes I I ctx payload) λ s h. (h.1, h.1))

  pub service-Takes :
      (ctx : Context) (client_id client_secret : ℕ) (audience : Option ℕ)
      → Takes I I I (issue_service_token ctx client_id client_secret audience)
  unfolding issue_service_token
  service-Takes ctx client_id client_secret audience s h =
      elim (Option-cases (find (λ c. c.client_id == client_id) s.work.service_clients)) [
        | inl e ↦ rw e h
        | inr (client, e) ↦ rw e (
            Takes-then I I I I same_rows (raise_if _ unauthorized) _
              (raise_if-Takes I I _ unauthorized)
              (Takes-then I I I I same_rows (raise_if _ invalid_audience) _
                (raise_if-Takes I I _ invalid_audience)
                (Takes-bind I I I I same_rows (ensure_active_signing_key ctx) _
                  (ensure_active_signing_key-Takes I I ctx)
                  λ key.
                    Takes-then I I I I same_rows (raise_some ctx.kek) _
                      (raise_some-Takes I I ctx.kek) λ s' o. (o.1, o.1)))
              s h)
      ]
