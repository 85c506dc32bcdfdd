-- ===== src/Auth.antt =====
-- services/auth-service/src/auth_service/token_service.py with routers/auth.py, blocklist.py and
-- auth.py: registering, logging in, rotating and revoking refresh tokens, tokens for services.
pub mod Tables
pub mod Kept
pub mod Families
pub mod Revoked
pub mod Logout
mod Tests
use lojinextv.Prelude.{
  ℕ, ◌+◌, ◌-◌, Bool, true, false, not, ◌&&◌, ◌||◌, Option, none, some, List, [], ◌∷◌, ◌++◌, ◌==◌,
  ltb, leb, any, find, filter, elem, if◌then◌else◌, update_where,
}
use lojinextv.Exec.{
  Result, ok, err, Session, ◌>>=◌, ◌>>◌, pure, raise, raise_if, raise_some, require, gets, modify,
  commit,
}
use lojinextv.Auth.Tables.{
  Credentials, RefreshToken, SigningKey, ServiceClient, Blocked, AuthDb, AuthError, unauthorized,
  conflict, invalid_audience, integrity, token_reuse, invalid_or_expired, owner_inactive,
  unknown_key, retired_key, invalid_token, revoked_token, TokenPair, Context, Handler,
}

abbrev pub live : RefreshToken → Bool
live r = elim r.revoked_at_utc [ none ↦ true | some t ↦ false ]

abbrev pub has_hash : ℕ → RefreshToken → Bool
has_hash h r = r.token_hash == h

abbrev pub revoke : ℕ → RefreshToken → RefreshToken
revoke now r = record r { revoked_at_utc = some now }

-- the newest of the keys, the first of them on a tie
unfoldable pub newest : List SigningKey → Option SigningKey
newest [] = none
newest (k ∷ ks) = elim (newest ks) [
  | none ↦ some k
  | some m ↦ if ltb k.created_at_utc m.created_at_utc then some m else some k
]

abbrev pub new_signing_key : Context → SigningKey
new_signing_key ctx = record {
  kid = ctx.new_ulid 0;
  public_key_pem = ctx.new_key.0;
  private_key_ciphertext = ctx.new_key.1;
  is_active = true;
  created_at_utc = ctx.now;
  retired_at_utc = none;
}

unfoldable pub ensure_active_signing_key : Context → Handler SigningKey
unfolding newest
ensure_active_signing_key ctx = do
  found ← gets (λ (d : AuthDb). newest (filter (λ k. k.is_active) d.signing_keys))
  elim found [
    | some k ↦ pure k
    | none ↦ do
      raise_some ctx.kek
      modify
          (λ (d : AuthDb). record d { signing_keys = d.signing_keys ++ new_signing_key ctx ∷ [] })
      pure (new_signing_key ctx)
  ]

-- the row that `issue_token_pair` adds
abbrev pub new_refresh_token : Context → ℕ → ℕ → RefreshToken
new_refresh_token ctx user_id family_id = record {
  token_id = ctx.new_ulid 1;
  user_id = user_id;
  token_hash = ctx.hash_token ctx.secret;
  family_id = family_id;
  expires_at_utc = ctx.now + ctx.refresh_token_ttl_seconds;
  revoked_at_utc = none;
  created_at_utc = ctx.now;
}

-- the unique columns of the table
abbrev pub clashes : RefreshToken → RefreshToken → Bool
clashes r q = q.token_id == r.token_id || q.token_hash == r.token_hash

unfoldable pub issue_token_pair : Context → Credentials → ℕ → Handler TokenPair
unfolding ensure_active_signing_key
issue_token_pair ctx cred family_id = do
  key ← ensure_active_signing_key ctx
  raise_some ctx.kek
  let r = new_refresh_token ctx cred.id family_id
  taken ← gets (λ (d : AuthDb). any (clashes r) d.refresh_tokens)
  raise_if taken integrity
  modify (λ (d : AuthDb). record d { refresh_tokens = d.refresh_tokens ++ r ∷ [] })
  pure (record {
    access_token = ctx.issue_token key cred.id (ctx.now + ctx.access_token_ttl_seconds);
    refresh_token = ctx.secret;
    expires_in = ctx.access_token_ttl_seconds;
  })

abbrev pub new_credentials : Context → ℕ → ℕ → Credentials
new_credentials ctx email password = record {
  id = ctx.new_ulid 2;
  email = email;
  hashed_password = ctx.hash_secret password;
  is_active = true;
}

-- `register_user`
unfoldable pub register_user : Context → ℕ → ℕ → Handler Credentials
register_user ctx email password = do
  let cred = new_credentials ctx email password
  taken ← gets (λ (d : AuthDb). any (λ c. c.id == cred.id || c.email == email) d.credentials)
  raise_if taken integrity
  modify λ (d : AuthDb). record d {
    credentials = d.credentials ++ cred ∷ [];
    audit_log =
        d.audit_log
        ++ record {
          id = ctx.new_ulid 3;
          user_id = cred.id;
          email = email;
          created_at_utc = ctx.now;
        }
          ∷ [];
    outbox =
        d.outbox
        ++ record {
          id = ctx.new_ulid 4;
          user_id = cred.id;
          email = email;
          created_at_utc = ctx.now;
        }
          ∷ [];
  }
  pure cred

-- `except IntegrityError` of the registration
abbrev pub as_conflict : AuthError → AuthError
as_conflict integrity = conflict
as_conflict e = e

abbrev pub catching : {A : Type 0} → (AuthError → AuthError) → Handler A → Handler A
catching f m s = let (r, s') = m s in (elim r [ ok a ↦ ok a | err e ↦ err (f e) ], s')

unfoldable pub register : Context → ℕ → ℕ → Handler TokenPair
unfolding register_user issue_token_pair
register ctx email password = catching as_conflict do
  cred ← register_user ctx email password
  pair ← issue_token_pair ctx cred (ctx.new_ulid 5)
  commit
  pure pair

unfoldable pub authenticate_user : Context → ℕ → ℕ → AuthDb → Option Credentials
authenticate_user ctx email password d = elim (find (λ c. c.email == email) d.credentials) [
  | none ↦ none
  | some c ↦ if c.is_active && ctx.verify_secret password c.hashed_password then some c else none
]

unfoldable pub login : Context → ℕ → ℕ → Handler TokenPair
unfolding authenticate_user issue_token_pair
login ctx email password = do
  found ← gets (authenticate_user ctx email password)
  cred ← require found unauthorized
  pair ← issue_token_pair ctx cred (ctx.new_ulid 5)
  commit
  pure pair

-- the UPDATE of a stolen family, in a session of its own that commits at once
abbrev pub revoke_family : ℕ → ℕ → AuthDb → AuthDb
revoke_family now family d = record d {
  refresh_tokens =
      update_where (λ r. r.family_id == family && live r) (revoke now) d.refresh_tokens;
}

abbrev pub nuke : ℕ → ℕ → Handler (Unit {0})
nuke now family s = (ok tt, record s { committed = revoke_family now family s.committed })

-- a row that was revoked before
abbrev pub reject_reuse : Context → RefreshToken → Handler (Unit {0})
reject_reuse ctx r = if live r then pure tt else (nuke ctx.now r.family_id >> raise token_reuse)

-- the flush of one row
abbrev pub revoke_row : ℕ → RefreshToken → AuthDb → AuthDb
revoke_row now r d = record d {
  refresh_tokens = update_where (λ q. q.token_id == r.token_id) (revoke now) d.refresh_tokens;
}

-- what is done with the row that was found
unfoldable pub rotate_row : Context → RefreshToken → Handler TokenPair
unfolding issue_token_pair
rotate_row ctx r = do
  raise_if (leb r.expires_at_utc ctx.now) invalid_or_expired
  owner ← gets (λ (d : AuthDb). find (λ c. c.id == r.user_id) d.credentials)
  cred ← require owner owner_inactive
  raise_if (not cred.is_active) owner_inactive
  modify (revoke_row ctx.now r)
  issue_token_pair ctx cred r.family_id

unfoldable pub rotate_refresh_token : Context → ℕ → Handler TokenPair
unfolding rotate_row
rotate_refresh_token ctx raw = do
  found ← gets (λ (d : AuthDb). find (has_hash (ctx.hash_token raw)) d.refresh_tokens)
  r ← require found invalid_or_expired
  reject_reuse ctx r
  rotate_row ctx r

unfoldable pub refresh : Context → ℕ → Handler TokenPair
unfolding rotate_refresh_token
refresh ctx raw = do pair ← rotate_refresh_token ctx raw; commit; pure pair

unfoldable pub revoke_refresh_token : Context → ℕ → Handler (Unit {0})
revoke_refresh_token ctx raw = do
  found ← gets (λ (d : AuthDb). find (has_hash (ctx.hash_token raw)) d.refresh_tokens)
  elim found [ none ↦ pure tt | some r ↦ if live r then modify (revoke_row ctx.now r) else pure tt ]

-- The blocking of an access token, which is sent to Redis at once. The payload is what the token
-- says, unverified: its jti, if it has one, and its expiry.
unfoldable pub block_token : Context → Option (Option ℕ × ℕ) → Handler (Unit {0})
block_token ctx none s = (ok tt, s)
block_token ctx (some (none, exp)) s = (ok tt, s)
block_token ctx (some (some jti, exp)) s =
    if ltb ctx.now exp && ctx.redis_answers
    then (
      ok tt,
      record {
        committed = record s.committed {
          blocklist = s.committed.blocklist ++ record { jti = jti; until = exp } ∷ [];
        };
        work = record s.work {
          blocklist = s.work.blocklist ++ record { jti = jti; until = exp } ∷ [];
        };
      },
    )
    else (ok tt, s)

unfoldable pub logout : Context → ℕ → Option (Option ℕ × ℕ) → Handler (Unit {0})
unfolding revoke_refresh_token block_token
logout ctx raw payload = do revoke_refresh_token ctx raw; block_token ctx payload; commit

unfoldable pub issue_service_token : Context → ℕ → ℕ → Option ℕ → Handler ℕ
unfolding ensure_active_signing_key
issue_service_token ctx client_id client_secret audience = do
  found ← gets (λ (d : AuthDb). find (λ c. c.client_id == client_id) d.service_clients)
  client ← require found unauthorized
  raise_if (not (client.is_active && ctx.verify_secret client_secret client.client_secret_hash))
      unauthorized
  raise_if
      (elim audience [
        | none ↦ false
        | some a ↦ not (a == ctx.auth_audience) && not (elem a ctx.bootstrap_service_names)
      ])
      invalid_audience
  key ← ensure_active_signing_key ctx
  raise_some ctx.kek
  commit
  pure (ctx.issue_token key client.service_name (ctx.now + ctx.service_token_ttl_seconds))

unfoldable pub retired : SigningKey → Bool
retired k = elim k.retired_at_utc [ none ↦ false | some t ↦ true ]

-- `decode_access_token` and `current_user`, for a token with the key id and the subject that the
-- library reads in it, and whether it verifies it with the key
unfoldable pub current_user : Option ℕ → (SigningKey → Option ℕ) → Handler Credentials
unfolding retired
current_user kid verify = do
  id ← require kid unauthorized
  found ← gets (λ (d : AuthDb). find (λ k. k.kid == id) d.signing_keys)
  key ← require found unauthorized
  raise_if (retired key) unauthorized
  sub ← require (verify key) unauthorized
  owner ← gets (λ (d : AuthDb). find (λ c. c.id == sub) d.credentials)
  cred ← require owner unauthorized
  raise_if (not cred.is_active) unauthorized
  pure cred
