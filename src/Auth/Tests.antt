-- ===== src/Auth/Tests.antt =====
-- The theorems on tokens, on a user with a token that has been used and its successor.
use lojinextv.Prelude.{
  ℕ, ◌+◌, ◌*◌, ◌≡◌, refl, true, none, some, [], ◌∷◌, arith, ◌==◌, Bool-cases, inl, inr,
}
use lojinextv.Exec.{ok, err, request}
use lojinextv.Auth.Tables.{RefreshToken, SigningKey, AuthDb, token_reuse, TokenPair, Context}
use lojinextv.Auth.{refresh}
use lojinextv.Auth.Families.{OneLive, after, refreshes, logs_in, after-OneLive}
use lojinextv.Auth.Revoked.{afters, refresh_once, reuse_kills}

abbrev key : SigningKey
key = record {
  kid = 9;
  public_key_pem = 90;
  private_key_ciphertext = 91;
  is_active = true;
  created_at_utc = 1;
  retired_at_utc = none;
}

abbrev context : ℕ → Context
context secret = record {
  now = 1000;
  new_ulid = λ n. secret * 100 + n;
  secret = secret;
  hash_token = λ n. n + 5000;
  hash_secret = λ n. n + 7000;
  verify_secret = λ p h. h == p + 7000;
  new_key = (90, 91);
  kek = none;
  issue_token = λ k sub exp. exp;
  auth_audience = 1;
  bootstrap_service_names = [];
  access_token_ttl_seconds = 900;
  refresh_token_ttl_seconds = 86400;
  service_token_ttl_seconds = 300;
  redis_answers = true;
}

abbrev used : RefreshToken
used = record {
  token_id = 1;
  user_id = 3;
  token_hash = 5041;
  family_id = 20;
  expires_at_utc = 9000;
  revoked_at_utc = some 500;
  created_at_utc = 100;
}

abbrev successor : RefreshToken
successor = record {
  token_id = 2;
  user_id = 3;
  token_hash = 5042;
  family_id = 20;
  expires_at_utc = 9500;
  revoked_at_utc = none;
  created_at_utc = 500;
}

abbrev db : AuthDb
db = record {
  credentials = record { id = 3; email = 33; hashed_password = 7033; is_active = true } ∷ [];
  refresh_tokens = used ∷ successor ∷ [];
  signing_keys = key ∷ [];
  service_clients = [];
  audit_log = [];
  outbox = [];
  blocklist = [];
}

db-OneLive : OneLive db.refresh_tokens
db-OneLive f = elim (Bool-cases (20 == f)) [
  | inl y ↦ rw y (omega arith)
  | inr y ↦ rw y (omega arith)
]

after-OneLive_example : OneLive (after (context 43) (refreshes 42) db).refresh_tokens
after-OneLive_example = after-OneLive (context 43) (refreshes 42) db refl db-OneLive

abbrev pair : TokenPair
pair = record { access_token = 1900; refresh_token = 43; expires_in = 900 }

refreshed : (request (refresh (context 43) 42) db).0 ≡ ok pair
unfolding refresh
refreshed = refl

refresh_once_example :
    (request
      (refresh (context 44) 42)
      (afters ((context 45, logs_in 33 33) ∷ []) (after (context 43) (refreshes 42) db))).0
    ≡ err token_reuse
refresh_once_example =
    refresh_once (context 43) (context 44) 42 db ((context 45, logs_in 33 33) ∷ []) pair refreshed
      refl

reuse_kills_example :
    (request (refresh (context 44) 42) (afters [] (after (context 43) (refreshes 41) db))).0
    ≡ err token_reuse
reuse_kills_example =
    reuse_kills (context 43) (context 44) 41 db [] 42 used successor refl refl refl refl
