-- ===== src/Auth/Tables.antt =====
-- services/auth-service/src/auth_service/models.py: the rows of the auth service, and what a
-- request has from outside. Secrets, hashes, e-mail addresses and times are numbers, since the code
-- compares and orders them only.
use lojinextv.Prelude.{ℕ, Bool, Option, List}
use lojinextv.Exec.{Exec}

pub record Credentials : Type 0 where
  pub id : ℕ
  pub email : ℕ
  pub hashed_password : ℕ
  pub is_active : Bool

pub record RefreshToken : Type 0 where
  pub token_id : ℕ
  pub user_id : ℕ
  pub token_hash : ℕ
  pub family_id : ℕ
  pub expires_at_utc : ℕ
  pub revoked_at_utc : Option ℕ
  pub created_at_utc : ℕ

pub record SigningKey : Type 0 where
  pub kid : ℕ
  pub public_key_pem : ℕ
  pub private_key_ciphertext : ℕ
  pub is_active : Bool
  pub created_at_utc : ℕ
  pub retired_at_utc : Option ℕ

pub record ServiceClient : Type 0 where
  pub client_id : ℕ
  pub service_name : ℕ
  pub client_secret_hash : ℕ
  pub is_active : Bool

-- USER_REGISTERED, and the event user.registered
pub record Registered : Type 0 where
  pub id : ℕ
  pub user_id : ℕ
  pub email : ℕ
  pub created_at_utc : ℕ

-- the jti that Redis keeps as blocked, until a time
pub record Blocked : Type 0 where
  pub jti : ℕ
  pub until : ℕ

pub record AuthDb : Type 0 where
  pub credentials : List Credentials
  pub refresh_tokens : List RefreshToken
  pub signing_keys : List SigningKey
  pub service_clients : List ServiceClient
  pub audit_log : List Registered
  pub outbox : List Registered
  pub blocklist : List Blocked

pub data AuthError : Type 0 where
  unauthorized conflict invalid_audience integrity : AuthError
  token_reuse invalid_or_expired owner_inactive : AuthError
  missing_kid unknown_key retired_key invalid_token revoked_token : AuthError
  -- the key that encrypts the signing keys is missing or wrong
  kek_error : AuthError

pub record TokenPair : Type 0 where
  pub access_token : ℕ
  pub refresh_token : ℕ
  pub expires_in : ℕ

-- The clock, the ids and the secret that are drawn, the hash and password functions, the library that
-- signs, with the error of the decryption, and the settings.
pub record Context : Type 0 where
  pub now : ℕ
  pub new_ulid : ℕ → ℕ
  pub secret : ℕ
  pub hash_token : ℕ → ℕ
  pub hash_secret : ℕ → ℕ
  pub verify_secret : ℕ → ℕ → Bool
  pub new_key : ℕ × ℕ
  pub kek : Option AuthError
  pub issue_token : SigningKey → ℕ → ℕ → ℕ
  pub auth_audience : ℕ
  pub bootstrap_service_names : List ℕ
  pub access_token_ttl_seconds : ℕ
  pub refresh_token_ttl_seconds : ℕ
  pub service_token_ttl_seconds : ℕ
  pub redis_answers : Bool

abbrev pub Handler : Type 0 → Type 0
Handler A = Exec AuthError AuthDb A
