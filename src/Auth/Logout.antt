-- ===== src/Auth/Logout.antt =====
-- Access tokens after a logout: the blocklist that it writes is read by nobody.
use lojinextv.Prelude.{
  ℕ, ◌≡◌, refl, Option, none, some, ◌&&◌, ltb, find, ◌==◌, Bool-cases, Option-cases, inl, inr,
}
use lojinextv.Exec.{Result, ok, err, Session, continue, request}
use lojinextv.Auth.Tables.{SigningKey, AuthDb, AuthError, Context, Handler}
use lojinextv.Auth.{
  live, has_hash, revoke_refresh_token, block_token, logout, retired, current_user,
}

-- all that the profile depends on
abbrev SameOwners : AuthDb → AuthDb → Type 0
SameOwners d d' = (d'.signing_keys ≡ d.signing_keys) × (d'.credentials ≡ d.credentials)

module _ (d : AuthDb) where
  abbrev Unchanged : Session AuthDb → Type 0
  Unchanged s = SameOwners d s.committed × SameOwners d s.work

  block_token-Unchanged :
      (ctx : Context) (payload : Option (Option ℕ × ℕ)) (s : Session AuthDb)
      → Unchanged s
      → Unchanged (block_token ctx payload s).1
  unfolding block_token
  block_token-Unchanged ctx none s h = h
  block_token-Unchanged ctx (some (none, exp)) s h = h
  block_token-Unchanged ctx (some (some jti, exp)) s h =
      elim (Bool-cases (ltb ctx.now exp && ctx.redis_answers)) [ inl y ↦ rw y h | inr y ↦ rw y h ]

  continued :
      {A B : Type 0} (r : Result AuthError A × Session AuthDb) (f : A → Handler B)
      → Unchanged r.1
      → ((a : A) (s : Session AuthDb) → Unchanged s → Unchanged (f a s).1)
      → Unchanged (continue r f).1
  continued (ok a, s) f h k = k a s h
  continued (err e, s) f h k = h

  revoke_refresh_token-Unchanged :
      (ctx : Context) (raw : ℕ) (s : Session AuthDb)
      → Unchanged s
      → Unchanged (revoke_refresh_token ctx raw s).1
  unfolding revoke_refresh_token
  revoke_refresh_token-Unchanged ctx raw s h =
      elim (Option-cases (find (has_hash (ctx.hash_token raw)) s.work.refresh_tokens)) [
        | inl e ↦ rw e h
        | inr (r, e) ↦ rw e (elim (Bool-cases (live r)) [ inl y ↦ rw y h | inr y ↦ rw y h ])
      ]

-- the profile is made of the keys and the owners
profile_same :
    (d d' : AuthDb) (kid : Option ℕ) (verify : SigningKey → Option ℕ)
    → SameOwners d d'
    → (request (current_user kid verify) d').0 ≡ (request (current_user kid verify) d).0
unfolding current_user
profile_same d d' none verify h = refl
profile_same d d' (some id) verify (k, c) =
    elim (Option-cases (find (λ k. k.kid == id) d.signing_keys)) [
      | inl e ↦ rw (k, e) refl
      | inr (key, e) ↦
          rw (k, e)
            (elim (Bool-cases (retired key)) [
              | inl r ↦ rw r refl
              | inr r ↦ rw r (elim (Option-cases (verify key)) [
                | inl v ↦ rw v refl
                | inr (sub, v) ↦ rw v (elim (Option-cases (find (λ o. o.id == sub) d.credentials)) [
                  | inl g ↦ rw (c, g) refl
                  | inr (cred, g) ↦
                      rw (c, g)
                        (elim (Bool-cases cred.is_active) [ inl a ↦ rw a refl | inr a ↦ rw a refl ])
                ])
              ])
            ])
    ]

module _ (ctx : Context) (raw : ℕ) (payload : Option (Option ℕ × ℕ)) (d : AuthDb) where
  abbrev start : Session AuthDb
  start = record { committed = d; work = d }

  logout-Unchanged : Unchanged d (logout ctx raw payload start).1
  unfolding logout
  logout-Unchanged =
      continued d (revoke_refresh_token ctx raw start) _
        (revoke_refresh_token-Unchanged d ctx raw start ((refl, refl), (refl, refl)))
        λ u s h.
          continued d (block_token ctx payload s) _ (block_token-Unchanged d ctx payload s h)
            λ u' s' h'. (h'.1, h'.1)

  -- A logout does not reach the access token that it blocks: whoever asks for the profile, with
  -- whatever token, is answered after any logout as before it.
  pub access_after_logout :
      (kid : Option ℕ) (verify : SigningKey → Option ℕ)
      → (request (current_user kid verify) (request (logout ctx raw payload) d).1).0
        ≡ (request (current_user kid verify) d).0
  access_after_logout kid verify =
      profile_same d (request (logout ctx raw payload) d).1 kid verify logout-Unchanged.0
