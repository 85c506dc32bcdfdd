-- ===== src/Auth/Families.antt =====
-- The families of refresh tokens over sequences of requests.
use lojinextv.Prelude.{
  ℕ, ◌+◌, ◌≤◌, ◌≡◌, sym, ap, ◌∙◌, Bool, true, false, ◌&&◌, Option, some, List, [], ◌∷◌, ◌++◌, ◌==◌,
  leb, arith, find, update_where, if◌then◌else◌, Bool-cases, Option-cases, inl, inr, some-injective,
  find-yes, find-no,
}
use lojinextv.Exec.{Session, request}
use lojinextv.Auth.Tables.{RefreshToken, Credentials, AuthDb, Context}
use lojinextv.Auth.{
  live, has_hash, revoke, revoke_row, new_refresh_token, register_user, register, authenticate_user,
  login, issue_token_pair, rotate_row, rotate_refresh_token, refresh, logout, issue_service_token,
}
use lojinextv.Auth.Kept.{
  Rows, Holds, Takes, Takes-bind, issue_token_pair-Takes, register_user-Takes, logout-Takes,
  service-Takes,
}

abbrev pub live_in : ℕ → RefreshToken → Bool
live_in family r = r.family_id == family && live r

abbrev pub live_count : ℕ → List RefreshToken → ℕ
live_count family [] = 0
live_count family (r ∷ rs) = (if live_in family r then 1 else 0) + live_count family rs

abbrev pub OneLive : Rows
OneLive rs = (family : ℕ) → live_count family rs ≤ 1

module _ (family : ℕ) where
  pub live_count-append :
      (r : RefreshToken) (rs : List RefreshToken)
      → live_count family (rs ++ r ∷ [])
        ≡ live_count family rs + (if live_in family r then 1 else 0)
  live_count-append r [] = omega arith
  live_count-append r (q ∷ rs) = omega (arith, live_count-append r rs)

  revoked_not_live : (now : ℕ) (r : RefreshToken) → live_in family (revoke now r) ≡ false
  revoked_not_live now r = ground arith

  pub live_count-revoke :
      (now : ℕ) (p : RefreshToken → Bool) (rs : List RefreshToken)
      → live_count family (update_where p (revoke now) rs) ≤ live_count family rs
  live_count-revoke now p [] = omega arith
  live_count-revoke now p (r ∷ rs) = elim (Bool-cases (p r)) [
    | inl y ↦ rw (y, revoked_not_live now r) (omega (arith, live_count-revoke now p rs))
    | inr y ↦ rw y (omega (arith, live_count-revoke now p rs))
  ]

itself : (n : ℕ) → (n == n) ≡ true
itself n = ground arith

one_le :
    (family now : ℕ) (b : Bool) (q : RefreshToken)
    → (if live_in family (if b then revoke now q else q) then 1 else 0)
      ≤ (if live_in family q then 1 else 0)
one_le family now true q = rw (revoked_not_live family now q) (omega arith)
one_le family now false q = omega arith

-- the row that was found is one of those that its UPDATE reaches
live_count-revoke_row :
    (now h : ℕ) (r : RefreshToken) (rs : List RefreshToken)
    → find (has_hash h) rs ≡ some r
    → live r ≡ true
    → live_count r.family_id (update_where (λ q. q.token_id == r.token_id) (revoke now) rs) + 1
      ≤ live_count r.family_id rs
live_count-revoke_row now h r [] f l = cc
live_count-revoke_row now h r (q ∷ rs) f l = elim (Bool-cases (has_hash h q)) [
  | inl y ↦
      let e : q ≡ r = some-injective (sym (find-yes (has_hash h) q rs y) ∙ f) in
      rw (e, itself r.token_id, itself r.family_id, l)
        (omega (arith, live_count-revoke r.family_id now (λ q. q.token_id == r.token_id) rs))
  | inr y ↦ omega (
    arith,
    one_le r.family_id now (q.token_id == r.token_id) q,
    live_count-revoke_row now h r rs (sym (find-no (has_hash h) q rs y) ∙ f) l,
  )
]

at_most_one : (b : Bool) → (if b then 1 else 0) ≤ 1
at_most_one true = omega arith
at_most_one false = omega arith

same_number : (a b : ℕ) → (a == b) ≡ true → a ≡ b
same_number a b h = ground arith

module _ (ctx : Context) where
  -- no live token has the id of a new family
  abbrev pub Fresh : Rows
  Fresh rs = live_count (ctx.new_ulid 5) rs ≡ 0

  abbrev NewRoom : Rows
  NewRoom rs = OneLive rs × Fresh rs

  abbrev Room : ℕ → Rows
  Room family rs = OneLive rs × (live_count family rs ≡ 0)

  room-OneLive :
      (family user : ℕ) (rs : List RefreshToken)
      → Room family rs
      → OneLive (rs ++ new_refresh_token ctx user family ∷ [])
  room-OneLive family user rs (h, z) f = elim (Bool-cases (family == f)) [
    | inl y ↦ omega (
      arith,
      live_count-append f (new_refresh_token ctx user family) rs,
      at_most_one (live_in f (new_refresh_token ctx user family)),
      z,
      ap (λ n. live_count n rs) (same_number family f y),
    )
    | inr y ↦
        rw (live_count-append f (new_refresh_token ctx user family) rs, y) (omega (arith, h f))
  ]

  issue-OneLive :
      (cred : Credentials) (family : ℕ)
      → Takes OneLive (Room family) OneLive (issue_token_pair ctx cred family)
  issue-OneLive cred family =
      issue_token_pair-Takes OneLive (Room family) OneLive ctx cred family (λ rs h. h.0)
        (room-OneLive family cred.id)

  -- the row whose token is presented
  rotate_row-OneLive :
      (h : ℕ) (r : RefreshToken) (s : Session AuthDb)
      → find (has_hash h) s.work.refresh_tokens ≡ some r
      → live r ≡ true
      → Holds OneLive OneLive s
      → Holds OneLive OneLive (rotate_row ctx r s).1
  unfolding rotate_row
  rotate_row-OneLive h r s f l o = elim (Bool-cases (leb r.expires_at_utc ctx.now)) [
    | inl y ↦ rw y o
    | inr y ↦ rw y (elim (Option-cases (find (λ c. c.id == r.user_id) s.work.credentials)) [
      | inl z ↦ rw z o
      | inr (cred, z) ↦ rw z (elim (Bool-cases cred.is_active) [
        | inr a ↦ rw a o
        | inl a ↦ rw a (
            issue-OneLive cred r.family_id (record s { work = revoke_row ctx.now r s.work })
              (
                o.0,
                (
                  λ g. omega (
                    arith,
                    live_count-revoke g ctx.now (λ q. q.token_id == r.token_id)
                        s.work.refresh_tokens,
                    o.1 g,
                  ),
                  omega (
                    arith,
                    live_count-revoke_row ctx.now h r s.work.refresh_tokens f l,
                    o.1 r.family_id,
                  ),
                ),
              ))
      ])
    ])
  ]

  rotate-OneLive : (raw : ℕ) → Takes OneLive OneLive OneLive (rotate_refresh_token ctx raw)
  unfolding rotate_refresh_token
  rotate-OneLive raw s o =
      elim (Option-cases (find (has_hash (ctx.hash_token raw)) s.work.refresh_tokens)) [
        | inl e ↦ rw e o
        | inr (r, e) ↦ rw e (elim (Bool-cases (live r)) [
          | inl y ↦ rw y (rotate_row-OneLive (ctx.hash_token raw) r s e y o)
          | inr y ↦ rw y (
            λ g. omega (
              arith,
              live_count-revoke g ctx.now (λ q. q.family_id == r.family_id && live q)
                  s.committed.refresh_tokens,
              o.0 g,
            ),
            o.1,
          )
        ])
      ]

  same-OneLive : (rs : List RefreshToken) → OneLive rs → OneLive rs
  same-OneLive rs h = h

  refresh-OneLive : (raw : ℕ) → Takes OneLive OneLive OneLive (refresh ctx raw)
  unfolding refresh
  refresh-OneLive raw =
      Takes-bind OneLive OneLive OneLive OneLive same-OneLive (rotate_refresh_token ctx raw) _
        (rotate-OneLive raw) λ pair s h. (h.1, h.1)

  login-OneLive : (email password : ℕ) → Takes OneLive NewRoom OneLive (login ctx email password)
  unfolding login
  login-OneLive email password s o =
      elim (Option-cases (authenticate_user ctx email password s.work)) [
        | inl e ↦ rw e (o.0, o.1.0)
        | inr (cred, e) ↦ rw e (
            Takes-bind OneLive (Room (ctx.new_ulid 5)) OneLive OneLive same-OneLive
              (issue_token_pair ctx cred (ctx.new_ulid 5)) _ (issue-OneLive cred (ctx.new_ulid 5))
              (λ pair s' h. (h.1, h.1)) s o)
      ]

  registered-OneLive :
      (email password : ℕ) → Takes OneLive NewRoom OneLive (register ctx email password)
  unfolding register
  registered-OneLive email password =
      Takes-bind OneLive NewRoom NewRoom OneLive (λ rs h. h.0) (register_user ctx email password) _
        (register_user-Takes OneLive NewRoom ctx email password)
        λ cred.
          Takes-bind OneLive NewRoom OneLive OneLive same-OneLive
            (issue_token_pair ctx cred (ctx.new_ulid 5)) _ (issue-OneLive cred (ctx.new_ulid 5))
            (λ pair s h. (h.1, h.1))

  revoking-OneLive :
      (p : RefreshToken → Bool) (rs : List RefreshToken)
      → OneLive rs
      → OneLive (update_where p (revoke ctx.now) rs)
  revoking-OneLive p rs h f = omega (arith, live_count-revoke f ctx.now p rs, h f)

abbrev start : AuthDb → Session AuthDb
start d = record { committed = d; work = d }

-- the requests
pub data Call : Type 0 where
  registers logs_in : ℕ → ℕ → Call
  refreshes : ℕ → Call
  logs_out : ℕ → Option (Option ℕ × ℕ) → Call
  asks_service_token : ℕ → ℕ → Option ℕ → Call

-- what is committed after a request
unfoldable pub after : Context → Call → AuthDb → AuthDb
after ctx (registers email password) d = (request (register ctx email password) d).1
after ctx (logs_in email password) d = (request (login ctx email password) d).1
after ctx (refreshes raw) d = (request (refresh ctx raw) d).1
after ctx (logs_out raw payload) d = (request (logout ctx raw payload) d).1
after ctx (asks_service_token id secret audience) d =
    (request (issue_service_token ctx id secret audience) d).1

-- When requests are taken one after the other, which the code does not ensure since it reads the
-- token row without a lock: no request leaves a family of refresh tokens with more than one token
-- that is not revoked, if none had more before and no such token has the family id that a new
-- family would get.
pub after-OneLive :
    (ctx : Context) (c : Call) (d : AuthDb)
    → Fresh ctx d.refresh_tokens
    → OneLive d.refresh_tokens
    → OneLive (after ctx c d).refresh_tokens
unfolding after
after-OneLive ctx (registers email password) d new h =
    (registered-OneLive ctx email password (start d) (h, (h, new))).0
after-OneLive ctx (logs_in email password) d new h =
    (login-OneLive ctx email password (start d) (h, (h, new))).0
after-OneLive ctx (refreshes raw) d new h = (refresh-OneLive ctx raw (start d) (h, h)).0
after-OneLive ctx (logs_out raw payload) d new h =
    (logout-Takes OneLive ctx raw payload (revoking-OneLive ctx) (start d) (h, h)).0
after-OneLive ctx (asks_service_token id secret audience) d new h =
    (service-Takes OneLive ctx id secret audience (start d) (h, h)).0
