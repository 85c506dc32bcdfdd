-- ===== src/Exec.antt =====
-- Handlers that write to a database session and may raise. A session is the committed database and
-- the session's own view of it, where its writes stand until `commit`. A handler that raises leaves
-- its view behind, and the end of the request drops it: `get_session` of
-- services/fleet-service/src/fleet_service/database.py and of its driver-service twin closes the
-- session, and nothing commits there.
pub mod Post
use lojinextv.Prelude.{◌≡◌, refl, ◌⊎◌, inl, inr, Bool, true, false, Option, none, some}

pub data Result {ℓ} (E A : Type ℓ) : Type ℓ where
  ok : A → Result E A
  err : E → Result E A

pub Result-cases {ℓ} :
    {E A : Type ℓ} (r : Result E A) → ((a : A) × (r ≡ ok a)) ⊎ ((e : E) × (r ≡ err e))
Result-cases (ok a) = inl (a, refl)
Result-cases (err e) = inr (e, refl)

pub record Session (D : Type 0) : Type 0 where
  pub committed : D
  pub work : D

abbrev pub Exec : Type 0 → Type 0 → Type 0 → Type 0
Exec E D A = Session D → Result E A × Session D

abbrev pub continue :
    {E D A B : Type 0} → Result E A × Session D → (A → Exec E D B) → Result E B × Session D
continue (ok a, s) f = f a s
continue (err e, s) f = (err e, s)

infixl 5 ◌>>=◌ ◌>>◌
abbrev pub ◌>>=◌ : {E D A B : Type 0} → Exec E D A → (A → Exec E D B) → Exec E D B
◌>>=◌ m f s = continue (m s) f

abbrev pub ◌>>◌ : {E D B : Type 0} → Exec E D (Unit {0}) → Exec E D B → Exec E D B
◌>>◌ m k s = continue (m s) (λ _. k)

abbrev pub pure : {E D A : Type 0} → A → Exec E D A
pure a s = (ok a, s)

abbrev pub raise : {E D A : Type 0} → E → Exec E D A
raise e s = (err e, s)

-- `if test: raise e`
abbrev pub raise_if : {E D : Type 0} → Bool → E → Exec E D (Unit {0})
raise_if true e s = (err e, s)
raise_if false e s = (ok tt, s)

-- the exception of an external call, if it raises one
abbrev pub raise_some : {E D : Type 0} → Option E → Exec E D (Unit {0})
raise_some (some e) s = (err e, s)
raise_some none s = (ok tt, s)

-- the value, or `raise e` for None
abbrev pub require : {E D A : Type 0} → Option A → E → Exec E D A
require none e s = (err e, s)
require (some a) e s = (ok a, s)

-- the view that the session has of the database
abbrev pub gets : {E D A : Type 0} → (D → A) → Exec E D A
gets f s = (ok (f s.work), s)

abbrev pub modify : {E D : Type 0} → (D → D) → Exec E D (Unit {0})
modify f s = (ok tt, record s { work = f s.work })

abbrev pub commit : {E D : Type 0} → Exec E D (Unit {0})
commit s = (ok tt, record s { committed = s.work })

-- One request: a new session, the handler, and the session's end.
abbrev pub request : {E D A : Type 0} → Exec E D A → D → Result E A × D
request m d = let (r, s) = m (record { committed = d; work = d }) in (r, s.committed)
