-- ===== src/Exec/Post.antt =====
-- Reasoning about a handler step by step: a handler that raises must have committed nothing, and
-- one that returns must meet its postcondition.
use mathlib.Core.Path.{subst}
use lojinextv.Prelude.{◌≡◌, refl, Bool, true, false, Option, none, some}
use lojinextv.Exec.{
  Result, ok, err, Session, Exec, ◌>>=◌, ◌>>◌, raise_if, raise_some, require, continue, request,
}

module _ {E D A : Type 0} where
  -- `c` is the database that was committed when the handler began
  abbrev pub Post : (A → Session D → Type 0) → D → Result E A × Session D → Type 0
  Post Q c (ok a, s) = Q a s
  Post Q c (err e, s) = s.committed ≡ c

module _ {E D A : Type 0} (Q : A → Session D → Type 0) (c : D) where
  pub Post-raise_if :
      (b : Bool) (e : E) (k : Exec E D A) (s : Session D)
      → s.committed ≡ c
      → (b ≡ false → Post Q c (k s))
      → Post Q c ((raise_if b e >> k) s)
  Post-raise_if true e k s h t = h
  Post-raise_if false e k s h t = t refl

  pub Post-raise_some :
      (o : Option E) (k : Exec E D A) (s : Session D)
      → s.committed ≡ c
      → (o ≡ none → Post Q c (k s))
      → Post Q c ((raise_some o >> k) s)
  Post-raise_some (some e) k s h t = h
  Post-raise_some none k s h t = t refl

  pub Post-require :
      {B : Type 0} (o : Option B) (e : E) (f : B → Exec E D A) (s : Session D)
      → s.committed ≡ c
      → ((b : B) → o ≡ some b → Post Q c (f b s))
      → Post Q c ((require o e >>= f) s)
  Post-require none e f s h t = h
  Post-require (some b) e f s h t = t b refl

  -- a part whose own postcondition is known
  pub Post-bind :
      {B : Type 0} (R : B → Session D → Type 0) (r : Result E B × Session D) (f : B → Exec E D A)
      → Post R c r
      → ((b : B) (s : Session D) → R b s → Post Q c (f b s))
      → Post Q c (continue r f)
  Post-bind R (ok b, s) f h t = t b s h
  Post-bind R (err e, s) f h t = h

-- a whole request, for a postcondition on what is committed
module _ {E D A : Type 0} (Q : A → D → Type 0) where
  ok-injective : (a b : A) → ◌≡◌ {A = Result E A} (ok a) (ok b) → a ≡ b
  ok-injective a b q = cc

  abbrev Request : D → Result E A × Session D → Type 0
  Request d r =
      ((e : E) → r.0 ≡ err e → r.1.committed ≡ d) × ((a : A) → r.0 ≡ ok a → Q a r.1.committed)

  Post→Request :
      (d : D) (r : Result E A × Session D) → Post (λ a s. Q a s.committed) d r → Request d r
  Post→Request d (ok a, s) p =
      (λ e q. cc, λ b q. subst (λ y. Q y s.committed) (ok-injective a b q) p)
  Post→Request d (err e, s) p = (λ _ _. p, λ a q. cc)

  pub Post-request :
      (m : Exec E D A) (d : D)
      → Post (λ a s. Q a s.committed) d (m (record { committed = d; work = d }))
      → ((e : E) → (request m d).0 ≡ err e → (request m d).1 ≡ d)
        × ((a : A) → (request m d).0 ≡ ok a → Q a (request m d).1)
  Post-request m d h = Post→Request d (m (record { committed = d; work = d })) h
