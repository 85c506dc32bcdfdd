-- ===== src/Driver/Lifecycle/Sound.antt =====
-- The invariant of the driver rows that the lifecycle endpoints keep.
use mathlib.Core.Path.{subst}
use mathlib.Core.List.{Memᴰ}
use lojinextv.Prelude.{
  ℕ, ◌≡◌, ◌≢◌, ◌↔◌, refl, sym, inl, inr, Bool, true, Option, none, some, List, [], ◌∷◌, arith, ◌==◌,
  update_where, All, Bool-cases,
}
use lojinextv.Exec.{Result, ok, err}
use lojinextv.StateMachine.Laws.{Allowed}
use lojinextv.StateMachine.Driver.{
  DriverStatus, active, inactive, in_review, suspended, cancelled, DriverStatus-discrete,
  driver_transitions,
}
use lojinextv.Driver.{Driver, Db}
use lojinextv.Driver.Session.{DriverError, Context, select_driver, computed}
use lojinextv.Driver.Lifecycle.{Response}
use lojinextv.Driver.Lifecycle.Outcome.{
  Request, inactivate, reactivate, soft_delete, serve, target, Effect, driver_machine, Outcome,
}
use lojinextv.Driver.Lifecycle.Moves.{driver_atomic, driver_outcome}

-- A driver is cancelled exactly if its row carries the time of its deletion.
abbrev pub Marked : DriverStatus → Option ℕ → Type 0
Marked cancelled (some t) = Unit
Marked cancelled none = ⊥
Marked _ (some t) = ⊥
Marked _ none = Unit

abbrev pub Sound : Driver → Type 0
Sound d = Marked d.status d.soft_deleted_at_utc × ((d.is_assignable ≡ true) ↔ (d.status ≡ active))

some-injective : (x y : Driver) → some x ≡ some y → x ≡ y
some-injective x y e = cc

module _ (P : Driver → Type 0) where
  All-find :
      (id : ℕ) (ds : List Driver) (d : Driver) → All P ds → select_driver id ds ≡ some d → P d
  unfolding select_driver
  All-find id [] d ps e = cc
  All-find id (x ∷ ds) d ps e = elim (Bool-cases (x.driver_id == id)) [
    | inl y ↦ subst P (some-injective x d (ground (arith, y, e))) ps.0
    | inr n ↦ All-find id ds d ps.1 (ground (arith, n, e))
  ]

  All-update_where :
      (p : Driver → Bool) (new : Driver) (ds : List Driver)
      → All P ds
      → P new
      → All P (update_where p (λ _. new) ds)
  All-update_where p new [] ps q = tt
  All-update_where p new (x ∷ ds) ps q = elim (Bool-cases (p x)) [
    | inl y ↦ rw y (q, All-update_where p new ds ps.1 q)
    | inr n ↦ rw n (ps.0, All-update_where p new ds ps.1 q)
  ]

computed_assignable : (d : Driver) → ((computed d).is_assignable ≡ true) ↔ (d.status ≡ active)
computed_assignable d = (λ e. ground arith, λ e. ground arith)

cancelled_not_inactive :
    (s : DriverStatus) → Allowed DriverStatus-discrete (driver_machine s) inactive → s ≢ cancelled
unfolding driver_transitions
cancelled_not_inactive s a e =
    no (subst (λ t. Allowed DriverStatus-discrete (driver_machine t) inactive) e a)
  where
    no : ¬ Allowed DriverStatus-discrete (driver_machine cancelled) inactive
    no (inl k) = cc
    no (inr (Memᴰ.head k)) = cc
    no (inr (Memᴰ.tail m)) = elim m [ ]

-- a driver that is not cancelled has no mark
Marked-none :
    (s s' : DriverStatus) (o : Option ℕ) → s ≢ cancelled → s' ≢ cancelled → Marked s o → Marked s' o
Marked-none cancelled s' o n n' m = absurd (n refl)
Marked-none s cancelled o n n' m = absurd (n' refl)
Marked-none active s' (some t) n n' m = absurd m
Marked-none inactive s' (some t) n n' m = absurd m
Marked-none in_review s' (some t) n n' m = absurd m
Marked-none suspended s' (some t) n n' m = absurd m
Marked-none s active none n n' m = tt
Marked-none s inactive none n n' m = tt
Marked-none s in_review none n n' m = tt
Marked-none s suspended none n n' m = tt

-- the mark of a new row
Effect-Marked :
    (ctx : Context) (q : Request) (d d' : Driver)
    → Allowed DriverStatus-discrete (driver_machine d.status) (target q)
    → Effect ctx q d d'
    → Marked d.status d.soft_deleted_at_utc
    → Marked d'.status d'.soft_deleted_at_utc
Effect-Marked ctx (inactivate body) d d' a (b, _, e) m = rw e (
    Marked-none d.status inactive d.soft_deleted_at_utc (cancelled_not_inactive d.status a)
      (λ k. cc) m)
Effect-Marked ctx reactivate d d' a e m = rw e tt
Effect-Marked ctx (soft_delete body) d d' a (r, _, e) m = rw e tt

module _ (ctx : Context) (id : ℕ) (if_match : Option ℕ) (d : Db) where
  Outcome-Sound :
      (q : Request) (x : Response) (d' : Db)
      → All Sound d.drivers
      → Outcome ctx id q if_match d x d'
      → All Sound d'.drivers
  Outcome-Sound q x d' ps (inl (_, e)) = rw e ps
  Outcome-Sound q x d' ps (inr c) = rw c.written (
      All-update_where Sound _ (computed c.new) d.drivers ps (
        Effect-Marked ctx q c.old c.new c.allowed c.effect
            (All-find Sound id d.drivers c.old ps c.found).0,
        computed_assignable c.new,
      ))

  -- After every lifecycle request, answered or refused: a driver is cancelled exactly if its row
  -- carries the time of a deletion, and is assignable exactly if it is active, when that was so
  -- before.
  pub driver-Sound :
      (q : Request) → All Sound d.drivers → All Sound (serve ctx id q if_match d).1.drivers
  driver-Sound q ps = either (serve ctx id q if_match d).0 refl
    where
      either :
          (r : Result DriverError Response)
          → (serve ctx id q if_match d).0 ≡ r
          → All Sound (serve ctx id q if_match d).1.drivers
      either (ok x) e = Outcome-Sound q x _ ps (driver_outcome ctx id if_match d q x e)
      either (err x) e =
          subst (λ y. All Sound y.drivers) (sym (driver_atomic ctx id if_match d q x e)) ps
