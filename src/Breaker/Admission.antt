-- ===== src/Breaker/Admission.antt =====
-- Which calls the breaker lets through, and what a breaker without Redis can come to.
use lojinextv.Prelude.{
  ℕ, zero, suc, ◌+◌, ◌-◌, ◌≤◌, ◌<◌, ◌≡◌, ◌⊎◌, inl, inr, true, false, Option, none, some, List, [],
  ◌∷◌, arith, ap,
}
use lojinextv.Breaker.{
  CircuitState, CircuitBreakerConfig, CircuitBreaker, Redis, no_redis, closed, opened, half_open,
  Outcome, circuit_open, done, get_state, admit, settle, call,
}
use lojinextv.Breaker.Deadlock.{settle_locked}

module _ (cfg : CircuitBreakerConfig) (redis : Redis) (now : ℕ) (b : CircuitBreaker) where
  -- An open circuit refuses until the recovery timeout has passed, and says how long to wait.
  pub admit_early :
      get_state redis b ≡ opened
      → now - b.last_failure_time < cfg.recovery_timeout
      → admit cfg redis now b
        ≡ (circuit_open (cfg.recovery_timeout - (now - b.last_failure_time)), b)
  unfolding admit
  admit_early o h = ground arith

  -- After the timeout a free breaker becomes half-open and starts a new round of probes.
  pub admit_recovered :
      get_state redis b ≡ opened
      → cfg.recovery_timeout ≤ now - b.last_failure_time
      → b.locked ≡ false
      → 0 < cfg.half_open_max_calls
      → admit cfg redis now b
        ≡ (done half_open, record b { state = half_open; half_open_calls = 0 })
  unfolding admit
  admit_recovered o h l m = ground arith

  -- A call that is let through keeps the lock free, and goes on as closed or as half-open.
  pub admit_done :
      (s : CircuitState)
      → (admit cfg redis now b).0 ≡ done s
      → ((s ≡ closed) ⊎ (s ≡ half_open))
        × ((admit cfg redis now b).1.locked ≡ b.locked)
        × ((admit cfg redis now b).1.failure_count ≡ b.failure_count)
  unfolding admit
  admit_done s h = ground arith

module _ {ℓ} {A : Type ℓ} (cfg : CircuitBreakerConfig) (redis : Redis) (now later : ℕ)
    (r : Option A) (others : CircuitBreaker → CircuitBreaker) (b : CircuitBreaker) where
  -- A call on an open circuit is refused before its function runs, and leaves the breaker as it was.
  pub call_early :
      get_state redis b ≡ opened
      → now - b.last_failure_time < cfg.recovery_timeout
      → call cfg redis now later r others b
        ≡ (circuit_open (cfg.recovery_timeout - (now - b.last_failure_time)), b)
  unfolding call
  call_early o h = ground (arith, admit_early cfg redis now b)

-- What a breaker without Redis goes through: tasks enter `call` and come back from their functions,
-- in any order and number.
pub data Event : Type 0 where
  enter : ℕ → Event
  leave : ℕ → CircuitState → Option (Unit {0}) → Event

unfoldable pub step : CircuitBreakerConfig → CircuitBreaker → Event → CircuitBreaker
step cfg b (enter now) = (admit cfg no_redis now b).1
step cfg b (leave now s r) = (settle cfg no_redis now s r b).1

unfoldable pub run : CircuitBreakerConfig → CircuitBreaker → List Event → CircuitBreaker
unfolding step
run cfg b [] = b
run cfg b (e ∷ es) = run cfg (step cfg b e) es

step-closed :
    (cfg : CircuitBreakerConfig) (b : CircuitBreaker) (e : Event)
    → b.state ≡ closed
    → (step cfg b e).state ≡ closed
unfolding step admit settle
step-closed cfg b (enter now) h = ground arith
step-closed cfg b (leave now s none) h = ground arith
step-closed cfg b (leave now s (some u)) h = ground arith

-- Whatever the tasks do, a breaker that starts closed and has no Redis is never open or half-open.
pub run-closed :
    (cfg : CircuitBreakerConfig) (b : CircuitBreaker) (es : List Event)
    → b.state ≡ closed
    → (run cfg b es).state ≡ closed
unfolding run
run-closed cfg b [] h = h
run-closed cfg b (e ∷ es) h = run-closed cfg (step cfg b e) es (step-closed cfg b e h)

-- `n` calls in a row whose functions raise
unfoldable pub failures : ℕ → List Event
failures zero = []
failures (suc n) = leave n closed none ∷ failures n

step-locked :
    (cfg : CircuitBreakerConfig) (b : CircuitBreaker) (n : ℕ)
    → b.locked ≡ true
    → step cfg b (leave n closed none) ≡ b
unfolding step
step-locked cfg b n l =
    ap (λ (p : Outcome (Unit {0}) × CircuitBreaker). p.1)
      (settle_locked cfg no_redis n closed none b l)

run-locked :
    (cfg : CircuitBreakerConfig) (b : CircuitBreaker) (n : ℕ)
    → b.locked ≡ true
    → (run cfg b (failures n)).locked ≡ true
unfolding run failures
run-locked cfg b zero l = l
run-locked cfg b (suc n) l =
    run-locked cfg (step cfg b (leave n closed none)) n (ground (arith, step-locked cfg b n))

step_failure :
    (cfg : CircuitBreakerConfig) (b : CircuitBreaker) (n : ℕ)
    → b.locked ≡ false
    → b.state ≡ closed
    → ((cfg.failure_threshold ≤ b.failure_count + 1)
        × ((step cfg b (leave n closed none)).locked ≡ true))
      ⊎ ((b.failure_count + 1 < cfg.failure_threshold)
          × (step cfg b (leave n closed none)
              ≡ record b { failure_count = b.failure_count + 1; last_failure_time = n }))
unfolding step settle
step_failure cfg b n l s = ground arith

-- Without Redis, on a free and closed breaker with fewer failures than the threshold, n failing
-- calls in a row leave the lock held for ever if they reach the threshold, and are only counted if
-- they do not.
pub run-failures :
    (cfg : CircuitBreakerConfig) (b : CircuitBreaker) (n : ℕ)
    → b.locked ≡ false
    → b.state ≡ closed
    → b.failure_count < cfg.failure_threshold
    → ((cfg.failure_threshold ≤ b.failure_count + n) × ((run cfg b (failures n)).locked ≡ true))
      ⊎ ((b.failure_count + n < cfg.failure_threshold)
          × ((run cfg b (failures n)).locked ≡ false)
          × ((run cfg b (failures n)).failure_count ≡ b.failure_count + n))
unfolding run failures
run-failures cfg b zero l s h = inr (omega arith, l, omega arith)
run-failures cfg b (suc n) l s h = elim (step_failure cfg b n l s) [
  | inl (t, e) ↦ inl (omega arith, run-locked cfg (step cfg b (leave n closed none)) n e)
  | inr (t, e) ↦
      rw (e, run)
        (elim (run-failures cfg
          (record b { failure_count = b.failure_count + 1; last_failure_time = n }) n l s t) [
            | inl (u, g) ↦ inl (omega arith, g)
            | inr (u, g, k) ↦ inr (omega arith, g, omega arith)
          ])
]
