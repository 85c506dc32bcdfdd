-- ===== src/Breaker/Deadlock.antt =====
-- Where the breaker takes its lock twice.
use lojinextv.Prelude.{ℕ, ◌+◌, ◌≤◌, ◌<◌, ◌≡◌, ◌≢◌, ◌⊎◌, true, false, Option, none, some, arith}
use lojinextv.Breaker.{
  CircuitState, CircuitBreakerConfig, CircuitBreaker, Redis, half_open, done, hung, record_failure,
  record_success, distributed_count, settle,
}

module _ (cfg : CircuitBreakerConfig) (redis : Redis) (now : ℕ) (b : CircuitBreaker) where
  -- On a free breaker, a failure that reaches the threshold, or that ends a probe, never returns,
  -- keeps the lock and leaves the state as it was.
  pub record_failure_hangs :
      b.locked ≡ false
      → (b.state ≡ half_open)
        ⊎ (cfg.failure_threshold ≤ distributed_count redis (b.failure_count + 1))
      → ((record_failure cfg redis now b).0 ≡ hung)
        × ((record_failure cfg redis now b).1.locked ≡ true)
        × ((record_failure cfg redis now b).1.state ≡ b.state)
  unfolding record_failure
  record_failure_hangs l c = ground arith

  -- A failure below the threshold is counted and dated, and changes nothing else.
  pub record_failure_counts :
      b.locked ≡ false
      → b.state ≢ half_open
      → distributed_count redis (b.failure_count + 1) < cfg.failure_threshold
      → record_failure cfg redis now b
        ≡ (done tt, record b { failure_count = b.failure_count + 1; last_failure_time = now })
  unfolding record_failure
  record_failure_counts l c h = ground arith

  -- On a free breaker, the success of the last probe of a half-open circuit, which should close
  -- it, never returns, keeps the lock and leaves the state as it was.
  pub record_success_hangs :
      b.locked ≡ false
      → cfg.half_open_max_calls ≤ b.half_open_calls + 1
      → ((record_success cfg half_open b).0 ≡ hung)
        × ((record_success cfg half_open b).1.locked ≡ true)
        × ((record_success cfg half_open b).1.state ≡ b.state)
  unfolding record_success
  record_success_hangs l h = ground arith

module _ {ℓ} {A : Type ℓ} (cfg : CircuitBreakerConfig) where
  -- Once the lock is held for ever, no admitted call returns, whatever its function does.
  pub settle_locked :
      (redis : Redis) (now : ℕ) (s : CircuitState) (r : Option A) (b : CircuitBreaker)
      → b.locked ≡ true
      → settle cfg redis now s r b ≡ (hung, b)
  unfolding settle
  settle_locked redis now s none b l = ground arith
  settle_locked redis now s (some a) b l = ground arith
