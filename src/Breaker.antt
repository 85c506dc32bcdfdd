-- ===== src/Breaker.antt =====
-- packages/platform-common/src/platform_common/circuit_breaker.py: the `CircuitBreaker` class. An
-- `asyncio.Lock` is not reentrant: a task that acquires a lock which it holds itself waits for ever,
-- and that is the outcome `hung`. Times are milliseconds of the monotonic clock (the source's float
-- seconds), handed in where the code reads the clock. Redis is outside the repository: what it
-- answers to a call is the argument `Redis`; what is written to it is not kept.
pub mod Deadlock
pub mod Admission
mod Tests
use lojinextv.Prelude.{
  ℕ, ◌+◌, ◌-◌, Bool, true, false, Option, none, some, List, [], ◌∷◌, ltb, leb, if◌then◌else◌,
}

pub data CircuitState : Type 0 where
  closed opened half_open : CircuitState

pub record CircuitBreakerConfig : Type 0 where
  pub failure_threshold : ℕ
  pub recovery_timeout : ℕ
  pub half_open_max_calls : ℕ

-- The object's mutable fields; `locked` says whether some task holds `_lock`.
pub record CircuitBreaker : Type 0 where
  pub state : CircuitState
  pub failure_count : ℕ
  pub last_failure_time : ℕ
  pub half_open_calls : ℕ
  pub locked : Bool

-- What Redis answers during one call: the stored state, `none` for no Redis, a failed read, a
-- missing key or a value that is no state; and the count that INCR returns, `none` if it fails.
pub record Redis : Type 0 where
  pub stored : Option CircuitState
  pub count : Option ℕ

abbrev pub no_redis : Redis
no_redis = record { stored = none; count = none }

pub data Outcome {ℓ} (A : Type ℓ) : Type ℓ where
  done : A → Outcome A
  -- CircuitOpenError with its `retry_after`
  circuit_open : ℕ → Outcome A
  -- the exception of the wrapped function
  raised : Outcome A
  hung : Outcome A

abbrev pub M {ℓ} : Type ℓ → Type ℓ
M A = CircuitBreaker → Outcome A × CircuitBreaker

unfoldable pub init : CircuitBreaker
init = record {
  state = closed;
  failure_count = 0;
  last_failure_time = 0;
  half_open_calls = 0;
  locked = false;
}

-- leaving `async with`: a task that hangs never leaves
abbrev release : Outcome (Unit {0}) × CircuitBreaker → Outcome (Unit {0}) × CircuitBreaker
release (hung, b) = (hung, b)
release (r, b) = (r, record b { locked = false })

-- async with self._lock
unfoldable pub with_lock : M (Unit {0}) → M (Unit {0})
with_lock body b = if b.locked then (hung, b) else release (body (record b { locked = true }))

unfoldable pub get_state : Redis → CircuitBreaker → CircuitState
get_state redis b = elim redis.stored [ some s ↦ s | none ↦ b.state ]

unfoldable pub set_state : CircuitState → M (Unit {0})
unfolding with_lock
set_state s = with_lock λ b. (done tt, record b { state = s })

abbrev is_half_open : CircuitState → Bool
is_half_open half_open = true
is_half_open _ = false

abbrev is_opened : CircuitState → Bool
is_opened opened = true
is_opened _ = false

-- the failures that count against the threshold: those of Redis, or the local ones
unfoldable pub distributed_count : Redis → ℕ → ℕ
distributed_count redis local = elim redis.count [ some n ↦ n | none ↦ local ]

unfoldable pub count_failure : CircuitBreakerConfig → Redis → M (Unit {0})
unfolding set_state distributed_count
count_failure cfg redis b =
    if is_half_open b.state
    then set_state opened b
    else if leb cfg.failure_threshold (distributed_count redis b.failure_count)
    then set_state opened b
    else (done tt, b)

unfoldable pub record_failure : CircuitBreakerConfig → Redis → ℕ → M (Unit {0})
unfolding with_lock count_failure
record_failure cfg redis now = with_lock λ b.
    count_failure cfg redis
      (record b { failure_count = b.failure_count + 1; last_failure_time = now })

unfoldable pub count_probe : CircuitBreakerConfig → M (Unit {0})
unfolding set_state
count_probe cfg b =
    if leb cfg.half_open_max_calls b.half_open_calls
    then set_state closed (record b { failure_count = 0 })
    else (done tt, b)

unfoldable pub record_success : CircuitBreakerConfig → CircuitState → M (Unit {0})
unfolding with_lock count_probe
record_success cfg previous = with_lock λ b.
    if is_half_open previous
    then count_probe cfg (record b { half_open_calls = b.half_open_calls + 1 })
    else (done tt, b)

-- `none` is an exception of the Redis DELETE, which `reset` does not catch
unfoldable pub reset : Option (Unit {0}) → M (Unit {0})
unfolding with_lock
reset deleted = with_lock λ b.
    let b' = record b { state = closed; failure_count = 0; half_open_calls = 0 } in
    elim deleted [ some _ ↦ (done tt, b') | none ↦ (raised, b') ]

-- the one second of `CircuitOpenError(name, 1.0)`
abbrev pub probe_retry_after : ℕ
probe_retry_after = 1000

-- the guards of `call` before the function runs: the state that the call goes on with
abbrev check_probes : CircuitBreakerConfig → CircuitState → M CircuitState
check_probes cfg s b =
    if is_half_open s
    then if leb cfg.half_open_max_calls b.half_open_calls
      then (circuit_open probe_retry_after, b)
      else (done s, b)
    else (done s, b)

abbrev after_recovery :
    CircuitBreakerConfig
    → Outcome (Unit {0}) × CircuitBreaker
    → Outcome CircuitState × CircuitBreaker
after_recovery cfg (done _, b) = check_probes cfg half_open (record b { half_open_calls = 0 })
after_recovery cfg (circuit_open n, b) = (circuit_open n, b)
after_recovery cfg (raised, b) = (raised, b)
after_recovery cfg (hung, b) = (hung, b)

unfoldable pub admit : CircuitBreakerConfig → Redis → ℕ → M CircuitState
unfolding get_state set_state
admit cfg redis now b =
    if is_opened (get_state redis b)
    then (let elapsed = now - b.last_failure_time in
        if ltb elapsed cfg.recovery_timeout
        then (circuit_open (cfg.recovery_timeout - elapsed), b)
        else after_recovery cfg (set_state half_open b))
    else check_probes cfg (get_state redis b) b

-- what the call answers once its bookkeeping has ended
abbrev answer {ℓ} :
    {A : Type ℓ} → Outcome A → Outcome (Unit {0}) × CircuitBreaker → Outcome A × CircuitBreaker
answer r (done _, b) = (r, b)
answer r (circuit_open n, b) = (circuit_open n, b)
answer r (raised, b) = (raised, b)
answer r (hung, b) = (hung, b)

module _ {ℓ} {A : Type ℓ} where
  -- after the function: `none` is its exception
  unfoldable pub settle : CircuitBreakerConfig → Redis → ℕ → CircuitState → Option A → M A
  unfolding record_failure record_success
  settle cfg redis now s none b = answer raised (record_failure cfg redis now b)
  settle cfg redis now s (some a) b = answer (done a) (record_success cfg s b)

  abbrev resume :
      CircuitBreakerConfig
      → Redis
      → ℕ
      → Option A
      → (CircuitBreaker → CircuitBreaker)
      → Outcome CircuitState × CircuitBreaker
      → Outcome A × CircuitBreaker
  resume cfg redis now r others (done s, b) = settle cfg redis now s r (others b)
  resume cfg redis now r others (circuit_open n, b) = (circuit_open n, b)
  resume cfg redis now r others (raised, b) = (raised, b)
  resume cfg redis now r others (hung, b) = (hung, b)

  -- `call` at time `now`, with a function that ends at `later`; `others` is what other tasks do to
  -- the breaker while it runs.
  unfoldable pub call :
      CircuitBreakerConfig
      → Redis
      → (now later : ℕ) → Option A
      → (CircuitBreaker → CircuitBreaker)
      → M A
  unfolding admit settle
  call cfg redis now later r others b = resume cfg redis later r others (admit cfg redis now b)
