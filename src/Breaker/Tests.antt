-- ===== src/Breaker/Tests.antt =====
-- The breaker's theorems on one small configuration.
use lojinextv.Prelude.{◌≡◌, refl, inr, true, false, arith}
use lojinextv.Breaker.{
  CircuitBreakerConfig, CircuitBreaker, no_redis, closed, opened, hung, record_failure,
  distributed_count,
}
use lojinextv.Breaker.Deadlock.{record_failure_hangs}

abbrev config : CircuitBreakerConfig
config = record { failure_threshold = 3; recovery_timeout = 30000; half_open_max_calls = 1 }

-- a breaker that another instance's failures have opened, at time 1000
abbrev failed_breaker : CircuitBreaker
failed_breaker = record {
  state = opened;
  failure_count = 3;
  last_failure_time = 1000;
  half_open_calls = 0;
  locked = false;
}

abbrev fresh : CircuitBreaker
fresh = record {
  state = closed;
  failure_count = 0;
  last_failure_time = 0;
  half_open_calls = 0;
  locked = false;
}

abbrev two_failures : CircuitBreaker
two_failures = record {
  state = closed;
  failure_count = 2;
  last_failure_time = 7;
  half_open_calls = 0;
  locked = false;
}

record_failure_hangs_example :
    ((record_failure config no_redis 9 two_failures).0 ≡ hung)
    × ((record_failure config no_redis 9 two_failures).1.locked ≡ true)
    × ((record_failure config no_redis 9 two_failures).1.state ≡ closed)
unfolding distributed_count
record_failure_hangs_example =
    record_failure_hangs config no_redis 9 two_failures refl (inr (omega arith))
