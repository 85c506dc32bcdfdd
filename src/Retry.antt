-- ===== src/Retry.antt =====
-- packages/platform-common/src/platform_common/retry_utils.py: the `retry` decorator. Delays are
-- milliseconds, and the back-off factor is a whole number. The wrapped function is what each attempt
-- gives, by its number: a result, or `none` for an exception that is caught; the random factor is the
-- argument `jitter`. The loop has no bound of its own but the count of attempts, which is the fuel.
pub mod Attempts
mod Tests
use lojinextv.Prelude.{
  ℕ, zero, suc, ◌+◌, ◌-◌, ◌*◌, min, Option, none, some, List, [], ◌∷◌, leb, if◌then◌else◌,
}

pub record RetryConfig : Type 0 where
  pub max_attempts : ℕ
  pub initial_delay : ℕ
  pub max_delay : ℕ
  pub backoff_factor : ℕ

-- the answer, `none` for the exception of the last attempt, and the times slept
abbrev pub Retried {ℓ} : Type ℓ → Type ℓ
Retried A = Option A × List ℕ

abbrev pub slept {ℓ} : {A : Type ℓ} → ℕ → Retried A → Retried A
slept d (r, ds) = (r, d ∷ ds)

module _ {ℓ} {A : Type ℓ} (cfg : RetryConfig) (jitter : ℕ → ℕ) (func : ℕ → Option A) where
  -- the loop, from an attempt and its delay
  unfoldable pub attempt_from : ℕ → ℕ → ℕ → Retried A
  attempt_from zero attempt delay = (none, [])
  attempt_from (suc fuel) attempt delay =
      let rest = attempt_from fuel (attempt + 1) (min (delay * cfg.backoff_factor) cfg.max_delay) in
      elim (func attempt) [
        | some a ↦ (some a, [])
        | none ↦ if leb cfg.max_attempts attempt then (none, []) else slept (jitter delay) rest
      ]

  -- at least one attempt is made
  unfoldable pub retry : Retried A
  unfolding attempt_from
  retry = attempt_from (suc cfg.max_attempts) 1 cfg.initial_delay
