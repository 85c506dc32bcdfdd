-- ===== src/Retry/Tests.antt =====
-- Three attempts with doubling delays.
use lojinextv.Prelude.{ℕ, zero, suc, ◌≡◌, ◌<◌, ◌≤◌, ◌+◌, refl, Option, none, some, length, arith}
use lojinextv.Retry.{RetryConfig, retry}
use lojinextv.Retry.Attempts.{retry_succeeds}

abbrev config : RetryConfig
config = record { max_attempts = 3; initial_delay = 1000; max_delay = 30000; backoff_factor = 2 }

abbrev exact : ℕ → ℕ
exact d = d

-- the second attempt succeeds
abbrev second : ℕ → Option ℕ
second zero = none
second (suc zero) = none
second (suc (suc n)) = some 7

abbrev never : ℕ → Option ℕ
never n = none

first_fails : (i : ℕ) → 1 ≤ i → i < 1 + 1 → second i ≡ none
first_fails zero a b = refl
first_fails (suc zero) a b = refl
first_fails (suc (suc i)) a b = absurd (omega arith)

retry_succeeds_example :
    ((retry config exact second).0 ≡ some 7) × (length (retry config exact second).1 ≡ 1)
retry_succeeds_example = retry_succeeds config exact second 1 7 first_fails refl (omega arith)
