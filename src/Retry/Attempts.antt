-- ===== src/Retry/Attempts.antt =====
-- How often `retry` tries, and what it answers.
use lojinextv.Prelude.{
  ℕ, zero, suc, ◌+◌, ◌*◌, ◌≤◌, ◌<◌, min, ◌≡◌, refl, ap, ◌∙◌, Option, none, some, leb, arith, length,
  true, false,
}
use lojinextv.Retry.{RetryConfig, Retried, slept, attempt_from, retry}

module _ {ℓ} {A : Type ℓ} (cfg : RetryConfig) (jitter : ℕ → ℕ) (func : ℕ → Option A) where
  slept-length :
      (d k : ℕ) (a : A) (r : Retried A)
      → (r.0 ≡ some a) × (length r.1 ≡ k)
      → ((slept d r).0 ≡ some a) × (length (slept d r).1 ≡ suc k)
  slept-length d k a (o, ds) (e, l) = (e, omega (arith, l))

  leb_later : (a b : ℕ) → a < b → leb b a ≡ false
  leb_later a b h = ground arith

  -- the first success is the answer
  succeeds_from :
      (k fuel attempt delay : ℕ) (a : A)
      → ((i : ℕ) → attempt ≤ i → i < attempt + k → func i ≡ none)
      → func (attempt + k) ≡ some a
      → k < fuel
      → attempt + k ≤ cfg.max_attempts
      → ((attempt_from cfg jitter func fuel attempt delay).0 ≡ some a)
        × (length (attempt_from cfg jitter func fuel attempt delay).1 ≡ k)
  unfolding attempt_from
  succeeds_from k zero attempt delay a f s l m = absurd (omega arith)
  succeeds_from zero (suc fuel) attempt delay a f s l m =
      let now : func attempt ≡ some a = ap func (omega arith) ∙ s in
      rw (attempt_from, now) (refl, refl)
  succeeds_from (suc k) (suc fuel) attempt delay a f s l m =
      let rest =
        succeeds_from k fuel (attempt + 1) (min (delay * cfg.backoff_factor) cfg.max_delay) a
          (λ i h u. f i (omega arith) (omega arith)) (ap func (omega arith) ∙ s) (omega arith)
          (omega arith) in
      rw
        (
          attempt_from,
          f attempt (omega arith) (omega arith),
          leb_later attempt cfg.max_attempts (omega arith),
        )
        (slept-length (jitter delay) k a _ rest)

  -- If some attempt within the bound succeeds, the answer is that of the first one that does, and
  -- the loop has slept once for each attempt before it.
  pub retry_succeeds :
      (k : ℕ) (a : A)
      → ((i : ℕ) → 1 ≤ i → i < 1 + k → func i ≡ none)
      → func (1 + k) ≡ some a
      → 1 + k ≤ cfg.max_attempts
      → ((retry cfg jitter func).0 ≡ some a) × (length (retry cfg jitter func).1 ≡ k)
  unfolding retry
  retry_succeeds k a f s m =
      succeeds_from k (suc cfg.max_attempts) 1 cfg.initial_delay a f s (omega arith) m

  slept_failed :
      (d k : ℕ) (r : Retried A)
      → (r.0 ≡ none) × (length r.1 ≡ k)
      → ((slept d r).0 ≡ none) × (length (slept d r).1 ≡ suc k)
  slept_failed d k (o, ds) (e, l) = (e, omega (arith, l))

  leb_reached : (a b : ℕ) → b ≤ a → leb b a ≡ true
  leb_reached a b h = ground arith

  fails_from :
      (k fuel attempt delay : ℕ)
      → ((i : ℕ) → attempt ≤ i → i ≤ cfg.max_attempts → func i ≡ none)
      → attempt + k ≡ cfg.max_attempts
      → k < fuel
      → ((attempt_from cfg jitter func fuel attempt delay).0 ≡ none)
        × (length (attempt_from cfg jitter func fuel attempt delay).1 ≡ k)
  unfolding attempt_from
  fails_from k zero attempt delay f m l = absurd (omega arith)
  fails_from zero (suc fuel) attempt delay f m l =
      rw
        (
          attempt_from,
          f attempt (omega arith) (omega arith),
          leb_reached attempt cfg.max_attempts (omega arith),
        )
        (refl, refl)
  fails_from (suc k) (suc fuel) attempt delay f m l =
      rw
        (
          attempt_from,
          f attempt (omega arith) (omega arith),
          leb_later attempt cfg.max_attempts (omega arith),
        )
        (slept_failed (jitter delay) k _ (
          fails_from k fuel (attempt + 1) (min (delay * cfg.backoff_factor) cfg.max_delay)
            (λ i h u. f i (omega arith) u) (omega arith) (omega arith)))

  -- If every attempt within a bound of at least one fails, the exception of the last is raised,
  -- and the loop has slept between the attempts and not after the last.
  pub retry_fails :
      (k : ℕ)
      → cfg.max_attempts ≡ suc k
      → ((i : ℕ) → 1 ≤ i → i ≤ cfg.max_attempts → func i ≡ none)
      → ((retry cfg jitter func).0 ≡ none) × (length (retry cfg jitter func).1 ≡ k)
  unfolding retry
  retry_fails k m f =
      fails_from k (suc cfg.max_attempts) 1 cfg.initial_delay f (omega arith) (omega arith)
