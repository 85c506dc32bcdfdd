-- ===== src/Outbox/Relay/Attempts.antt =====
-- The life of one outbox row: how often it is tried, when again, and how it ends.
use lojinextv.Prelude.{
  ℕ, suc, zero, ◌+◌, ◌*◌, ◌≤◌, ◌<◌, ◌≡◌, ◌≢◌, sym, ◌∙◌, Option-cases, ◌⊎◌, inl, inr, true, ◌||◌,
  ◌&&◌, Option, none, some, List, arith,
}
use lojinextv.Outbox.{pending, publishing, published, failed, dead_letter}
use lojinextv.Outbox.Relay.{
  Row, Relay, claim_row, base_delay, mark_failed, is_mine, finalize, is_waiting, is_publishing,
  before,
}

-- What a relay does to a row: it claims a row that waits or whose claim has run out, and it
-- finalizes a row that carries its token. The batch has only such rows; that the UPDATE of the claim
-- reaches no others is assumed here, since its filter names an alias of the table.
pub data Step (relay : Relay) (jitter : ℕ → ℕ) : Row → Row → Type 0 where
  claims :
      (now token : ℕ) (r : Row)
      → (is_waiting r.publish_status
          || (is_publishing r.publish_status && before r.claim_expires_at_utc now))
        ≡ true
      → Step relay jitter r (claim_row relay now token r)
  finishes :
      (now token : ℕ) (answer : Option (List ℕ)) (r : Row)
      → is_mine r.outbox_id token r ≡ true
      → Step relay jitter r (finalize relay jitter now answer r)

pub data Reach (relay : Relay) (jitter : ℕ → ℕ) (r : Row) : Row → Type 0 where
  here : Reach relay jitter r r
  next : {q s : Row} → Reach relay jitter r q → Step relay jitter q s → Reach relay jitter r s

-- A row holds a token exactly while it is being published; a row that is not dead has tries left,
-- and a dead one has none.
pub record Inv (relay : Relay) (r : Row) : Type 0 where
  pub token : (t : ℕ) → r.claim_token ≡ some t → r.publish_status ≡ publishing
  pub tries : r.publish_status ≢ dead_letter → r.attempt_count < relay.max_failures
  pub spent : r.publish_status ≡ dead_letter → r.attempt_count ≡ relay.max_failures

abbrev pub IsNew : Row → Type 0
IsNew r = (r.publish_status ≡ pending) × (r.attempt_count ≡ 0) × (r.claim_token ≡ none)

publishing_ne_dead_letter : publishing ≢ dead_letter
publishing_ne_dead_letter e = cc

published_ne_publishing : published ≢ publishing
published_ne_publishing e = cc

-- a row that carries a token is being published
mine_publishing :
    (relay : Relay) (token : ℕ) (r : Row)
    → Inv relay r
    → is_mine r.outbox_id token r ≡ true
    → r.publish_status ≡ publishing
unfolding is_mine
mine_publishing relay token r i h = elim (Option-cases r.claim_token) [
  | inl e ↦ ground arith
  | inr (t, e) ↦ i.token t e
]

-- For a row that satisfies the invariant and is published or dead-lettered, no relay claims or
-- finalizes it again.
pub settled_final :
    (relay : Relay) (jitter : ℕ → ℕ) {r s : Row}
    → Inv relay r
    → (r.publish_status ≡ published) ⊎ (r.publish_status ≡ dead_letter)
    → ¬ Step relay jitter r s
settled_final relay jitter i e (claims now token r h) = ground arith
settled_final relay jitter i (inl e) (finishes now token answer r h) =
    published_ne_publishing (sym e ∙ mine_publishing relay token r i h)
settled_final relay jitter i (inr e) (finishes now token answer r h) =
    publishing_ne_dead_letter (sym (mine_publishing relay token r i h) ∙ e)

-- `k` failed tries of one row, each after a claim of its own
unfoldable pub fail_times : Relay → (ℕ → ℕ) → ℕ → List ℕ → ℕ → Row → Row
fail_times relay jitter now error zero r = r
fail_times relay jitter now error (suc k) r =
    mark_failed relay jitter now error
      (claim_row relay now k (fail_times relay jitter now error k r))

attempts-fail_times :
    (relay : Relay) (jitter : ℕ → ℕ) (now : ℕ) (error : List ℕ) (k : ℕ) (r : Row)
    → (fail_times relay jitter now error k r).attempt_count ≡ r.attempt_count + k
unfolding fail_times mark_failed claim_row
attempts-fail_times relay jitter now error zero r = omega arith
attempts-fail_times relay jitter now error (suc k) r =
    ground (arith, attempts-fail_times relay jitter now error k r)

-- A row that has not been tried and whose tries all fail is failed while fewer than max_failures
-- of them have been, and dead-lettered with the last.
pub fail_times_status :
    (relay : Relay) (jitter : ℕ → ℕ) (now : ℕ) (error : List ℕ) (k : ℕ) (r : Row)
    → r.attempt_count ≡ 0
    → suc k ≤ relay.max_failures
    → ((suc k < relay.max_failures)
        × ((fail_times relay jitter now error (suc k) r).publish_status ≡ failed))
      ⊎ ((suc k ≡ relay.max_failures)
          × ((fail_times relay jitter now error (suc k) r).publish_status ≡ dead_letter))
unfolding fail_times mark_failed claim_row
fail_times_status relay jitter now error k r n h =
    ground (arith, attempts-fail_times relay jitter now error k r)

-- A row that fails and is not dead-lettered is tried again between 27 seconds and 66 minutes
-- later, if the random factor is between 0.9 and 1.1.
pub retry_delay :
    (relay : Relay) (jitter : ℕ → ℕ) (now : ℕ) (error : List ℕ) (r : Row)
    → ((d : ℕ) → (9 * d ≤ 10 * jitter d) × (10 * jitter d ≤ 11 * d))
    → (mark_failed relay jitter now error r).publish_status ≡ failed
    → (t : ℕ) × ((mark_failed relay jitter now error r).next_attempt_at_utc ≡ some t)
      × (now + 27 ≤ t)
      × (t ≤ now + 3960)
unfolding mark_failed
retry_delay relay jitter now error r random h = (
  now + jitter (base_delay (r.attempt_count + 1)),
  ground arith,
  ground (arith, random (base_delay (r.attempt_count + 1))),
  ground (arith, random (base_delay (r.attempt_count + 1))),
)
