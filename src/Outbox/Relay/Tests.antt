-- ===== src/Outbox/Relay/Tests.antt =====
-- The relay's theorems on a table of three rows.
use lojinextv.Prelude.{
  ℕ, ◌+◌, ◌≡◌, ◌≤◌, refl, Bool, true, false, Option, none, some, List, [], ◌∷◌, arith, elem, All,
  length,
}
use lojinextv.Outbox.{OutboxPublishStatus, pending, publishing, published, dead_letter}
use lojinextv.Outbox.Relay.{
  Row, Relay, OutboxMessage, select_batch, ids_of, claim_row, is_mine, mark_failed, finalize,
  publish_single,
}
use lojinextv.Outbox.Relay.Claim.{publish_once}
use lojinextv.Outbox.Relay.Order.{Claimable, select_batch-Claimable}
use lojinextv.Outbox.Relay.Attempts.{retry_delay}

abbrev relay : Relay
relay = record { batch_size = 2; claim_ttl_seconds = 60; max_failures = 5; worker_id = 1 }

abbrev row : ℕ → ℕ → ℕ → OutboxPublishStatus → Row
row id partition created status = record {
  outbox_id = id;
  partition_key = partition;
  event_name = "trip.created.v1";
  event_version = 1;
  aggregate_type = "TRIP";
  aggregate_id = 70;
  causation_id = none;
  correlation_id = none;
  payload_json = "{}";
  publish_status = status;
  attempt_count = 0;
  last_error = none;
  next_attempt_at_utc = none;
  claim_token = none;
  claim_expires_at_utc = none;
  claimed_by_worker = none;
  created_at_utc = created;
  published_at_utc = none;
}

-- the second row waits for the first, which has the same partition
abbrev table : List Row
table = row 1 7 10 pending ∷ row 2 7 11 pending ∷ row 3 8 12 published ∷ row 4 9 5 pending ∷ []

abbrev unlocked : Row → Bool
unlocked r = false

abbrev exactly : List ℕ → Row → Bool
exactly ids r = elem r.outbox_id ids

abbrev everything : List ℕ → Row → Bool
everything ids r = true

abbrev unscaled : ℕ → ℕ
unscaled d = d

select_batch_ids : ids_of (select_batch relay unlocked 20 table) ≡ 4 ∷ 1 ∷ []
unfolding select_batch
select_batch_ids = refl

select_batch-Claimable_example :
    All (Claimable unlocked 20 table) (select_batch relay unlocked 20 table)
    × (length (select_batch relay unlocked 20 table) ≤ 2)
select_batch-Claimable_example = select_batch-Claimable relay unlocked 20 table

abbrev claimed : Row
claimed = record (row 1 7 10 publishing) {
  claim_token = some 99;
  claim_expires_at_utc = some 80;
  claimed_by_worker = some 1;
}

abbrev accepts : OutboxMessage → Option (List ℕ)
accepts m = none

abbrev stolen : List Row → List Row
stolen rows = record claimed { claim_token = some 100 } ∷ []

publish_once_example :
    publish_single relay unscaled 31 accepts
      (λ t. t)
      1
      99
      (publish_single relay unscaled 30 accepts (λ t. t) 1 99 (claimed ∷ [])).2
    ≡ (false, none, (publish_single relay unscaled 30 accepts (λ t. t) 1 99 (claimed ∷ [])).2)
unfolding is_mine
publish_once_example =
    publish_once relay unscaled 30 accepts (λ t. t) 1 99 (claimed ∷ []) 31 accepts claimed refl

abbrev fresh : Row
fresh = row 1 7 10 pending

abbrev tried : Row
tried = finalize relay unscaled 30 (some []) (claim_row relay 20 99 fresh)

abbrev dead : Row
dead = record (row 1 7 10 dead_letter) { attempt_count = 5 }

retry_delay_example :
    (t : ℕ) × ((mark_failed relay unscaled 30 [] fresh).next_attempt_at_utc ≡ some t)
    × (30 + 27 ≤ t)
    × (t ≤ 30 + 3960)
unfolding mark_failed
retry_delay_example = retry_delay relay unscaled 30 [] fresh (λ d. (omega arith, omega arith)) refl
