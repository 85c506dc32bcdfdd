-- ===== src/Outbox/Relay.antt =====
-- packages/platform-common/src/platform_common/outbox_relay.py: `OutboxRelayBase`. The table is a
-- list of rows; a SELECT or UPDATE of it is a function of the list. Keys, tokens and worker ids are
-- numbers, times are seconds. What the class takes from outside is an argument: the broker's answer,
-- the random factor of the back-off, which rows other transactions lock (SKIP LOCKED), and which
-- rows the UPDATE of a claim reaches: its WHERE clause names the key of the alias `m1`, and not of
-- the table that it updates, so this is for SQLAlchemy and the database to say.
pub mod Claim
pub mod Order
pub mod Attempts
mod Tests
use lojinextv.Prelude.{
  ℕ, suc, zero, ◌+◌, ◌-◌, String, Bool, true, false, not, ◌&&◌, ◌||◌, Option, none, some, List, [],
  ◌∷◌, ltb, leb, ◌==◌, if◌then◌else◌, any, find, filter, update_where, elem, map, take,
}
use lojinextv.Outbox.{
  OutboxPublishStatus, pending, publishing, published, failed, dead_letter, is_live,
}

pub record Row : Type 0 where
  pub outbox_id : ℕ
  pub partition_key : ℕ
  pub event_name : String
  pub event_version : ℕ
  pub aggregate_type : String
  pub aggregate_id : ℕ
  pub causation_id : Option ℕ
  pub correlation_id : Option ℕ
  pub payload_json : String
  pub publish_status : OutboxPublishStatus
  pub attempt_count : ℕ
  pub last_error : Option (List ℕ)
  pub next_attempt_at_utc : Option ℕ
  pub claim_token : Option ℕ
  pub claim_expires_at_utc : Option ℕ
  pub claimed_by_worker : Option ℕ
  pub created_at_utc : ℕ
  pub published_at_utc : Option ℕ

pub record Relay : Type 0 where
  pub batch_size : ℕ
  pub claim_ttl_seconds : ℕ
  pub max_failures : ℕ
  pub worker_id : ℕ

-- what the broker is given
pub record OutboxMessage : Type 0 where
  pub event_id : ℕ
  pub event_name : String
  pub partition_key : ℕ
  pub payload : String
  pub schema_version : ℕ
  pub aggregate_type : String
  pub aggregate_id : ℕ
  pub causation_id : Option ℕ
  pub correlation_id : Option ℕ

-- for a row that has all the columns that the method names
unfoldable pub map_row_to_message : Row → OutboxMessage
map_row_to_message r = record {
  event_id = r.outbox_id;
  event_name = r.event_name;
  partition_key = r.partition_key;
  payload = r.payload_json;
  schema_version = r.event_version;
  aggregate_type = r.aggregate_type;
  aggregate_id = r.aggregate_id;
  causation_id = r.causation_id;
  correlation_id = r.correlation_id;
}

abbrev is_waiting : OutboxPublishStatus → Bool
is_waiting pending = true
is_waiting failed = true
is_waiting _ = false

abbrev is_publishing : OutboxPublishStatus → Bool
is_publishing publishing = true
is_publishing _ = false

-- SQL comparisons with a column that may be NULL
abbrev before : Option ℕ → ℕ → Bool
before none now = false
before (some t) now = ltb t now

abbrev null_or_due : Option ℕ → ℕ → Bool
null_or_due none now = true
null_or_due (some t) now = leb t now

-- `hol_subq`: an earlier row of the partition that is not settled
unfoldable pub blocks : Row → Row → Bool
blocks r m2 =
    (m2.partition_key == r.partition_key)
    && (is_live m2.publish_status && ltb m2.created_at_utc r.created_at_utc)

unfoldable pub eligible : ℕ → List Row → Row → Bool
unfolding blocks
eligible now table r =
    (is_waiting r.publish_status
      || (is_publishing r.publish_status && before r.claim_expires_at_utc now))
    && (null_or_due r.next_attempt_at_utc now && not (any (blocks r) table))

-- ORDER BY created_at_utc ASC; rows of one time keep the table's order
unfoldable pub insert_by_time : Row → List Row → List Row
insert_by_time r [] = r ∷ []
insert_by_time r (q ∷ qs) =
    let later = q ∷ insert_by_time r qs in
    if leb r.created_at_utc q.created_at_utc then r ∷ q ∷ qs else later

unfoldable pub order_by_time : List Row → List Row
unfolding insert_by_time
order_by_time [] = []
order_by_time (r ∷ rs) = insert_by_time r (order_by_time rs)

-- LIMIT
unfoldable pub limit : ℕ → List Row → List Row
limit zero rs = []
limit (suc n) [] = []
limit (suc n) (r ∷ rs) = r ∷ limit n rs

-- the rows that a claim selects
unfoldable pub select_batch : Relay → (Row → Bool) → ℕ → List Row → List Row
unfolding order_by_time limit eligible
select_batch relay locked now table =
    limit relay.batch_size
      (order_by_time (filter (λ r. eligible now table r && not (locked r)) table))

abbrev pub ids_of : List Row → List ℕ
ids_of = map (λ r. r.outbox_id)

unfoldable pub claim_row : Relay → ℕ → ℕ → Row → Row
claim_row relay now token r = record r {
  publish_status = publishing;
  claim_token = some token;
  claim_expires_at_utc = some (now + relay.claim_ttl_seconds);
  claimed_by_worker = some relay.worker_id;
}

abbrev is_empty : List ℕ → Bool
is_empty [] = true
is_empty _ = false

-- `_claim_batch`: the ids of the batch, and the table; nothing is written for an empty batch
unfoldable pub claim_batch :
    (List ℕ → Row → Bool) → Relay → (Row → Bool) → ℕ → ℕ → List Row → List ℕ × List Row
unfolding select_batch claim_row
claim_batch reaches relay locked now token table =
    let ids = ids_of (select_batch relay locked now table) in
    if is_empty ids
    then ([], table)
    else (ids, update_where (reaches ids) (claim_row relay now token) table)

unfoldable pub mark_published : ℕ → Row → Row
mark_published now r = record r {
  publish_status = published;
  published_at_utc = some now;
  claim_token = none;
  claim_expires_at_utc = none;
  claimed_by_worker = none;
  attempt_count = 0;
}

-- `schedules.get(row.attempt_count, 3600)`
unfoldable pub base_delay : ℕ → ℕ
base_delay n =
    if n == 1
    then 30
    else if n == 2
    then 120
    else if n == 3
    then 600
    else if n == 4
    then 3600
    else 3600

-- `jitter d` is d times the random factor
unfoldable pub mark_failed : Relay → (ℕ → ℕ) → ℕ → List ℕ → Row → Row
unfolding base_delay
mark_failed relay jitter now error r =
    let attempts = r.attempt_count + 1 in
    let cleared = record r {
      attempt_count = attempts;
      last_error = some (take 100 error);
      claim_token = none;
      claim_expires_at_utc = none;
      claimed_by_worker = none;
    } in
    if leb relay.max_failures attempts
    then record cleared { publish_status = dead_letter }
    else record cleared {
      publish_status = failed;
      next_attempt_at_utc = some (now + jitter (base_delay attempts));
    }

abbrev token_is : Option ℕ → ℕ → Bool
token_is none token = false
token_is (some t) token = t == token

-- SELECT … WHERE pk = id AND claim_token = token
unfoldable pub is_mine : ℕ → ℕ → Row → Bool
is_mine id token r = (r.outbox_id == id) && token_is r.claim_token token

-- the broker's answer: none, or the text of its exception
abbrev finalize : Relay → (ℕ → ℕ) → ℕ → Option (List ℕ) → Row → Row
finalize relay jitter now none r = mark_published now r
finalize relay jitter now (some error) r = mark_failed relay jitter now error r

abbrev succeeded : Option (List ℕ) → Bool
succeeded none = true
succeeded (some error) = false

-- `_publish_single`: whether the broker took the message, the message if one was sent, and the
-- table. `meanwhile` is what others do to the table while the broker is asked.
unfoldable pub publish_single :
    Relay
    → (ℕ → ℕ)
    → ℕ
    → (OutboxMessage → Option (List ℕ))
    → (List Row → List Row)
    → ℕ
    → ℕ
    → List Row
    → Bool × Option OutboxMessage × List Row
unfolding is_mine map_row_to_message mark_published mark_failed
publish_single relay jitter now broker meanwhile id token table =
    elim (find (is_mine id token) table) [
      | none ↦ (false, none, table)
      | some row ↦
          (let message = map_row_to_message row in
            (
              succeeded (broker message),
              some message,
              update_where (is_mine id token) (finalize relay jitter now (broker message))
                  (meanwhile table),
            ))
    ]
