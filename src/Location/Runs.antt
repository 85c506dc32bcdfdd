-- ===== src/Location/Runs.antt =====
-- services/location-service/src/location_service: routers/processing.py, the claim of
-- processing/worker.py and the failing of processing/pipeline.py. Each function is one session; the row
-- locks of other workers and the drawn claim tokens are arguments, and messages come here cut to their
-- column's length.
use lojinextv.Prelude.{
  ℕ, ◌+◌, String, Bool, true, false, not, ◌&&◌, ◌||◌, Option, none, some, List, [], ◌∷◌, ◌++◌, ◌==◌,
  ltb, any, filter, find, if◌then◌else◌, update_where,
}
use lojinextv.Exec.{◌>>=◌, ◌>>◌, pure, raise_if, raise_some, require, gets, modify, commit}
use lojinextv.Location.Tables.{
  PairStatus, RunStatus, TriggerType, RoutePair, ProcessingRun, LocationDb, pair_not_found,
  soft_deleted_pair, already_running, already_active_use_refresh, pending_draft_exists,
  not_active_use_calculate, run_not_found, run_not_stuck, Context, Handler,
}
use lojinextv.Location.{is_deleted, select_pair}

abbrev pub run_stuck_sla : ℕ
run_stuck_sla = 1800

abbrev pub claim_ttl : ℕ
claim_ttl = 300

abbrev pub processing_max_attempts : ℕ
processing_max_attempts = 5

abbrev pub is_queued : RunStatus → Bool
is_queued RunStatus.queued = true
is_queued _ = false

abbrev pub is_running : RunStatus → Bool
is_running RunStatus.running = true
is_running _ = false

abbrev pub is_open : RunStatus → Bool
is_open s = is_queued s || is_running s

abbrev pub is_active : PairStatus → Bool
is_active PairStatus.active = true
is_active _ = false

abbrev pub given : Option ℕ → Bool
given none = false
given (some n) = true

unfoldable pub select_run : ℕ → List ProcessingRun → Option ProcessingRun
select_run id = find (λ r. r.processing_run_id == id)

unfoldable pub write_run : ProcessingRun → List ProcessingRun → List ProcessingRun
write_run r' = update_where (λ r. r.processing_run_id == r'.processing_run_id) (λ _. r')

abbrev pub has_token : Option ℕ → ℕ → Bool
has_token none token = false
has_token (some t) token = t == token

-- the run of a claim: by its id, and by the claim's token where there is one
unfoldable pub claimed_run : ℕ → Option ℕ → List ProcessingRun → Option ProcessingRun
claimed_run id none = select_run id
claimed_run id (some token) = find (λ r. r.processing_run_id == id && has_token r.claim_token token)

unfoldable pub open_run : ℕ → List ProcessingRun → Bool
open_run pair_id = any (λ r. r.route_pair_id == pair_id && is_open r.run_status)

-- `_check_pair_and_guard`
unfoldable pub check_pair_and_guard : ℕ → Handler RoutePair
unfolding select_pair
check_pair_and_guard pair_id = do
  found ← gets (λ (d : LocationDb). select_pair pair_id d.pairs)
  p ← require found pair_not_found
  raise_if (is_deleted p.pair_status) soft_deleted_pair
  busy ← gets (λ (d : LocationDb). open_run pair_id d.runs)
  raise_if busy already_running
  pure p

abbrev pub new_run : Context → ℕ → TriggerType → ProcessingRun
new_run ctx pair_id trigger = record {
  processing_run_id = ctx.new_ulid 0;
  route_pair_id = pair_id;
  run_status = RunStatus.queued;
  trigger_type = trigger;
  attempt_no = 1;
  error_message = none;
  claim_token = none;
  claim_expires_at_utc = none;
  claimed_by_worker = none;
  started_at_utc = none;
  completed_at_utc = none;
  created_at_utc = ctx.now;
}

-- `trigger_processing`; the database refuses a second open run of the pair
unfoldable pub trigger_processing : Context → ℕ → TriggerType → Handler ℕ
trigger_processing ctx pair_id trigger = do
  modify λ (d : LocationDb). record d { runs = d.runs ++ new_run ctx pair_id trigger ∷ [] }
  raise_some ctx.refused
  commit
  pure (ctx.new_ulid 0)

unfoldable pub calculate_route_pair : Context → ℕ → Handler ProcessingRun
unfolding check_pair_and_guard trigger_processing
calculate_route_pair ctx pair_id = do
  p ← check_pair_and_guard pair_id
  raise_if (is_active p.pair_status) already_active_use_refresh
  raise_if (given p.pending_forward_version_no || given p.pending_reverse_version_no)
      pending_draft_exists
  run_id ← trigger_processing ctx pair_id TriggerType.initial_calculate
  run ← gets (λ (d : LocationDb). select_run run_id d.runs)
  require run run_not_found

unfoldable pub refresh_route_pair : Context → ℕ → Handler ProcessingRun
unfolding check_pair_and_guard trigger_processing
refresh_route_pair ctx pair_id = do
  p ← check_pair_and_guard pair_id
  raise_if (not (is_active p.pair_status)) not_active_use_calculate
  run_id ← trigger_processing ctx pair_id TriggerType.manual_refresh
  run ← gets (λ (d : LocationDb). select_run run_id d.runs)
  require run run_not_found

abbrev pub lapsed : Option ℕ → ℕ → Bool
lapsed none now = true
lapsed (some t) now = ltb t now

-- a comparison with NULL is not true
abbrev pub stuck : Option ℕ → ℕ → Bool
stuck none now = false
stuck (some t) now = ltb (t + run_stuck_sla) now

-- `_claim_expired_or_stale`
unfoldable pub claim_expired_or_stale : ℕ → ProcessingRun → Bool
claim_expired_or_stale now r =
    is_running r.run_status && (lapsed r.claim_expires_at_utc now || stuck r.started_at_utc now)

unfoldable pub claimable : ℕ → ProcessingRun → Bool
unfolding claim_expired_or_stale
claimable now r =
    (is_queued r.run_status || claim_expired_or_stale now r)
    && ltb r.attempt_no processing_max_attempts

-- created first, and of those the smaller id
abbrev pub earlier : ProcessingRun → ProcessingRun → Bool
earlier r s =
    ltb r.created_at_utc s.created_at_utc
    || r.created_at_utc == s.created_at_utc && ltb r.processing_run_id s.processing_run_id

-- the first row in the order of the claim
unfoldable pub earliest : List ProcessingRun → Option ProcessingRun
earliest [] = none
earliest (r ∷ rs) = elim (earliest rs) [
  | none ↦ some r
  | some s ↦ some (if earlier s r then s else r)
]

pub record ClaimedProcessingRun : Type 0 where
  pub run_id : ℕ
  pub pair_id : ℕ
  pub claim_token : ℕ

unfoldable pub claim_run : ℕ → ℕ → ℕ → ProcessingRun → ProcessingRun
claim_run now token worker r = record r {
  run_status = RunStatus.running;
  claim_token = some token;
  claim_expires_at_utc = some (now + claim_ttl);
  claimed_by_worker = some worker;
  started_at_utc = some now;
  completed_at_utc = none;
  error_message = none;
  attempt_no =
      if is_running r.run_status
      then r.attempt_no + 1
      else if r.attempt_no == 0
      then 1
      else r.attempt_no;
}

-- `claim_next_processing_run`
unfoldable pub claim_found :
    ℕ → ℕ → ℕ → Option ProcessingRun → Handler (Option ClaimedProcessingRun)
unfolding claim_run write_run
claim_found now token worker none = pure none
claim_found now token worker (some r) = do
  modify λ (d : LocationDb). record d { runs = write_run (claim_run now token worker r) d.runs }
  commit
  pure (
      some
        (record { run_id = r.processing_run_id; pair_id = r.route_pair_id; claim_token = token }))

unfoldable pub claim_next_processing_run :
    ℕ → ℕ → ℕ → (ℕ → Bool) → Handler (Option ClaimedProcessingRun)
unfolding claimable earliest claim_found
claim_next_processing_run now token worker locked = do
  next ← gets (λ (d : LocationDb).
      earliest (filter (λ r. claimable now r && not (locked r.processing_run_id)) d.runs))
  claim_found now token worker next

abbrev pub clear_claim : ProcessingRun → ProcessingRun
clear_claim r = record r {
  claim_token = none;
  claim_expires_at_utc = none;
  claimed_by_worker = none;
}

abbrev pub fail_run : ℕ → String → ProcessingRun → ProcessingRun
fail_run now message r = clear_claim (record r {
  run_status = RunStatus.failed;
  error_message = some message;
  completed_at_utc = some now;
})

unfoldable pub fail_found : ℕ → String → Option ProcessingRun → Handler (Unit {0})
fail_found now message none = pure tt
fail_found now message (some r) = do
  modify λ (d : LocationDb). record d { runs = write_run (fail_run now message r) d.runs }
  commit

unfoldable pub mark_processing_run_failed : ℕ → ℕ → String → Option ℕ → Handler (Unit {0})
unfolding claimed_run fail_found
mark_processing_run_failed now run_id message token = do
  found ← gets (λ (d : LocationDb). claimed_run run_id token d.runs)
  fail_found now message found

abbrev pub sla_reference : ProcessingRun → ℕ
sla_reference r = elim r.started_at_utc [ none ↦ r.created_at_utc | some t ↦ t ]

-- the row that a forced failure leaves: its claim stands
abbrev pub force_failed : ProcessingRun → ProcessingRun
force_failed r = record r {
  run_status = RunStatus.failed;
  error_message = some "Force failed via API";
}

unfoldable pub force_fail_open : Bool → ℕ → ProcessingRun → Handler ProcessingRun
force_fail_open false now r = pure r
force_fail_open true now r = do
  raise_if (ltb now (sla_reference r + run_stuck_sla)) run_not_stuck
  modify λ (d : LocationDb). record d { runs = write_run (force_failed r) d.runs }
  commit
  pure (force_failed r)

-- `force_fail_processing_run`
unfoldable pub force_fail_processing_run : ℕ → ℕ → Handler ProcessingRun
unfolding select_run select_pair force_fail_open
force_fail_processing_run now run_id = do
  found ← gets (λ (d : LocationDb). select_run run_id d.runs)
  r ← require found run_not_found
  pair ← gets (λ (d : LocationDb). select_pair r.route_pair_id d.pairs)
  p ← require pair run_not_found
  force_fail_open (is_open r.run_status) now r
