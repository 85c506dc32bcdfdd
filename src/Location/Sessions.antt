-- ===== src/Location/Sessions.antt =====
-- The sessions that change runs at most.
use lojinextv.Prelude.{
  ℕ, ◌+◌, ◌≡◌, refl, ap, String, Bool, true, false, not, ◌||◌, ltb, Option, none, some, List,
}
use lojinextv.Exec.{Result, ok, err, Session, raise_if, raise_some, require, continue}
use lojinextv.Location.Tables.{
  TriggerType, ProcessingRun, LocationDb, LocationError, pair_not_found, soft_deleted_pair,
  already_running, already_active_use_refresh, pending_draft_exists, not_active_use_calculate,
  run_not_found, run_not_stuck, Context, Handler,
}
use lojinextv.Location.{is_deleted, select_pair}
use lojinextv.Location.Runs.{
  is_active, given, open_run, select_run, write_run, force_failed, sla_reference, run_stuck_sla,
  check_pair_and_guard, trigger_processing, calculate_route_pair, refresh_route_pair, claim_found,
  fail_found, force_fail_open, force_fail_processing_run,
}

-- a session that has changed runs at most
pub record OnlyRuns (d : LocationDb) (s : Session LocationDb) : Type 0 where
  pub runs : List ProcessingRun
  pub later : List ProcessingRun
  pub committed : s.committed ≡ record d { runs = runs }
  pub work : s.work ≡ record d { runs = later }

-- a run of a handler that has
pub record Only {A : Type 0} (d : LocationDb) (r : Result LocationError A × Session LocationDb)
    : Type 0 where
  pub kept : OnlyRuns d r.1

module _ (d : LocationDb) where
  continue-Only :
      {A B : Type 0} (r : Result LocationError A × Session LocationDb) (f : A → Handler B)
      → Only d r
      → ((a : A) (s : Session LocationDb) → OnlyRuns d s → Only d (f a s))
      → Only d (continue r f)
  continue-Only (ok a, s) f h t = t a s h.kept
  continue-Only (err e, s) f h t = record { kept = h.kept }

  raise_if-Only :
      (b : Bool) (e : LocationError) (s : Session LocationDb)
      → OnlyRuns d s
      → Only d (raise_if b e s)
  raise_if-Only true e s h = record { kept = h }
  raise_if-Only false e s h = record { kept = h }

  raise_some-Only :
      (o : Option LocationError) (s : Session LocationDb) → OnlyRuns d s → Only d (raise_some o s)
  raise_some-Only (some e) s h = record { kept = h }
  raise_some-Only none s h = record { kept = h }

  require-Only :
      {A : Type 0} (o : Option A) (e : LocationError) (s : Session LocationDb)
      → OnlyRuns d s
      → Only d (require o e s)
  require-Only none e s h = record { kept = h }
  require-Only (some a) e s h = record { kept = h }

  write-OnlyRuns :
      (rs : List ProcessingRun) (s : Session LocationDb)
      → OnlyRuns d s
      → OnlyRuns d (record s { work = record s.work { runs = rs } })
  write-OnlyRuns rs s h = record {
    runs = h.runs;
    later = rs;
    committed = h.committed;
    work = ap (λ (x : LocationDb). record x { runs = rs }) h.work;
  }

  commit-OnlyRuns :
      (s : Session LocationDb) → OnlyRuns d s → OnlyRuns d (record s { committed = s.work })
  commit-OnlyRuns s h = record {
    runs = h.later;
    later = h.later;
    committed = h.work;
    work = h.work;
  }

  guard-OnlyRuns :
      (id : ℕ) (s : Session LocationDb) → OnlyRuns d s → Only d (check_pair_and_guard id s)
  unfolding check_pair_and_guard
  guard-OnlyRuns id s h =
      continue-Only _ _ (require-Only (select_pair id s.work.pairs) pair_not_found s h) (λ p s h.
        continue-Only _ _ (raise_if-Only (is_deleted p.pair_status) soft_deleted_pair s h) (λ _ s h.
          continue-Only _ _ (raise_if-Only (open_run id s.work.runs) already_running s h)
            (λ _ s h. record { kept = h })))

  trigger-OnlyRuns :
      (ctx : Context) (id : ℕ) (t : TriggerType) (s : Session LocationDb)
      → OnlyRuns d s
      → Only d (trigger_processing ctx id t s)
  unfolding trigger_processing
  trigger-OnlyRuns ctx id t s h =
      continue-Only _ _ (raise_some-Only ctx.refused _ (write-OnlyRuns _ s h))
        (λ _ s h. record { kept = commit-OnlyRuns s h })

  pub calculate-OnlyRuns :
      (ctx : Context) (id : ℕ) (s : Session LocationDb)
      → OnlyRuns d s
      → Only d (calculate_route_pair ctx id s)
  unfolding calculate_route_pair
  calculate-OnlyRuns ctx id s h = continue-Only _ _ (guard-OnlyRuns id s h) (λ p s h.
      continue-Only _ _ (raise_if-Only (is_active p.pair_status) already_active_use_refresh s h)
        (λ _ s h.
          continue-Only _ _
            (raise_if-Only
              (given p.pending_forward_version_no || given p.pending_reverse_version_no)
              pending_draft_exists s h)
            (λ _ s h.
              continue-Only _ _ (trigger-OnlyRuns ctx id _ s h) (λ n s h. require-Only _ _ s h))))

  pub refresh-OnlyRuns :
      (ctx : Context) (id : ℕ) (s : Session LocationDb)
      → OnlyRuns d s
      → Only d (refresh_route_pair ctx id s)
  unfolding refresh_route_pair
  refresh-OnlyRuns ctx id s h = continue-Only _ _ (guard-OnlyRuns id s h) (λ p s h.
      continue-Only _ _ (raise_if-Only (not (is_active p.pair_status)) not_active_use_calculate s h)
        (λ _ s h.
          continue-Only _ _ (trigger-OnlyRuns ctx id _ s h) (λ n s h. require-Only _ _ s h)))

  pub claimed-OnlyRuns :
      (now token worker : ℕ) (o : Option ProcessingRun) (s : Session LocationDb)
      → OnlyRuns d s
      → Only d (claim_found now token worker o s)
  unfolding claim_found
  claimed-OnlyRuns now token worker none s h = record { kept = h }
  claimed-OnlyRuns now token worker (some r) s h = record {
    kept = commit-OnlyRuns _ (write-OnlyRuns _ s h);
  }

  pub failed-OnlyRuns :
      (now : ℕ) (text : String) (o : Option ProcessingRun) (s : Session LocationDb)
      → OnlyRuns d s
      → Only d (fail_found now text o s)
  unfolding fail_found
  failed-OnlyRuns now text none s h = record { kept = h }
  failed-OnlyRuns now text (some r) s h = record { kept = commit-OnlyRuns _ (write-OnlyRuns _ s h) }

  forced-OnlyRuns :
      (b : Bool) (now : ℕ) (r : ProcessingRun) (s : Session LocationDb)
      → OnlyRuns d s
      → Only d (force_fail_open b now r s)
  unfolding force_fail_open
  forced-OnlyRuns false now r s h = record { kept = h }
  forced-OnlyRuns true now r s h =
      continue-Only _ _
        (raise_if-Only (ltb now (sla_reference r + run_stuck_sla)) run_not_stuck s h)
        (λ _ s h. record {
          kept = commit-OnlyRuns _ (write-OnlyRuns (write_run (force_failed r) s.work.runs) s h);
        })

  pub force_fail-OnlyRuns :
      (now id : ℕ) (s : Session LocationDb)
      → OnlyRuns d s
      → Only d (force_fail_processing_run now id s)
  unfolding force_fail_processing_run
  force_fail-OnlyRuns now id s h =
      continue-Only _ _ (require-Only (select_run id s.work.runs) run_not_found s h) (λ r s h.
        continue-Only _ _
          (require-Only (select_pair r.route_pair_id s.work.pairs) run_not_found s h)
          (λ p s h. forced-OnlyRuns _ now r s h))

pub begin : (d : LocationDb) → OnlyRuns d (record { committed = d; work = d })
begin d = record { runs = d.runs; later = d.runs; committed = refl; work = refl }
