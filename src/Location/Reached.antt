-- ===== src/Location/Reached.antt =====
-- The location service over any sequence of requests and of workers' sessions.
use lojinextv.Prelude.{
  ℕ, ◌<◌, ◌≡◌, sym, String, Bool, true, false, inl, inr, Option, List, [], ◌∷◌, update_where,
  if◌then◌else◌,
}
use mathlib.Core.Path.{subst}
use lojinextv.Exec.{Result-cases, request}
use lojinextv.Location.Tables.{
  RoutePair, ProcessingStatus, RouteVersion, RouteVersionCounter, LocationDb, Context, Handler,
}
use lojinextv.Location.{with_status, promote, discard_drafts, approve, discard}
use lojinextv.Location.Outcome.{approve-Approved, discard-Discarded}
use lojinextv.Location.Runs.{
  calculate_route_pair, refresh_route_pair, claim_next_processing_run, mark_processing_run_failed,
  force_fail_processing_run,
}
use lojinextv.Location.Pipeline.{Calculated, Draws, persist}
use lojinextv.Location.Pipeline.Numbers.{AllBelow, next_no}
use lojinextv.Location.Pipeline.Drafts.{Numbered}
use lojinextv.Location.Pipeline.Claims.{persist-Outcome}
use lojinextv.Location.Sessions.{
  OnlyRuns, begin, calculate-OnlyRuns, refresh-OnlyRuns, claimed-OnlyRuns, failed-OnlyRuns,
  force_fail-OnlyRuns,
}

-- a new status leaves a version's number
module _ (cs : List RouteVersionCounter) (s : ProcessingStatus) where
  below-with_status :
      (b : Bool) (v : RouteVersion)
      → v.version_no < next_no v.route_id cs
      → (if b then with_status s v else v).version_no
        < next_no (if b then with_status s v else v).route_id cs
  below-with_status true v h = h
  below-with_status false v h = h

  AllBelow-update_where :
      (p : RouteVersion → Bool) (vs : List RouteVersion)
      → AllBelow cs vs
      → AllBelow cs (update_where p (with_status s) vs)
  AllBelow-update_where p [] h = h
  AllBelow-update_where p (v ∷ vs) (x, h) =
      (below-with_status (p v) v x, AllBelow-update_where p vs h)

-- one request, or one session of a worker
pub data Step : LocationDb → LocationDb → Type 0 where
  approves :
      {d : LocationDb} (ctx : Context) (seen : List RoutePair) (id : ℕ) (m : Option ℕ)
      → Step d (request (approve ctx seen id m) d).1
  discards :
      {d : LocationDb} (ctx : Context) (seen : List RoutePair) (id : ℕ) (m : Option ℕ)
      → Step d (request (discard ctx seen id m) d).1
  calculates :
      {d : LocationDb} (ctx : Context) (id : ℕ) → Step d (request (calculate_route_pair ctx id) d).1
  refreshes :
      {d : LocationDb} (ctx : Context) (id : ℕ) → Step d (request (refresh_route_pair ctx id) d).1
  claims :
      {d : LocationDb} (now token worker : ℕ) (locked : ℕ → Bool)
      → Step d (request (claim_next_processing_run now token worker locked) d).1
  persists :
      {d : LocationDb} (ctx : Context) (draws : Draws) (run_id pair_id : ℕ) (token : Option ℕ)
      (forward reverse : Calculated)
      → Step d (request (persist ctx draws run_id pair_id token forward reverse) d).1
  fails :
      {d : LocationDb} (now run_id : ℕ) (message : String) (token : Option ℕ)
      → Step d (request (mark_processing_run_failed now run_id message token) d).1
  forces :
      {d : LocationDb} (now run_id : ℕ)
      → Step d (request (force_fail_processing_run now run_id) d).1

pub data Reached : LocationDb → LocationDb → Type 0 where
  start : {d : LocationDb} → Reached d d
  step : {d e f : LocationDb} → Reached d e → Step e f → Reached d f

runs-Numbered :
    {A : Type 0} (m : Handler A) (d : LocationDb)
    → OnlyRuns d (m (record { committed = d; work = d })).1
    → Numbered d
    → Numbered (request m d).1
runs-Numbered m d o h = subst Numbered (sym o.committed) h

statuses-Numbered :
    (d after : LocationDb) (vs : List RouteVersion)
    → after.counters ≡ d.counters
    → after.versions ≡ vs
    → AllBelow d.counters vs
    → Numbered after
statuses-Numbered d after vs e e' h =
    subst (λ c. AllBelow c after.versions) (sym e) (subst (AllBelow d.counters) (sym e') h)

approve-Numbered :
    (ctx : Context) (seen : List RoutePair) (id : ℕ) (m : Option ℕ) (d : LocationDb)
    → Numbered d
    → Numbered (request (approve ctx seen id m) d).1
unfolding promote
approve-Numbered ctx seen id m d h = elim (Result-cases (request (approve ctx seen id m) d).0) [
  | inl (x, e) ↦
      let o = (approve-Approved ctx seen id m d).1 x e in
      statuses-Numbered d (request (approve ctx seen id m) d).1 _ o.counters o.rows (
        AllBelow-update_where _ _ _ _
          (AllBelow-update_where _ _ _ _ (AllBelow-update_where _ _ _ _ h)))
  | inr (e, q) ↦ subst Numbered (sym ((approve-Approved ctx seen id m d).0 e q)) h
]

discard-Numbered :
    (ctx : Context) (seen : List RoutePair) (id : ℕ) (m : Option ℕ) (d : LocationDb)
    → Numbered d
    → Numbered (request (discard ctx seen id m) d).1
unfolding discard_drafts
discard-Numbered ctx seen id m d h = elim (Result-cases (request (discard ctx seen id m) d).0) [
  | inl (x, e) ↦
      let o = (discard-Discarded ctx seen id m d).1 x e in
      statuses-Numbered d (request (discard ctx seen id m) d).1 _ o.counters o.rows
        (AllBelow-update_where _ _ _ _ (AllBelow-update_where _ _ _ _ h))
  | inr (e, q) ↦ subst Numbered (sym ((discard-Discarded ctx seen id m d).0 e q)) h
]

module _ (ctx : Context) (draws : Draws) (run_id pair_id : ℕ) (token : Option ℕ)
    (forward reverse : Calculated) (d : LocationDb) where
  persist-Numbered :
      Numbered d → Numbered (request (persist ctx draws run_id pair_id token forward reverse) d).1
  persist-Numbered h =
      let o = persist-Outcome ctx draws run_id pair_id token forward reverse d h in
      elim (Result-cases (request (persist ctx draws run_id pair_id token forward reverse) d).0) [
        | inl (true, e) ↦ (o.1 true e).numbered
        | inl (false, e) ↦ subst Numbered (sym (o.1 false e)) h
        | inr (e, q) ↦ subst Numbered (sym (o.0 e q)) h
      ]

Step-Numbered : {d e : LocationDb} → Step d e → Numbered d → Numbered e
unfolding claim_next_processing_run mark_processing_run_failed
Step-Numbered {d} (approves ctx seen id m) h = approve-Numbered ctx seen id m d h
Step-Numbered {d} (discards ctx seen id m) h = discard-Numbered ctx seen id m d h
Step-Numbered {d} (calculates ctx id) h =
    runs-Numbered (calculate_route_pair ctx id) d (calculate-OnlyRuns d ctx id _ (begin d)).kept h
Step-Numbered {d} (refreshes ctx id) h =
    runs-Numbered (refresh_route_pair ctx id) d (refresh-OnlyRuns d ctx id _ (begin d)).kept h
Step-Numbered {d} (claims now token worker locked) h =
    runs-Numbered (claim_next_processing_run now token worker locked) d
      (claimed-OnlyRuns d now token worker _ _ (begin d)).kept h
Step-Numbered {d} (persists ctx draws run_id pair_id token forward reverse) h =
    persist-Numbered ctx draws run_id pair_id token forward reverse d h
Step-Numbered {d} (fails now run_id message token) h =
    runs-Numbered (mark_processing_run_failed now run_id message token) d
      (failed-OnlyRuns d now message _ _ (begin d)).kept h
Step-Numbered {d} (forces now run_id) h =
    runs-Numbered (force_fail_processing_run now run_id) d
      (force_fail-OnlyRuns d now run_id _ (begin d)).kept h

-- Over any sequence of approvals, discards, triggers, claims, stored calculations, failures and
-- forced failures, the counter of a route stays ahead of the number of each of its versions, if it
-- was so before.
pub Reached-Numbered : {d e : LocationDb} → Reached d e → Numbered d → Numbered e
Reached-Numbered start h = h
Reached-Numbered (step t s) h = Step-Numbered s (Reached-Numbered t h)
