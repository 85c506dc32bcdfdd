-- ===== src/Location/Pipeline/Claims.antt =====
-- Runs, the claims of workers on them, and what a worker writes that has lost its claim.
use lojinextv.Prelude.{
  sym, ◌||◌, find, ℕ, ◌≡◌, ◌≢◌, refl, ap, ◌∙◌, String, Bool, true, false, not, ◌&&◌, Option, none,
  some, List, [], ◌∷◌, ◌==◌, arith, filter, if◌then◌else◌, Bool-cases, Option-cases, inl, inr,
  find-no,
}
use lojinextv.Exec.{ok, err, request}
use lojinextv.Exec.Post.{Post, Post-request, Post-raise_some}
use lojinextv.Location.Tables.{
  Route, DirectionCode, clean, RoutePair, ProcessingRun, LocationDb, LocationError, Context,
}
use lojinextv.Location.{route_in, is_version, write_pair, select_pair}
use lojinextv.Location.Approval.{status_at}
use lojinextv.Location.Runs.{
  ClaimedProcessingRun, write_run, claimed_run, claim_run, claim_found, earliest, claimable,
  claim_next_processing_run, fail_found, mark_processing_run_failed, has_token,
}
use lojinextv.Location.Pipeline.{
  store_version, route_of, with_drafts, Calculated, Draws, persist, persist_found, finish_run,
  store_drafts, succeeded,
}
use lojinextv.Location.Pipeline.Routes.{
  SamePair, SamePair-trans, link_route-SamePair, link_route-forward, link_route-reverse,
  link_route-other, route_in-route_of, forward-route_of,
}
use lojinextv.Location.Pipeline.Drafts.{
  Numbered, drafted, forward_draft, reverse_draft, forward_id, reverse_id, forward-Drafted,
  reverse-Drafted, store_drafts-Numbered, status_at-store_drafts,
}

with_drafts-SamePair :
    (changed : Bool) (a b : ℕ) (q : RoutePair) → SamePair q (with_drafts changed a b q)
unfolding with_drafts
with_drafts-SamePair changed a b q = record {
  id = refl;
  code = refl;
  origin = refl;
  destination = refl;
  profile = refl;
  status = refl;
  active_forward = refl;
  active_reverse = refl;
}

module _ (draws : Draws) (run_id : ℕ) (forward reverse : Calculated) (p : RoutePair)
    (d : LocationDb) where
  abbrev linked : RoutePair
  linked = (forward_draft draws run_id forward reverse p d).pair

  -- the row that is written
  abbrev written_pair : RoutePair
  written_pair =
      with_drafts
        ((forward_draft draws run_id forward reverse p d).changed
          || (reverse_draft draws run_id forward reverse p d).changed)
        (forward_draft draws run_id forward reverse p d).version_no
        (reverse_draft draws run_id forward reverse p d).version_no
        (reverse_draft draws run_id forward reverse p d).pair

  kept_pair : SamePair p written_pair
  unfolding store_version
  kept_pair =
      SamePair-trans
        (SamePair-trans
          (link_route-SamePair (forward_id draws run_id forward reverse p d) p
            DirectionCode.forward)
          (link_route-SamePair (reverse_id draws run_id forward reverse p d) linked
            DirectionCode.reverse))
        (with_drafts-SamePair _ _ _ _)

  linked_forward :
      written_pair.forward_route_id ≡ some (forward_id draws run_id forward reverse p d)
  unfolding store_version with_drafts
  linked_forward =
      link_route-other (reverse_id draws run_id forward reverse p d) linked
      ∙ link_route-forward (forward_id draws run_id forward reverse p d) p

  linked_reverse :
      written_pair.reverse_route_id ≡ some (reverse_id draws run_id forward reverse p d)
  unfolding store_version with_drafts
  linked_reverse = link_route-reverse (reverse_id draws run_id forward reverse p d) linked

  pending :
      (written_pair.pending_forward_version_no
        ≡ some (forward_draft draws run_id forward reverse p d).version_no)
      × (written_pair.pending_reverse_version_no
          ≡ some (reverse_draft draws run_id forward reverse p d).version_no)
  unfolding with_drafts
  pending = (refl, refl)

  found_forward :
      route_in p.route_pair_id DirectionCode.forward
        (reverse_draft draws run_id forward reverse p d).db.routes
      ≡ some (route_of draws p DirectionCode.forward d.routes).0
  unfolding store_version
  found_forward =
      forward-route_of draws linked p.route_pair_id
        (forward_draft draws run_id forward reverse p d).db.routes
      ∙ route_in-route_of draws p DirectionCode.forward d.routes

  found_reverse :
      route_in p.route_pair_id DirectionCode.reverse
        (reverse_draft draws run_id forward reverse p d).db.routes
      ≡ some
          (route_of draws linked DirectionCode.reverse
            (forward_draft draws run_id forward reverse p d).db.routes).0
  unfolding store_version
  found_reverse =
      ap
        (λ k.
          route_in k DirectionCode.reverse
            (route_of draws linked DirectionCode.reverse
              (forward_draft draws run_id forward reverse p d).db.routes).1)
        (sym
          (link_route-SamePair (forward_id draws run_id forward reverse p d) p
            DirectionCode.forward).id)
      ∙ route_in-route_of draws linked DirectionCode.reverse
          (forward_draft draws run_id forward reverse p d).db.routes

module _ (ctx : Context) (draws : Draws) (run_id pair_id : ℕ) (token : Option ℕ)
    (forward reverse : Calculated) (d : LocationDb) where
  pub persist_stale :
      claimed_run run_id token d.runs ≡ none
      → request (persist ctx draws run_id pair_id token forward reverse) d ≡ (ok false, d)
  unfolding persist persist_found finish_run store_drafts
  persist_stale h = elim (Option-cases (select_pair pair_id d.pairs)) [
    | inl e ↦ rw e refl
    | inr (p, e) ↦ rw (e, h) refl
  ]

  -- what a worker leaves that still has its claim
  pub record Persisted (after : LocationDb) : Type 0 where
    pub p : RoutePair
    pub r : ProcessingRun
    pub found : select_pair pair_id d.pairs ≡ some p
    pub mine : claimed_run run_id token d.runs ≡ some r
    pub runs : after.runs ≡ write_run (succeeded ctx.now r) d.runs
    pub pair : RoutePair
    pub pairs : after.pairs ≡ write_pair pair d.pairs
    pub same : SamePair p pair
    pub forward_link : pair.forward_route_id ≡ some (forward_id draws run_id forward reverse p d)
    pub reverse_link : pair.reverse_route_id ≡ some (reverse_id draws run_id forward reverse p d)
    pub forward_route :
        (f : Route) × (route_in p.route_pair_id DirectionCode.forward after.routes ≡ some f)
        × (f.route_id ≡ forward_id draws run_id forward reverse p d)
    pub reverse_route :
        (f : Route) × (route_in p.route_pair_id DirectionCode.reverse after.routes ≡ some f)
        × (f.route_id ≡ reverse_id draws run_id forward reverse p d)
    pub pending_forward :
        pair.pending_forward_version_no
        ≡ some (forward_draft draws run_id forward reverse p d).version_no
    pub pending_reverse :
        pair.pending_reverse_version_no
        ≡ some (reverse_draft draws run_id forward reverse p d).version_no
    pub numbered : Numbered after
    pub forward_fresh :
        find
          (is_version
            (forward_id draws run_id forward reverse p d)
            (forward_draft draws run_id forward reverse p d).version_no)
          d.versions
        ≡ none
    pub reverse_fresh :
        find
          (is_version
            (reverse_id draws run_id forward reverse p d)
            (reverse_draft draws run_id forward reverse p d).version_no)
          (forward_draft draws run_id forward reverse p d).db.versions
        ≡ none
    pub view :
        (route n : ℕ)
        → status_at after.versions route n
          ≡ drafted
              (reverse_id draws run_id forward reverse p d)
              (reverse_draft draws run_id forward reverse p d).version_no
              (drafted
                (forward_id draws run_id forward reverse p d)
                (forward_draft draws run_id forward reverse p d).version_no
                (status_at d.versions))
              route
              n

  abbrev Outcome : Bool → LocationDb → Type 0
  Outcome true after = Persisted after
  Outcome false after = after ≡ d

  persist-Post :
      Numbered d
      → Post
          (λ x s. Outcome x s.committed)
          d
          (persist ctx draws run_id pair_id token forward reverse (clean d))
  unfolding persist persist_found finish_run store_drafts
  persist-Post h = elim (Option-cases (select_pair pair_id d.pairs)) [
    | inl e ↦ rw e refl
    | inr (p, e) ↦ elim (Option-cases (claimed_run run_id token d.runs)) [
      | inl g ↦ rw (e, g) refl
      | inr (r, g) ↦
          rw (e, g)
            (Post-raise_some _ d ctx.refused _ _ refl (λ n. record {
              p = p;
              r = r;
              found = e;
              mine = g;
              runs = refl;
              pair = written_pair draws run_id forward reverse p d;
              same = kept_pair draws run_id forward reverse p d;
              forward_link = linked_forward draws run_id forward reverse p d;
              reverse_link = linked_reverse draws run_id forward reverse p d;
              forward_route = (_, found_forward draws run_id forward reverse p d, refl);
              reverse_route = (_, found_reverse draws run_id forward reverse p d, refl);
              pairs = refl;
              pending_forward = (pending draws run_id forward reverse p d).0;
              pending_reverse = (pending draws run_id forward reverse p d).1;
              forward_fresh = (forward-Drafted draws run_id forward reverse p d h).fresh;
              reverse_fresh = (reverse-Drafted draws run_id forward reverse p d h).fresh;
              numbered = store_drafts-Numbered draws run_id forward reverse p d h;
              view = status_at-store_drafts draws run_id forward reverse p d h;
            }))
    ]
  ]

  pub persist-Outcome :
      Numbered d
      → ((e : LocationError)
          → (request (persist ctx draws run_id pair_id token forward reverse) d).0 ≡ err e
          → (request (persist ctx draws run_id pair_id token forward reverse) d).1 ≡ d)
        × ((x : Bool)
            → (request (persist ctx draws run_id pair_id token forward reverse) d).0 ≡ ok x
            → Outcome x (request (persist ctx draws run_id pair_id token forward reverse) d).1)
  persist-Outcome h =
      Post-request Outcome (persist ctx draws run_id pair_id token forward reverse) d
        (persist-Post h)

abbrev pub is_claim : ℕ → ℕ → ProcessingRun → Bool
is_claim id token r = r.processing_run_id == id && has_token r.claim_token token

module _ (id now token other worker : ℕ) (r : ProcessingRun) (e : r.processing_run_id ≡ id)
    (ne : other ≢ token) where
  other_token : token == other ≡ false
  other_token = elim (Bool-cases (token == other)) [
    | inl y ↦ let q : other ≡ token = ground arith in elim (ne q) [ ]
    | inr y ↦ y
  ]

  lost :
      (b : Bool) (s : ProcessingRun)
      → s.processing_run_id == r.processing_run_id ≡ b
      → is_claim id other (if b then claim_run now token worker r else s) ≡ false
  unfolding claim_run
  lost true s h = rw other_token (ground arith)
  lost false s h = ground arith

  -- a claim under a new token leaves none under any other
  claimed_run-claim_run :
      (rs : List ProcessingRun)
      → claimed_run id (some other) (write_run (claim_run now token worker r) rs) ≡ none
  unfolding claimed_run write_run claim_run
  claimed_run-claim_run [] = refl
  claimed_run-claim_run (s ∷ rs) =
      find-no (is_claim id other) _ _ (lost (s.processing_run_id == r.processing_run_id) s refl)
      ∙ claimed_run-claim_run rs

-- a worker's claim on a run, and the database after it
module _ (now token worker : ℕ) (locked : ℕ → Bool) (d : LocationDb) where
  abbrev pub after_claim : LocationDb
  after_claim = (request (claim_next_processing_run now token worker locked) d).1

  claim-found :
      (next : Option ProcessingRun) (c : ClaimedProcessingRun) (other : ℕ)
      → other ≢ token
      → (request (claim_found now token worker next) d).0 ≡ ok (some c)
      → claimed_run c.run_id (some other) (request (claim_found now token worker next) d).1.runs
        ≡ none
  unfolding claim_found
  claim-found none c other ne h = cc
  claim-found (some r) c other ne h =
      let k : ◌≡◌ {A = ClaimedProcessingRun}
          (record { run_id = r.processing_run_id; pair_id = r.route_pair_id; claim_token = token })
          c =
        cc in
      claimed_run-claim_run c.run_id now token other worker r (ap (λ x. x.run_id) k) ne d.runs

  pub claim-lost :
      (c : ClaimedProcessingRun) (other : ℕ)
      → other ≢ token
      → (request (claim_next_processing_run now token worker locked) d).0 ≡ ok (some c)
      → claimed_run c.run_id (some other) after_claim.runs ≡ none
  unfolding claim_next_processing_run
  claim-lost c other ne h =
      claim-found
        (earliest (filter (λ r. claimable now r && not (locked r.processing_run_id)) d.runs)) c
        other ne h

-- When a run is claimed under a new token, a worker with any other token stores no result and
-- records no failure: both leave the database as the claim left it.
pub reclaimed_stale :
    (now token worker : ℕ) (locked : ℕ → Bool) (d : LocationDb) (c : ClaimedProcessingRun)
    (other : ℕ)
    → other ≢ token
    → (request (claim_next_processing_run now token worker locked) d).0 ≡ ok (some c)
    → (ctx : Context) (draws : Draws) (forward reverse : Calculated) (later : ℕ) (message : String)
    → (request
          (persist ctx draws c.run_id c.pair_id (some other) forward reverse)
          (after_claim now token worker locked d)
        ≡ (ok false, after_claim now token worker locked d))
      × (request
            (mark_processing_run_failed later c.run_id message (some other))
            (after_claim now token worker locked d)
          ≡ (ok tt, after_claim now token worker locked d))
unfolding mark_processing_run_failed fail_found
reclaimed_stale now token worker locked d c other ne h ctx draws forward reverse later message =
    let e = claim-lost now token worker locked d c other ne h in
    (persist_stale ctx draws c.run_id c.pair_id (some other) forward reverse _ e, rw e refl)
