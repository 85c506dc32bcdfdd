-- ===== src/Trip/Enriched.antt =====
-- Enrichment rows over the interleaved rounds of workers.
mod Tests
use lojinextv.Prelude.{
  ℕ, ◌+◌, ◌≤◌, ◌<◌, ◌≡◌, ◌≢◌, ◌⊎◌, refl, sym, ap, ◌∙◌, String, Bool, true, false, not, ◌&&◌, Option,
  none, some, List, [], ◌∷◌, ◌==◌, ltb, ltb→lt, lt→ltb, arith, elem, find, update_where,
  if◌then◌else◌, Bool-cases, Option-cases, All, inl, inr, find-no,
}
use lojinextv.Exec.{Result-cases, Result, ok, err}
use lojinextv.Trip.Rounds.{
  World, In, Step, claims, loads, finishes, Reached, start, later, in_All, find_All, Apart,
  claim-All, finish-All, Step-Apart, load_row,
}
use lojinextv.Trip.Tables.{TripDb, Enrichment, EnrichmentStatus, RouteStatus}
use lojinextv.Trip.Worker.{
  Settings, waits, is_running, claimable, claim_enrichment, claim_enrichments, has_token, is_mine,
  EnrichmentContext, LocationAnswer, Resolution, resolve_route_context,
  derive_final_enrichment_status, failed_row, saved_row, save_enrichment_result,
  mark_processing_error, finish_enrichment,
}

abbrev pub held : Enrichment → Bool
held e = elim e.claim_token [ none ↦ false | some t ↦ true ]

-- A row is held exactly while it is running, held rows have a try left, no row has had more tries than
-- there are, and a row that is ready has its route.
pub record Inv (st : Settings) (e : Enrichment) : Type 0 where
  pub running : is_running e.enrichment_status ≡ held e
  pub left : held e ≡ true → e.enrichment_attempt_count < st.enrichment_max_attempts
  pub tries : e.enrichment_attempt_count ≤ st.enrichment_max_attempts
  pub ready : e.enrichment_status ≡ EnrichmentStatus.ready → e.route_status ≡ RouteStatus.ready

-- a row has another id, or was not found its route and is not ready
unfoldable pub Lost : ℕ → Enrichment → Type 0
Lost id e =
    ((e.id == id) ≡ false)
    ⊎ ((e.route_status ≡ RouteStatus.failed) × (e.enrichment_status ≢ EnrichmentStatus.ready))

-- what a worker has loaded is of another row, or says that no route was found
unfoldable pub LostContext : ℕ → ℕ × EnrichmentContext → Type 0
LostContext id (token, c) =
    ((c.enrichment_id == id) ≡ false) ⊎ (c.route_status ≡ RouteStatus.failed)

ok-injective : {a b : Resolution} → ◌≡◌ {A = Result String Resolution} (ok a) (ok b) → a ≡ b
ok-injective h = cc

held_by : (e : Enrichment) (token : ℕ) → has_token e.claim_token token ≡ true → held e ≡ true
held_by e token h = ground arith

module _ (st : Settings) where
  claim-Inv :
      (now token worker : ℕ) (e : Enrichment)
      → claimable st now e ≡ true
      → Inv st e
      → Inv st (claim_enrichment st now token worker e)
  unfolding claim_enrichment claimable
  claim-Inv now token worker e h v = record {
    running = refl;
    left = λ q. ground arith;
    tries = v.tries;
    ready = λ q. cc;
  }

  failed-Inv :
      (now token : ℕ) (jitter : ℕ → ℕ) (text : String) (e : Enrichment)
      → has_token e.claim_token token ≡ true
      → Inv st e
      → Inv st (failed_row st now jitter text e)
  unfolding failed_row
  failed-Inv now token jitter text e h v = record {
    running = refl;
    left = λ q. cc;
    tries = omega (arith, v.left (held_by e token h));
    ready = λ q. cc;
  }

  saved-Inv :
      (now token : ℕ) (jitter : ℕ → ℕ) (c : EnrichmentContext) (s : RouteStatus) (b : Bool)
      (code : Option String) (e : Enrichment)
      → has_token e.claim_token token ≡ true
      → Inv st e
      → Inv st (saved_row st now jitter c s b code e)
  unfolding saved_row derive_final_enrichment_status
  saved-Inv now token jitter c RouteStatus.ready b code e h v = record {
    running = refl;
    left = λ q. cc;
    tries = omega (arith, v.left (held_by e token h));
    ready = λ q. refl;
  }
  saved-Inv now token jitter c RouteStatus.skipped b code e h v = record {
    running = refl;
    left = λ q. cc;
    tries = omega (arith, v.left (held_by e token h));
    ready = λ q. cc;
  }
  saved-Inv now token jitter c RouteStatus.failed b code e h v =
      let l = v.left (held_by e token h) in
      rw (lt→ltb e.enrichment_attempt_count st.enrichment_max_attempts l)
        (record { running = refl; left = λ q. cc; tries = omega (arith, l); ready = λ q. cc })
  saved-Inv now token jitter c RouteStatus.pending b code e h v =
      let l = v.left (held_by e token h) in
      rw (lt→ltb e.enrichment_attempt_count st.enrichment_max_attempts l)
        (record { running = refl; left = λ q. cc; tries = omega (arith, l); ready = λ q. cc })

  mine_token :
      (id token : ℕ) (e : Enrichment)
      → is_mine id token e ≡ true
      → has_token e.claim_token token ≡ true
  mine_token id token e h = ground (arith, h)

  Step-Inv :
      (v w : World)
      → Step st v w
      → Apart v.db.enrichments
      → All (Inv st) v.db.enrichments
      → All (Inv st) w.db.enrichments
  Step-Inv v _ (claims now n token worker locked) a t =
      claim-All (Inv st) st now n token worker locked v.db
        (λ e h i. claim-Inv now token worker e h i) a t
  Step-Inv v _ (loads trip_id id token c h) a t = t
  Step-Inv v _ (finishes now jitter token c answer refused i) a t =
      finish-All (Inv st) st now jitter c token answer
        (λ e text h i. failed-Inv now token jitter text e (mine_token c.enrichment_id token e h) i)
        (λ e r b h y i.
          saved-Inv now token jitter c r.0 b r.2 e (mine_token c.enrichment_id token e h) i)
        refused v.db t

  -- A resolution that has failed is not asked for again.
  still_failed :
      (c : EnrichmentContext) (answer : LocationAnswer) (r : Resolution)
      → c.route_status ≡ RouteStatus.failed
      → resolve_route_context c answer ≡ ok r
      → r.0 ≡ RouteStatus.failed
  unfolding resolve_route_context
  still_failed c answer r e h =
      let was : resolve_route_context c answer ≡ ok (RouteStatus.failed, none, none) = rw e refl in
      ap (λ z. z.0) (ok-injective (sym h ∙ was))

  not_ready :
      (b : Bool)
      → (if b then EnrichmentStatus.failed else EnrichmentStatus.failed) ≢ EnrichmentStatus.ready
  not_ready true q = cc
  not_ready false q = cc

  -- a claimed row and its id
  other_row :
      (id token k : ℕ) (e : Enrichment)
      → is_mine k token e ≡ true
      → (k == id) ≡ false
      → (e.id == id) ≡ false
  other_row id token k e m n = ground (arith, m, n)

  mine_apart :
      (id k token : ℕ) (e : Enrichment)
      → is_mine k token e ≡ true
      → (e.id == id) ≡ false
      → (k == id) ≡ false
  mine_apart id k token e m n = ground (arith, m, n)

  failed-Lost :
      (id now : ℕ) (jitter : ℕ → ℕ) (text : String) (e : Enrichment)
      → Lost id e
      → Lost id (failed_row st now jitter text e)
  unfolding failed_row Lost
  failed-Lost id now jitter text e (inl n) = inl n
  failed-Lost id now jitter text e (inr (r, n)) = inr (r, λ q. cc)

  saved-Lost :
      (id token now : ℕ) (jitter : ℕ → ℕ) (c : EnrichmentContext) (answer : LocationAnswer)
      (r : Resolution) (b : Bool) (e : Enrichment)
      → is_mine c.enrichment_id token e ≡ true
      → resolve_route_context c answer ≡ ok r
      → LostContext id (token, c)
      → Lost id (saved_row st now jitter c r.0 b r.2 e)
  unfolding saved_row derive_final_enrichment_status Lost LostContext
  saved-Lost id token now jitter c answer r b e m y (inl n) =
      inl (other_row id token c.enrichment_id e m n)
  saved-Lost id token now jitter c answer (s, found, code) b e m y (inr l) =
      rw (still_failed c answer (s, found, code) l y) (inr (refl, not_ready _))

  claimed-Lost :
      (id now token worker : ℕ) (e : Enrichment)
      → Lost id e
      → Lost id (claim_enrichment st now token worker e)
  unfolding claim_enrichment Lost
  claimed-Lost id now token worker e (inl n) = inl n
  claimed-Lost id now token worker e (inr (r, n)) = inr (r, λ q. cc)

  load-Lost :
      (id id' token : ℕ) (c : EnrichmentContext) (e : Enrichment)
      → is_mine id' token e ≡ true
      → c.enrichment_id ≡ id'
      → c.route_status ≡ e.route_status
      → Lost id e
      → LostContext id (token, c)
  unfolding Lost LostContext
  load-Lost id id' token c e m k r (inl n) =
      inl (ap (λ z. z == id) k ∙ mine_apart id id' token e m n)
  load-Lost id id' token c e m k r (inr (l, n)) = inr (r ∙ l)

  Step-Lost :
      (id : ℕ) (v w : World)
      → Step st v w
      → Apart v.db.enrichments
      → All (Lost id) v.db.enrichments × All (LostContext id) v.loaded
      → All (Lost id) w.db.enrichments × All (LostContext id) w.loaded
  Step-Lost id v _ (claims now n token worker locked) a (t, u) = (
    claim-All (Lost id) st now n token worker locked v.db
        (λ e h l. claimed-Lost id now token worker e l) a t,
    u,
  )
  Step-Lost id v _ (loads trip_id id' token c h) a (t, u) =
      let (e, f, k, r) = load_row trip_id id' token v.db c h in
      let (l, m) = find_All (Lost id) (is_mine id' token) v.db.enrichments e t f in
      (t, (load-Lost id id' token c e m k r l, u))
  Step-Lost id v _ (finishes now jitter token c answer refused i) a (t, u) = (
    finish-All (Lost id) st now jitter c token answer
        (λ e text h l. failed-Lost id now jitter text e l)
        (λ e r b h y l.
          saved-Lost id token now jitter c answer r b e h y
            (in_All (LostContext id) (token, c) v.loaded i u))
        refused v.db t,
    u,
  )

  Reached-Apart : (v w : World) → Reached st v w → Apart v.db.enrichments → Apart w.db.enrichments
  Reached-Apart v _ start a = a
  Reached-Apart v w (later {v = m} r s) a = Step-Apart st m w s (Reached-Apart v m r a)

  -- Whatever rounds of workers do, interleaved in any way and with no other writer, to the
  -- enrichment rows: each has a claim token exactly while it is running, has had at most the
  -- maximum of tries and fewer than that while it is held, and when it is ready its route is, if
  -- that was so of all rows at first and their ids are distinct.
  pub Reached-Inv :
      (v w : World)
      → Apart v.db.enrichments
      → All (Inv st) v.db.enrichments
      → Reached st v w
      → All (Inv st) w.db.enrichments
  Reached-Inv v _ a t start = t
  Reached-Inv v w a t (later {v = m} r s) =
      Step-Inv m w s (Reached-Apart v m r a) (Reached-Inv v m a t r)

  Reached-Lost :
      (id : ℕ) (v w : World)
      → Apart v.db.enrichments
      → All (Lost id) v.db.enrichments × All (LostContext id) v.loaded
      → Reached st v w
      → All (Lost id) w.db.enrichments × All (LostContext id) w.loaded
  Reached-Lost id v _ a t start = t
  Reached-Lost id v w a t (later {v = m} r s) =
      Step-Lost id m w s (Reached-Apart v m r a) (Reached-Lost id v m a t r)

  -- A route that was not found is never found: if the route of the row of an id has failed and the
  -- row is not ready, no worker has loaded anything else of it before, and row ids are distinct,
  -- then that stays so through every claim, loading, retry and failure of workers, interleaved in
  -- any way and with no other writer, whatever the location service would answer.
  pub Works_unresolved :
      (id : ℕ) (v w : World)
      → Apart v.db.enrichments
      → All (Lost id) v.db.enrichments
      → All (LostContext id) v.loaded
      → Reached st v w
      → All (Lost id) w.db.enrichments
  Works_unresolved id v w a t u r = (Reached-Lost id v w a (t, u) r).0

same_id : (a b : ℕ) → (a == b) ≡ true → a ≡ b
same_id a b h = ground arith

-- a row that another worker has claimed
taken :
    (st : Settings) (now other worker : ℕ) (ids : List ℕ) (id token : ℕ) (e : Enrichment)
    → elem id ids ≡ true
    → token ≢ other
    → is_mine id token (if elem e.id ids then claim_enrichment st now other worker e else e) ≡ false
unfolding claim_enrichment
taken st now other worker ids id token e h n = elim (Bool-cases (e.id == id)) [
  | inr y ↦ elim (Bool-cases (elem e.id ids)) [ inl z ↦ rw (z, y) refl | inr z ↦ rw (z, y) refl ]
  | inl y ↦ rw (ap (λ k. elem k ids) (same_id e.id id y) ∙ h, y) (ground arith)
]

-- the table after the claim of another worker
lost :
    (st : Settings) (now other worker : ℕ) (ids : List ℕ) (id token : ℕ) (es : List Enrichment)
    → elem id ids ≡ true
    → token ≢ other
    → find
        (is_mine id token)
        (update_where (λ e. elem e.id ids) (claim_enrichment st now other worker) es)
      ≡ none
unfolding claim_enrichment
lost st now other worker ids id token [] h n = refl
lost st now other worker ids id token (e ∷ es) h n =
    find-no (is_mine id token) _ _ (taken st now other worker ids id token e h n)
    ∙ lost st now other worker ids id token es h n

unheld :
    (id token : ℕ) (f : Enrichment → Enrichment) (es : List Enrichment)
    → find (is_mine id token) es ≡ none
    → update_where (is_mine id token) f es ≡ es
unheld id token f [] h = refl
unheld id token f (e ∷ es) h = elim (Bool-cases (is_mine id token e)) [
  | inl y ↦ cc
  | inr y ↦
      rw y (ap (λ z. e ∷ z) (unheld id token f es (sym (find-no (is_mine id token) e es y) ∙ h)))
]

-- without a row that is held, a worker has no effect
module _ (st : Settings) (now : ℕ) (jitter : ℕ → ℕ) (id token : ℕ) (d : TripDb)
    (h : find (is_mine id token) d.enrichments ≡ none) where
  mark_lost : (e : String) → mark_processing_error st now jitter id token e d ≡ d
  unfolding mark_processing_error
  mark_lost e =
      ap (λ z. record d { enrichments = z })
        (unheld id token (failed_row st now jitter e) d.enrichments h)

finish_lost :
    (st : Settings) (now : ℕ) (jitter : ℕ → ℕ) (c : EnrichmentContext) (token : ℕ)
    (answer : LocationAnswer) (refused : Option String) (d : TripDb)
    → find (is_mine c.enrichment_id token) d.enrichments ≡ none
    → finish_enrichment st now jitter c token answer refused d ≡ d
unfolding finish_enrichment save_enrichment_result
finish_lost st now jitter c token answer refused d h =
    elim (Result-cases (resolve_route_context c answer)) [
      | inr (e, y) ↦ rw (finish_enrichment, y) (mark_lost st now jitter c.enrichment_id token d h e)
      | inl ((status, found, code), y) ↦
          rw (finish_enrichment, y)
            (elim (Option-cases refused) [
              | inr (e, z) ↦ rw z (mark_lost st now jitter c.enrichment_id token d h e)
              | inl z ↦ rw z (rw (save_enrichment_result, h) refl)
            ])
    ]

-- A worker whose row another worker has claimed under another token changes nothing any more,
-- whatever the location service answered it and whether its save would be refused.
pub stale_finish :
    (st : Settings) (now now' other worker batch_size : ℕ) (locked : ℕ → Bool) (jitter : ℕ → ℕ)
    (c : EnrichmentContext) (token : ℕ) (answer : LocationAnswer) (refused : Option String)
    (d : TripDb)
    → elem c.enrichment_id (claim_enrichments st now locked batch_size other worker d).0 ≡ true
    → token ≢ other
    → finish_enrichment st now' jitter c token answer refused
        (claim_enrichments st now locked batch_size other worker d).1
      ≡ (claim_enrichments st now locked batch_size other worker d).1
unfolding claim_enrichments
stale_finish st now now' other worker batch_size locked jitter c token answer refused d h n =
    finish_lost st now' jitter c token answer refused _
      (lost st now other worker _ c.enrichment_id token d.enrichments h n)
