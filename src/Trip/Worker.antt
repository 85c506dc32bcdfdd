-- ===== src/Trip/Worker.antt =====
-- services/trip-service/src/trip_service/workers/enrichment_worker.py: claiming enrichment rows,
-- resolving their routes and saving what was found. The row locks of other workers, the clock, the
-- random factor and what the location service answers are arguments; error codes are cut to 100
-- characters before they come here.
use lojinextv.Prelude.{
  ℕ, ◌+◌, String, Bool, true, false, not, ◌&&◌, ◌||◌, Option, none, some, List, [], ◌∷◌, ◌==◌, ltb,
  leb, elem, map, filter, find, take, if◌then◌else◌, update_where,
}
use lojinextv.Exec.{Result, ok, err}
use lojinextv.Trip.Tables.{
  SourceType, Trip, TripDb, Enrichment, EnrichmentStatus, RouteStatus, Evidence,
}
use lojinextv.Trip.{select_trip, write_trip, missing_of, compute_data_quality_flag}
use lojinextv.Trip.Create.{LocationTripContext, apply_trip_context}

pub record Settings : Type 0 where
  pub enrichment_max_attempts : ℕ
  pub enrichment_claim_ttl_seconds : ℕ

-- ENRICHMENT_BACKOFF_SECONDS, the last for every further attempt
unfoldable pub backoff : ℕ → ℕ
backoff n =
    if n == 0
    then 60
    else if n == 1
    then 300
    else if n == 2
    then 900
    else if n == 3
    then 3600
    else 21600

-- `_enrichment_next_retry_at`, with the random factor as a function of the base
unfoldable pub next_retry_at : (ℕ → ℕ) → ℕ → ℕ → ℕ
unfolding backoff
next_retry_at jitter now attempt_count =
    let delay = jitter (backoff attempt_count) in now + (if ltb delay 1 then 1 else delay)

abbrev pub waits : EnrichmentStatus → Bool
waits EnrichmentStatus.pending = true
waits EnrichmentStatus.failed = true
waits _ = false

abbrev pub is_running : EnrichmentStatus → Bool
is_running EnrichmentStatus.running = true
is_running _ = false

-- a comparison with NULL is not true
abbrev pub before : Option ℕ → ℕ → Bool
before none now = false
before (some t) now = ltb t now

abbrev pub due : Option ℕ → ℕ → Bool
due none now = true
due (some t) now = leb t now

-- the WHERE clause of the claim
unfoldable pub claimable : Settings → ℕ → Enrichment → Bool
claimable st now e =
    ((waits e.enrichment_status && ltb e.enrichment_attempt_count st.enrichment_max_attempts)
      || (is_running e.enrichment_status
          && before e.claim_expires_at_utc now
          && ltb e.enrichment_attempt_count st.enrichment_max_attempts))
    && due e.next_retry_at_utc now

unfoldable pub claim_enrichment : Settings → ℕ → ℕ → ℕ → Enrichment → Enrichment
claim_enrichment st now token worker e = record e {
  enrichment_status = EnrichmentStatus.running;
  claim_token = some token;
  claim_expires_at_utc = some (now + st.enrichment_claim_ttl_seconds);
  claimed_by_worker = some worker;
  updated_at_utc = now;
}

-- the ids of the rows that are claimed
unfoldable pub candidates : Settings → ℕ → (ℕ → Bool) → ℕ → List Enrichment → List ℕ
unfolding claimable
candidates st now locked batch_size es =
    map (λ e. e.id) (take batch_size (filter (λ e. claimable st now e && not (locked e.id)) es))

unfoldable pub claim_enrichments : Settings → ℕ → (ℕ → Bool) → ℕ → ℕ → ℕ → TripDb → List ℕ × TripDb
unfolding candidates claim_enrichment
claim_enrichments st now locked batch_size token worker d =
    let ids = candidates st now locked batch_size d.enrichments in
    (
      ids,
      record d {
        enrichments =
            update_where (λ e. elem e.id ids) (claim_enrichment st now token worker) d.enrichments;
      },
    )

abbrev pub has_token : Option ℕ → ℕ → Bool
has_token none token = false
has_token (some t) token = t == token

-- the row, if the claim is still held
abbrev pub is_mine : ℕ → ℕ → Enrichment → Bool
is_mine id token e = e.id == id && has_token e.claim_token token

-- the newest of the rows, the first of them on a tie
unfoldable pub latest : List Evidence → Option Evidence
latest [] = none
latest (e ∷ es) = elim (latest es) [
  | none ↦ some e
  | some m ↦ if ltb e.created_at_utc m.created_at_utc then some m else some e
]

pub record EnrichmentContext : Type 0 where
  pub enrichment_id : ℕ
  pub trip_id : ℕ
  pub source_type : SourceType
  pub route_status : RouteStatus
  pub route_already_set : Bool
  pub ocr_confidence : Option ℕ
  pub origin_name_raw : Option String
  pub destination_name_raw : Option String

abbrev pub and_then : {A B : Type 0} → Option A → (A → Option B) → Option B
and_then none f = none
and_then (some a) f = f a

unfoldable pub load_enrichment_context : ℕ → ℕ → ℕ → TripDb → Option EnrichmentContext
unfolding select_trip latest
load_enrichment_context trip_id id token d = and_then (find (is_mine id token) d.enrichments) λ e.
    and_then (select_trip trip_id d.trips) λ t.
      let evidence = latest (filter (λ v. v.trip_id == trip_id) d.evidence) in
      some (record {
        enrichment_id = id;
        trip_id = trip_id;
        source_type = t.source_type;
        route_status = e.route_status;
        route_already_set = not (missing_of t.route_id);
        ocr_confidence = and_then evidence (λ v. v.ocr_confidence);
        origin_name_raw = and_then evidence (λ v. v.origin_name_raw);
        destination_name_raw = and_then evidence (λ v. v.destination_name_raw);
      })

-- What the location service answers to `_resolve_route`, and then to `fetch_trip_context`: the
-- context of the pair, a status that is not READY, a problem with its status and code, or another
-- exception (an open breaker among them).
pub data LocationAnswer : Type 0 where
  resolved : LocationTripContext → LocationAnswer
  unresolved : RouteStatus → LocationAnswer
  problem : ℕ → String → LocationAnswer
  raised : String → LocationAnswer

-- a status, the context to apply, and an error code
abbrev pub Resolution : Type 0
Resolution = RouteStatus × Option LocationTripContext × Option String

unfoldable pub answered_route : LocationAnswer → Result String Resolution
answered_route (resolved c) = ok (RouteStatus.ready, some c, none)
answered_route (unresolved s) = ok (s, none, none)
answered_route (problem status code) =
    if status == 422
    then ok (RouteStatus.skipped, none, none)
    else ok (RouteStatus.failed, none, some code)
answered_route (raised e) = err e

-- `_resolve_route_context`, where an empty name is none; the location service is asked in the last
-- case only
unfoldable pub resolve_pending : EnrichmentContext → LocationAnswer → Result String Resolution
unfolding answered_route
resolve_pending c answer =
    if missing_of c.origin_name_raw || missing_of c.destination_name_raw
    then ok (RouteStatus.failed, none, none)
    else answered_route answer

unfoldable pub resolve_route_context : EnrichmentContext → LocationAnswer → Result String Resolution
unfolding resolve_pending
resolve_route_context c answer = elim c.route_status [
  | RouteStatus.pending ↦ resolve_pending c answer
  | s ↦ ok (s, none, none)
]

unfoldable pub derive_final_enrichment_status : RouteStatus → EnrichmentStatus
derive_final_enrichment_status RouteStatus.ready = EnrichmentStatus.ready
derive_final_enrichment_status RouteStatus.skipped = EnrichmentStatus.skipped
derive_final_enrichment_status RouteStatus.failed = EnrichmentStatus.failed
derive_final_enrichment_status RouteStatus.pending = EnrichmentStatus.pending

abbrev pub released : ℕ → Option String → Enrichment → Enrichment
released now code e = record e {
  claim_token = none;
  claim_expires_at_utc = none;
  claimed_by_worker = none;
  last_enrichment_error_code = code;
  updated_at_utc = now;
}

-- the time of the next try of a row that is to be tried again
abbrev pub retry_of : Settings → ℕ → (ℕ → ℕ) → Enrichment → Option ℕ
retry_of st now jitter e =
    if ltb e.enrichment_attempt_count st.enrichment_max_attempts
    then some (next_retry_at jitter now e.enrichment_attempt_count)
    else none

-- the row after `_mark_processing_error`
unfoldable pub failed_row : Settings → ℕ → (ℕ → ℕ) → String → Enrichment → Enrichment
unfolding next_retry_at
failed_row st now jitter text e = record (released now (some text) e) {
  enrichment_status = EnrichmentStatus.failed;
  next_retry_at_utc = retry_of st now jitter e;
  enrichment_attempt_count = e.enrichment_attempt_count + 1;
}

-- the row after `_save_enrichment_result`
unfoldable pub saved_row :
    Settings
    → ℕ
    → (ℕ → ℕ)
    → EnrichmentContext
    → RouteStatus
    → Bool
    → Option String
    → Enrichment
    → Enrichment
unfolding derive_final_enrichment_status next_retry_at compute_data_quality_flag
saved_row st now jitter c status route_resolved code e =
    let derived = derive_final_enrichment_status status in
    record (released now code e) {
      route_status = status;
      enrichment_status =
          if waits derived && not (ltb e.enrichment_attempt_count st.enrichment_max_attempts)
          then EnrichmentStatus.failed
          else derived;
      data_quality_flag = compute_data_quality_flag c.source_type c.ocr_confidence route_resolved;
      next_retry_at_utc = if waits derived then retry_of st now jitter e else none;
      enrichment_attempt_count = e.enrichment_attempt_count + 1;
    }

abbrev pub is_ready : RouteStatus → Bool
is_ready RouteStatus.ready = true
is_ready _ = false

-- the trip with the context that was fetched
abbrev pub located : RouteStatus → Option LocationTripContext → Trip → Trip
located RouteStatus.ready (some c) t = apply_trip_context c false t
located _ _ t = t

unfoldable pub is_resolved : EnrichmentContext → RouteStatus → Trip → Bool
is_resolved c status t =
    if is_ready status
    then not (missing_of t.route_id) || c.route_already_set
    else is_ready c.route_status && c.route_already_set

unfoldable pub save_enrichment_result :
    Settings → ℕ → (ℕ → ℕ) → EnrichmentContext → ℕ → Resolution → TripDb → TripDb
unfolding select_trip write_trip saved_row is_resolved apply_trip_context
save_enrichment_result st now jitter c token (status, found, code) d =
    elim (find (is_mine c.enrichment_id token) d.enrichments) [
      | none ↦ d
      | some e ↦ elim (select_trip c.trip_id d.trips) [
        | none ↦ d
        | some t ↦
            let t' = located status found t in
            record d {
              trips = write_trip t' d.trips;
              enrichments =
                  update_where (is_mine c.enrichment_id token)
                    (saved_row st now jitter c status (is_resolved c status t') code) d.enrichments;
            }
      ]
    ]

unfoldable pub mark_processing_error : Settings → ℕ → (ℕ → ℕ) → ℕ → ℕ → String → TripDb → TripDb
unfolding failed_row
mark_processing_error st now jitter id token text d = record d {
  enrichments = update_where (is_mine id token) (failed_row st now jitter text) d.enrichments;
}

-- What a worker does with a context that it loaded, on the database as it is when the location
-- service has answered; `refused` is the error of the database at the save, if it raises one.
unfoldable pub finish_enrichment :
    Settings
    → ℕ
    → (ℕ → ℕ)
    → EnrichmentContext
    → ℕ
    → LocationAnswer
    → Option String
    → TripDb
    → TripDb
unfolding resolve_route_context save_enrichment_result mark_processing_error
finish_enrichment st now jitter c token answer refused d = elim (resolve_route_context c answer) [
  | err e ↦ mark_processing_error st now jitter c.enrichment_id token e d
  | ok r ↦ elim refused [
    | some e ↦ mark_processing_error st now jitter c.enrichment_id token e d
    | none ↦ save_enrichment_result st now jitter c token r d
  ]
]
