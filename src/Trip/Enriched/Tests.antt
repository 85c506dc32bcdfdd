-- ===== src/Trip/Enriched/Tests.antt =====
-- The theorems on enrichment rows, on a row whose route was not found.
use lojinextv.Prelude.{ℕ, ◌≡◌, refl, true, false, none, some, [], ◌∷◌, All, inr, arith}
use lojinextv.Trip.Tables.{
  SourceType, DataQualityFlag, TripDb, Enrichment, EnrichmentStatus, RouteStatus,
}
use lojinextv.Trip.Worker.{
  Settings, claim_enrichments, load_enrichment_context, EnrichmentContext, raised,
  finish_enrichment,
}
use lojinextv.Trip.Rounds.{World, first, claims, loads, finishes, Reached, start, later}
use lojinextv.Trip.Enriched.{Inv, Lost, Reached-Inv, Works_unresolved, stale_finish}
use lojinextv.Trip.Tests.{waiting}

abbrev settings : Settings
settings = record { enrichment_max_attempts = 5; enrichment_claim_ttl_seconds = 300 }

abbrev lost_route : Enrichment
lost_route = record {
  id = 4;
  trip_id = 1;
  enrichment_status = EnrichmentStatus.failed;
  route_status = RouteStatus.failed;
  data_quality_flag = DataQualityFlag.medium;
  enrichment_attempt_count = 1;
  last_enrichment_error_code = none;
  next_retry_at_utc = some 400;
  claim_token = none;
  claim_expires_at_utc = none;
  claimed_by_worker = none;
  created_at_utc = 0;
  updated_at_utc = 100;
}

abbrev found_again : EnrichmentContext
found_again = record {
  enrichment_id = 4;
  trip_id = 1;
  source_type = SourceType.admin_manual;
  route_status = RouteStatus.failed;
  route_already_set = true;
  ocr_confidence = none;
  origin_name_raw = none;
  destination_name_raw = none;
}

abbrev jitter : ℕ → ℕ
jitter n = n

abbrev db : TripDb
db = record {
  trips = waiting ∷ [];
  enrichments = lost_route ∷ [];
  evidence = [];
  idempotency = [];
  timeline = [];
  outbox = [];
  audit_log = [];
}

-- a worker claims the row, loads it, and the location service does not answer in time
abbrev at_first : World
at_first = record { db = db; loaded = [] }

abbrev at_claim : World
at_claim = record at_first { db = (claim_enrichments settings 500 (λ id. false) 10 77 1 db).1 }

abbrev at_load : World
at_load = record at_claim { loaded = (77, found_again) ∷ [] }

abbrev at_end : World
at_end = record at_load {
  db = finish_enrichment settings 510 jitter found_again 77 (raised "timeout") none at_claim.db;
}

load_again : load_enrichment_context 1 4 77 at_claim.db ≡ some found_again
unfolding load_enrichment_context claim_enrichments
load_again = refl

a_round : Reached settings at_first at_end
a_round =
    later
      (later (later start (claims 500 10 77 1 (λ id. false))) (loads 1 4 77 found_again load_again))
      (finishes 510 jitter 77 found_again (raised "timeout") none first)

Works_unresolved_example : All (Lost 4) at_end.db.enrichments
unfolding Lost
Works_unresolved_example =
    Works_unresolved settings 4 at_first at_end (tt, tt) (inr (refl, λ q. cc), tt) tt a_round

lost_route-Inv : Inv settings lost_route
lost_route-Inv = record { running = refl; left = λ q. cc; tries = omega arith; ready = λ q. cc }

Reached-Inv_example : All (Inv settings) at_end.db.enrichments
Reached-Inv_example = Reached-Inv settings at_first at_end (tt, tt) (lost_route-Inv, tt) a_round

claimed_four : (claim_enrichments settings 500 (λ id. false) 10 78 2 db).0 ≡ 4 ∷ []
unfolding claim_enrichments
claimed_four = refl

stale_finish_example :
    finish_enrichment settings 600 jitter found_again 77
      (raised "timeout")
      none
      (claim_enrichments settings 500 (λ id. false) 10 78 2 db).1
    ≡ (claim_enrichments settings 500 (λ id. false) 10 78 2 db).1
stale_finish_example =
    stale_finish settings 500 600 78 2 10 (λ id. false) jitter found_again 77 (raised "timeout")
      none db (rw claimed_four refl) (omega arith)
