-- ===== src/Location/Tests.antt =====
-- The approval of a pair with one active version and one draft on each of its two routes.
use lojinextv.Prelude.{ℕ, ◌+◌, ◌≡◌, ◌≢◌, arith, refl, Bool, false, none, some, List, [], ◌∷◌}
use lojinextv.Exec.{ok, request}
use lojinextv.Location.Tables.{
  PairStatus, DirectionCode, ProcessingStatus, ValidationResult, RunStatus, TriggerType,
  ProcessingRun, RoutePair, RouteVersion, LocationDb, Context,
}
use lojinextv.Location.{approve}
use lojinextv.Location.Runs.{
  ClaimedProcessingRun, claimable, earliest, claim_found, claim_next_processing_run,
  mark_processing_run_failed, refresh_route_pair,
}
use lojinextv.Location.Pipeline.{Calculated, Draws, persist}
use lojinextv.Location.Pipeline.Drafts.{Numbered}
use lojinextv.Location.Pipeline.Claims.{reclaimed_stale, after_claim}
use lojinextv.Location.Reached.{Reached-Numbered, start, step, approves, refreshes}
use lojinextv.Location.Segments.{
  Marker, SegmentMetadata, RoadClass, UrbanClass, default_segment_metadata,
  segment_metadata_by_index,
}
use lojinextv.Location.Segments.Latest.{metadata-latest, latest_marker}

abbrev a_pair : RoutePair
a_pair = record {
  route_pair_id = 1;
  pair_code = "RP_1";
  origin_location_id = 10;
  destination_location_id = 11;
  profile_code = 0;
  pair_status = PairStatus.active;
  forward_route_id = some 100;
  reverse_route_id = some 101;
  current_active_forward_version_no = some 1;
  current_active_reverse_version_no = some 1;
  pending_forward_version_no = some 2;
  pending_reverse_version_no = some 2;
  row_version = 5;
}

abbrev a_version : ℕ → ℕ → ProcessingStatus → RouteVersion
a_version route n s = record {
  route_id = route;
  version_no = n;
  processing_run_id = 7;
  processing_status = s;
  total_distance_m = 1000;
  total_duration_s = 60;
  segment_count = 4;
  validation_result = ValidationResult.pass;
}

abbrev a_db : LocationDb
a_db = record {
  pairs = a_pair ∷ [];
  routes =
      record {
        route_id = 100;
        route_pair_id = 1;
        route_code = "RP_1_F";
        direction = DirectionCode.forward;
      }
      ∷ record {
        route_id = 101;
        route_pair_id = 1;
        route_code = "RP_1_R";
        direction = DirectionCode.reverse;
      }
      ∷ [];
  counters =
      record { route_id = 100; next_version_no = 3 }
      ∷ record { route_id = 101; next_version_no = 3 }
      ∷ [];
  versions =
      a_version 100 1 ProcessingStatus.active
      ∷ a_version 101 1 ProcessingStatus.active
      ∷ a_version 100 2 ProcessingStatus.calculated_draft
      ∷ a_version 101 2 ProcessingStatus.calculated_draft
      ∷ [];
  runs = [];
  audit_log = [];
  outbox = [];
}

abbrev a_context : Context
a_context = record { now = 50; new_ulid = λ n. 900 + n; refused = none }

abbrev approved_pair : RoutePair
approved_pair = record a_pair {
  current_active_forward_version_no = some 2;
  current_active_reverse_version_no = some 2;
  pending_forward_version_no = none;
  pending_reverse_version_no = none;
  row_version = 6;
}

a_db-Numbered : Numbered a_db
a_db-Numbered = (omega arith, (omega arith, (omega arith, (omega arith, tt))))

Reached-Numbered_example :
    Numbered
      (request
        (refresh_route_pair a_context 1)
        (request (approve a_context (a_pair ∷ []) 1 (some 5)) a_db).1).1
Reached-Numbered_example =
    Reached-Numbered
      (step (step start (approves a_context (a_pair ∷ []) 1 (some 5))) (refreshes a_context 1))
      a_db-Numbered

-- a run that the worker 4 holds under the token 77
abbrev a_run : ProcessingRun
a_run = record {
  processing_run_id = 7;
  route_pair_id = 1;
  run_status = RunStatus.running;
  trigger_type = TriggerType.manual_refresh;
  attempt_no = 1;
  error_message = none;
  claim_token = some 77;
  claim_expires_at_utc = some 40;
  claimed_by_worker = some 4;
  started_at_utc = some 10;
  completed_at_utc = none;
  created_at_utc = 5;
}

abbrev run_db : LocationDb
run_db = record a_db { runs = a_run ∷ [] }

abbrev a_result : Calculated
a_result = record {
  distance = 2000;
  duration = 90;
  segments_count = 3;
  validation_result = ValidationResult.pass;
}

abbrev some_draws : Draws
some_draws = record { new_ulid = λ dir. 300; generate_route_code = λ code dir. code }

tokens_differ : ◌≢◌ {A = ℕ} 77 78
tokens_differ e = omega (arith, e)

abbrev unlocked : ℕ → Bool
unlocked n = false

abbrev a_claim : ClaimedProcessingRun
a_claim = record { run_id = 7; pair_id = 1; claim_token = 78 }

reclaimed_stale_example :
    (request
        (persist a_context some_draws 7 1 (some 77) a_result a_result)
        (after_claim 50 78 6 unlocked run_db)
      ≡ (ok false, after_claim 50 78 6 unlocked run_db))
    × (request
          (mark_processing_run_failed 60 7 "timeout" (some 77))
          (after_claim 50 78 6 unlocked run_db)
        ≡ (ok tt, after_claim 50 78 6 unlocked run_db))
unfolding claim_next_processing_run claim_found claimable earliest
reclaimed_stale_example =
    reclaimed_stale 50 78 6 unlocked run_db a_claim 77 tokens_differ refl a_context some_draws
      a_result a_result 60 "timeout"

abbrev forced_run : ProcessingRun
forced_run = record a_run {
  run_status = RunStatus.failed;
  error_message = some "Force failed via API";
}

abbrev metadata_of : RoadClass → SegmentMetadata
metadata_of c = record { road_class = c; urban_class = UrbanClass.urban; tunnel_flag = false }

abbrev some_markers : List Marker
some_markers =
    record { geometry_index = 2; metadata = metadata_of RoadClass.trunk }
    ∷ record { geometry_index = 1; metadata = metadata_of RoadClass.street }
    ∷ record { geometry_index = 2; metadata = metadata_of RoadClass.ferry }
    ∷ []

metadata-latest_example :
    segment_metadata_by_index 4 some_markers
    ≡ default_segment_metadata
      ∷ metadata_of RoadClass.street
      ∷ metadata_of RoadClass.ferry
      ∷ metadata_of RoadClass.ferry
      ∷ []
unfolding latest_marker
metadata-latest_example = metadata-latest 4 some_markers
