-- ===== src/Lib.antt =====
-- The core of the LOJINEXT fleet platform: the state machines, the circuit breaker and the outbox
-- relay that its services share, the trips and their saga, the vehicles of the fleet service and the
-- life cycle of the drivers.
--
-- Parts. A service answers a request in one database session. It reads rows, checks them, writes the
-- changed row together with an outbox event and its audit rows, and commits all at once; if it raises,
-- the session is closed and nothing of it stays. The outbox relay of each service then claims the
-- events, sends them to the broker, and marks them. The trip service runs a saga on the events that
-- come back. The trip and driver services have one generic state machine for
-- status changes.
--
-- - StateMachine: packages/platform-common/src/platform_common/state_machine.py, with the tables of
--   services/trip-service/src/trip_service/state_machine.py (StateMachine/Trip) and of
--   services/driver-service/src/driver_service/state_machine.py (StateMachine/Driver). A machine is
--   its state and its table; a sequence of requests is `run`.
-- - Breaker: packages/platform-common/src/platform_common/circuit_breaker.py. The object's fields are
--   a record; each method is a function from that record to an outcome and a record. An acquisition
--   of the lock while it is held, also by the task itself, is the outcome `hung`. What Redis answers,
--   the clock and the wrapped function's result are arguments. The wrapped function runs without the
--   lock, so `call` is the composition of `admit` and `settle` with what other tasks do between.
-- - Retry: packages/platform-common/src/platform_common/retry_utils.py, the retry decorator: a loop over
--   the attempts, whose number is its fuel; one more than `max_attempts` is given, and is enough since
--   the loop ends when it has made that many.
-- - Exec: a handler is a function from a session (the committed database and the session's view of
--   it) to an answer or an error and a session; `request` opens and closes the session.
-- - Outbox: packages/platform-common/src/platform_common/outbox_relay.py and outbox.py. The table is
--   a list of rows; `select_batch`, `claim_batch`, `publish_single`, `mark_published` and `mark_failed`
--   are the methods. Locked rows, the reach of the claim's UPDATE, the broker and the random factor
--   are arguments.
-- - Fleet: services/fleet-service/src/fleet_service: services/vehicle_service.py with the repositories
--   and models that it uses, and domain/normalization.py (Fleet/Plate). Fleet/Tables has the rows,
--   Fleet/Session what the handlers share, Fleet/Vehicle the handlers, Fleet/Vehicle/Create and
--   Fleet/Vehicle/HardDelete the two long ones. Fleet/Spec has services/vehicle_spec_service.py with
--   repositories/vehicle_spec_repo.py and the constraints that
--   alembic/versions/001_schema_bootstrap.py puts on the table; Fleet/Formulas has domain/formulas.py,
--   Fleet/Internal the questions of services/internal_service.py, whose tables are lists in the order
--   of their keys. A client that reads pages is a function on fuel; one more than the number of rows is
--   enough, since every page but the last has a row.
-- - Saga: services/trip-service/src/trip_service/saga_orchestrator.py, on the tables of its session.
-- - Trip: services/trip-service/src/trip_service/service.py with trip_helpers.py and models.py:
--   Trip has the cancellation, the approval and the rejection, Trip/Create the creation with its
--   idempotency keys, Trip/Return that of an empty return, Trip/Edit the edit, Trip/Overlap the
--   check that a driver, a vehicle or a trailer has one trip at a time. The advisory locks of that
--   check serialize the requests that share one of the three, so requests are taken one after the
--   other. What the fleet and location services answer, the caller, the clock and the ids that are
--   drawn are arguments.
-- - Trip/Worker: services/trip-service/src/trip_service/workers/enrichment_worker.py. A worker loads what
--   it needs, asks the location service without a session, and finishes on the database as it is then;
--   the two parts are separate functions, so that others may write between them. Trip/Rounds has the
--   interleaved rounds of workers on the tables, with what each has loaded; Trip/Enriched follows the
--   rows through them. The requests on a trip write its row from a reading without a lock: that
--   reading is an argument, and the ORM writes the columns that differ from it.
-- - Auth: services/auth-service/src/auth_service/token_service.py with routers/auth.py, blocklist.py,
--   auth.py and models.py. The revocation of a stolen family runs in a session of its own, and so
--   stays when the request is rolled back. A history is a list of requests, each with its clock, ids
--   and secret; requests are taken one after the other.
-- - Location: services/location-service/src/location_service: processing/approval.py with
--   routers/approval.py, where the reading without a lock, on which the endpoint compares the version,
--   is an argument; Location/Runs has routers/processing.py, the claim of processing/worker.py and
--   the failing of processing/pipeline.py; Location/Pipeline has the session in which that file stores
--   a calculation, and Location/Segments its metadata of segments. A calculation is split where the
--   code opens a new session, so that other requests may come between; Location/Reached is any
--   sequence of requests and sessions. Location/Approval is the abstract view, the status of each
--   version number of each route. Lengths and durations are whole metres and seconds; the JSON columns
--   of a version and the rows of its segments stand beside it and are left out.
-- - Driver: services/driver-service/src/driver_service/routers/lifecycle.py with serializers.py,
--   idempotency.py and normalization.py. Driver/Lifecycle has the endpoints.
--
-- Numbers. Identifiers, request ids, hashes and times are natural numbers, since the code compares,
-- orders and adds them only; a text whose characters matter is the list of its code points. The
-- loops on fuel are that of Retry and the reading of pages.
--
-- Not modelled: the relay's polling loop and the concurrency within a batch, the lists and details
-- that only read, the trailer service and the fuel metadata of the fleet, the routers of the trip
-- service, the points, the writes on pairs, the bulk jobs and the providers of the location service,
-- the other driver, identity and auth endpoints, the polling loops of the workers, the telegram bot,
-- and the wrappers of Kafka, Redis and tracing.
pub mod Prelude
pub mod StateMachine
pub mod Breaker
pub mod Retry
pub mod Exec
pub mod Outbox
pub mod Fleet
pub mod Saga
pub mod Driver
pub mod Trip
pub mod Auth
pub mod Location
