-- ===== src/Lib.antt =====
-- The backend of the distributed benchmark platform. Teams upload trading engines; a worker builds
-- and starts each one in a Docker container, a fleet of bots sends orders to it, an ingester turns
-- the measured latencies into metric snapshots, and a scoring service puts the team on a
-- leaderboard.
--
-- Files and the code that they model:
-- - Models: the rows and enums of backend/models, and the settings of backend/config/config.go that
--   the modelled code reads. Times and durations are whole nanoseconds.
-- - Botfleet: backend/services/botfleet. Fleet is fleet.go and worker.go (New is `new`, Start
--   `start`, rampUp `ramp_up`, spawnWorker `spawn_worker`, Stop `stop`; sendOrder is `send_begin`
--   and `send_end`, before and after the wait for the engine). Fleet/Race has the goroutines as
--   steps, Fleet/Samples what becomes of the samples, Fleet/Ramping the ramp. Order and Generator
--   are order_gen.go, Protocol is NewAdapter and SendOrder of protocol.go. Session is a bot from
--   Connect to Close: Worker.Run is `run_worker`, the goroutine of spawnWorker `worker_goroutine`.
-- - Telemetry: backend/services/telemetry_ingester.go (Run is `run` over the events that its select
--   chose, ingest, drainRemaining and flush by their names). Telemetry/Hdr is the interface of the
--   histogram library.
-- - Scoring: backend/services/scoring_service.go and helpers.go. The SQL statements are functions
--   on the tables of Store; a view or a query computes what the statement says. Scoring/Silent
--   joins the ingester to the scores. float64 is an interface, Base/Float, with the laws that the
--   theorems use.
-- - Queue: backend/services/queue_service.go over the two Redis lists.
-- - Sandbox: backend/services/sandbox_service.go; Sandbox/Limits is parseLimits, Sandbox/Service
--   the constructor, Sandbox/Health the loop of WaitForHealthy by the clock. The Docker daemon is a
--   log of what it was made to do; `live` reads off the containers that exist.
-- - Worker: backend/workers/benchmark_worker.go. Where the source passes a context that is done on
--   to the sandbox, every call of the Docker client fails. `process_run` is processRun, split at
--   its steps; Worker/Loop is Run, Worker/Loop/Triggered joins it to TriggerRun, Worker/Containers
--   and Worker/Quiet are about the containers, Worker/Recording about failRun, Worker/Pipeline
--   joins the fleet to the ingester, Worker/Confinement is about the settings of new containers,
--   Worker/Statuses about the rows that a run leaves, and Worker/Passive about the steps that leave
--   some part of the state alone.
-- - Submissions: backend/api/submission_handler.go. Get, Delete and TriggerRun are in Submissions,
--   Create in Submissions/Creating, filepath.Base in Submissions/Naming, List and ListRuns in
--   Submissions/Listing.
-- - Leaderboard: backend/api/leaderboard_handler.go (Snapshot, Stream, RunMetrics and
--   sendLeaderboardSnapshot by their names; the loop of Stream is `fan_out`).
-- - Api: the routes of backend/api/routes.go and backend/api/health_handler.go, with the status
--   codes of backend/utils/response.go; `handle` takes a request to the handler of its route, and
--   Api/Middleware is the chain of middlewares around it, Api/RequestLog what they log.
-- - Settings: the helpers of backend/config/config.go; Settings/Loading is Load.
-- - Archive: backend/services/tar_helper.go. Archive/Unzip is extractSubmissionZip and unzipTo,
--   Archive/Cleaning is filepath.Clean, Archive/Slashes relates paths to their parts.
--   Archive/Context is createTarContext, and a reader of archives to compare it with.
-- - Startup: backend/cmd/main.go; Startup/Stores is backend/config/database.go, Startup/Logging
--   backend/utils/logger.go. What main does is a log of actions; Startup/Ordered is a monitor of
--   it.
-- - Validator: backend/utils/validator.go.
-- - Store: the tables that these parts share, and the published messages. Exec: functions that
--   change state and may fail, with their pre- and postconditions in Exec/Triple and what they
--   leave alone in Exec/Keeps.
-- - Base: shared names, tests, lists, sorting, tables, float64 and text. Tests: concrete instances
--   and runs.
--
-- How the parts interact: the worker takes a run from the queue, drives the sandbox, starts the
-- fleet and the ingester, and calls scoring; the fleet hands samples to the ingester through a
-- channel of 100000; the ingester and scoring write the tables and publish messages. The API reads
-- and writes the same tables: Create adds the submissions, TriggerRun puts a run into the queue,
-- and Stream hands the published messages on to its clients.
--
-- Parameters. Which calls of Docker, Redis, the database and the file system fail, what they answer
-- and at what time, is an environment record of each part; a call that fails has no effect. Go's
-- float64 is the interface Base/Float, with the laws of IEEE 754 that a theorem needs as a
-- hypothesis; PostgreSQL's place for NaN in its order is not modelled. The loop of the ingester
-- takes the events of its select as a list, the loop of the worker its rounds, the health check its
-- rounds, and the loop of Stream its events; all are structural. The health check by the clock runs
-- on fuel, one more than the periods before the deadline and the late ticks; the reader of archives
-- on the number of items and one. The decimal notation of Settings/Integers, which no code
-- computes, runs on fuel: the number itself, which is at least as large as the number of its
-- digits, or one. What an archive holds is a list of entries. Counters are unbounded; identifiers
-- are long enough for the code's slices of 8 and 12 bytes, and tickers have intervals of at least a
-- nanosecond.
--
-- Not modelled: the JSON of the responses, the other lines of the logs, ParseFloat, ParseDuration
-- and the parser of log levels (parameters), the frontend and the sample engines.
pub mod Base
pub mod Models
pub mod Botfleet
pub mod Telemetry
pub mod Queue
pub mod Validator
pub mod Submissions
pub mod Archive
pub mod Tests
pub mod Exec
pub mod Leaderboard
pub mod Settings
pub mod Api
pub mod Startup
pub mod Store
pub mod Scoring
pub mod Sandbox
pub mod Worker
