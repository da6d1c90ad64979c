-- ===== src/Startup.antt =====
-- backend/cmd/main.go: what the program opens, starts and closes, in order. The drivers, the
-- network and the signals are parameters: which calls fail. Stores is backend/config/database.go,
-- Logging backend/utils/logger.go.
pub mod Actions
pub mod Stores
pub mod Logging
pub mod Ordered
use Prim.Native.String.{◌++◌ as concat}
use distributed_benchmark_pl.Base.{
  ℕ, String, Bool, true, false, not, Option, List, [], ◌∷◌, ◌++◌, if◌then◌else◌,
}
use distributed_benchmark_pl.Exec.{
  Exec, Result, ok, err, pure, raise, call, catch, attempt, ◌>>=◌, ◌>>◌,
}
use distributed_benchmark_pl.Settings.Loading.{Settings, LoadResult, loaded, panicked, refused}
use distributed_benchmark_pl.Sandbox.Service.{SandboxService, new_sandbox_service}
use distributed_benchmark_pl.Startup.Actions.{
  Resource, logger, postgres_pool, redis_client, docker_client, worker_context, shutdown_context,
  HttpServer, Action, opened, closed, worker_started, listening, workers_cancelled, server_stopped,
  StartSite, listen, StartError, Process, act, defer_call, Machine, Stop, panics, exits,
}
use distributed_benchmark_pl.Startup.Stores.{
  Postgres, RedisOptions, new_postgres, new_redis, run_migrations,
}
use distributed_benchmark_pl.Startup.Logging.{Level, ZapConfig, new_logger}

abbrev fatal : {A : Type 0} → Exec Process StartError A → Exec Process Stop A
fatal m = catch m (λ e. raise exits)

-- config.Load; an error of it is a panic of main.
unfoldable pub load_config : {F : Type 0} → LoadResult F → Exec Process Stop (Settings F)
load_config (loaded c) = pure c
load_config (panicked key) = raise panics
load_config (refused key) = raise panics

unfoldable pub http_server : {F : Type 0} → Settings F → HttpServer
http_server c = record {
  addr = concat ":" c.backend_port;
  read_timeout = c.read_timeout;
  write_timeout = c.write_timeout;
  idle_timeout = 120000000000;
}

module _ {F : Type 0} (parse_level : String → Option Level) (m : Machine) where
  -- Sections 2 to 5 of main: the logger, the stores, the migrations and the services.
  unfoldable pub open_services : Settings F → Exec Process Stop (Unit {0})
  open_services cfg = do
    new_logger parse_level m cfg.log_level
    defer_call (closed logger)
    fatal (new_postgres m cfg)
    defer_call (closed postgres_pool)
    fatal (new_redis m cfg)
    defer_call (closed redis_client)
    fatal (run_migrations m)
    fatal (new_sandbox_service m cfg)
    defer_call (closed docker_client)

  -- Sections 6 to 9: the worker, the server, and the wait for the signal. A server that cannot
  -- listen ends the process while main waits. An error of Shutdown is logged.
  unfoldable pub serve : Settings F → Exec Process Stop (Unit {0})
  serve cfg = do
    act (opened worker_context)
    defer_call (closed worker_context)
    act worker_started
    act (listening (http_server cfg))
    call (m.fault listen) exits (λ s. (tt, s))
    act workers_cancelled
    act (opened shutdown_context)
    defer_call (closed shutdown_context)
    act server_stopped

  unfoldable pub main_body : LoadResult F → Exec Process Stop (Unit {0})
  main_body config = do cfg ← load_config config; open_services cfg; serve cfg

-- How the process ends.
pub data Ended : Type 0 where
  returned crashed exited : Ended

-- The deferred calls, the latest first, run at a return and at a panic.
unfoldable pub unwind : Result Stop (Unit {0}) × Process → Ended × List Action
unwind (ok tt, s) = (returned, s.actions ++ s.deferred)
unwind (err panics, s) = (crashed, s.actions ++ s.deferred)
unwind (err exits, s) = (exited, s.actions)

unfoldable pub main :
    {F : Type 0} → (String → Option Level) → Machine → LoadResult F → Ended × List Action
main parse_level m config =
    unwind (main_body parse_level m config (record { actions = []; deferred = [] }))
