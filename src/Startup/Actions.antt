-- ===== src/Startup/Actions.antt =====
-- What backend/cmd/main.go does to the world, as a log of actions, and the calls that it has
-- deferred.
use distributed_benchmark_pl.Base.{ℕ, String, Bool, Option, List, [], ◌∷◌, ◌++◌}
use distributed_benchmark_pl.Exec.{Exec, ok}

pub data Resource : Type 0 where
  logger postgres_pool redis_client docker_client worker_context shutdown_context : Resource

-- The fields that main sets. Durations are in nanoseconds.
pub record HttpServer : Type 0 where
  pub addr : String
  pub read_timeout : ℕ
  pub write_timeout : ℕ
  pub idle_timeout : ℕ

-- `server_stopped` is the return of srv.Shutdown, with or without an error.
pub data Action : Type 0 where
  opened closed : Resource → Action
  migrated worker_started workers_cancelled server_stopped : Action
  listening : HttpServer → Action

-- The calls that may fail.
pub data StartSite : Type 0 where
  build_logger postgres_open postgres_ping redis_ping goose_dialect goose_up : StartSite
  docker_connect docker_ping listen : StartSite

pub data StartError : Type 0 where
  sqlx_open_failed postgres_ping_failed redis_ping_failed : StartError
  dialect_failed goose_up_failed docker_client_failed docker_ping_failed : StartError

-- panic, and Fatalw, which ends the process with os.Exit.
pub data Stop : Type 0 where
  panics exits : Stop

-- Which calls fail, the host's name, and the networks of a container, in the order in which a range
-- over the map meets them.
pub record Machine : Type 0 where
  pub fault : StartSite → Bool
  pub hostname : Option String
  pub inspect : String → Option (List String)

-- `actions` is the oldest first, `deferred` the newest first.
pub record Process : Type 0 where
  pub actions : List Action
  pub deferred : List Action

abbrev pub act : {E : Type 0} → Action → Exec Process E (Unit {0})
act a s = (ok tt, record s { actions = s.actions ++ a ∷ [] })

abbrev pub defer_call : {E : Type 0} → Action → Exec Process E (Unit {0})
defer_call a s = (ok tt, record s { deferred = a ∷ s.deferred })
