-- ===== src/Startup/Stores.antt =====
-- backend/config/database.go: the connections to PostgreSQL and Redis, and the migrations.
use distributed_benchmark_pl.Base.{ℕ, String}
use distributed_benchmark_pl.Exec.{Exec, pure, call, ◌>>◌}
use distributed_benchmark_pl.Settings.Loading.{Settings, dsn, redis_addr}
use distributed_benchmark_pl.Startup.Actions.{
  opened, postgres_pool, redis_client, migrated, postgres_open, postgres_ping, redis_ping,
  goose_dialect, goose_up, StartError, sqlx_open_failed, postgres_ping_failed, redis_ping_failed,
  dialect_failed, goose_up_failed, Process, Machine, act,
}

-- The pool's data source and settings.
pub record Postgres : Type 0 where
  pub source : String
  pub max_open_conns : ℕ
  pub max_idle_conns : ℕ
  pub conn_max_lifetime : ℕ

pub record RedisOptions : Type 0 where
  pub addr : String
  pub password : String
  pub db : ℕ

module _ {F : Type 0} (m : Machine) where
  -- A failed ping leaves the pool open.
  unfoldable pub new_postgres : Settings F → Exec Process StartError Postgres
  new_postgres cfg = do
    call (m.fault postgres_open) sqlx_open_failed (λ s. (tt, s))
    act (opened postgres_pool)
    call (m.fault postgres_ping) postgres_ping_failed (λ s. (tt, s))
    pure (record {
      source = dsn cfg;
      max_open_conns = cfg.postgres_max_open_conns;
      max_idle_conns = cfg.postgres_max_idle_conns;
      conn_max_lifetime = cfg.postgres_conn_max_lifetime;
    })

  unfoldable pub new_redis : Settings F → Exec Process StartError RedisOptions
  new_redis cfg = do
    act (opened redis_client)
    call (m.fault redis_ping) redis_ping_failed (λ s. (tt, s))
    pure (record { addr = redis_addr cfg; password = cfg.redis_password; db = cfg.redis_db })

unfoldable pub run_migrations : Machine → Exec Process StartError (Unit {0})
run_migrations m = do
  call (m.fault goose_dialect) dialect_failed (λ s. (tt, s))
  call (m.fault goose_up) goose_up_failed (λ s. (tt, s))
  act migrated
