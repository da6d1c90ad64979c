-- ===== src/Settings/Loading.antt =====
-- Load of backend/config/config.go.
use Prim.Native.String.{◌++◌ as concat}
use distributed_benchmark_pl.Base.{Bool, ℕ, String, Option, none, some, str_eq, if◌then◌else◌}
use distributed_benchmark_pl.Models.{Config}
use distributed_benchmark_pl.Settings.{Env, get_env, get_env_int, get_env_float}

-- All of Config: `core` holds the settings that the other parts of the program read.
pub record Settings (F : Type 0) : Type 0 where
  pub app_env : String
  pub secret_key : String
  pub backend_port : String
  pub log_level : String
  pub read_timeout : ℕ
  pub write_timeout : ℕ
  pub postgres_host : String
  pub postgres_port : String
  pub postgres_db : String
  pub postgres_user : String
  pub postgres_password : String
  pub postgres_sslmode : String
  pub postgres_max_open_conns : ℕ
  pub postgres_max_idle_conns : ℕ
  pub postgres_conn_max_lifetime : ℕ
  pub redis_host : String
  pub redis_port : String
  pub redis_password : String
  pub redis_db : ℕ
  pub redis_telemetry_channel : String
  pub redis_leaderboard_key : String
  pub sandbox_cpu_limit : String
  pub sandbox_memory_limit : String
  pub sandbox_timeout_seconds : ℕ
  pub jwt_secret : String
  pub jwt_expiry : ℕ
  pub core : Config F

-- A panic of requireEnv and an error of Load name the variable.
pub data LoadResult (F : Type 0) : Type 0 where
  loaded : Settings F → LoadResult F
  panicked : String → LoadResult F
  refused : String → LoadResult F

-- The literals of the score weights.
pub record Weights (F : Type 0) : Type 0 where
  pub three_tenths : F
  pub one_tenth : F

pub record Durations : Type 0 where
  pub read_timeout : ℕ
  pub write_timeout : ℕ
  pub postgres_conn_max_lifetime : ℕ
  pub bot_ramp_duration : ℕ
  pub telemetry_flush_interval : ℕ
  pub benchmark_duration : ℕ
  pub jwt_expiry : ℕ

module _ {F : Type 0} (parse_float : String → Option F) (parse_duration : String → Option ℕ)
    (w : Weights F) where
  unfoldable pub require_env : Env → String → (String → LoadResult F) → LoadResult F
  require_env env key go_on = if str_eq (env key) "" then panicked key else go_on (env key)

  unfoldable pub duration : Env → String → String → (ℕ → LoadResult F) → LoadResult F
  duration env key fallback go_on = elim (parse_duration (get_env env key fallback)) [
    | none ↦ refused key
    | some d ↦ go_on d
  ]

  unfoldable pub settings_of :
      Env → (String × String × String × String × String) → Durations → Settings F
  settings_of env (secret, db, user, password, jwt) d = record {
    app_env = get_env env "APP_ENV" "development";
    secret_key = secret;
    backend_port = get_env env "BACKEND_PORT" "8080";
    log_level = get_env env "BACKEND_LOG_LEVEL" "info";
    read_timeout = d.read_timeout;
    write_timeout = d.write_timeout;
    postgres_host = get_env env "POSTGRES_HOST" "localhost";
    postgres_port = get_env env "POSTGRES_PORT" "5432";
    postgres_db = db;
    postgres_user = user;
    postgres_password = password;
    postgres_sslmode = get_env env "POSTGRES_SSLMODE" "disable";
    postgres_max_open_conns = get_env_int env "POSTGRES_MAX_OPEN_CONNS" 25;
    postgres_max_idle_conns = get_env_int env "POSTGRES_MAX_IDLE_CONNS" 5;
    postgres_conn_max_lifetime = d.postgres_conn_max_lifetime;
    redis_host = get_env env "REDIS_HOST" "localhost";
    redis_port = get_env env "REDIS_PORT" "6379";
    redis_password = get_env env "REDIS_PASSWORD" "";
    redis_db = get_env_int env "REDIS_DB" 0;
    redis_telemetry_channel = get_env env "REDIS_TELEMETRY_CHANNEL" "telemetry:stream";
    redis_leaderboard_key = get_env env "REDIS_LEADERBOARD_KEY" "leaderboard:global";
    sandbox_cpu_limit = get_env env "SANDBOX_CPU_LIMIT" "1.0";
    sandbox_memory_limit = get_env env "SANDBOX_MEMORY_LIMIT" "512m";
    sandbox_timeout_seconds = get_env_int env "SANDBOX_TIMEOUT_SECONDS" 300;
    jwt_secret = jwt;
    jwt_expiry = d.jwt_expiry;
    core = record {
      max_upload_mb = get_env_int env "BACKEND_MAX_UPLOAD_MB" 256;
      submissions_dir = get_env env "SUBMISSIONS_DIR" "./submissions";
      sandbox_network_mode = get_env env "SANDBOX_NETWORK_MODE" "isolated";
      bot_fleet_min_workers = get_env_int env "BOT_FLEET_MIN_WORKERS" 100;
      bot_fleet_max_workers = get_env_int env "BOT_FLEET_MAX_WORKERS" 5000;
      bot_ramp_duration = d.bot_ramp_duration;
      bot_protocol = get_env env "BOT_PROTOCOL" "websocket";
      bot_order_rate_per_worker = get_env_int env "BOT_ORDER_RATE_PER_WORKER" 50;
      telemetry_flush_interval = d.telemetry_flush_interval;
      benchmark_duration = d.benchmark_duration;
      score_weight_latency = get_env_float parse_float env "SCORE_WEIGHT_LATENCY" w.three_tenths;
      score_weight_throughput =
          get_env_float parse_float env "SCORE_WEIGHT_THROUGHPUT" w.three_tenths;
      score_weight_correctness =
          get_env_float parse_float env "SCORE_WEIGHT_CORRECTNESS" w.three_tenths;
      score_weight_stability = get_env_float parse_float env "SCORE_WEIGHT_STABILITY" w.one_tenth;
    };
  }

  -- The durations of Load, in the order in which it reads them.
  unfoldable pub with_durations : Env → (Durations → LoadResult F) → LoadResult F
  with_durations env go_on = duration env "BACKEND_READ_TIMEOUT" "30s" (λ read.
      duration env "BACKEND_WRITE_TIMEOUT" "30s" (λ write.
        duration env "POSTGRES_CONN_MAX_LIFETIME" "5m" (λ lifetime.
          duration env "BOT_RAMP_DURATION" "30s" (λ ramp.
            duration env "TELEMETRY_FLUSH_INTERVAL" "500ms" (λ flush.
              duration env "BENCHMARK_DURATION" "60s" (λ bench.
                duration env "JWT_EXPIRY" "24h" (λ expiry. go_on (record {
                  read_timeout = read;
                  write_timeout = write;
                  postgres_conn_max_lifetime = lifetime;
                  bot_ramp_duration = ramp;
                  telemetry_flush_interval = flush;
                  benchmark_duration = bench;
                  jwt_expiry = expiry;
                }))))))))

  unfoldable pub load : Env → LoadResult F
  load env = require_env env "APP_SECRET_KEY" (λ secret. require_env env "POSTGRES_DB" (λ db.
      require_env env "POSTGRES_USER" (λ user. require_env env "POSTGRES_PASSWORD" (λ password.
        require_env env "JWT_SECRET" (λ jwt.
          with_durations env
            (λ d. loaded (settings_of env (secret, db, user, password, jwt) d)))))))

module _ {F : Type 0} where
  -- DSN
  unfoldable pub dsn : Settings F → String
  dsn c = concat "host=" (
      concat c.postgres_host (
        concat " port=" (
          concat c.postgres_port (
            concat " dbname=" (
              concat c.postgres_db (
                concat " user=" (
                  concat c.postgres_user (
                    concat " password="
                      (concat c.postgres_password (concat " sslmode=" c.postgres_sslmode))))))))))

  unfoldable pub redis_addr : Settings F → String
  redis_addr c = concat c.redis_host (concat ":" c.redis_port)

  unfoldable pub is_prod : Settings F → Bool
  is_prod c = str_eq c.app_env "production"
