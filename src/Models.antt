-- ===== src/Models.antt =====
-- The records of backend/models: rows of the database and payloads of the API. A time is its
-- number of nanoseconds since the epoch.
use distributed_benchmark_pl.Base.{ℕ, String, Option}

-- submission.go
pub data SubmissionStatus : Type 0 where
  pending building ready running completed failed : SubmissionStatus

pub record Submission : Type 0 where
  pub id : String
  pub user_id : String
  pub team_name : String
  pub filename : String
  pub language : String
  pub status : SubmissionStatus
  pub container_id : String
  pub image_tag : String
  pub error_msg : Option String
  pub created_at : ℕ
  pub updated_at : ℕ

-- benchmark.go
pub data BenchmarkStatus : Type 0 where
  queued running completed failed timed_out : BenchmarkStatus

pub record BenchmarkRun : Type 0 where
  pub id : String
  pub submission_id : String
  pub status : BenchmarkStatus
  pub started_at : Option ℕ
  pub ended_at : Option ℕ
  pub duration_ms : Option ℕ
  pub bot_workers : ℕ
  pub bot_protocol : String
  pub bot_order_rate : ℕ
  pub target_host : String
  pub target_port : ℕ
  pub error_msg : Option String
  pub created_at : ℕ

pub record BenchmarkRunSummary : Type 0 where
  pub id : String
  pub submission_id : String
  pub team_name : String
  pub status : BenchmarkStatus
  pub duration_ms : Option ℕ
  pub created_at : ℕ

-- metric.go
pub record MetricSnapshot (F : Type 0) : Type 0 where
  pub run_id : String
  pub p50_ms : F
  pub p90_ms : F
  pub p99_ms : F
  pub tps : F
  pub orders_sent : ℕ
  pub orders_acked : ℕ
  pub fill_errors : ℕ
  pub priority_errors : ℕ
  pub active_workers : ℕ

pub record MetricAggregate (F : Type 0) : Type 0 where
  pub run_id : String
  pub peak_tps : F
  pub avg_tps : F
  pub avg_p50_ms : F
  pub avg_p90_ms : F
  pub avg_p99_ms : F
  pub uptime_pct : F
  pub correctness : F

pub record LiveMetricEvent (F : Type 0) : Type 0 where
  pub run_id : String
  pub submission_id : String
  pub team_name : String
  pub p50_ms : F
  pub p90_ms : F
  pub p99_ms : F
  pub tps : F
  pub active_workers : ℕ
  pub elapsed_sec : ℕ

-- leaderboard.go; the rank is not a column but the row's place in the ranked view
pub record LeaderboardEntry (F : Type 0) : Type 0 where
  pub submission_id : String
  pub run_id : String
  pub team_name : String
  pub language : String
  pub peak_tps : F
  pub avg_p99_ms : F
  pub correctness : F
  pub uptime_pct : F
  pub composite_score : F
  pub latency_score : F
  pub throughput_score : F
  pub correctness_score : F
  pub stability_score : F
  pub scored_at : ℕ

-- config.go: the settings that the modelled code reads. Durations are in nanoseconds.
pub record Config (F : Type 0) : Type 0 where
  pub max_upload_mb : ℕ
  pub submissions_dir : String
  pub sandbox_network_mode : String
  pub bot_fleet_min_workers : ℕ
  pub bot_fleet_max_workers : ℕ
  pub bot_ramp_duration : ℕ
  pub bot_protocol : String
  pub bot_order_rate_per_worker : ℕ
  pub telemetry_flush_interval : ℕ
  pub benchmark_duration : ℕ
  pub score_weight_latency : F
  pub score_weight_throughput : F
  pub score_weight_correctness : F
  pub score_weight_stability : F
