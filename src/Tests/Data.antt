-- ===== src/Tests/Data.antt =====
-- The settings, orders and samples of the tests.
use distributed_benchmark_pl.Base.{ℕ, Bool, true}
use distributed_benchmark_pl.Models.{
  Config, Submission, SubmissionStatus, BenchmarkRun, BenchmarkStatus,
}
use distributed_benchmark_pl.Base.{none}
use distributed_benchmark_pl.Botfleet.Sample.{LatencySample}
use distributed_benchmark_pl.Botfleet.Order.{Order, limit, buy}
use distributed_benchmark_pl.Botfleet.Fleet.{FleetConfig}
use distributed_benchmark_pl.Telemetry.{FlushEnv}

abbrev pub settings : Config ℕ
settings = record {
  max_upload_mb = 50;
  submissions_dir = "/tmp/submissions";
  sandbox_network_mode = "bridge";
  bot_fleet_min_workers = 2;
  bot_fleet_max_workers = 5;
  bot_ramp_duration = 30;
  bot_protocol = "rest";
  bot_order_rate_per_worker = 10;
  telemetry_flush_interval = 1;
  benchmark_duration = 60;
  score_weight_latency = 1;
  score_weight_throughput = 1;
  score_weight_correctness = 1;
  score_weight_stability = 1;
}

abbrev pub three_to_five : FleetConfig
three_to_five = record {
  min_workers = 3;
  max_workers = 5;
  ramp_duration = 30;
  order_rate = 10;
  protocol = "REST";
  run_id = "run-1";
  submission_id = "sub-0001";
  team_name = "team";
}

abbrev pub a_sample : Bool → ℕ → LatencySample
a_sample success latency_ns = record {
  run_id = "run-1";
  latency_ns = latency_ns;
  order_type = "limit";
  success = success;
  timestamp = 7;
}

abbrev pub flush_ok : FlushEnv
flush_ok = record { elapsed = 1; insert_ok = true; publish_ok = true }

abbrev pub bid : Order ℕ
bid = record {
  id = "order-1";
  type = limit;
  side = buy;
  symbol = "AAPL";
  price = 100;
  quantity = 10;
  timestamp = 5;
}

abbrev pub the_submission : Submission
the_submission = record {
  id = "sub-0001";
  user_id = "user-1";
  team_name = "team";
  filename = "engine.zip";
  language = "go";
  status = SubmissionStatus.pending;
  container_id = "";
  image_tag = "";
  error_msg = none;
  created_at = 1;
  updated_at = 1;
}

abbrev pub the_run : BenchmarkRun
the_run = record {
  id = "run-1";
  submission_id = "sub-0001";
  status = BenchmarkStatus.queued;
  started_at = none;
  ended_at = none;
  duration_ms = none;
  bot_workers = 2;
  bot_protocol = "rest";
  bot_order_rate = 10;
  target_host = "";
  target_port = 0;
  error_msg = none;
  created_at = 1;
}
