-- ===== src/Botfleet/Sample.antt =====
-- `LatencySample` of backend/services/botfleet/fleet.go.
use distributed_benchmark_pl.Base.{ℕ, String, Bool}

pub record LatencySample : Type 0 where
  pub run_id : String
  pub latency_ns : ℕ
  pub order_type : String
  pub success : Bool
  pub timestamp : ℕ
