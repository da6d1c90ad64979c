-- ===== src/Telemetry.antt =====
-- backend/services/telemetry_ingester.go. The ingester is a record; a method returns the new record.
-- The loop of `Run` takes the events that its `select` chose, in order.
pub mod Hdr
pub mod Counters
pub mod Drain
pub mod Latency
use distributed_benchmark_pl.Base.{
  ℕ, ◌+◌, ◌/◌, String, Bool, true, false, ◌&&◌, Option, none, some, List, [], ◌∷◌, ◌++◌, ltb, ◌==◌,
  if◌then◌else◌,
}
use distributed_benchmark_pl.Base.Float.{Float64, float, ◌/F◌}
use distributed_benchmark_pl.Models.{MetricSnapshot, LiveMetricEvent, Config}
use distributed_benchmark_pl.Botfleet.Sample.{LatencySample}
use Hdr.{Histogram}

-- `store` holds the rows that `persistSnapshot` inserted, and `published` the events that went to
-- the telemetry channel, both newest last.
pub record TelemetryIngester (F H : Type 0) : Type 0 where
  pub run_id : String
  pub submission_id : String
  pub team_name : String
  pub hist : H
  pub window_sent : ℕ
  pub window_acked : ℕ
  pub window_fill_err : ℕ
  pub window_prio_err : ℕ
  pub total_sent : ℕ
  pub total_acked : ℕ
  pub total_fill_err : ℕ
  pub total_prio_err : ℕ
  pub store : List (MetricSnapshot F)
  pub published : List (LiveMetricEvent F)

-- What a flush meets: the seconds since the start, and whether the insert and the publish succeed.
pub record FlushEnv : Type 0 where
  pub elapsed : ℕ
  pub insert_ok : Bool
  pub publish_ok : Bool

-- What a `select` of `Run` can choose. At `stop` the list is what the channel still holds.
pub data Event : Type 0 where
  ctx_done : FlushEnv → Event
  stop : List LatencySample → FlushEnv → Event
  sample : LatencySample → Event
  closed : FlushEnv → Event
  ticked : FlushEnv → Event

-- The events after which `Run` returns.
abbrev pub is_final : Event → Bool
is_final (ctx_done e) = true
is_final (stop rest e) = true
is_final (sample s) = false
is_final (closed e) = true
is_final (ticked e) = false

-- The highest latency that the histogram tracks, 500 ms.
abbrev pub max_latency_ns : ℕ
max_latency_ns = 500000000

-- What an insert or a publish that may fail leaves behind.
abbrev pub append_if {ℓ} : {A : Type ℓ} → Bool → List A → A → List A
append_if b xs x = if b then xs ++ x ∷ [] else xs

-- `_ = t.hist.RecordValue(...)`: a value that the histogram refuses is dropped.
unfoldable pub record_latency : {H : Type 0} ⦃hdr : Histogram H⦄ → H → ℕ → H
record_latency ⦃hdr⦄ h v = elim (hdr.record_value h v) [ none ↦ h | some h' ↦ h' ]

module _ {F H : Type 0} ⦃fl : Float64 F⦄ ⦃hdr : Histogram H⦄ where
  unfoldable pub new_telemetry_ingester : String → String → String → TelemetryIngester F H
  new_telemetry_ingester run_id submission_id team_name = record {
    run_id = run_id;
    submission_id = submission_id;
    team_name = team_name;
    hist = hdr.new 1 max_latency_ns 3;
    window_sent = 0;
    window_acked = 0;
    window_fill_err = 0;
    window_prio_err = 0;
    total_sent = 0;
    total_acked = 0;
    total_fill_err = 0;
    total_prio_err = 0;
    store = [];
    published = [];
  }

  unfoldable pub ingest : TelemetryIngester F H → LatencySample → TelemetryIngester F H
  unfolding record_latency
  ingest t s =
      if s.success
      then record t {
        total_sent = t.total_sent + 1;
        window_sent = t.window_sent + 1;
        total_acked = t.total_acked + 1;
        window_acked = t.window_acked + 1;
        hist = record_latency t.hist s.latency_ns;
      }
      else record t {
        total_sent = t.total_sent + 1;
        window_sent = t.window_sent + 1;
        total_fill_err = t.total_fill_err + 1;
        window_fill_err = t.window_fill_err + 1;
      }

  unfoldable pub drain_remaining :
      TelemetryIngester F H → List LatencySample → TelemetryIngester F H
  drain_remaining t [] = t
  drain_remaining t (s ∷ rest) = drain_remaining (ingest t s) rest

  -- A percentile of the window in milliseconds: 0 for an empty histogram.
  unfoldable pub quantile_ms : H → ℕ → F
  quantile_ms h q =
      float (if ltb 0 (hdr.total_count h) then hdr.value_at_quantile h q else 0) /F float 1000000

  unfoldable pub snapshot_of : Config F → TelemetryIngester F H → MetricSnapshot F
  snapshot_of cfg t = record {
    run_id = t.run_id;
    p50_ms = quantile_ms t.hist 50;
    p90_ms = quantile_ms t.hist 90;
    p99_ms = quantile_ms t.hist 99;
    tps = float t.window_acked /F (float cfg.telemetry_flush_interval /F float 1000000000);
    orders_sent = t.window_sent;
    orders_acked = t.window_acked;
    fill_errors = t.window_fill_err;
    priority_errors = t.window_prio_err;
    active_workers = 0;
  }

  unfoldable pub event_of : TelemetryIngester F H → MetricSnapshot F → ℕ → LiveMetricEvent F
  event_of t s elapsed = record {
    run_id = t.run_id;
    submission_id = t.submission_id;
    team_name = t.team_name;
    p50_ms = s.p50_ms;
    p90_ms = s.p90_ms;
    p99_ms = s.p99_ms;
    tps = s.tps;
    active_workers = 0;
    elapsed_sec = elapsed;
  }

  -- The reset under the mutex: the window counters and the histogram start again.
  unfoldable pub reset_window : TelemetryIngester F H → TelemetryIngester F H
  reset_window t = record t {
    hist = hdr.reset t.hist;
    window_sent = 0;
    window_acked = 0;
    window_fill_err = 0;
    window_prio_err = 0;
  }

  unfoldable pub flush : Config F → TelemetryIngester F H → FlushEnv → TelemetryIngester F H
  unfolding reset_window
  flush cfg t env =
      let s = snapshot_of cfg t in
      let u = reset_window t in
      if t.window_sent == 0 && t.window_acked == 0 then u else record u {
        store = append_if env.insert_ok u.store s;
        published = append_if env.publish_ok u.published (event_of t s env.elapsed);
      }

  -- One round of the loop.
  unfoldable pub handle : Config F → TelemetryIngester F H → Event → TelemetryIngester F H
  handle cfg t (ctx_done env) = flush cfg t env
  handle cfg t (stop rest env) = flush cfg (drain_remaining t rest) env
  handle cfg t (sample s) = ingest t s
  handle cfg t (closed env) = flush cfg t env
  handle cfg t (ticked env) = flush cfg t env

  -- The loop of `Run`: it returns at the first final event.
  unfoldable pub run : Config F → TelemetryIngester F H → List Event → TelemetryIngester F H
  run cfg t [] = t
  run cfg t (e ∷ es) =
      let rest = run cfg (handle cfg t e) es in if is_final e then handle cfg t e else rest

  unfoldable pub get_total_stats : TelemetryIngester F H → ℕ × ℕ × ℕ × ℕ
  get_total_stats t = (t.total_sent, t.total_acked, t.total_fill_err, t.total_prio_err)
