-- ===== src/Telemetry/Latency.antt =====
-- The percentiles of a window, and the latencies that the histogram does not take.
use distributed_benchmark_pl.Base.{
  ℕ, ◌+◌, ◌*◌, ◌≤◌, ◌≡◌, refl, true, List, [], ◌∷◌, arith, All, All-append, length,
}
use distributed_benchmark_pl.Base.Float.{Float64, IsOrdered, float, ◌/F◌}
use distributed_benchmark_pl.Models.{MetricSnapshot, Config}
use distributed_benchmark_pl.Botfleet.Sample.{LatencySample}
use distributed_benchmark_pl.Telemetry.Hdr.{Histogram, IsHistogram}
use distributed_benchmark_pl.Telemetry.{
  TelemetryIngester, FlushEnv, Event, ctx_done, stop, sample, closed, ticked, ingest,
  drain_remaining, flush, handle, run, quantile_ms, snapshot_of, max_latency_ns,
}

-- An acknowledged order whose round trip took a second or more.
abbrev pub IsSlow : LatencySample → Type 0
IsSlow s = (s.success ≡ true) × (2 * max_latency_ns ≤ s.latency_ns)

-- p50 ≤ p90 ≤ p99
pub record Ascends {F : Type 0} ⦃fl : Float64 F⦄ (s : MetricSnapshot F) : Type 0 where
  pub low : fl.le s.p50_ms s.p90_ms ≡ true
  pub high : fl.le s.p90_ms s.p99_ms ≡ true

module _ {F H : Type 0} ⦃fl : Float64 F⦄ ⦃hdr : Histogram H⦄ (ordered : IsOrdered F)
    (laws : IsHistogram H) where
  quantile_ms_mono :
      (h : H) (p q : ℕ) → p ≤ q → fl.le (quantile_ms {F = F} h p) (quantile_ms {F = F} h q) ≡ true
  unfolding quantile_ms
  quantile_ms_mono h p q le =
      ordered.div_int_mono _ _ 1000000 (ground (arith, laws.quantile_mono h p q le)) (omega arith)
        (omega arith)

  snapshot_of-Ascends : (cfg : Config F) (t : TelemetryIngester F H) → Ascends (snapshot_of cfg t)
  unfolding snapshot_of
  snapshot_of-Ascends cfg t = record {
    low = quantile_ms_mono t.hist 50 90 (omega arith);
    high = quantile_ms_mono t.hist 90 99 (omega arith);
  }

  ingest-StoresAscending :
      (t : TelemetryIngester F H) (s : LatencySample)
      → All Ascends t.store
      → All Ascends (ingest t s).store
  unfolding ingest
  ingest-StoresAscending t s a = ground arith

  drain_remaining-StoresAscending :
      (t : TelemetryIngester F H) (ss : List LatencySample)
      → All Ascends t.store
      → All Ascends (drain_remaining t ss).store
  unfolding drain_remaining
  drain_remaining-StoresAscending t [] a = a
  drain_remaining-StoresAscending t (s ∷ ss) a =
      drain_remaining-StoresAscending (ingest t s) ss (ingest-StoresAscending t s a)

  flush-StoresAscending :
      (cfg : Config F) (t : TelemetryIngester F H) (env : FlushEnv)
      → All Ascends t.store
      → All Ascends (flush cfg t env).store
  unfolding flush
  flush-StoresAscending cfg t env a =
      ground (
        arith,
        All-append Ascends t.store (snapshot_of cfg t ∷ []) a (snapshot_of-Ascends cfg t, tt),
      )

  handle-StoresAscending :
      (cfg : Config F) (t : TelemetryIngester F H) (e : Event)
      → All Ascends t.store
      → All Ascends (handle cfg t e).store
  unfolding handle
  handle-StoresAscending cfg t (ctx_done env) a = flush-StoresAscending cfg t env a
  handle-StoresAscending cfg t (stop rest env) a =
      flush-StoresAscending cfg _ env (drain_remaining-StoresAscending t rest a)
  handle-StoresAscending cfg t (sample s) a = ingest-StoresAscending t s a
  handle-StoresAscending cfg t (closed env) a = flush-StoresAscending cfg t env a
  handle-StoresAscending cfg t (ticked env) a = flush-StoresAscending cfg t env a

  -- For floats with the laws of IEEE 754 and a histogram as documented: whatever the events, a run
  -- adds only snapshots with p50 ≤ p90 ≤ p99 to a store of such.
  pub run_percentiles_ascend :
      (cfg : Config F) (t : TelemetryIngester F H) (es : List Event)
      → All Ascends t.store
      → All Ascends (run cfg t es).store
  unfolding run
  run_percentiles_ascend cfg t [] a = a
  run_percentiles_ascend cfg t (e ∷ es) a =
      let now = handle-StoresAscending cfg t e a in
      ground (arith, now, run_percentiles_ascend cfg (handle cfg t e) es now)

module _ {F H : Type 0} ⦃fl : Float64 F⦄ ⦃hdr : Histogram H⦄ (laws : IsHistogram H) where
  ingest_slow :
      (t : TelemetryIngester F H) (s : LatencySample)
      → hdr.highest_trackable_value t.hist ≡ max_latency_ns
      → IsSlow s
      → ((ingest t s).hist ≡ t.hist) × ((ingest t s).window_acked ≡ t.window_acked + 1)
  unfolding ingest
  ingest_slow t s top slow =
      ground (arith, laws.refuses t.hist s.latency_ns (omega (arith, slow.1, top)))

  drain_slow :
      (t : TelemetryIngester F H) (ss : List LatencySample)
      → hdr.highest_trackable_value t.hist ≡ max_latency_ns
      → All IsSlow ss
      → ((drain_remaining t ss).hist ≡ t.hist)
        × ((drain_remaining t ss).window_acked ≡ t.window_acked + length ss)
  unfolding drain_remaining
  drain_slow t [] top slow = (refl, omega arith)
  drain_slow t (s ∷ ss) top slow =
      let one = ingest_slow t s top slow.0 in
      let more = drain_slow (ingest t s) ss (ground (arith, one)) slow.1 in
      ground (arith, one, more)

  -- For a histogram as documented, with the ingester's range and nothing in it: orders acknowledged
  -- after a second or more are counted as acked and leave no trace in the percentiles: a window of
  -- nothing else reports p50, p90 and p99 of 0.
  pub slow_window_reports_zero :
      (cfg : Config F) (t : TelemetryIngester F H) (ss : List LatencySample)
      → hdr.total_count t.hist ≡ 0
      → hdr.highest_trackable_value t.hist ≡ max_latency_ns
      → t.window_acked ≡ 0
      → All IsSlow ss
      → let s = snapshot_of cfg (drain_remaining t ss) in
        (s.orders_acked ≡ length ss)
        × (s.p50_ms ≡ float 0 /F float 1000000)
        × (s.p90_ms ≡ float 0 /F float 1000000)
        × (s.p99_ms ≡ float 0 /F float 1000000)
  unfolding snapshot_of quantile_ms
  slow_window_reports_zero cfg t ss empty top fresh slow = ground (arith, drain_slow t ss top slow)
