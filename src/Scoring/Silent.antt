-- ===== src/Scoring/Silent.antt =====
-- The scores of an engine that answers nothing: ingest and flush of
-- backend/services/telemetry_ingester.go, then ComputeAndStore's aggregate and normalizeScores of
-- backend/services/scoring_service.go.
use distributed_benchmark_pl.Base.{
  ℕ, ◌^◌, ◌≤◌, ◌≡◌, refl, false, List, [], ◌∷◌, String, arith, All, All-append, length,
}
use distributed_benchmark_pl.Base.Float.{Float64, IsOrdered, float}
use distributed_benchmark_pl.Models.{MetricSnapshot, Config}
use distributed_benchmark_pl.Botfleet.Sample.{LatencySample}
use distributed_benchmark_pl.Scoring.{
  clamp, normalize_scores, aggregate_of, avg_of, sum_of, field_of, acking,
}
use distributed_benchmark_pl.Telemetry.Hdr.{Histogram, IsHistogram}
use distributed_benchmark_pl.Telemetry.{
  TelemetryIngester, FlushEnv, Event, ctx_done, stop, sample, closed, ticked, ingest,
  drain_remaining, flush, reset_window, handle, run, quantile_ms, snapshot_of,
  new_telemetry_ingester,
}
use distributed_benchmark_pl.Telemetry.Drain.{received}

-- 0 + 0, 0 / n, and 0 * n for an n that is not rounded, are exact.
pub record HasZero (F : Type 0) ⦃fl : Float64 F⦄ : Type 0 where
  pub zero-add : fl.add (fl.of_int 0) (fl.of_int 0) ≡ fl.of_int 0
  pub zero-div : (n : ℕ) → 1 ≤ n → fl.div (fl.of_int 0) (fl.of_int n) ≡ fl.of_int 0
  pub zero-mul : (n : ℕ) → n ≤ 2 ^ 53 → fl.mul (fl.of_int 0) (fl.of_int n) ≡ fl.of_int 0

-- A window in which the engine acknowledged nothing: its histogram is empty, so its p99 is 0.
pub record IsSilent {F : Type 0} ⦃fl : Float64 F⦄ (s : MetricSnapshot F) : Type 0 where
  pub unacked : s.orders_acked ≡ 0
  pub p99 : s.p99_ms ≡ fl.of_int 0

module _ {F : Type 0} ⦃fl : Float64 F⦄ (laws : IsOrdered F) (zeros : HasZero F) where
  sum_of-zeros :
      (l : List (MetricSnapshot F)) → All IsSilent l → sum_of (field_of (λ s. s.p99_ms) l) ≡ float 0
  unfolding sum_of
  sum_of-zeros [] a = refl
  sum_of-zeros (s ∷ l) a = rw (a.0.p99, sum_of-zeros l a.1) zeros.zero-add

  acking-zero : (l : List (MetricSnapshot F)) → All IsSilent l → acking l ≡ 0
  acking-zero [] a = refl
  acking-zero (s ∷ l) a = ground (arith, a.0.unacked, acking-zero l a.1)

  length-field_of :
      {A : Type 0} (f : MetricSnapshot F → A) (l : List (MetricSnapshot F))
      → length (field_of f l) ≡ length l
  length-field_of f [] = refl
  length-field_of f (s ∷ l) = omega (arith, length-field_of f l)

  avg_p99-silent :
      (l : List (MetricSnapshot F)) → All IsSilent l → avg_of (field_of (λ s. s.p99_ms) l) ≡ float 0
  unfolding avg_of
  avg_p99-silent l a = ground (
    arith,
    sum_of-zeros l a,
    zeros.zero-div (length (field_of (λ (s : MetricSnapshot F). s.p99_ms) l)),
  )

  silent_snapshots-score :
      (cfg : Config F) (run_id : String) (l : List (MetricSnapshot F))
      → All IsSilent l
      → let s = normalize_scores cfg (aggregate_of run_id l) in
        (s.latency ≡ float 100) × (s.stability ≡ float 0)
  unfolding normalize_scores aggregate_of clamp
  silent_snapshots-score cfg run_id l a = ground (
    arith,
    avg_p99-silent l a,
    acking-zero l a,
    zeros.zero-div (length l),
    zeros.zero-mul 100 (omega arith),
    laws.not_lt_of_le (float 0) (float 1) (laws.of_int_mono 0 1 (omega arith)),
    laws.not_lt_of_le (float 0) (float 0) (laws.of_int_mono 0 0 (omega arith)),
    laws.not_lt_of_le (float 0) (float 100) (laws.of_int_mono 0 100 (omega arith)),
  )

-- An ingester that has counted no acknowledgment: nothing is in its histogram, and each stored
-- snapshot is silent.
pub record Quiet {F H : Type 0} ⦃fl : Float64 F⦄ ⦃hdr : Histogram H⦄ (t : TelemetryIngester F H)
    : Type 0 where
  pub empty : hdr.total_count t.hist ≡ 0
  pub unacked : t.window_acked ≡ 0
  pub stored : All IsSilent t.store

abbrev pub Unanswered : LatencySample → Type 0
Unanswered s = s.success ≡ false

module _ {F H : Type 0} ⦃fl : Float64 F⦄ ⦃hdr : Histogram H⦄ (laws : IsOrdered F)
    (zeros : HasZero F) (documented : IsHistogram H) where
  ingest-Quiet :
      (t : TelemetryIngester F H) (s : LatencySample) → Unanswered s → Quiet t → Quiet (ingest t s)
  unfolding ingest
  ingest-Quiet t s u q = rw u (record { empty = q.empty; unacked = q.unacked; stored = q.stored })

  drain_remaining-Quiet :
      (t : TelemetryIngester F H) (ss : List LatencySample)
      → All Unanswered ss
      → Quiet t
      → Quiet (drain_remaining t ss)
  unfolding drain_remaining
  drain_remaining-Quiet t [] a q = q
  drain_remaining-Quiet t (s ∷ ss) a q =
      drain_remaining-Quiet (ingest t s) ss a.1 (ingest-Quiet t s a.0 q)

  snapshot_of-IsSilent :
      (cfg : Config F) (t : TelemetryIngester F H) → Quiet t → IsSilent (snapshot_of cfg t)
  unfolding snapshot_of quantile_ms
  snapshot_of-IsSilent cfg t q = record {
    unacked = q.unacked;
    p99 = rw q.empty (zeros.zero-div 1000000 (omega arith));
  }

  flush-Quiet :
      (cfg : Config F) (t : TelemetryIngester F H) (env : FlushEnv)
      → Quiet t
      → Quiet (flush cfg t env)
  unfolding flush reset_window
  flush-Quiet cfg t env q =
      let more =
        All-append IsSilent t.store (snapshot_of cfg t ∷ []) q.stored
          (snapshot_of-IsSilent cfg t q, tt) in
      let none_left = documented.count-reset t.hist in ground (arith, more, none_left, q.stored)

  run-Quiet :
      (cfg : Config F) (t : TelemetryIngester F H) (es : List Event)
      → All Unanswered (received es)
      → Quiet t
      → Quiet (run cfg t es)
  unfolding run handle received
  run-Quiet cfg t [] a q = q
  run-Quiet cfg t (ctx_done env ∷ es) a q = flush-Quiet cfg t env q
  run-Quiet cfg t (stop rest env ∷ es) a q =
      flush-Quiet cfg (drain_remaining t rest) env (drain_remaining-Quiet t rest a q)
  run-Quiet cfg t (sample s ∷ es) a q = run-Quiet cfg (ingest t s) es a.1 (ingest-Quiet t s a.0 q)
  run-Quiet cfg t (closed env ∷ es) a q = flush-Quiet cfg t env q
  run-Quiet cfg t (ticked env ∷ es) a q =
      run-Quiet cfg (flush cfg t env) es a (flush-Quiet cfg t env q)

  -- For floats with the laws of IEEE 754 and exact zeros and a histogram as documented: when each
  -- sample that a new ingester receives is of an order without acknowledgment, the aggregate of the
  -- snapshots that it stores gets stability 0, and yet the full latency score of 100: an average
  -- p99 of 0 counts as the best latency there is.
  pub silent_engine_scores :
      (cfg : Config F) (run_id submission_id team_name : String) (es : List Event)
      → All Unanswered (received es)
      → let t =
          run cfg (new_telemetry_ingester {F = F} {H = H} run_id submission_id team_name) es in
        let s = normalize_scores cfg (aggregate_of run_id t.store) in
        (s.latency ≡ float 100) × (s.stability ≡ float 0)
  unfolding new_telemetry_ingester
  silent_engine_scores cfg run_id submission_id team_name es a =
      let t = new_telemetry_ingester {F = F} {H = H} run_id submission_id team_name in
      let fresh : Quiet t = record {
        empty = documented.count-new 1 500000000 3;
        unacked = refl;
        stored = tt;
      } in
      silent_snapshots-score laws zeros cfg run_id _ (run-Quiet cfg t es a fresh).stored
