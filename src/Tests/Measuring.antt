-- ===== src/Tests/Measuring.antt =====
-- The ingester at concrete events.
use distributed_benchmark_pl.Base.{ℕ, ◌+◌, ◌≡◌, refl, true, false, List, [], ◌∷◌, arith, All}
use distributed_benchmark_pl.Botfleet.Sample.{LatencySample}
use distributed_benchmark_pl.Telemetry.{
  TelemetryIngester, Event, stop, sample, ticked, new_telemetry_ingester, drain_remaining, run,
  snapshot_of,
}
use distributed_benchmark_pl.Telemetry.Counters.{
  NoPriorityErrors, run-NoPriorityErrors, sent_in, acked_in, fill_errors_in,
}
use distributed_benchmark_pl.Telemetry.Drain.{received, run_accounts_for_received}
use distributed_benchmark_pl.Telemetry.Latency.{
  Ascends, run_percentiles_ascend, slow_window_reports_zero,
}
use distributed_benchmark_pl.Tests.Data.{settings, a_sample, flush_ok}
use distributed_benchmark_pl.Tests.Instances.{Counts, whole, counts, whole_ordered, counts_laws}

-- One window of two samples, then two more that the stop drains.
abbrev events : List Event
events =
    sample (a_sample true 2000000)
    ∷ sample (a_sample false 0)
    ∷ ticked flush_ok
    ∷ stop (a_sample true 3000000 ∷ a_sample false 0 ∷ []) flush_ok
    ∷ []

abbrev fresh : TelemetryIngester ℕ Counts
fresh = new_telemetry_ingester "run-1" "sub-0001" "team"

run_accounts_for_received_example :
    (sent_in (run settings fresh events).store ≡ 4)
    × (acked_in (run settings fresh events).store ≡ 2)
    × (fill_errors_in (run settings fresh events).store + acked_in (run settings fresh events).store
        ≡ 4)
unfolding received
run_accounts_for_received_example =
    run_accounts_for_received {F = ℕ} Counts settings "run-1" "sub-0001" "team" events refl
      (tt, (tt, (refl, (refl, tt))))

fresh-NoPriorityErrors : NoPriorityErrors fresh
unfolding new_telemetry_ingester
fresh-NoPriorityErrors = record { window = refl; totals = refl; stored = tt }

run-NoPriorityErrors_example : NoPriorityErrors (run settings fresh events)
run-NoPriorityErrors_example = run-NoPriorityErrors settings fresh events fresh-NoPriorityErrors

run_percentiles_ascend_example : All Ascends (run settings fresh events).store
unfolding new_telemetry_ingester
run_percentiles_ascend_example =
    run_percentiles_ascend {F = ℕ} {H = Counts} whole_ordered counts_laws settings fresh events tt

-- Two orders that took a second and longer.
abbrev slow : List LatencySample
slow = a_sample true 1000000000 ∷ a_sample true 3000000000 ∷ []

slow_window_reports_zero_example :
    let s = snapshot_of settings (drain_remaining fresh slow) in
    (s.orders_acked ≡ 2) × (s.p50_ms ≡ 0) × (s.p90_ms ≡ 0) × (s.p99_ms ≡ 0)
unfolding new_telemetry_ingester
slow_window_reports_zero_example =
    slow_window_reports_zero {F = ℕ} {H = Counts} counts_laws settings fresh slow refl refl refl
      ((refl, omega arith), ((refl, omega arith), tt))
