-- ===== src/Tests/Boards.antt =====
-- Scores and the leaderboard at concrete values.
use distributed_benchmark_pl.Base.{ℕ, ◌≡◌, refl, List, [], ◌∷◌, All, String, false}
use distributed_benchmark_pl.Models.{MetricAggregate, LeaderboardEntry}
use distributed_benchmark_pl.Scoring.{log_base10, normalize_scores, aggregate_of}
use distributed_benchmark_pl.Scoring.Best.{Holds, put_all, best_score_kept}
use distributed_benchmark_pl.Scoring.Normalize.{Within, HasNumbers, scores_in_range}
use distributed_benchmark_pl.Scoring.Silent.{silent_engine_scores}
use distributed_benchmark_pl.Telemetry.{Event, sample, ticked, stop, run, new_telemetry_ingester}
use distributed_benchmark_pl.Telemetry.Drain.{received}
use distributed_benchmark_pl.Tests.Data.{settings, a_sample, flush_ok}
use distributed_benchmark_pl.Tests.Extended.{Extended, number, infinite, extended, extended_ordered}
use distributed_benchmark_pl.Tests.Instances.{
  whole, whole_ordered, whole_zero, Counts, counts, counts_laws,
}

abbrev scored : String → Extended → ℕ → LeaderboardEntry Extended
scored submission_id score at = record {
  submission_id = submission_id;
  run_id = "run-1";
  team_name = "team";
  language = "go";
  peak_tps = number 100;
  avg_p99_ms = number 5;
  correctness = number 1;
  uptime_pct = number 100;
  composite_score = score;
  latency_score = score;
  throughput_score = score;
  correctness_score = score;
  stability_score = score;
  scored_at = at;
}

-- A submission that gets worse, and another one with an infinite score.
abbrev history : List (LeaderboardEntry Extended)
history =
    scored "sub-0001" (number 70) 1
    ∷ scored "sub-0002" infinite 2
    ∷ scored "sub-0001" (number 60) 3
    ∷ []

best_score_kept_example :
    All
      (λ e.
        Holds extended_ordered e.submission_id e.composite_score
          (put_all extended_ordered history []))
      history
best_score_kept_example =
    best_score_kept extended_ordered history []
      (record { number = refl }, (record { number = refl }, (record { number = refl }, tt))) tt

abbrev measured : MetricAggregate ℕ
measured = record {
  run_id = "run-1";
  peak_tps = 1000;
  avg_tps = 800;
  avg_p50_ms = 2;
  avg_p90_ms = 4;
  avg_p99_ms = 10;
  uptime_pct = 99;
  correctness = 1;
}

measured-HasNumbers : HasNumbers whole_ordered measured
unfolding log_base10
measured-HasNumbers = record {
  latency = refl;
  throughput = refl;
  correctness = refl;
  stability = refl;
}

scores_in_range_example :
    let s = normalize_scores settings measured in
    Within whole_ordered 0 100 s.latency
    × Within whole_ordered 0 100 s.throughput
    × Within whole_ordered 0 100 s.correctness
    × Within whole_ordered 0 100 s.stability
scores_in_range_example = scores_in_range whole_ordered settings measured measured-HasNumbers

-- The engine answers neither the first order, nor the second one, which the stop drains.
abbrev unanswered : List Event
unanswered =
    sample (a_sample false 0) ∷ ticked flush_ok ∷ stop (a_sample false 0 ∷ []) flush_ok ∷ []

silent_engine_scores_example :
    let t =
      run settings
        (new_telemetry_ingester {F = ℕ} {H = Counts} "run-1" "sub-0001" "team")
        unanswered in
    let s = normalize_scores settings (aggregate_of "run-1" t.store) in
    (s.latency ≡ 100) × (s.stability ≡ 0)
unfolding received
silent_engine_scores_example =
    silent_engine_scores {F = ℕ} {H = Counts} whole_ordered whole_zero counts_laws settings "run-1"
      "sub-0001" "team" unanswered (refl, (refl, tt))
