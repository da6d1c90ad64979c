-- ===== src/Scoring.antt =====
-- backend/services/scoring_service.go and the helpers of backend/services/helpers.go. The statements
-- are functions on the tables; `logBase10` and `clamp` keep their order of tests.
pub mod Normalize
pub mod Leaderboard
pub mod Best
pub mod Ranked
pub mod Silent
use distributed_benchmark_pl.Base.{
  ℕ, ◌+◌, String, Bool, true, false, Option, none, some, List, [], ◌∷◌, ◌++◌, ltb, ◌==◌, total,
  length, str_eq, if◌then◌else◌,
}
use distributed_benchmark_pl.Base.Float.{Float64, float, ◌+F◌, ◌-F◌, ◌*F◌, ◌/F◌, ◌<F◌, ◌≤F◌}
use distributed_benchmark_pl.Models.{
  Submission, BenchmarkRun, MetricSnapshot, MetricAggregate, LeaderboardEntry, Config,
}
use distributed_benchmark_pl.Store.{Db, World, Message, board, find_run, find_submission}
use distributed_benchmark_pl.Exec.{Exec, pure, raise, call, attempt, ◌>>=◌, ◌>>◌}

pub record NormalizedScores (F : Type 0) : Type 0 where
  pub latency : F
  pub throughput : F
  pub correctness : F
  pub stability : F
  pub composite : F

-- The statements of a scoring run that can fail, and its errors.
pub data ScoringSite : Type 0 where
  get_aggregate put_aggregate get_submission put_leaderboard get_ranked publish : ScoringSite

pub data ScoringError : Type 0 where
  compute_aggregate_failed store_aggregate_failed upsert_leaderboard_failed : ScoringError

-- Which statements fail, and the time NOW() at each.
pub record ScoringEnv : Type 0 where
  pub fault : ScoringSite → Bool
  pub now : ℕ

module _ {F : Type 0} ⦃fl : Float64 F⦄ where
  unfoldable pub log_base10 : F → F
  log_base10 v = if v ≤F float 0 then float 0 else fl.log10 v

  unfoldable pub clamp : F → F → F → F
  clamp v min max = if v <F min then min else if max <F v then max else v

  -- COALESCE(MAX(x), 0) and COALESCE(AVG(x), 0)
  abbrev pub larger : F → F → F
  larger a b = if a <F b then b else a

  unfoldable pub max_of : List F → F
  max_of [] = float 0
  max_of (x ∷ []) = x
  max_of (x ∷ y ∷ xs) = larger x (max_of (y ∷ xs))

  unfoldable pub sum_of : List F → F
  sum_of [] = float 0
  sum_of (x ∷ xs) = x +F sum_of xs

  unfoldable pub avg_of : List F → F
  avg_of xs = if length xs == 0 then float 0 else sum_of xs /F float (length xs)

-- WHERE run_id = $1
unfoldable pub snapshots_of :
    {F : Type 0} → String → List (MetricSnapshot F) → List (MetricSnapshot F)
snapshots_of run_id [] = []
snapshots_of run_id (s ∷ l) =
    let rest = snapshots_of run_id l in if str_eq s.run_id run_id then s ∷ rest else rest

abbrev pub field_of : {F A : Type 0} → (MetricSnapshot F → A) → List (MetricSnapshot F) → List A
field_of f [] = []
field_of f (s ∷ l) = f s ∷ field_of f l

-- COUNT(CASE WHEN orders_acked > 0 THEN 1 END)
abbrev pub acking : {F : Type 0} → List (MetricSnapshot F) → ℕ
acking = total (λ s. if ltb 0 s.orders_acked then 1 else 0)

module _ {F : Type 0} ⦃fl : Float64 F⦄ where
  -- The aggregate of a run's snapshots, column by column.
  unfoldable pub aggregate_of : String → List (MetricSnapshot F) → MetricAggregate F
  unfolding max_of avg_of
  aggregate_of run_id l =
      let sent = total (λ (s : MetricSnapshot F). s.orders_sent) l in
      let errors =
        total (λ (s : MetricSnapshot F). s.fill_errors) l
        + total (λ (s : MetricSnapshot F). s.priority_errors) l in
      record {
        run_id = run_id;
        peak_tps = max_of (field_of (λ s. s.tps) l);
        avg_tps = avg_of (field_of (λ s. s.tps) l);
        avg_p50_ms = avg_of (field_of (λ s. s.p50_ms) l);
        avg_p90_ms = avg_of (field_of (λ s. s.p90_ms) l);
        avg_p99_ms = avg_of (field_of (λ s. s.p99_ms) l);
        uptime_pct =
            if ltb 0 (length l) then float (acking l) /F float (length l) *F float 100 else float 0;
        correctness = if ltb 0 sent then float 1 -F float errors /F float sent else float 0;
      }

  unfoldable pub compute_aggregate : String → Db F → MetricAggregate F
  unfolding aggregate_of snapshots_of
  compute_aggregate run_id d = aggregate_of run_id (snapshots_of run_id d.metric_snapshots)

  unfoldable pub latency_score : F → F
  unfolding log_base10 clamp
  latency_score p99 =
      if float 1 <F p99
      then clamp (float 100 *F (float 1 -F log_base10 p99 /F float 2)) (float 0) (float 100)
      else float 100

  unfoldable pub throughput_score : F → F
  unfolding log_base10 clamp
  throughput_score tps =
      if float 100 <F tps
      then clamp (float 100 *F (log_base10 tps -F float 2) /F float 3) (float 0) (float 100)
      else float 0

  unfoldable pub composite_of : Config F → F → F → F → F → F
  composite_of cfg l t c s =
      cfg.score_weight_latency *F l
      +F cfg.score_weight_throughput *F t
      +F cfg.score_weight_correctness *F c
      +F cfg.score_weight_stability *F s

  unfoldable pub normalize_scores : Config F → MetricAggregate F → NormalizedScores F
  unfolding latency_score throughput_score composite_of
  normalize_scores cfg agg =
      let l = latency_score agg.avg_p99_ms in
      let t = throughput_score agg.peak_tps in
      let c = clamp (agg.correctness *F float 100) (float 0) (float 100) in
      let s = clamp agg.uptime_pct (float 0) (float 100) in
      record {
        latency = l;
        throughput = t;
        correctness = c;
        stability = s;
        composite = composite_of cfg l t c s;
      }

-- The submission of a run: no row is an error too.
unfoldable pub submission_of_run : {F : Type 0} → String → Db F → Option Submission
unfolding find_run find_submission
submission_of_run run_id d = elim (find_run run_id d) [
  | none ↦ none
  | some run ↦ find_submission run.submission_id d
]

-- INSERT ... ON CONFLICT (run_id) DO UPDATE SET every column
unfoldable pub put_aggregate_row :
    {F : Type 0} → MetricAggregate F → List (MetricAggregate F) → List (MetricAggregate F)
put_aggregate_row agg [] = agg ∷ []
put_aggregate_row agg (a ∷ l) =
    if str_eq a.run_id agg.run_id then agg ∷ l else a ∷ put_aggregate_row agg l

module _ {F : Type 0} ⦃fl : Float64 F⦄ where
  -- The row that an upsert proposes.
  unfoldable pub entry_of :
      Submission → String → MetricAggregate F → NormalizedScores F → ℕ → LeaderboardEntry F
  entry_of sub run_id agg scores now = record {
    submission_id = sub.id;
    run_id = run_id;
    team_name = sub.team_name;
    language = sub.language;
    peak_tps = agg.peak_tps;
    avg_p99_ms = agg.avg_p99_ms;
    correctness = agg.correctness;
    uptime_pct = agg.uptime_pct;
    composite_score = scores.composite;
    latency_score = scores.latency;
    throughput_score = scores.throughput;
    correctness_score = scores.correctness;
    stability_score = scores.stability;
    scored_at = now;
  }

  -- INSERT ... ON CONFLICT (submission_id) DO UPDATE SET ... WHERE EXCLUDED.composite_score >=
  -- leaderboard.composite_score: the team's name and language stay those of the first insert.
  unfoldable pub put_leaderboard_row :
      LeaderboardEntry F → List (LeaderboardEntry F) → List (LeaderboardEntry F)
  put_leaderboard_row e [] = e ∷ []
  put_leaderboard_row e (b ∷ l) =
      if str_eq b.submission_id e.submission_id
      then (if b.composite_score ≤F e.composite_score
          then record e { team_name = b.team_name; language = b.language }
          else b)
        ∷ l
      else b ∷ put_leaderboard_row e l

  -- ORDER BY composite_score DESC, scored_at ASC of the view leaderboard_ranked; the rank is the
  -- place in the list.
  abbrev pub ranks_before : LeaderboardEntry F → LeaderboardEntry F → Bool
  ranks_before a b =
      if b.composite_score <F a.composite_score
      then true
      else if a.composite_score <F b.composite_score
      then false
      else ltb a.scored_at b.scored_at

  unfoldable pub insert_ranked :
      LeaderboardEntry F → List (LeaderboardEntry F) → List (LeaderboardEntry F)
  insert_ranked e [] = e ∷ []
  insert_ranked e (b ∷ l) =
      let rest = insert_ranked e l in if ranks_before b e then b ∷ rest else e ∷ b ∷ l

  unfoldable pub leaderboard_ranked : List (LeaderboardEntry F) → List (LeaderboardEntry F)
  leaderboard_ranked [] = []
  leaderboard_ranked (e ∷ l) = insert_ranked e (leaderboard_ranked l)

  -- The board that goes to the telemetry channel, if it can be read and published.
  unfoldable pub publish_leaderboard_update : ScoringEnv → Exec (World F) ScoringError (Unit {0})
  publish_leaderboard_update env = do
    ranked ←
        call (env.fault get_ranked) upsert_leaderboard_failed
          (λ w. (leaderboard_ranked w.db.leaderboard, w))
    call (env.fault publish) upsert_leaderboard_failed
        (λ w. (tt, record w { published = w.published ++ board ranked ∷ [] }))

  unfoldable pub upsert_for :
      ScoringEnv
      → String
      → MetricAggregate F
      → NormalizedScores F
      → Option Submission
      → Exec (World F) ScoringError (Unit {0})
  upsert_for env run_id agg scores none = raise upsert_leaderboard_failed
  upsert_for env run_id agg scores (some sub) = do
    call (env.fault put_leaderboard) upsert_leaderboard_failed (λ w. (
      tt,
      record w {
        db = record w.db {
          leaderboard =
              put_leaderboard_row (entry_of sub run_id agg scores env.now) w.db.leaderboard;
        };
      },
    ))
    attempt (publish_leaderboard_update env)

  unfoldable pub upsert_leaderboard :
      ScoringEnv
      → String
      → MetricAggregate F
      → NormalizedScores F
      → Exec (World F) ScoringError (Unit {0})
  unfolding upsert_for submission_of_run
  upsert_leaderboard env run_id agg scores = do
    found ←
        call (env.fault get_submission) upsert_leaderboard_failed
          (λ w. (submission_of_run run_id w.db, w))
    upsert_for env run_id agg scores found

  unfoldable pub store_aggregate :
      ScoringEnv → MetricAggregate F → Exec (World F) ScoringError (Unit {0})
  store_aggregate env agg = call (env.fault put_aggregate) store_aggregate_failed (λ w. (
    tt,
    record w {
      db = record w.db { metric_aggregates = put_aggregate_row agg w.db.metric_aggregates };
    },
  ))

  unfoldable pub compute_and_store :
      ScoringEnv → Config F → String → Exec (World F) ScoringError (Unit {0})
  compute_and_store env cfg run_id = do
    agg ←
        call (env.fault get_aggregate) compute_aggregate_failed
          (λ w. (compute_aggregate run_id w.db, w))
    store_aggregate env agg
    upsert_leaderboard env run_id agg (normalize_scores cfg agg)
