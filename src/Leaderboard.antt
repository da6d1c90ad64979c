-- ===== src/Leaderboard.antt =====
-- backend/api/leaderboard_handler.go: Snapshot, Stream, RunMetrics and sendLeaderboardSnapshot. What select
-- meets in Stream, in its order, is a list of events, each with whether the write it leads to works; a list
-- that ends is a connection that is still open. The rows of metric_snapshots stand in the order of
-- `recorded_at`, which the database sets when a row is inserted.
pub mod Streaming
use distributed_benchmark_pl.Base.{
  ℕ, zero, suc, String, Bool, true, false, Option, none, some, List, [], ◌∷◌, ◌++◌, ◌||◌, not,
  str_eq, ltb, take, if◌then◌else◌,
}
use distributed_benchmark_pl.Base.Float.{Float64}
use distributed_benchmark_pl.Base.Sorting.{filter}
use distributed_benchmark_pl.Models.{MetricSnapshot, LeaderboardEntry}
use distributed_benchmark_pl.Scoring.{leaderboard_ranked}
use distributed_benchmark_pl.Store.{Db, Message, find_run}
use distributed_benchmark_pl.Submissions.{drop_if}
use distributed_benchmark_pl.Validator.{below_one}

-- Which calls fail, and the rows that StructScan cannot read.
pub record BoardEnv (F : Type 0) : Type 0 where
  pub upgrade_fails : Bool
  pub query_fails : Bool
  pub exists_fails : Bool
  pub marshal_fails : Bool
  pub first_write_fails : Bool
  pub bad_entry : LeaderboardEntry F → Bool
  pub bad_snapshot : MetricSnapshot F → Bool
  pub now : ℕ

pub record LeaderboardSnapshot (F : Type 0) : Type 0 where
  pub generated_at : ℕ
  pub entries : List (LeaderboardEntry F)

pub data BoardResponse (F : Type 0) : Type 0 where
  ok_board : LeaderboardSnapshot F → BoardResponse F
  ok_metrics : List (MetricSnapshot F) → BoardResponse F
  run_not_found : BoardResponse F
  database_error : BoardResponse F

pub data Frame (F : Type 0) : Type 0 where
  snapshot_frame : LeaderboardSnapshot F → Frame F
  text_frame : Message F → Frame F
  ping_frame : Frame F

-- A message of the channel, the end of the channel, a tick, or the close of `clientGone`.
pub data Event (F : Type 0) : Type 0 where
  received : Message F → Event F
  channel_closed : Event F
  ping_due : Event F
  client_gone : Event F

pub data Ending : Type 0 where
  not_upgraded no_snapshot gone closed write_failed still_open : Ending

-- The limit is given by its 64 bits.
unfoldable pub limit_of : ℕ → ℕ
limit_of limit = if below_one limit || ltb 1000 limit then 200 else limit

module _ {F : Type 0} where
  unfoldable pub run_metrics : BoardEnv F → String → ℕ → Db F → BoardResponse F
  run_metrics env run_id limit d =
      if env.exists_fails then run_not_found else elim (find_run run_id d) [
        | none ↦ run_not_found
        | some r ↦
            if env.query_fails
            then database_error
            else ok_metrics (
                drop_if env.bad_snapshot (
                  take (limit_of limit)
                    (filter (λ (m : MetricSnapshot F). str_eq m.run_id run_id) d.metric_snapshots)))
      ]

  -- The loop of Stream: the frames it writes, and how it ends.
  unfoldable pub fan_out : List (Event F × Bool) → List (Frame F) × Ending
  fan_out [] = ([], still_open)
  fan_out ((received msg, works) ∷ events) =
      let rest = fan_out events in
      if works then (text_frame msg ∷ rest.0, rest.1) else ([], write_failed)
  fan_out ((channel_closed, works) ∷ events) = ([], closed)
  fan_out ((ping_due, works) ∷ events) =
      let rest = fan_out events in
      if works then (ping_frame ∷ rest.0, rest.1) else ([], write_failed)
  fan_out ((client_gone, works) ∷ events) = ([], gone)

  module _ ⦃fl : Float64 F⦄ where
    unfoldable pub current_board : BoardEnv F → Db F → LeaderboardSnapshot F
    current_board env d = record {
      generated_at = env.now;
      entries = drop_if env.bad_entry (leaderboard_ranked d.leaderboard);
    }

    unfoldable pub snapshot : BoardEnv F → Db F → BoardResponse F
    snapshot env d = if env.query_fails then database_error else ok_board (current_board env d)

    -- sendLeaderboardSnapshot: the frames written, and whether it returns nil.
    unfoldable pub send_leaderboard_snapshot : BoardEnv F → Db F → List (Frame F) × Bool
    send_leaderboard_snapshot env d =
        if env.query_fails || env.marshal_fails || env.first_write_fails
        then ([], false)
        else (snapshot_frame (current_board env d) ∷ [], true)

    unfoldable pub stream : BoardEnv F → Db F → List (Event F × Bool) → List (Frame F) × Ending
    stream env d events =
        let (sent, works) = send_leaderboard_snapshot env d in
        let rest = fan_out events in
        if env.upgrade_fails
        then ([], not_upgraded)
        else if works
        then (sent ++ rest.0, rest.1)
        else (sent, no_snapshot)
