-- ===== src/Leaderboard/Streaming.antt =====
-- What a client of Stream and RunMetrics gets (backend/api/leaderboard_handler.go).
use distributed_benchmark_pl.Base.{
  ℕ, String, Bool, List, [], ◌∷◌, ◌++◌, ◌||◌, str_eq, ◌≡◌, ◌≤◌, ◌⊎◌,
}
use distributed_benchmark_pl.Base.Sorting.{filter}
use distributed_benchmark_pl.Models.{MetricSnapshot}
use distributed_benchmark_pl.Store.{Db, Message}
use distributed_benchmark_pl.Leaderboard.{
  BoardEnv, Frame, snapshot_frame, text_frame, ping_frame, Event, received, channel_closed,
  ping_due, client_gone, Ending, still_open,
}

-- The number of rows to read for a limit: 200 for one outside 1 to 1000, negative ones included.
abbrev pub HasLimit : ℕ → ℕ → Type 0
HasLimit limit n =
    ((1 ≤ limit) × (limit ≤ 1000) × (n ≡ limit)) ⊎ (((limit ≡ 0) ⊎ (1001 ≤ limit)) × (n ≡ 200))

module _ {F : Type 0} where
  abbrev pub messages_of : List (Event F × Bool) → List (Message F)
  messages_of [] = []
  messages_of ((received m, b) ∷ l) = m ∷ messages_of l
  messages_of ((channel_closed, b) ∷ l) = messages_of l
  messages_of ((ping_due, b) ∷ l) = messages_of l
  messages_of ((client_gone, b) ∷ l) = messages_of l

  abbrev pub forwarded : List (Frame F) → List (Message F)
  forwarded [] = []
  forwarded (snapshot_frame s ∷ l) = forwarded l
  forwarded (text_frame m ∷ l) = m ∷ forwarded l
  forwarded (ping_frame ∷ l) = forwarded l

  -- No frame is written.
  abbrev pub fails_at_first : BoardEnv F → Bool
  fails_at_first env =
      env.upgrade_fails || env.query_fails || env.marshal_fails || env.first_write_fails

  -- What is not forwarded comes after what is.
  abbrev pub Forwards : List (Event F × Bool) → List (Frame F) × Ending → Type 0
  Forwards events out =
      (late : List (Message F)) × (messages_of events ≡ forwarded out.0 ++ late)
      × (out.1 ≡ still_open → late ≡ [])

  module _ (env : BoardEnv F) (run_id : String) (d : Db F) where
    abbrev pub rows_of_run : List (MetricSnapshot F)
    rows_of_run = filter (λ (m : MetricSnapshot F). str_eq m.run_id run_id) d.metric_snapshots
