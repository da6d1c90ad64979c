-- ===== src/Scoring/Ranked.antt =====
-- The view leaderboard_ranked of backend/migrations/003_create_leaderboard.sql: the rows of the
-- table in the order of their ranks.
use mathlib.Core.List.{Perm}
use mathlib.Core.List.Perm
use distributed_benchmark_pl.Base.{◌≡◌, false, List, [], ◌∷◌}
use distributed_benchmark_pl.Base.Float.{Float64}
use distributed_benchmark_pl.Models.{LeaderboardEntry}
use distributed_benchmark_pl.Scoring.{ranks_before}

module _ {F : Type 0} ⦃fl : Float64 F⦄ where
  -- No row ranks before the row above it.
  abbrev pub IsRanked : List (LeaderboardEntry F) → Type 0
  IsRanked [] = Unit {0}
  IsRanked (a ∷ []) = Unit {0}
  IsRanked (a ∷ b ∷ l) = (ranks_before b a ≡ false) × IsRanked (b ∷ l)
