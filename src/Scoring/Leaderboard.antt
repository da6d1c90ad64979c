-- ===== src/Scoring/Leaderboard.antt =====
-- One upsert of upsertLeaderboard in backend/services/scoring_service.go.
use distributed_benchmark_pl.Base.{
  ◌≡◌, refl, Option, none, some, List, [], ◌∷◌, String, arith, str_eq, eq_iff, if◌then◌else◌,
}
use distributed_benchmark_pl.Base.Table.{find_by}
use distributed_benchmark_pl.Base.Float.{Float64, ◌≤F◌}
use distributed_benchmark_pl.Models.{LeaderboardEntry}
use distributed_benchmark_pl.Scoring.{put_leaderboard_row}

abbrev pub entry_key : {F : Type 0} → LeaderboardEntry F → String
entry_key e = e.submission_id

module _ {F : Type 0} ⦃fl : Float64 F⦄ where
  -- The row of a submission.
  abbrev pub row_of : String → List (LeaderboardEntry F) → Option (LeaderboardEntry F)
  row_of = find_by entry_key

  -- The row that an upsert leaves, given the one that stood there.
  abbrev pub merged : LeaderboardEntry F → Option (LeaderboardEntry F) → LeaderboardEntry F
  merged e none = e
  merged e (some b) =
      if b.composite_score ≤F e.composite_score
      then record e { team_name = b.team_name; language = b.language }
      else b

  -- After an upsert the submission's row is the new one if it scores at least as much as the old, and
  -- the old one otherwise; the rows of all other submissions are what they were.
  pub row_of-put_leaderboard_row :
      (e : LeaderboardEntry F) (sid : String) (l : List (LeaderboardEntry F))
      → row_of sid (put_leaderboard_row e l) ≡ (
          if str_eq e.submission_id sid
          then some (merged e (row_of e.submission_id l))
          else row_of sid l)
  unfolding put_leaderboard_row find_by
  row_of-put_leaderboard_row e sid [] = refl
  row_of-put_leaderboard_row e sid (b ∷ l) = ground (
    arith,
    row_of-put_leaderboard_row e sid l,
    eq_iff b.submission_id e.submission_id,
    eq_iff b.submission_id sid,
    eq_iff e.submission_id sid,
  )
