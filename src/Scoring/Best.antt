-- ===== src/Scoring/Best.antt =====
-- The leaderboard of backend/services/scoring_service.go over a history of upserts.
use distributed_benchmark_pl.Base.{
  ◌≡◌, inl, inr, true, some, List, [], ◌∷◌, String, arith, All, Bool-cases, str_eq, eq_iff, eq_refl,
  Option-cases,
}
use distributed_benchmark_pl.Base.Table.{find_by_sound}
use distributed_benchmark_pl.Base.Float.{Float64, IsOrdered, IsNumber, ◌≤F◌}
use distributed_benchmark_pl.Models.{LeaderboardEntry}
use distributed_benchmark_pl.Scoring.{put_leaderboard_row}
use distributed_benchmark_pl.Scoring.Leaderboard.{entry_key, row_of, row_of-put_leaderboard_row}

module _ {F : Type 0} ⦃fl : Float64 F⦄ (laws : IsOrdered F) where
  -- The submission has a row that scores at least `x`.
  pub record Holds (sid : String) (x : F) (l : List (LeaderboardEntry F)) : Type 0 where
    pub row : LeaderboardEntry F
    pub found : row_of sid l ≡ some row
    pub best : fl.le x row.composite_score ≡ true

  pub record IsScored (e : LeaderboardEntry F) : Type 0 where
    pub number : IsNumber e.composite_score

  put-IsScored :
      (e : LeaderboardEntry F) (l : List (LeaderboardEntry F))
      → IsScored e
      → All IsScored l
      → All IsScored (put_leaderboard_row e l)
  unfolding put_leaderboard_row
  put-IsScored e [] s a = (s, tt)
  put-IsScored e (b ∷ l) s a = ground (arith, put-IsScored e l s a.1, a.0)

  put_keeps :
      (e : LeaderboardEntry F) (sid : String) (x : F) (l : List (LeaderboardEntry F))
      → Holds sid x l
      → Holds sid x (put_leaderboard_row e l)
  put_keeps e sid x l h = elim (Bool-cases (str_eq e.submission_id sid)) [
    | inr other ↦ record {
      row = h.row;
      found = rw (row_of-put_leaderboard_row e sid l, other) h.found;
      best = h.best;
    }
    | inl hit ↦
        let same : e.submission_id ≡ sid = (eq_iff e.submission_id sid).0 hit in
        elim (Bool-cases (h.row.composite_score ≤F e.composite_score)) [
          | inl better ↦ record {
            row = record e { team_name = h.row.team_name; language = h.row.language };
            found = rw (row_of-put_leaderboard_row e sid l, hit, same, h.found, better);
            best = laws.le_trans _ _ _ h.best better;
          }
          | inr worse ↦ record {
            row = h.row;
            found = rw (row_of-put_leaderboard_row e sid l, hit, same, h.found, worse);
            best = h.best;
          }
        ]
  ]

  put_adds :
      (e : LeaderboardEntry F) (l : List (LeaderboardEntry F))
      → IsScored e
      → All IsScored l
      → Holds e.submission_id e.composite_score (put_leaderboard_row e l)
  put_adds e l s a = elim (Option-cases (row_of e.submission_id l)) [
    | inl fresh ↦ record {
      row = e;
      found = rw (row_of-put_leaderboard_row e e.submission_id l, eq_refl e.submission_id, fresh);
      best = s.number;
    }
    | inr (b, old) ↦
        let scored = (find_by_sound entry_key IsScored e.submission_id l a old).0 in
        elim (Bool-cases (b.composite_score ≤F e.composite_score)) [
          | inl better ↦ record {
            row = record e { team_name = b.team_name; language = b.language };
            found = rw (
              row_of-put_leaderboard_row e e.submission_id l,
              eq_refl e.submission_id,
              old,
              better,
            );
            best = s.number;
          }
          | inr worse ↦ record {
            row = b;
            found = rw (
              row_of-put_leaderboard_row e e.submission_id l,
              eq_refl e.submission_id,
              old,
              worse,
            );
            best = laws.le_of_not_le _ _ scored.number s.number worse;
          }
        ]
  ]

  -- The board after a list of upserts, the first one first.
  pub put_all : List (LeaderboardEntry F) → List (LeaderboardEntry F) → List (LeaderboardEntry F)
  put_all [] l = l
  put_all (e ∷ es) l = put_all es (put_leaderboard_row e l)

  put_all_keeps :
      (es : List (LeaderboardEntry F)) (sid : String) (x : F) (l : List (LeaderboardEntry F))
      → Holds sid x l
      → Holds sid x (put_all es l)
  unfolding put_all
  put_all_keeps [] sid x l h = h
  put_all_keeps (e ∷ es) sid x l h = put_all_keeps es sid x _ (put_keeps e sid x l h)

  -- For floats with the laws of IEEE 754: after any history of upserts with scores that are numbers,
  -- on a board of such scores, each submission that was scored has a row, and that row scores at
  -- least as much as each score that the submission got in the history.
  pub best_score_kept :
      (es : List (LeaderboardEntry F)) (l : List (LeaderboardEntry F))
      → All IsScored es
      → All IsScored l
      → All (λ e. Holds e.submission_id e.composite_score (put_all es l)) es
  unfolding put_all
  best_score_kept [] l s a = tt
  best_score_kept (e ∷ es) l s a = (
    put_all_keeps es e.submission_id e.composite_score _ (put_adds e l s.0 a),
    best_score_kept es (put_leaderboard_row e l) s.1 (put-IsScored e l s.0 a),
  )
