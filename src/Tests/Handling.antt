-- ===== src/Tests/Handling.antt =====
-- The submission handlers at concrete requests.
use distributed_benchmark_pl.Base.{none, ℕ, String, false, ◌≡◌, ◌≢◌, ◌⊎◌, [], ◌∷◌}
use distributed_benchmark_pl.Submissions.{Backend, HandlerEnv, no_content, delete}
use distributed_benchmark_pl.Submissions.Deleting.{Deleted, delete_clears_or_keeps}
use distributed_benchmark_pl.Tests.Data.{the_submission, the_run}

abbrev calls_succeed : HandlerEnv
calls_succeed = record {
  fault = λ site. false;
  new_id = "run-2";
  now = 12;
  copied = none;
  place = λ x. 0;
}

abbrev backend : Backend ℕ String
backend = record {
  db = record {
    submissions = the_submission ∷ [];
    benchmark_runs = the_run ∷ [];
    metric_snapshots = [];
    metric_aggregates = [];
    leaderboard = [];
  };
  redis = record { benchmark_runs = "run-1" ∷ []; dead_letter = [] };
  staged = "sub-0001" ∷ [];
  files = [];
}

delete_clears_or_keeps_example :
    let r = delete calls_succeed "sub-0001" backend in
    ((r.0 ≡ no_content) × Deleted "sub-0001" backend r.1) ⊎ ((r.0 ≢ no_content) × (r.1 ≡ backend))
delete_clears_or_keeps_example = delete_clears_or_keeps calls_succeed "sub-0001" backend
