-- ===== src/Submissions/Deleting.antt =====
-- Delete of backend/api/submission_handler.go.
use distributed_benchmark_pl.Base.{
  String, Bool, false, none, some, List, [], ◌∷◌, ◌≡◌, ◌≢◌, ◌⊎◌, refl, str_eq, if◌then◌else◌, not,
  ap, Bool-cases, Option-cases, inl, inr, ◌||◌,
}
use distributed_benchmark_pl.Base.Sorting.{filter}
use distributed_benchmark_pl.Base.Table.{find_by-delete_where}
use distributed_benchmark_pl.Models.{
  Submission, BenchmarkRun, MetricSnapshot, MetricAggregate, LeaderboardEntry,
}
use distributed_benchmark_pl.Store.{Db, find_submission, submission_key}
use distributed_benchmark_pl.Submissions.{
  Backend, HandlerEnv, Response, no_content, has_run, drop_if, delete_cascade, is_running, delete,
  delete_found, select_submission, delete_submission_row,
}

drop_if-filter {ℓ} :
    {A : Type ℓ} (f : A → Bool) (l : List A) → drop_if f l ≡ filter (λ a. not (f a)) l
unfolding drop_if filter
drop_if-filter f [] = refl
drop_if-filter f (a ∷ l) = elim (Bool-cases (f a)) [
  | inl gone ↦ rw gone (drop_if-filter f l)
  | inr stays ↦ rw stays (ap (◌∷◌ a) (drop_if-filter f l))
]

module _ {F : Type 0} where
  -- `d` after a deletion: of each table exactly the rows are left that belong neither to the
  -- submission `id` nor to one of its runs, in their order, and the other submissions are what they
  -- were in `before`.
  pub record Cleared (id : String) (before d : Db F) : Type 0 where
    pub submissions :
        (sid : String)
        → find_submission sid d ≡ (if str_eq id sid then none else find_submission sid before)
    pub runs :
        d.benchmark_runs
        ≡ filter (λ (r : BenchmarkRun). not (str_eq r.submission_id id)) before.benchmark_runs
    pub snapshots :
        d.metric_snapshots
        ≡ filter
            (λ (s : MetricSnapshot F). not (has_run id s.run_id before.benchmark_runs))
            before.metric_snapshots
    pub aggregates :
        d.metric_aggregates
        ≡ filter
            (λ (a : MetricAggregate F). not (has_run id a.run_id before.benchmark_runs))
            before.metric_aggregates
    pub board :
        d.leaderboard
        ≡ filter
            (λ (e : LeaderboardEntry F).
              not (str_eq e.submission_id id || has_run id e.run_id before.benchmark_runs))
            before.leaderboard

  delete_cascade-Cleared : (id : String) (d : Db F) → Cleared id d (delete_cascade id d)
  unfolding delete_cascade find_submission
  delete_cascade-Cleared id d = record {
    submissions = λ sid. find_by-delete_where submission_key id sid d.submissions;
    runs = drop_if-filter _ d.benchmark_runs;
    snapshots = drop_if-filter _ d.metric_snapshots;
    aggregates = drop_if-filter _ d.metric_aggregates;
    board = drop_if-filter _ d.leaderboard;
  }

module _ {F E : Type 0} where
  -- A deletion that was carried out: the submission was there and was not running.
  pub record Deleted (id : String) (s t : Backend F E) : Type 0 where
    pub sub : Submission
    pub found : find_submission id s.db ≡ some sub
    pub idle : is_running sub.status ≡ false
    pub cleared : Cleared id s.db t.db
    pub queue : t.redis ≡ s.redis

  abbrev Outcome : String → Backend F E → Response × Backend F E → Type 0
  Outcome id s r = ((r.0 ≡ no_content) × Deleted id s r.1) ⊎ ((r.0 ≢ no_content) × (r.1 ≡ s))

  delete_found-Outcome :
      (env : HandlerEnv) (id : String) (sub : Submission) (s : Backend F E)
      → find_submission id s.db ≡ some sub
      → Outcome id s (delete_found env id sub s)
  unfolding delete_found
  delete_found-Outcome env id sub s found = elim (Bool-cases (is_running sub.status)) [
    | inl running ↦ rw running (inr (cc, refl))
    | inr idle ↦ elim (Bool-cases (env.fault delete_submission_row)) [
      | inl fails ↦ rw (idle, fails) (inr (cc, refl))
      | inr works ↦
          rw (idle, works)
            (inl (
              refl,
              record {
                sub = sub;
                found = found;
                idle = idle;
                cleared = delete_cascade-Cleared id s.db;
                queue = refl;
              },
            ))
    ]
  ]

  -- Delete either answers 204, and then the submission was there and not running, and neither it
  -- nor a run, snapshot, aggregate or leaderboard row of it is left, while all rows of other
  -- submissions and the queue are unchanged; or it answers otherwise and changes nothing.
  pub delete_clears_or_keeps :
      (env : HandlerEnv) (id : String) (s : Backend F E)
      → let r = delete env id s in
        ((r.0 ≡ no_content) × Deleted id s r.1) ⊎ ((r.0 ≢ no_content) × (r.1 ≡ s))
  unfolding delete
  delete_clears_or_keeps env id s = elim (Bool-cases (env.fault select_submission)) [
    | inl fails ↦ rw fails (inr (cc, refl))
    | inr works ↦ elim (Option-cases (find_submission id s.db)) [
      | inl missing ↦ rw (works, missing) (inr (cc, refl))
      | inr (sub, found) ↦ rw (works, found) (delete_found-Outcome env id sub s found)
    ]
  ]
