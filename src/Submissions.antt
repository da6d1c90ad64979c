-- ===== src/Submissions.antt =====
-- Get, Delete and TriggerRun of backend/api/submission_handler.go. A handler takes the state to its
-- response and the new state; the environment says which calls fail, and what uuid.NewString and
-- NOW() give.
pub mod Deleting
pub mod Triggering
pub mod Naming
pub mod Creating
pub mod Listing
use distributed_benchmark_pl.Base.{
  ℕ, map, ltb, String, Bool, true, false, Option, none, some, List, [], ◌∷◌, ◌++◌, ◌||◌, str_eq,
  if◌then◌else◌,
}
use distributed_benchmark_pl.Base.Sorting.{sort_by, filter}
use distributed_benchmark_pl.Base.Table.{delete_where}
use distributed_benchmark_pl.Models.{
  Submission, SubmissionStatus, BenchmarkRun, BenchmarkRunSummary, BenchmarkStatus, MetricSnapshot,
  MetricAggregate, LeaderboardEntry, Config,
}
use distributed_benchmark_pl.Queue.{Redis, enqueue_run}
use distributed_benchmark_pl.Store.{Db, find_submission, submission_key}

-- A file in the directory of a submission.
pub record StoredFile : Type 0 where
  pub dir : String
  pub name : String
  pub content : List ℕ

-- The tables, the queue, the submissions that have a directory of staged files, and these files.
pub record Backend (F E : Type 0) : Type 0 where
  pub db : Db F
  pub redis : Redis E
  pub staged : List String
  pub files : List StoredFile

pub data HandlerSite : Type 0 where
  select_submission delete_submission_row insert_run enqueue_call remove_files : HandlerSite
  make_dir open_upload create_dest insert_submission count_rows list_rows list_runs_rows :
      HandlerSite
  -- StructScan of the row with the id
  scan_row : String → HandlerSite

pub record HandlerEnv : Type 0 where
  pub fault : HandlerSite → Bool
  pub new_id : String
  pub now : ℕ
  -- after how many bytes the copy of an upload fails, if it does
  pub copied : Option ℕ
  -- where a row stands among those of its `created_at` in the order that the database picks for the query
  -- of this request
  pub place : Submission → ℕ

-- The payload of List: the rows and OKList's meta.
pub record Page : Type 0 where
  pub items : List Submission
  pub page : ℕ
  pub page_size : ℕ
  pub total_items : ℕ
  pub total_pages : ℕ

pub data Response : Type 0 where
  ok_submission : Submission → Response
  ok_list : Page → Response
  ok_runs : List BenchmarkRunSummary → Response
  created_submission : Submission → Response
  created_run : BenchmarkRun → Response
  no_content bad_request not_found conflict unprocessable internal_error : Response

-- A run of the submission is among the runs that a deletion takes along.
unfoldable pub has_run : String → String → List BenchmarkRun → Bool
has_run sub_id run_id [] = false
has_run sub_id run_id (r ∷ rs) =
    let rest = has_run sub_id run_id rs in
    if str_eq r.id run_id then (if str_eq r.submission_id sub_id then true else rest) else rest

-- The rows that fail the test.
unfoldable pub drop_if {ℓ} : {A : Type ℓ} → (A → Bool) → List A → List A
drop_if f [] = []
drop_if f (a ∷ l) = let rest = drop_if f l in if f a then rest else a ∷ rest

module _ {F : Type 0} where
  -- DELETE FROM submissions with the cascades of the foreign keys.
  unfoldable pub delete_cascade : String → Db F → Db F
  delete_cascade id d =
      let gone = λ (run_id : String). has_run id run_id d.benchmark_runs in
      record {
        submissions = delete_where submission_key id d.submissions;
        benchmark_runs = drop_if (λ r. str_eq r.submission_id id) d.benchmark_runs;
        metric_snapshots = drop_if (λ s. gone s.run_id) d.metric_snapshots;
        metric_aggregates = drop_if (λ a. gone a.run_id) d.metric_aggregates;
        leaderboard = drop_if (λ e. str_eq e.submission_id id || gone e.run_id) d.leaderboard;
      }

abbrev pub is_running : SubmissionStatus → Bool
is_running SubmissionStatus.running = true
is_running SubmissionStatus.pending = false
is_running SubmissionStatus.building = false
is_running SubmissionStatus.ready = false
is_running SubmissionStatus.completed = false
is_running SubmissionStatus.failed = false

abbrev pub is_runnable : SubmissionStatus → Bool
is_runnable SubmissionStatus.pending = true
is_runnable SubmissionStatus.ready = true
is_runnable SubmissionStatus.completed = true
is_runnable SubmissionStatus.building = false
is_runnable SubmissionStatus.running = false
is_runnable SubmissionStatus.failed = false

-- The row that TriggerRun inserts.
unfoldable pub new_run : {F : Type 0} → HandlerEnv → Config F → String → BenchmarkRun
new_run env cfg sub_id = record {
  id = env.new_id;
  submission_id = sub_id;
  status = BenchmarkStatus.queued;
  started_at = none;
  ended_at = none;
  duration_ms = none;
  bot_workers = cfg.bot_fleet_min_workers;
  bot_protocol = cfg.bot_protocol;
  bot_order_rate = cfg.bot_order_rate_per_worker;
  target_host = "";
  target_port = 0;
  error_msg = none;
  created_at = env.now;
}

module _ {F E : Type 0} where
  unfoldable pub get_submission : HandlerEnv → String → Backend F E → Response × Backend F E
  get_submission env id s =
      if env.fault select_submission then (internal_error, s) else elim (find_submission id s.db) [
        | none ↦ (not_found, s)
        | some sub ↦ (ok_submission sub, s)
      ]

  unfoldable pub delete_found :
      HandlerEnv → String → Submission → Backend F E → Response × Backend F E
  delete_found env id sub s =
      if is_running sub.status
      then (conflict, s)
      else if env.fault delete_submission_row
      then (internal_error, s)
      else (
        no_content,
        record s {
          db = delete_cascade id s.db;
          staged = if env.fault remove_files then s.staged else drop_if (λ d. str_eq d id) s.staged;
          files =
              if env.fault remove_files then s.files else drop_if (λ f. str_eq f.dir id) s.files;
        },
      )

  unfoldable pub delete : HandlerEnv → String → Backend F E → Response × Backend F E
  delete env id s =
      if env.fault select_submission then (internal_error, s) else elim (find_submission id s.db) [
        | none ↦ (not_found, s)
        | some sub ↦ delete_found env id sub s
      ]

  unfoldable pub trigger_found :
      HandlerEnv → Config F → String → Submission → Backend F E → Response × Backend F E
  trigger_found env cfg sub_id sub s =
      if is_runnable sub.status
      then if env.fault insert_run then (internal_error, s) else (
        created_run (new_run env cfg sub_id),
        record s {
          db = record s.db { benchmark_runs = s.db.benchmark_runs ++ new_run env cfg sub_id ∷ [] };
          redis = (enqueue_run (env.fault enqueue_call) env.new_id s.redis).1;
        },
      )
      else (conflict, s)

  unfoldable pub trigger_run : HandlerEnv → Config F → String → Backend F E → Response × Backend F E
  trigger_run env cfg sub_id s =
      if env.fault select_submission
      then (internal_error, s)
      else elim (find_submission sub_id s.db) [
        | none ↦ (not_found, s)
        | some sub ↦ trigger_found env cfg sub_id sub s
      ]
