-- ===== src/Worker/Statuses.antt =====
-- The statuses of a run and its submission through processRun
-- (backend/workers/benchmark_worker.go).
pub mod Steps
pub mod Failing
pub mod Finishing
pub mod Outcomes
use mathlib.Core.Option
use distributed_benchmark_pl.Base.{String, Bool, true, false, Option, none, some, ◌≡◌, ◌⊎◌}
use distributed_benchmark_pl.Models.{Submission, SubmissionStatus, BenchmarkRun, BenchmarkStatus}
use distributed_benchmark_pl.Store.{find_run, find_submission}
use distributed_benchmark_pl.Worker.{
  Env, Failure, RunError, run_failed, status_update_failed, context_cancelled, ignored, W, message,
  complete_run_row, submission_completed,
}
use distributed_benchmark_pl.Worker.Recording.{StatementsSucceed}
use distributed_benchmark_pl.Botfleet.Fleet.{is_some}

-- The statements that record how a run ended succeed. They do not when the context is done at them.
pub record OutcomeStatementsSucceed (env : Env) : Type 0 where
  pub failing : StatementsSucceed env
  pub completing : env.fault complete_run_row ≡ false
  pub submission : env.fault submission_completed ≡ false

abbrev pub status_of : BenchmarkRun → String × BenchmarkStatus
status_of r = (r.submission_id, r.status)

module _ {F : Type 0} (run_id : String) where
  -- The submission and the status of the run.
  abbrev pub run_status : W F → Option (String × BenchmarkStatus)
  run_status w = Option.map status_of (find_run run_id w.db)

  abbrev pub error_of : W F → Option (Option String)
  error_of w = Option.map (λ (r : BenchmarkRun). r.error_msg) (find_run run_id w.db)

abbrev pub submission_status : {F : Type 0} → String → W F → Option SubmissionStatus
submission_status sid w = Option.map (λ (s : Submission). s.status) (find_submission sid w.db)

module _ {F : Type 0} (run_id sid : String) where
  -- The submission and the status of the run, and whether the submission is there.
  abbrev pub rows : W F → Option (String × BenchmarkStatus) × Bool
  rows w = (run_status run_id w, is_some (find_submission sid w.db))

  -- The run of the submission `sid` has the status `st`, and the submission is there.
  abbrev pub At : BenchmarkStatus → W F → Type 0
  At st w = rows w ≡ (some (sid, st), true)

  -- How the rows stand after a success.
  abbrev pub Completed : W F → Type 0
  Completed w =
      (run_status run_id w ≡ some (sid, BenchmarkStatus.completed))
      × (submission_status sid w ≡ some SubmissionStatus.completed)

  -- How they stand after each error of a run that had the status `st`.
  abbrev pub Ended : BenchmarkStatus → RunError → W F → Type 0
  Ended st (run_failed f) w =
      (run_status run_id w ≡ some (sid, BenchmarkStatus.failed))
      × (error_of run_id w ≡ some (some (message f)))
      × (submission_status sid w ≡ some SubmissionStatus.failed)
  Ended st status_update_failed w =
      (run_status run_id w ≡ some (sid, st))
      ⊎ (run_status run_id w ≡ some (sid, BenchmarkStatus.running))
  Ended st context_cancelled w = run_status run_id w ≡ some (sid, BenchmarkStatus.running)
  Ended st ignored w = ⊥
