-- ===== src/Worker/Recording.antt =====
-- failRun of backend/workers/benchmark_worker.go and the tables.
use mathlib.Core.Option
use distributed_benchmark_pl.Base.{
  ℕ, String, false, some, ◌≡◌, refl, ◌∙◌, arith, str_eq, if◌then◌else◌, eq_refl,
}
use distributed_benchmark_pl.Base.Table.{find_by-update_where}
use distributed_benchmark_pl.Models.{Submission, SubmissionStatus, BenchmarkRun}
use distributed_benchmark_pl.Store.{
  Db, find_submission, find_run, update_submission, update_run, submission_key, run_key,
}
use distributed_benchmark_pl.Exec.{err}
use distributed_benchmark_pl.Worker.{
  Env, Failure, run_failed, W, fail_run, fail_submission_of, lookup_submission,
  update_submission_status, failed_row, fail_run_row, fail_run_lookup, fail_submission,
}

module _ {F : Type 0} where
  pub find_run-update_run :
      (run_id rid : String) (f : BenchmarkRun → BenchmarkRun) (d : Db F)
      → ((r : BenchmarkRun) → (f r).id ≡ r.id)
      → find_run rid (update_run run_id f d)
        ≡ (if str_eq run_id rid then Option.map f (find_run rid d) else find_run rid d)
  unfolding find_run update_run
  find_run-update_run run_id rid f d keeps =
      find_by-update_where run_key run_id rid f d.benchmark_runs keeps

  pub find_submission-update_submission :
      (now : ℕ) (id sid : String) (f : Submission → Submission) (d : Db F)
      → ((s : Submission) → (f s).id ≡ s.id)
      → find_submission sid (update_submission now id f d) ≡ (
          if str_eq id sid
          then Option.map
              (λ (s : Submission). record (f s) { updated_at = now })
              (find_submission sid d)
          else find_submission sid d)
  unfolding find_submission update_submission
  find_submission-update_submission now id sid f d keeps =
      find_by-update_where submission_key id sid
        (λ (s : Submission). record (f s) { updated_at = now }) d.submissions keeps

  pub find_run-update_submission :
      (now : ℕ) (id rid : String) (f : Submission → Submission) (d : Db F)
      → find_run rid (update_submission now id f d) ≡ find_run rid d
  unfolding find_run update_submission
  find_run-update_submission now id rid f d = refl

-- The row of a submission whose run failed.
abbrev pub failed_submission : ℕ → Submission → Submission
failed_submission now s = record s { status = SubmissionStatus.failed; updated_at = now }

-- The three statements of failRun succeed.
pub record StatementsSucceed (env : Env) : Type 0 where
  pub row : env.fault fail_run_row ≡ false
  pub lookup : env.fault fail_run_lookup ≡ false
  pub submission : env.fault fail_submission ≡ false

module _ {F : Type 0} (env : Env) where
  -- When its statements succeed, failRun of a run in the table returns the failure, marks the run
  -- failed with the failure's message and its submission failed, and changes no other run and no
  -- other submission.
  pub fail_run_records :
      (A : Type 0) (run_id : String) (f : Failure) (run : BenchmarkRun) (w : W F) (rid sid : String)
      → StatementsSucceed env
      → find_run run_id w.db ≡ some run
      → str_eq run.submission_id "" ≡ false
      → let r = fail_run {A = A} env run_id f w in
        (r.0 ≡ err (run_failed f))
        × (find_run rid r.1.db ≡ (
            if str_eq run_id rid
            then Option.map (failed_row (env.now fail_run_row) f) (find_run rid w.db)
            else find_run rid w.db))
        × (find_submission sid r.1.db ≡ (
            if str_eq run.submission_id sid
            then Option.map (failed_submission (env.now fail_submission)) (find_submission sid w.db)
            else find_submission sid w.db))
  unfolding fail_run fail_submission_of lookup_submission update_submission_status update_run
      find_submission
  fail_run_records A run_id f run w rid sid ok found named =
      let upd = failed_row (env.now fail_run_row) f in
      let there = find_run-update_run run_id run_id upd w.db (λ r. refl) in
      let here : find_run run_id (update_run run_id upd w.db) ≡ some (upd run) =
        ground (arith, there, found, eq_refl run_id) in
      rw (ok.row, ok.lookup, here, named, ok.submission)
        (
          refl,
          find_run-update_submission _ _ rid _ _
              ∙ find_run-update_run run_id rid upd w.db (λ r. refl),
          find_submission-update_submission _ _ sid _ _ (λ s. refl),
        )
