-- ===== src/Worker/Quiet.antt =====
-- The containers that exist, as a view of the state, and the statements of the worker that leave it
-- as it is.
use distributed_benchmark_pl.Base.{
  ℕ, String, Bool, Option, none, some, List, ◌≡◌, refl, str_eq, Bool-cases, inl, inr,
}
use distributed_benchmark_pl.Models.{BenchmarkRun, BenchmarkStatus, SubmissionStatus}
use distributed_benchmark_pl.Store.{Db, live}
use distributed_benchmark_pl.Exec.Keeps.{Keeps, Keeps-call, Keeps-attempt, Keeps-pure, keeps_rules}
use distributed_benchmark_pl.Worker.{
  Env, W, exec, update_run_status, update_submission_status, fail_submission_of, complete_run,
}
use distributed_benchmark_pl.Worker.Passive.{Passive}

abbrev pub containers : {F : Type 0} → W F → List String
containers w = live w.docker

-- The containers that exist are those of `l`.
abbrev pub Live : {F : Type 0} → List String → W F → Type 0
Live l w = containers w ≡ l

module _ {F : Type 0} where
  pub containers-Passive : Passive {F = F} containers
  unfolding live
  containers-Passive = record {
    snapshots = λ w l m. refl;
    aggregates = λ w l. refl;
    board = λ w l. refl;
    messages = λ w m. refl;
    images = λ w tag. refl;
  }

  pub Keeps-exec :
      {E : Type 0} (b : Bool) (e : E) (f : Db F → Db F) → Keeps {S = W F} containers (exec b e f)
  Keeps-exec b e f = Keeps-call b e (λ (w : W F). (tt {0}, record w { db = f w.db })) (λ w. refl)

module _ {F : Type 0} (env : Env) where
  pub update_run_status-Keeps :
      (b : Bool) (run_id : String) (st : BenchmarkStatus)
      → Keeps {S = W F} containers (update_run_status b run_id st)
  unfolding update_run_status
  update_run_status-Keeps b run_id st = Keeps-exec _ _ _

  pub update_submission_status-Keeps :
      (b : Bool) (now : ℕ) (sub_id : String) (st : SubmissionStatus)
      → Keeps {S = W F} containers (update_submission_status b now sub_id st)
  unfolding update_submission_status
  update_submission_status-Keeps b now sub_id st = Keeps-exec _ _ _

  pub fail_submission_of-Keeps :
      (o : Option BenchmarkRun) → Keeps {S = W F} containers (fail_submission_of env o)
  unfolding fail_submission_of
  fail_submission_of-Keeps none = Keeps-pure tt
  fail_submission_of-Keeps (some r) = elim (Bool-cases (str_eq r.submission_id "")) [
    | inl empty ↦ rw empty (Keeps-pure tt)
    | inr named ↦ rw named (Keeps-attempt _ (update_submission_status-Keeps _ _ _ _))
  ]

  pub complete_run-Keeps : (run_id : String) → Keeps {S = W F} containers (complete_run env run_id)
  unfolding complete_run
  complete_run-Keeps run_id = search (keeps_rules, Keeps-exec)
