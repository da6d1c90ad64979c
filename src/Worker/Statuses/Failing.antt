-- ===== src/Worker/Statuses/Failing.antt =====
-- The rows that completeRun and failRun leave (backend/workers/benchmark_worker.go).
use mathlib.Core.Option
use distributed_benchmark_pl.Base.{
  ℕ, ◌-◌, ◌/◌, String, true, false, Option, none, some, List, [], ◌∷◌, ◌≡◌, inl, inr, refl, sym, ap,
  arith, str_eq, eq_refl, Bool-cases, subst, All,
}
use distributed_benchmark_pl.Base.Table.{find_by_sound}
use distributed_benchmark_pl.Models.{Submission, BenchmarkRun, BenchmarkStatus}
use distributed_benchmark_pl.Store.{Db, submission_key, find_run, find_submission}
use distributed_benchmark_pl.Exec.{Result, ok, err}
use distributed_benchmark_pl.Exec.Triple.{After, Triple}
use distributed_benchmark_pl.Botfleet.Fleet.{is_some}
use distributed_benchmark_pl.Worker.{
  Env, Failure, run_failed, container_info, run_target, run_started, update_container_info,
  update_run_target, update_run_started, W, fail_run, fail_run_row, fail_submission, failed_row,
}
use distributed_benchmark_pl.Worker.Recording.{fail_run_records, failed_submission}
use distributed_benchmark_pl.Worker.Statuses.{OutcomeStatementsSucceed, status_of, At, Ended}

-- The row that completeRun writes.
abbrev pub completed_row : Env → BenchmarkRun → BenchmarkRun
completed_row env r = record r {
  status = BenchmarkStatus.completed;
  ended_at = some env.ended_at;
  duration_ms = some ((env.ended_at - env.started_at) / 1000000);
}

abbrev pub running_row : BenchmarkRun → BenchmarkRun
running_row r = record r { status = BenchmarkStatus.running }

pub After-err :
    {S E A : Type 0} (Q : A → S → Type 0) (R : E → S → Type 0) (e : E) (r : Result E A × S)
    → r.0 ≡ err e
    → R e r.1
    → After Q R r
After-err Q R e (ok a, s) same h = cc
After-err Q R e (err f, s) same h = let eq : f ≡ e = cc in subst (λ x. R x s) (sym eq) h

pub After-ok :
    {S E A : Type 0} (Q : A → S → Type 0) (R : E → S → Type 0) (a : A) (r : Result E A × S)
    → r.0 ≡ ok a
    → Q a r.1
    → After Q R r
After-ok Q R a (ok b, s) same h = let eq : b ≡ a = cc in subst (λ x. Q x s) (sym eq) h
After-ok Q R a (err e, s) same h = cc

pub submission-id :
    {F : Type 0} (k : String) (d : Db F) (s : Submission) → find_submission k d ≡ some s → s.id ≡ k
unfolding find_submission
submission-id k d s e =
    (find_by_sound submission_key (λ _. Unit {0}) k d.submissions (all d.submissions) e).1
  where
    all : (l : List Submission) → All (λ _. Unit {0}) l
    all [] = tt
    all (x ∷ l) = (tt, all l)

-- A row behind a view of it.
pub some_row :
    (o : Option BenchmarkRun) (v : String × BenchmarkStatus)
    → Option.map status_of o ≡ some v
    → (r : BenchmarkRun) × (o ≡ some r) × (status_of r ≡ v)
some_row none v h = cc
some_row (some r) v h = (r, refl, cc)

pub some_submission : (o : Option Submission) → is_some o ≡ true → (s : Submission) × (o ≡ some s)
some_submission none h = cc
some_submission (some s) h = (s, refl)

module _ {F : Type 0} (env : Env) (run_id sid : String) (succeed : OutcomeStatementsSucceed env)
    (named : str_eq sid "" ≡ false) (st0 : BenchmarkStatus) where
  pub fail_run-Ended :
      (A : Type 0) (f : Failure) (run : BenchmarkRun) (w : W F)
      → find_run run_id w.db ≡ some run
      → run.submission_id ≡ sid
      → is_some (find_submission sid w.db) ≡ true
      → Ended run_id sid st0 (run_failed f) (fail_run {A = A} env run_id f w).1
  fail_run-Ended A f run w found of_sub there =
      let (sub, sub_found) = some_submission (find_submission sid w.db) there in
      let still : str_eq run.submission_id "" ≡ false = rw of_sub named in
      let r = fail_run_records env A run_id f run w run_id sid succeed.failing found still in
      let run_row : find_run run_id (fail_run {A = A} env run_id f w).1.db
          ≡ some (failed_row (env.now fail_run_row) f run) =
        ground (arith, r, found, eq_refl run_id) in
      let sub_row : find_submission sid (fail_run {A = A} env run_id f w).1.db
          ≡ some (failed_submission (env.now fail_submission) sub) =
        ground (arith, r, sub_found, of_sub, eq_refl sid) in
      rw (run_row, sub_row, of_sub) (refl, refl, refl)

  pub fail_run-Triple :
      {A : Type 0} (st : BenchmarkStatus) (Q : A → W F → Type 0) (f : Failure)
      → Triple (At run_id sid st) (fail_run {A = A} env run_id f) Q (Ended run_id sid st0)
  fail_run-Triple {A} st Q f = record {
    at = λ w h.
        let (run, found, v) = some_row (find_run run_id w.db) (sid, st) (ap (λ x. x.0) h) in
        let of_sub : run.submission_id ≡ sid = ap (λ x. x.0) v in
        let there : is_some (find_submission sid w.db) ≡ true = ap (λ x. x.1) h in
        let r =
          fail_run_records env A run_id f run w run_id sid succeed.failing found
            (rw of_sub named) in
        After-err Q (Ended run_id sid st0) (run_failed f) (fail_run env run_id f w) r.0
          (fail_run-Ended A f run w found of_sub there);
  }

module _ {F : Type 0} (env : Env) where
  pub container_info_ok :
      (sub_id id tag : String) (w : W F) → (update_container_info env sub_id id tag w).0 ≡ ok tt
  unfolding update_container_info
  container_info_ok sub_id id tag w = elim (Bool-cases (env.fault container_info)) [
    | inl fails ↦ rw fails refl
    | inr works ↦ rw works refl
  ]

  pub run_target_ok :
      (id host : String) (port : ℕ) (w : W F) → (update_run_target env id host port w).0 ≡ ok tt
  unfolding update_run_target
  run_target_ok id host port w = elim (Bool-cases (env.fault run_target)) [
    | inl fails ↦ rw fails refl
    | inr works ↦ rw works refl
  ]

  pub run_started_ok : (id : String) (w : W F) → (update_run_started env id w).0 ≡ ok tt
  unfolding update_run_started
  run_started_ok id w = elim (Bool-cases (env.fault run_started)) [
    | inl fails ↦ rw fails refl
    | inr works ↦ rw works refl
  ]
