-- ===== src/Worker/Statuses/Steps.antt =====
-- The steps of processRun that leave the rows of the run and its submission where they are.
use mathlib.Core.Option
use distributed_benchmark_pl.Base.{
  ℕ, String, Bool, true, false, Option, none, some, ◌≡◌, refl, str_eq, Bool-cases, inl, inr,
  if◌then◌else◌,
}
use distributed_benchmark_pl.Models.{Submission, SubmissionStatus, BenchmarkRun}
use distributed_benchmark_pl.Store.{
  Db, DockerCall, find_run, find_submission, update_run, update_submission,
}
use distributed_benchmark_pl.Exec.{call}
use distributed_benchmark_pl.Exec.Keeps.{Keeps, Keeps-call, Keeps-attempt, Keeps-pure, keeps_rules}
use distributed_benchmark_pl.Sandbox.{
  SandboxEnv, SandboxError, did, nothing, launch_container, tear_down, remove_image,
}
use distributed_benchmark_pl.Botfleet.Fleet.{is_some}
use distributed_benchmark_pl.Worker.{
  Env, W, exec, update_submission_status, update_container_info, update_run_target,
  update_run_started,
}
use distributed_benchmark_pl.Worker.Passive.{Passive}
use distributed_benchmark_pl.Worker.Recording.{
  find_run-update_run, find_submission-update_submission, find_run-update_submission,
}
use distributed_benchmark_pl.Worker.Statuses.{rows, status_of}

is_some-if :
    {A : Type 0} (b : Bool) (f : A → A) (o : Option A)
    → is_some (if b then Option.map f o else o) ≡ is_some o
is_some-if true f none = refl
is_some-if true f (some a) = refl
is_some-if false f o = refl

map_fields :
    (b : Bool) (f : BenchmarkRun → BenchmarkRun) (o : Option BenchmarkRun)
    → ((r : BenchmarkRun) → (f r).submission_id ≡ r.submission_id)
    → ((r : BenchmarkRun) → (f r).status ≡ r.status)
    → Option.map status_of (if b then Option.map f o else o) ≡ Option.map status_of o
map_fields true f none sub st = refl
map_fields true f (some r) sub st = rw (sub r, st r) refl
map_fields false f o sub st = refl

pub find_submission-update_run :
    {F : Type 0} (id : String) (f : BenchmarkRun → BenchmarkRun) (sid : String) (d : Db F)
    → find_submission sid (update_run id f d) ≡ find_submission sid d
unfolding find_submission update_run
find_submission-update_run id f sid d = refl

module _ {F : Type 0} (run_id sid : String) where
  pub rows-Passive : Passive {F = F} (rows run_id sid)
  unfolding find_run find_submission
  rows-Passive = record {
    snapshots = λ w l m. refl;
    aggregates = λ w l. refl;
    board = λ w l. refl;
    messages = λ w m. refl;
    images = λ w tag. refl;
  }

  Keeps-did :
      (b : Bool) (e : SandboxError) (c : DockerCall)
      → Keeps {S = W F} (rows run_id sid) (call b e (did c))
  unfolding find_run find_submission
  Keeps-did b e c = Keeps-call b e (did {F = F} c) (λ w. refl)

  Keeps-nothing :
      (b : Bool) (e : SandboxError) → Keeps {S = W F} (rows run_id sid) (call b e nothing)
  Keeps-nothing b e = Keeps-call b e (nothing {F = F}) (λ w. refl)

  pub launch_container-Keeps :
      (env : SandboxEnv) (tag sub_id : String)
      → Keeps {S = W F} (rows run_id sid) (launch_container env tag sub_id)
  unfolding launch_container
  launch_container-Keeps env tag sub_id = search (keeps_rules, Keeps-did, Keeps-nothing) depth 14

  remove_image-Keeps :
      (env : SandboxEnv) (tag : String) → Keeps {S = W F} (rows run_id sid) (remove_image env tag)
  unfolding remove_image
  remove_image-Keeps env tag = elim (Bool-cases (str_eq tag "")) [
    | inl empty ↦ rw empty (Keeps-pure tt)
    | inr named ↦ rw named (Keeps-attempt _ (Keeps-did _ _ _))
  ]

  pub tear_down-Keeps :
      (env : SandboxEnv) (id tag : String)
      → Keeps {S = W F} (rows run_id sid) (tear_down env id tag)
  unfolding tear_down
  tear_down-Keeps env id tag = search (keeps_rules, Keeps-did, remove_image-Keeps) depth 10

  exec_submission-Keeps :
      {E : Type 0} (b : Bool) (e : E) (now : ℕ) (id : String) (f : Submission → Submission)
      → ((s : Submission) → (f s).id ≡ s.id)
      → Keeps {S = W F} (rows run_id sid) (exec b e (update_submission now id f))
  exec_submission-Keeps b e now id f same =
      Keeps-call b e (λ (w : W F). (tt {0}, record w { db = update_submission now id f w.db }))
        (λ w.
          rw
            (
              find_run-update_submission now id run_id f w.db,
              find_submission-update_submission now id sid f w.db same,
              is_some-if (str_eq id sid) (λ (s : Submission). record (f s) { updated_at = now })
                  (find_submission sid w.db),
            )
            refl)

  exec_run-Keeps :
      {E : Type 0} (b : Bool) (e : E) (id : String) (f : BenchmarkRun → BenchmarkRun)
      → ((r : BenchmarkRun) → (f r).id ≡ r.id)
      → ((r : BenchmarkRun) → (f r).submission_id ≡ r.submission_id)
      → ((r : BenchmarkRun) → (f r).status ≡ r.status)
      → Keeps {S = W F} (rows run_id sid) (exec b e (update_run id f))
  exec_run-Keeps b e id f same sub st =
      Keeps-call b e (λ (w : W F). (tt {0}, record w { db = update_run id f w.db }))
        (λ w.
          rw
            (
              find_submission-update_run id f sid w.db,
              find_run-update_run id run_id f w.db same,
              map_fields (str_eq id run_id) f (find_run run_id w.db) sub st,
            )
            refl)

  pub update_submission_status-Keeps :
      (b : Bool) (now : ℕ) (sub_id : String) (st : SubmissionStatus)
      → Keeps {S = W F} (rows run_id sid) (update_submission_status b now sub_id st)
  unfolding update_submission_status
  update_submission_status-Keeps b now sub_id st =
      exec_submission-Keeps b _ now sub_id (λ (s : Submission). record s { status = st })
        (λ s. refl)

  pub update_container_info-Keeps :
      (env : Env) (sub_id id tag : String)
      → Keeps {S = W F} (rows run_id sid) (update_container_info env sub_id id tag)
  unfolding update_container_info
  update_container_info-Keeps env sub_id id tag = Keeps-attempt _ (
      exec_submission-Keeps _ _ _ sub_id
        (λ (s : Submission). record s { container_id = id; image_tag = tag }) (λ s. refl))

  pub update_run_target-Keeps :
      (env : Env) (id host : String) (port : ℕ)
      → Keeps {S = W F} (rows run_id sid) (update_run_target env id host port)
  unfolding update_run_target
  update_run_target-Keeps env id host port = Keeps-attempt _ (
      exec_run-Keeps _ _ id
        (λ (r : BenchmarkRun). record r { target_host = host; target_port = port }) (λ r. refl)
        (λ r. refl) (λ r. refl))

  pub update_run_started-Keeps :
      (env : Env) (id : String) → Keeps {S = W F} (rows run_id sid) (update_run_started env id)
  unfolding update_run_started
  update_run_started-Keeps env id = Keeps-attempt _ (
      exec_run-Keeps _ _ id (λ (r : BenchmarkRun). record r { started_at = some env.started_at })
        (λ r. refl) (λ r. refl) (λ r. refl))
