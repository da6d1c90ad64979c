-- ===== src/Worker/Loop/Triggered.antt =====
-- TriggerRun of backend/api/submission_handler.go and then one poll of the worker's loop in
-- backend/workers/benchmark_worker.go, on the same tables and the same queue.
use distributed_benchmark_pl.Base.{
  ℕ, String, Bool, false, none, some, List, [], ◌∷◌, ◌++◌, ◌≡◌, inl, inr, refl, sym, ap, ◌∙◌,
  str_eq, eq_refl, subst, if◌then◌else◌,
}
use distributed_benchmark_pl.Base.Float.{Float64}
use distributed_benchmark_pl.Base.Table.{find_by-append, find_by}
use distributed_benchmark_pl.Models.{Config, BenchmarkStatus}
use distributed_benchmark_pl.Exec.Triple.{After}
use distributed_benchmark_pl.Queue.Fifo.{waiting, AllNamed}
use distributed_benchmark_pl.Store.{
  DockerCall, Message, find_run, find_submission, run_key, submission_key,
}
use distributed_benchmark_pl.Submissions.{
  Backend, HandlerEnv, created_run, new_run, trigger_run, enqueue_call,
}
use distributed_benchmark_pl.Submissions.Triggering.{Triggered, trigger_queues_or_keeps}
use distributed_benchmark_pl.Telemetry.Hdr.{Histogram}
use distributed_benchmark_pl.Worker.{Env, RunError, W, process_run}
use distributed_benchmark_pl.Worker.Loop.{poll, run, spec_run, worker_serves_queue}
use distributed_benchmark_pl.Worker.Statuses.{OutcomeStatementsSucceed, At, Completed, Ended}
use distributed_benchmark_pl.Worker.Statuses.Outcomes.{process_run_statuses}

module _ {F : Type 0} (henv : HandlerEnv) (cfg : Config F) (sub_id : String)
    (s : Backend F RunError) where
  -- The state after TriggerRun, and the world that the worker finds.
  abbrev pub after_trigger : Backend F RunError
  after_trigger = (trigger_run henv cfg sub_id s).1

  abbrev pub world_of : List DockerCall → List (Message F) → W F
  world_of docker published = record {
    db = after_trigger.db;
    docker = docker;
    published = published;
  }

  module _
      (answer : (trigger_run henv cfg sub_id s).0 ≡ created_run (new_run henv cfg sub_id)) where
    triggered : Triggered henv cfg sub_id s after_trigger
    triggered = elim (trigger_queues_or_keeps henv cfg sub_id s) [
      | inl (same, t) ↦ t
      | inr (other, same) ↦ absurd (other answer)
    ]

    trigger_run-At :
        (docker : List DockerCall) (published : List (Message F))
        → find_run henv.new_id s.db ≡ none
        → At henv.new_id sub_id BenchmarkStatus.queued (world_of docker published)
    unfolding find_run find_submission new_run find_by
    trigger_run-At docker published fresh =
        let id = henv.new_id in
        let new = new_run henv cfg sub_id in
        let absent : find_by run_key id s.db.benchmark_runs ≡ none = fresh in
        let alone : find_by run_key id (new ∷ []) ≡ some new = rw (find_by, eq_refl id) refl in
        let appended = find_by-append run_key id s.db.benchmark_runs (new ∷ []) in
        let last : find_by run_key id (s.db.benchmark_runs ++ new ∷ []) ≡ some new =
          rw (appended, absent) alone in
        let run_there : find_by run_key id after_trigger.db.benchmark_runs ≡ some new =
          ap (find_by run_key id) triggered.row ∙ last in
        let sub_there : find_by submission_key sub_id after_trigger.db.submissions
            ≡ some triggered.sub =
          ap (find_by submission_key sub_id) triggered.submissions ∙ triggered.found in
        rw (run_there, sub_there) refl

    module _ (H : Type 0) ⦃fl : Float64 F⦄ ⦃hdr : Histogram H⦄ (env : Env) where
      -- If TriggerRun answers with a new run and its enqueue works, no run was waiting, the new
      -- identifier is not in the table, it and the submission's are not empty, and the statements
      -- that record an outcome succeed, then after the worker's next poll none is waiting, the world is
      -- the one that processRun leaves of this run, and the run and its submission are completed if
      -- processRun returned no error, and stand as they do after its error if it returned one.
      pub triggered_run_ends :
          (docker : List DockerCall) (published : List (Message F)) (fault : Bool) (now : ℕ)
          → henv.fault enqueue_call ≡ false
          → waiting s.redis ≡ []
          → str_eq henv.new_id "" ≡ false
          → str_eq sub_id "" ≡ false
          → find_run henv.new_id s.db ≡ none
          → OutcomeStatementsSucceed env
          → let out =
              run H cfg
                (poll env fault now ∷ [])
                (after_trigger.redis, world_of docker published) in
            let ended = process_run H env cfg henv.new_id (world_of docker published) in
            (waiting out.0 ≡ [])
            × (out.1 ≡ ended.1)
            × After
                (λ a. Completed henv.new_id sub_id)
                (Ended henv.new_id sub_id BenchmarkStatus.queued)
                ended
      unfolding spec_run
      triggered_run_ends docker published fault now enqueued idle id_named sub_named fresh succeed =
          let w = world_of docker published in
          let es = poll env fault now ∷ [] in
          let queue : waiting after_trigger.redis ≡ henv.new_id ∷ [] =
            triggered.queued
            ∙ ap (λ b. if b then waiting s.redis else waiting s.redis ++ henv.new_id ∷ []) enqueued
            ∙ ap (λ q. q ++ henv.new_id ∷ []) idle in
          let served =
            worker_serves_queue H cfg es after_trigger.redis w
              (subst AllNamed (sym queue) (id_named, tt)) in
          let ends =
            process_run_statuses H env cfg henv.new_id sub_id succeed sub_named
              BenchmarkStatus.queued w (trigger_run-At docker published fresh) in
          let world = served.2 ∙ ap (λ q. (spec_run H cfg es q w).world) queue in
          (served.0 ∙ ap (λ q. (spec_run H cfg es q w).left) queue, world, ends)
