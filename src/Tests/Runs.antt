-- ===== src/Tests/Runs.antt =====
-- The worker at a concrete run, and the queue.
use distributed_benchmark_pl.Base.{none}
use distributed_benchmark_pl.Submissions.{
  Backend, HandlerEnv, trigger_run, trigger_found, new_run, created_run,
}
use distributed_benchmark_pl.Queue.{queue_length}
use distributed_benchmark_pl.Base.{◌-◌, length, false}
use distributed_benchmark_pl.Worker.Loop.Triggered.{after_trigger, world_of, triggered_run_ends}
use distributed_benchmark_pl.Base.{
  arith, ℕ, ◌≡◌, refl, true, false, none, List, [], ◌∷◌, ◌++◌, reverse,
}
use distributed_benchmark_pl.Store.{live, without}
use distributed_benchmark_pl.Queue.{Redis}
use distributed_benchmark_pl.Queue.Fifo
use distributed_benchmark_pl.Queue.Fifo.{
  Op, enqueue, enqueue_fails, dequeue, waiting, enqueued, run_is_fifo,
}
use distributed_benchmark_pl.Sandbox.Service.{runc}
use distributed_benchmark_pl.Sandbox.{SandboxEnv, unreachable, response}
use distributed_benchmark_pl.Exec.{err}
use distributed_benchmark_pl.Base.{some}
use distributed_benchmark_pl.Base.Table.{find_by}
use distributed_benchmark_pl.Store.{find_run, find_submission}
use distributed_benchmark_pl.Models.{BenchmarkStatus}
use distributed_benchmark_pl.Exec.Triple.{After}
use distributed_benchmark_pl.Worker.Statuses.{OutcomeStatementsSucceed, At, Completed, Ended}
use distributed_benchmark_pl.Worker.Statuses.Outcomes.{process_run_statuses}
use distributed_benchmark_pl.Worker.Recording.{failed_submission, fail_run_records}
use distributed_benchmark_pl.Worker.{
  fail_run, health_check_failed, run_failed, failed_row, Env, RunError, W, process_run,
}
use distributed_benchmark_pl.Worker.Containers.{no_container_left}
use distributed_benchmark_pl.Worker.Loop
use distributed_benchmark_pl.Worker.Loop.{
  Round, poll, dequeue_error, shut_down, worker_serves_queue, polls, polls_empty_queue,
}
use distributed_benchmark_pl.Tests.Data.{settings, the_submission, the_run, a_sample, flush_ok}
use distributed_benchmark_pl.Telemetry.{sample, closed}
use distributed_benchmark_pl.Tests.Instances.{Counts, whole, counts}

-- The engine answers in the second round.
abbrev daemon : SandboxEnv
daemon = record {
  fault = λ site. false;
  has_dockerfile = true;
  container_id = "c0ffee000001";
  ip_address = none;
  docker_network = "";
  runtime = runc;
  limits = (1000000000, 536870912);
  health = unreachable ∷ response 200 ∷ [];
}

abbrev env : Env
env = record {
  fault = λ site. false;
  now = λ site. 10;
  sandbox = daemon;
  scoring = record { fault = λ site. false; now = 11 };
  telemetry = sample (a_sample true 2000000) ∷ closed flush_ok ∷ [];
  cancelled = false;
  started_at = 100;
  ended_at = 200;
}

abbrev world : W ℕ
world = record {
  db = record {
    submissions = the_submission ∷ [];
    benchmark_runs = the_run ∷ [];
    metric_snapshots = [];
    metric_aggregates = [];
    leaderboard = [];
  };
  docker = [];
  published = [];
}

no_container_left_example : live (process_run Counts env settings "run-1" world).1.docker ≡ []
unfolding live without
no_container_left_example =
    no_container_left Counts env settings
      (record { removes = refl; undoes = refl; inspects = refl }) [] refl refl refl "run-1" world
      refl

abbrev idle : Redis RunError
idle = record { benchmark_runs = []; dead_letter = [] }

abbrev ops : List Op
ops = enqueue "run-1" ∷ enqueue_fails "run-2" ∷ enqueue "run-3" ∷ dequeue ∷ []

run_is_fifo_example :
    ((Fifo.run ops idle).0 ++ waiting (Fifo.run ops idle).1 ≡ "run-1" ∷ "run-3" ∷ [])
    × (queue_length false (Fifo.run ops idle).1 ≡ some (2 - length (Fifo.run ops idle).0))
unfolding enqueued
run_is_fifo_example = run_is_fifo ops idle refl (refl, (refl, tt))

abbrev loaded : Redis RunError
loaded = record { benchmark_runs = "run-9" ∷ "run-1" ∷ []; dead_letter = [] }

-- The first run succeeds, the second has no row, and the worker is shut down.
abbrev rounds : List Round
rounds = poll env false 20 ∷ dequeue_error false ∷ poll env false 30 ∷ shut_down ∷ []

worker_serves_queue_example :
    let s = Loop.run Counts settings rounds (loaded, world) in
    let spec = Loop.spec_run Counts settings rounds (waiting loaded) world in
    (waiting s.0 ≡ spec.left) × (reverse s.0.dead_letter ≡ spec.dead) × (s.1 ≡ spec.world)
worker_serves_queue_example =
    worker_serves_queue Counts settings rounds loaded world (refl, (refl, tt))

-- The run's health check fails.
fail_run_records_example :
    let r = fail_run {A = Unit {0}} env "run-1" health_check_failed world in
    (r.0 ≡ err (run_failed health_check_failed))
    × (find_run "run-1" r.1.db ≡ some (failed_row 10 health_check_failed the_run))
    × (find_submission "sub-0001" r.1.db ≡ some (failed_submission 10 the_submission))
unfolding find_run find_submission find_by
fail_run_records_example =
    fail_run_records env (Unit {0}) "run-1" health_check_failed the_run world "run-1" "sub-0001"
      (record { row = refl; lookup = refl; submission = refl }) refl refl

abbrev all_succeed : OutcomeStatementsSucceed env
all_succeed = record {
  failing = record { row = refl; lookup = refl; submission = refl };
  completing = refl;
  submission = refl;
}

At-start : At "run-1" "sub-0001" BenchmarkStatus.queued world
unfolding find_run find_submission find_by
At-start = refl

process_run_statuses_example :
    After
      (λ _. Completed "run-1" "sub-0001")
      (Ended "run-1" "sub-0001" BenchmarkStatus.queued)
      (process_run Counts env settings "run-1" world)
process_run_statuses_example =
    process_run_statuses Counts env settings "run-1" "sub-0001" all_succeed refl
      BenchmarkStatus.queued world At-start

abbrev two_polls : List Round
two_polls = poll env false 20 ∷ dequeue_error false ∷ poll env false 30 ∷ []

polls_empty_queue_example : waiting (Loop.run Counts settings two_polls (loaded, world)).0 ≡ []
unfolding polls
polls_empty_queue_example =
    polls_empty_queue Counts settings two_polls loaded world (refl, (refl, tt)) tt (omega arith)

abbrev calls_work : HandlerEnv
calls_work = record {
  fault = λ site. false;
  new_id = "run-2";
  now = 12;
  copied = none;
  place = λ x. 0;
}

-- A submission that is ready, and an empty queue.
abbrev ready_backend : Backend ℕ RunError
ready_backend = record { db = world.db; redis = idle; staged = []; files = [] }

run_answered :
    (trigger_run calls_work settings "sub-0001" ready_backend).0
    ≡ created_run (new_run calls_work settings "sub-0001")
unfolding trigger_run trigger_found find_submission find_by
run_answered = refl

run_fresh : find_run "run-2" ready_backend.db ≡ none
unfolding find_run find_by
run_fresh = refl

triggered_run_ends_example :
    let out = Loop.run Counts settings (poll env false 20 ∷ []) (
      (after_trigger calls_work settings "sub-0001" ready_backend).redis,
      world_of calls_work settings "sub-0001" ready_backend [] [],
    ) in
    let ended =
      process_run Counts env settings "run-2"
        (world_of calls_work settings "sub-0001" ready_backend [] []) in
    (waiting out.0 ≡ [])
    × (out.1 ≡ ended.1)
    × After
        (λ a. Completed "run-2" "sub-0001")
        (Ended "run-2" "sub-0001" BenchmarkStatus.queued)
        ended
triggered_run_ends_example =
    triggered_run_ends calls_work settings "sub-0001" ready_backend run_answered Counts env [] []
      false 20 refl refl refl refl run_fresh all_succeed
