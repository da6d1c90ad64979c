-- ===== src/Worker/Statuses/Finishing.antt =====
-- The rows once the container runs: from updateContainerInfo in processRun to its end
-- (backend/workers/benchmark_worker.go).
use mathlib.Core.Option
use distributed_benchmark_pl.Base.{
  String, Bool, true, false, some, ◌≡◌, refl, sym, ap, ◌∙◌, arith, str_eq, eq_refl, subst,
}
use distributed_benchmark_pl.Base.Float.{Float64}
use distributed_benchmark_pl.Models.{
  Submission, SubmissionStatus, BenchmarkRun, BenchmarkStatus, Config,
}
use distributed_benchmark_pl.Store.{find_run, find_submission, update_run, update_submission}
use distributed_benchmark_pl.Exec.{ok, Exec, attempt, ◌>>◌}
use distributed_benchmark_pl.Exec.Triple.{
  Triple, Triple-bind, Triple-catch, Triple-attempt, Triple-raise,
}
use distributed_benchmark_pl.Exec.Keeps.{Keeps, Triple-Keeps}
use distributed_benchmark_pl.Sandbox.{SandboxEnv, ContainerInfo, tear_down}
use distributed_benchmark_pl.Telemetry.Hdr.{Histogram}
use distributed_benchmark_pl.Worker.{
  Env, RunError, Failure, with_done_context, after_wait, run_telemetry, add_telemetry, W, fail_run,
  complete_run, update_submission_status, finish_run, run_container, health_check_failed,
  fleet_start_failed, fleet_config, submission_running, submission_completed,
}
use distributed_benchmark_pl.Worker.Passive.{
  start_fleet-Keeps, wait_for_healthy-Keeps, get_container_logs-Keeps, compute_and_store-Keeps,
  run_telemetry-Keeps,
}
use distributed_benchmark_pl.Worker.Recording.{
  find_run-update_run, find_submission-update_submission, find_run-update_submission,
}
use distributed_benchmark_pl.Worker.Statuses.{
  OutcomeStatementsSucceed, status_of, rows, At, Completed, Ended,
}
use distributed_benchmark_pl.Worker.Statuses.Steps.{
  find_submission-update_run, rows-Passive, tear_down-Keeps, update_submission_status-Keeps,
  update_container_info-Keeps, update_run_target-Keeps, update_run_started-Keeps,
}
use distributed_benchmark_pl.Worker.Statuses.Failing.{
  completed_row, After-ok, some_row, some_submission, fail_run-Triple, container_info_ok,
  run_target_ok, run_started_ok,
}

module _ {F : Type 0} (H : Type 0) ⦃fl : Float64 F⦄ ⦃hdr : Histogram H⦄ (env : Env) (cfg : Config F)
    (run_id sid : String) (succeed : OutcomeStatementsSucceed env) (named : str_eq sid "" ≡ false)
    (st0 : BenchmarkStatus) where
  abbrev Running : W F → Type 0
  Running = At run_id sid BenchmarkStatus.running

  abbrev Fails : RunError → W F → Type 0
  Fails = Ended run_id sid st0

  keeping :
      {E A : Type 0} {E' : Type 0} (R : E' → W F → Type 0) (m : Exec (W F) E A)
      → Keeps (rows run_id sid) m
      → Triple Running (attempt {E' = E'} m) (λ _. Running) R
  keeping R m k = Triple-attempt (Triple-Keeps _ m k)

  run_telemetry-Triple :
      (sub : Submission) → Triple Running (run_telemetry H env cfg run_id sub) (λ _. Running) Fails
  unfolding run_telemetry add_telemetry
  run_telemetry-Triple sub = record {
    at = λ w h.
        (run_telemetry-Keeps H (rows run_id sid) (rows-Passive run_id sid) env cfg run_id sub).at w
        ∙ h;
  }

  -- The last two statements of a success.
  record_success :
      Triple Running
        (complete_run env run_id
          >> attempt {E' = RunError} (
              update_submission_status
                (env.fault submission_completed)
                (env.now submission_completed)
                sid
                SubmissionStatus.completed))
        (λ _. Completed run_id sid)
        Fails
  unfolding complete_run update_submission_status
  record_success = record {
    at = λ w h.
        let (run, found, v) =
          some_row (find_run run_id w.db) (sid, BenchmarkStatus.running) (ap (λ x. x.0) h) in
        let (sub, sub_found) = some_submission (find_submission sid w.db) (ap (λ x. x.1) h) in
        let of_sub : run.submission_id ≡ sid = ap (λ x. x.0) v in
        let g = completed_row env in
        let f = λ (s : Submission). record s { status = SubmissionStatus.completed } in
        let now = env.now submission_completed in
        let runs : find_run run_id (update_submission now sid f (update_run run_id g w.db))
            ≡ some (g run) =
          find_run-update_submission now sid run_id f _
          ∙ ground (
            arith,
            find_run-update_run run_id run_id g w.db (λ r. refl),
            found,
            eq_refl run_id,
          ) in
        let subs : find_submission sid (update_submission now sid f (update_run run_id g w.db))
            ≡ some (record (f sub) { updated_at = now }) =
          ground (
            arith,
            find_submission-update_submission now sid sid f (update_run run_id g w.db) (λ s. refl),
            find_submission-update_run run_id g sid w.db,
            sub_found,
            eq_refl sid,
          ) in
        rw (succeed.completing, succeed.submission)
          (
            ap (Option.map status_of) runs ∙ ap (λ x. some (x, BenchmarkStatus.completed)) of_sub,
            ap (Option.map (λ (s : Submission). s.status)) subs,
          );
  }

  finish_run-Triple :
      (sub : Submission) (info : ContainerInfo) (tag : String) (cancelled : Bool)
      → sub.id ≡ sid
      → Triple Running
          (finish_run H env cfg run_id sub info tag cancelled)
          (λ _. Completed run_id sid)
          Fails
  unfolding finish_run
  finish_run-Triple sub info tag true same =
      Triple-bind (λ _. Running) (run_telemetry-Triple sub)
        (λ _.
          Triple-bind (λ _. Running)
            (keeping _ _
              (tear_down-Keeps run_id sid (with_done_context env.sandbox) info.container_id tag))
            (λ _. Triple-raise _ (λ w h. ap (λ x. x.0) h)))
  finish_run-Triple sub info tag false same =
      Triple-bind (λ _. Running) (run_telemetry-Triple sub)
        (λ _.
          Triple-bind (λ _. Running)
            (keeping _ _
              (compute_and_store-Keeps _ (rows-Passive run_id sid) env.scoring cfg run_id))
            (λ _.
              Triple-bind (λ _. Running)
                (keeping _ _ (tear_down-Keeps run_id sid env.sandbox info.container_id tag))
                (λ _.
                  subst
                    (λ x.
                      Triple Running
                        (complete_run env run_id
                          >> attempt {E' = RunError} (
                              update_submission_status (env.fault submission_completed)
                                (env.now submission_completed) x SubmissionStatus.completed))
                        (λ _. Completed run_id sid) Fails)
                    (sym same) record_success)))

  -- A failure after the container was launched.
  failing-Triple :
      (called : SandboxEnv) (info : ContainerInfo) (tag : String) (f : Failure)
      → Triple Running
          (attempt (tear_down {F = F} called info.container_id tag)
            >> fail_run {A = Unit {0}} env run_id f)
          (λ _. Running)
          Fails
  failing-Triple called info tag f =
      Triple-bind (λ _. Running)
        (keeping _ _ (tear_down-Keeps run_id sid called info.container_id tag))
        (λ _. fail_run-Triple env run_id sid succeed named st0 BenchmarkStatus.running _ f)

  updating :
      (m : Exec (W F) RunError (Unit {0}))
      → Keeps (rows run_id sid) m
      → ((w : W F) → (m w).0 ≡ ok tt)
      → Triple Running m (λ _. Running) Fails
  updating m k total = record {
    at = λ w h. After-ok (λ _. Running) Fails tt (m w) (total w) (k.at w ∙ h);
  }

  pub run_container-Triple :
      (run : BenchmarkRun) (sub : Submission) (info : ContainerInfo) (tag : String)
      → sub.id ≡ sid
      → Triple Running
          (run_container H env cfg run sub run_id info tag)
          (λ _. Completed run_id sid)
          Fails
  unfolding run_container
  run_container-Triple run sub info tag same =
      Triple-bind (λ _. Running)
        (updating _ (update_container_info-Keeps run_id sid env sub.id info.container_id tag)
          (container_info_ok env sub.id info.container_id tag))
        (λ _.
          Triple-bind (λ _. Running)
            (updating _ (update_run_target-Keeps run_id sid env run_id info.host info.port)
              (run_target_ok env run_id info.host info.port))
            (λ _.
              Triple-bind (λ _. Running)
                (Triple-catch (λ _. Running)
                  (Triple-Keeps _ _ (wait_for_healthy-Keeps (rows run_id sid) env.sandbox))
                  (λ e.
                    Triple-bind (λ _. Running)
                      (keeping _ _
                        (get_container_logs-Keeps (rows run_id sid) (after_wait e env.sandbox)))
                      (λ _.
                        failing-Triple (after_wait e env.sandbox) info tag health_check_failed)))
                (λ _.
                  Triple-bind (λ _. Running)
                    (keeping _ _ (
                      update_submission_status-Keeps run_id sid (env.fault submission_running)
                        (env.now submission_running) sub.id SubmissionStatus.running))
                    (λ _.
                      Triple-bind (λ _. Running)
                        (updating _ (update_run_started-Keeps run_id sid env run_id)
                          (run_started_ok env run_id))
                        (λ _.
                          Triple-bind (λ _. Running)
                            (Triple-catch (λ _. Running)
                              (Triple-Keeps _ _ (
                                start_fleet-Keeps (rows run_id sid)
                                  (fleet_config cfg run sub run_id)))
                              (λ e. failing-Triple env.sandbox info tag fleet_start_failed))
                            (λ _. finish_run-Triple sub info tag env.cancelled same))))))
