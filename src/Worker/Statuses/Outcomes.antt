-- ===== src/Worker/Statuses/Outcomes.antt =====
-- How the rows of a run and its submission stand when processRun has returned.
use distributed_benchmark_pl.Base.{
  String, true, false, some, ◌≡◌, inl, inr, refl, ap, ◌∙◌, arith, str_eq, eq_refl, Bool-cases,
}
use distributed_benchmark_pl.Base.Float.{Float64}
use distributed_benchmark_pl.Models.{
  Submission, SubmissionStatus, BenchmarkRun, BenchmarkStatus, Config,
}
use distributed_benchmark_pl.Store.{find_run, find_submission, update_run}
use distributed_benchmark_pl.Exec.Triple.{After, Triple, Triple-bind, Triple-catch, Triple-call}
use distributed_benchmark_pl.Exec.Keeps.{Triple-Keeps}
use distributed_benchmark_pl.Botfleet.Fleet.{is_some}
use distributed_benchmark_pl.Telemetry.Hdr.{Histogram}
use distributed_benchmark_pl.Worker.{
  Env, RunError, W, update_submission_status, update_run_status, run_loaded, process_run,
  load_run_and_submission, load_failed, build_failed, launch_failed, submission_building,
  run_running, load_run, load_submission, status_update_failed,
}
use distributed_benchmark_pl.Worker.Passive.{build_image-Keeps}
use distributed_benchmark_pl.Worker.Recording.{find_run-update_run}
use distributed_benchmark_pl.Worker.Statuses.{OutcomeStatementsSucceed, rows, At, Completed, Ended}
use distributed_benchmark_pl.Worker.Statuses.Steps.{
  find_submission-update_run, rows-Passive, launch_container-Keeps, update_submission_status-Keeps,
}
use distributed_benchmark_pl.Worker.Statuses.Failing.{
  running_row, submission-id, some_row, some_submission, fail_run-Triple,
}
use distributed_benchmark_pl.Worker.Statuses.Finishing.{run_container-Triple}

module _ {F : Type 0} (H : Type 0) ⦃fl : Float64 F⦄ ⦃hdr : Histogram H⦄ (env : Env) (cfg : Config F)
    (run_id sid : String) (succeed : OutcomeStatementsSucceed env) (named : str_eq sid "" ≡ false)
    (st0 : BenchmarkStatus) where
  abbrev Running : W F → Type 0
  Running = At run_id sid BenchmarkStatus.running

  abbrev Fails : RunError → W F → Type 0
  Fails = Ended run_id sid st0

  -- Updates of a run's status.
  update_run_status-Triple :
      Triple
        (At run_id sid st0)
        (update_run_status (env.fault run_running) run_id BenchmarkStatus.running)
        (λ _. Running)
        Fails
  unfolding update_run_status
  update_run_status-Triple =
      Triple-call (env.fault run_running) status_update_failed
        (λ (w : W F). (tt {0}, record w { db = update_run run_id running_row w.db }))
        (λ works w h.
          let (run, found, v) = some_row (find_run run_id w.db) (sid, st0) (ap (λ x. x.0) h) in
          let of_sub : run.submission_id ≡ sid = ap (λ x. x.0) v in
          let there : is_some (find_submission sid w.db) ≡ true = ap (λ x. x.1) h in
          let runs : find_run run_id (update_run run_id running_row w.db) ≡ some (running_row run) =
            ground (
              arith,
              find_run-update_run run_id run_id running_row w.db (λ r. refl),
              found,
              eq_refl run_id,
            ) in
          rw (runs, find_submission-update_run run_id running_row sid w.db, there, of_sub) refl)
        (λ fails w h. inl (ap (λ x. x.0) h))

  update_building-Triple :
      (id : String)
      → Triple Running
          (update_submission_status
            (env.fault submission_building)
            (env.now submission_building)
            id
            SubmissionStatus.building)
          (λ _. Running)
          Fails
  unfolding update_submission_status
  update_building-Triple id =
      Triple-call (env.fault submission_building) status_update_failed _
        (λ works w h.
          (update_submission_status-Keeps run_id sid false (env.now submission_building) id
              SubmissionStatus.building).at
            w
          ∙ h)
        (λ fails w h. inr (ap (λ x. x.0) h))

  run_loaded-Triple :
      (run : BenchmarkRun) (sub : Submission)
      → sub.id ≡ sid
      → Triple
          (At run_id sid st0)
          (run_loaded H env cfg run_id (run, sub))
          (λ _. Completed run_id sid)
          Fails
  unfolding run_loaded
  run_loaded-Triple run sub same =
      Triple-bind (λ _. Running) update_run_status-Triple
        (λ _.
          Triple-bind (λ _. Running) (update_building-Triple sub.id)
            (λ _.
              Triple-bind (λ _. Running)
                (Triple-catch (λ _. Running)
                  (Triple-Keeps _ _ (
                    build_image-Keeps (rows run_id sid) (rows-Passive run_id sid) env.sandbox sub.id
                      sub.language))
                  (λ e.
                    fail_run-Triple env run_id sid succeed named st0 BenchmarkStatus.running _
                      (build_failed e)))
                (λ tag.
                  Triple-bind (λ _. Running)
                    (Triple-catch (λ _. Running)
                      (Triple-Keeps _ _ (launch_container-Keeps run_id sid env.sandbox tag sub.id))
                      (λ e.
                        fail_run-Triple env run_id sid succeed named st0 BenchmarkStatus.running _
                          (launch_failed e)))
                    (λ info.
                      run_container-Triple H env cfg run_id sid succeed named st0 run sub info tag
                        same))))

  load-Triple :
      Triple {S = W F}
        (At run_id sid st0)
        (load_run_and_submission env run_id)
        (λ p w. (p.1.id ≡ sid) × At run_id sid st0 w)
        (λ _ w. At run_id sid st0 w)
  unfolding load_run_and_submission
  load-Triple = record {
    at = λ w h.
        let (run, found, v) = some_row (find_run run_id w.db) (sid, st0) (ap (λ x. x.0) h) in
        let (sub, sub_found) = some_submission (find_submission sid w.db) (ap (λ x. x.1) h) in
        let of_sub : run.submission_id ≡ sid = ap (λ x. x.0) v in
        elim (Bool-cases (env.fault load_run)) [
          | inl fails ↦ rw fails h
          | inr works ↦ elim (Bool-cases (env.fault load_submission)) [
            | inl fails ↦ rw (works, found, fails) h
            | inr fine ↦
                rw (works, found, fine, of_sub, sub_found) (submission-id sid w.db sub sub_found, h)
          ]
        ];
  }

  process_run-Triple :
      Triple (At run_id sid st0) (process_run H env cfg run_id) (λ _. Completed run_id sid) Fails
  unfolding process_run
  process_run-Triple =
      Triple-bind (λ p w. (p.1.id ≡ sid) × At run_id sid st0 w)
        (Triple-catch (λ _. At run_id sid st0) load-Triple
          (λ e. fail_run-Triple env run_id sid succeed named st0 st0 _ load_failed))
        (λ p. record { at = λ w h. (run_loaded-Triple p.0 p.1 h.0).at w h.1 })

  -- When the statements that record an outcome succeed, processRun of a run whose submission is in the
  -- table ends in one of these ways: without an error, and then the run and the submission are
  -- completed; with a failure, and then the run is failed with that failure's message and the
  -- submission is failed; cancelled, and then the run still says running; or with a failed status
  -- update, and then the run says running or what it said before. All other calls may fail.
  pub process_run_statuses :
      (w : W F)
      → At run_id sid st0 w
      → After (λ _. Completed run_id sid) (Ended run_id sid st0) (process_run H env cfg run_id w)
  process_run_statuses w h = process_run-Triple.at w h
