-- ===== src/Worker/Containers.antt =====
-- The containers that exist before, during and after processRun
-- (backend/workers/benchmark_worker.go).
use distributed_benchmark_pl.Base.{
  ℕ, String, Bool, true, false, List, [], ◌∷◌, ltb, if◌then◌else◌, refl, Bool-cases, inl, inr, ◌≡◌,
  ap, ◌∙◌, arith, eq_refl,
}
use distributed_benchmark_pl.Base.Float.{Float64}
use distributed_benchmark_pl.Models.{Submission, SubmissionStatus, BenchmarkRun, Config}
use distributed_benchmark_pl.Store.{live, without}
use distributed_benchmark_pl.Exec.{Result, ok, err, Exec, attempt, ◌>>◌}
use distributed_benchmark_pl.Exec.Triple.{
  After, Triple, Triple-bind, Triple-catch, Triple-attempt, Triple-raise,
}
use distributed_benchmark_pl.Sandbox.{
  SandboxEnv, ContainerInfo, launch_container, tear_down, remove_image, container_remove,
  container_undo, container_inspect, SandboxError, HealthEvent, ctx_done, deadline, unreachable,
  response, wait_rounds, wait_for_healthy, is_context_done, get_container_logs,
}
use distributed_benchmark_pl.Telemetry.Hdr.{Histogram}
use distributed_benchmark_pl.Worker.{
  Env, RunError, Failure, fleet_config, submission_running, run_telemetry, add_telemetry,
  update_container_info, update_run_target, update_run_started, W, finish_run, run_container,
  run_loaded, process_run, fail_run, load_failed, build_failed, launch_failed, health_check_failed,
  fleet_start_failed, after_wait,
}
use distributed_benchmark_pl.Exec.Keeps.{Keeps, Triple-Keeps}
use distributed_benchmark_pl.Worker.Passive.{
  load-Keeps, lookup-Keeps, start_fleet-Keeps, get_container_logs-Keeps, build_image-Keeps,
  compute_and_store-Keeps,
}
use distributed_benchmark_pl.Worker.Quiet.{
  containers, Live, containers-Passive, Keeps-exec, update_run_status-Keeps,
  update_submission_status-Keeps, fail_submission_of-Keeps, complete_run-Keeps,
}

-- The daemon removes containers when it is asked to, and can inspect one that it started.
pub record Cooperates (env : SandboxEnv) : Type 0 where
  pub removes : env.fault container_remove ≡ false
  pub undoes : env.fault container_undo ≡ false
  pub inspects : env.fault container_inspect ≡ false

-- The select of the wait for health takes the done context before the wait ends.
abbrev pub interrupted : List HealthEvent → Bool
interrupted [] = false
interrupted (ctx_done ∷ es) = true
interrupted (deadline ∷ es) = false
interrupted (unreachable ∷ es) = interrupted es
interrupted (response code ∷ es) = let rest = interrupted es in if ltb code 500 then false else rest

without_self : (id : String) (l : List String) → without id l ≡ l → without id (id ∷ l) ≡ l
unfolding without
without_self id l fresh = ground (arith, eq_refl id, fresh)

module _ {F : Type 0} (env : SandboxEnv) (daemon : Cooperates env) (l : List String)
    (fresh : without env.container_id l ≡ l) where
  abbrev Running : W F → Type 0
  Running = Live (env.container_id ∷ l)

  tear_down-Triple :
      (tag : String)
      → Triple Running (tear_down env env.container_id tag) (λ _. Live l) (λ _. Live l)
  unfolding tear_down remove_image live
  tear_down-Triple tag = record {
    at = λ w h.
        let gone = ap (without env.container_id) h ∙ without_self env.container_id l fresh in
        ground (arith, daemon.removes, gone);
  }

  -- A launch leaves a running container of the daemon's identifier, or none.
  launch-Triple :
      (tag sub_id : String)
      → Triple
          (Live {F = F} l)
          (launch_container env tag sub_id)
          (λ info w. (info.container_id ≡ env.container_id) × Running w)
          (λ _. Live l)
  unfolding launch_container live
  launch-Triple tag sub_id = record {
    at = λ w h.
        let same = ap (◌∷◌ env.container_id) h in
        let gone = ap (without env.container_id) same ∙ without_self env.container_id l fresh in
        ground (arith, daemon.undoes, daemon.inspects, same, gone);
  }

-- The wait creates and removes nothing, and its error is the context's only if that was done.
wait_rounds-Triple :
    {F : Type 0} (k : List String) (es : List HealthEvent)
    → interrupted es ≡ false
    → Triple
        (Live {F = F} k)
        (wait_rounds es)
        (λ _. Live k)
        (λ e w. (is_context_done e ≡ false) × Live k w)
unfolding wait_rounds
wait_rounds-Triple k [] on = record { at = λ w h. (refl, h) }
wait_rounds-Triple k (ctx_done ∷ es) on = cc
wait_rounds-Triple k (deadline ∷ es) on = record { at = λ w h. (refl, h) }
wait_rounds-Triple k (unreachable ∷ es) on = wait_rounds-Triple k es on
wait_rounds-Triple {F} k (response code ∷ es) on = elim (Bool-cases (ltb code 500)) [
  | inl healthy ↦ rw healthy (record { at = λ w h. h })
  | inr unhealthy ↦
      let rest : interrupted es ≡ false = rw unhealthy at on in
      rw unhealthy (wait_rounds-Triple {F = F} k es rest)
]

-- The whole of a run, in an environment whose daemon cooperates and gives an identifier that no
-- existing container has.
module _ {F : Type 0} (H : Type 0) ⦃fl : Float64 F⦄ ⦃hdr : Histogram H⦄ (env : Env) (cfg : Config F)
    (daemon : Cooperates env.sandbox) (l : List String)
    (fresh : without env.sandbox.container_id l ≡ l)
    (waits : interrupted env.sandbox.health ≡ false) (goes_on : env.cancelled ≡ false) where
  abbrev id : String
  id = env.sandbox.container_id

  abbrev Gone : {A : Type 0} → A → W F → Type 0
  Gone a = Live l

  -- An action whose error is ignored.
  ignoring :
      {E A : Type 0} {E' : Type 0} (k : List String) (R : E' → W F → Type 0) (m : Exec (W F) E A)
      → Keeps containers m
      → Triple (Live k) (attempt {E' = E'} m) (λ _. Live k) R
  ignoring k R m q = Triple-attempt (Triple-Keeps k m q)

  run_telemetry-Triple :
      (run_id : String) (sub : Submission) (k : List String)
      → Triple (Live k) (run_telemetry H env cfg run_id sub) (λ _. Live k) Gone
  unfolding run_telemetry add_telemetry
  run_telemetry-Triple run_id sub k = record { at = λ w h. h }

  removed :
      (info : ContainerInfo) (tag : String)
      → info.container_id ≡ id
      → Triple {E = RunError}
          (Live {F = F} (id ∷ l))
          (attempt (tear_down env.sandbox info.container_id tag))
          (λ _. Live l)
          Gone
  removed info tag same = Triple-attempt (rw same (tear_down-Triple env.sandbox daemon l fresh tag))

  finish_run-Triple :
      (run_id : String) (sub : Submission) (info : ContainerInfo) (tag : String) (cancelled : Bool)
      → cancelled ≡ false
      → info.container_id ≡ id
      → Triple (Live (id ∷ l)) (finish_run H env cfg run_id sub info tag cancelled) Gone Gone
  unfolding finish_run
  finish_run-Triple run_id sub info tag true done same = cc
  finish_run-Triple run_id sub info tag false on same =
      Triple-bind (λ _. Live (id ∷ l)) (run_telemetry-Triple run_id sub (id ∷ l))
        (λ _.
          Triple-bind (λ _. Live (id ∷ l))
            (ignoring _ _ _
              (compute_and_store-Keeps containers containers-Passive env.scoring cfg run_id))
            (λ _.
              Triple-bind (λ _. Live l) (removed info tag same)
                (λ _.
                  Triple-bind (λ _. Live l) (Triple-Keeps _ _ (complete_run-Keeps env run_id))
                    (λ _. ignoring _ _ _ (update_submission_status-Keeps env _ _ _ _)))))

  -- A run that fails here never goes on.
  fail_run-Triple :
      {A : Type 0} (Q : A → W F → Type 0) (run_id : String) (f : Failure)
      → Triple (Live l) (fail_run {A = A} env run_id f) Q Gone
  unfolding fail_run
  fail_run-Triple Q run_id f =
      Triple-bind (λ _. Live l) (ignoring _ _ _ (Keeps-exec _ _ _))
        (λ _.
          Triple-bind (λ _. Live l) (Triple-Keeps _ _ (lookup-Keeps containers env run_id))
            (λ found.
              Triple-bind (λ _. Live l) (Triple-Keeps _ _ (fail_submission_of-Keeps env found))
                (λ _. Triple-raise _ (λ w h. h))))

  -- The container is removed before the failure is recorded.
  failing-Triple :
      (run_id : String) (info : ContainerInfo) (tag : String) (f : Failure)
      → info.container_id ≡ id
      → Triple
          (Live (id ∷ l))
          (attempt (tear_down env.sandbox info.container_id tag)
            >> fail_run {A = Unit {0}} env run_id f)
          (λ _. Live (id ∷ l))
          Gone
  failing-Triple run_id info tag f same =
      Triple-bind (λ _. Live l) (removed info tag same) (λ _. fail_run-Triple _ run_id f)

  unhealthy-Triple :
      (e : SandboxError) (run_id : String) (info : ContainerInfo) (tag : String)
      → info.container_id ≡ id
      → Triple
          (λ w. (is_context_done e ≡ false) × Live (id ∷ l) w)
          (attempt (get_container_logs (after_wait e env.sandbox))
            >> (attempt (tear_down (after_wait e env.sandbox) info.container_id tag)
                >> fail_run {A = Unit {0}} env run_id health_check_failed))
          (λ _. Live (id ∷ l))
          Gone
  unfolding after_wait
  unhealthy-Triple e run_id info tag same = record {
    at = λ w h.
        let steps =
          Triple-bind (λ _. Live (id ∷ l))
            (ignoring _ _ _ (get_container_logs-Keeps containers env.sandbox))
            (λ _. failing-Triple run_id info tag health_check_failed same) in
        rw h.0 (steps.at w h.1);
  }

  update_container_info-Triple :
      (sub_id container_id tag : String) (k : List String)
      → Triple (Live k) (update_container_info env sub_id container_id tag) (λ _. Live k) Gone
  unfolding update_container_info
  update_container_info-Triple sub_id container_id tag k = search (ignoring, Keeps-exec)

  update_run_target-Triple :
      (run_id host : String) (port : ℕ) (k : List String)
      → Triple (Live k) (update_run_target env run_id host port) (λ _. Live k) Gone
  unfolding update_run_target
  update_run_target-Triple run_id host port k = search (ignoring, Keeps-exec)

  update_run_started-Triple :
      (run_id : String) (k : List String)
      → Triple (Live k) (update_run_started env run_id) (λ _. Live k) Gone
  unfolding update_run_started
  update_run_started-Triple run_id k = search (ignoring, Keeps-exec)

  run_container-Triple :
      (run : BenchmarkRun) (sub : Submission) (run_id : String) (info : ContainerInfo)
      (tag : String)
      → info.container_id ≡ id
      → Triple (Live (id ∷ l)) (run_container H env cfg run sub run_id info tag) Gone Gone
  unfolding run_container wait_for_healthy
  run_container-Triple run sub run_id info tag same =
      Triple-bind (λ _. Live (id ∷ l)) (update_container_info-Triple sub.id info.container_id tag _)
        (λ _.
          Triple-bind (λ _. Live (id ∷ l)) (update_run_target-Triple run_id info.host info.port _)
            (λ _.
              Triple-bind (λ _. Live (id ∷ l))
                (Triple-catch (λ e w. (is_context_done e ≡ false) × Live (id ∷ l) w)
                  (wait_rounds-Triple (id ∷ l) env.sandbox.health waits)
                  (λ e. unhealthy-Triple e run_id info tag same))
                (λ _.
                  Triple-bind (λ _. Live (id ∷ l))
                    (ignoring _ _ _ (
                      update_submission_status-Keeps env (env.fault submission_running)
                        (env.now submission_running) sub.id SubmissionStatus.running))
                    (λ _.
                      Triple-bind (λ _. Live (id ∷ l)) (update_run_started-Triple run_id _)
                        (λ _.
                          Triple-bind (λ _. Live (id ∷ l))
                            (Triple-catch (λ _. Live (id ∷ l))
                              (Triple-Keeps _ _
                                (start_fleet-Keeps containers (fleet_config cfg run sub run_id)))
                              (λ e. failing-Triple run_id info tag fleet_start_failed same))
                            (λ _.
                              finish_run-Triple run_id sub info tag env.cancelled goes_on same))))))

  run_loaded-Triple :
      (run_id : String) (loaded : BenchmarkRun × Submission)
      → Triple (Live l) (run_loaded H env cfg run_id loaded) Gone Gone
  unfolding run_loaded
  run_loaded-Triple run_id (run, sub) =
      Triple-bind (λ _. Live l) (Triple-Keeps _ _ (update_run_status-Keeps env _ _ _))
        (λ _.
          Triple-bind (λ _. Live l) (Triple-Keeps _ _ (update_submission_status-Keeps env _ _ _ _))
            (λ _.
              Triple-bind (λ _. Live l)
                (Triple-catch (λ _. Live l)
                  (Triple-Keeps _ _ (
                    build_image-Keeps containers containers-Passive env.sandbox sub.id
                      sub.language))
                  (λ e. fail_run-Triple _ run_id (build_failed e)))
                (λ tag.
                  Triple-bind (λ info w. (info.container_id ≡ id) × Live (id ∷ l) w)
                    (Triple-catch (λ _. Live l)
                      (launch-Triple env.sandbox daemon l fresh tag sub.id)
                      (λ e. fail_run-Triple _ run_id (launch_failed e)))
                    (λ info. record {
                      at = λ w h. (run_container-Triple run sub run_id info tag h.0).at w h.1;
                    }))))

  process_run-Triple : (run_id : String) → Triple (Live l) (process_run H env cfg run_id) Gone Gone
  unfolding process_run
  process_run-Triple run_id =
      Triple-bind (λ _. Live l)
        (Triple-catch (λ _. Live l) (Triple-Keeps _ _ (load-Keeps containers env run_id))
          (λ e. fail_run-Triple _ run_id load_failed))
        (λ loaded. run_loaded-Triple run_id loaded)

  either_way : {A : Type 0} (r : Result RunError A × W F) → After Gone Gone r → Live l r.1
  either_way (ok a, w) h = h
  either_way (err e, w) h = h

  -- However a run ends, with success or with any of its errors, the containers that exist after it are
  -- exactly those that existed before: when the context is not done before the run ends, neither
  -- during the wait for health nor during the benchmark, Docker removes what it is asked to remove and can
  -- inspect what it started, and the new container's identifier is that of no container that exists. All
  -- other calls may fail.
  pub no_container_left :
      (run_id : String) (w : W F)
      → live w.docker ≡ l
      → live (process_run H env cfg run_id w).1.docker ≡ l
  no_container_left run_id w h = either_way _ ((process_run-Triple run_id).at w h)
