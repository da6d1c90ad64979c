-- ===== src/Worker/Confinement.antt =====
-- The settings of the containers that backend/services/sandbox_service.go creates, and its steps
-- that create none with other settings.
pub mod Processing
use distributed_benchmark_pl.Base.{
  ℕ, String, Bool, true, false, ◌&&◌, ◌||◌, Option, none, some, List, [], ◌∷◌, ◌==◌, str_eq,
  if◌then◌else◌, ◌≡◌, refl, arith, Bool-cases, inl, inr, eq_refl,
}
use distributed_benchmark_pl.Base.Float.{Float64}
use distributed_benchmark_pl.Models.{
  Config, Submission, BenchmarkRun, BenchmarkStatus, SubmissionStatus,
}
use distributed_benchmark_pl.Store.{
  Db, ContainerSpec, DockerCall, image_built, container_created, container_started,
  container_stopped, container_removed, image_removed,
}
use distributed_benchmark_pl.Exec.{call}
use distributed_benchmark_pl.Exec.Keeps.{Keeps, Keeps-pure, Keeps-attempt, Keeps-call, keeps_rules}
use distributed_benchmark_pl.Sandbox.{
  SandboxEnv, SandboxError, ContainerInfo, container_spec, launch_container, tear_down,
  remove_image, did, nothing,
}
use distributed_benchmark_pl.Sandbox.Service.{apply_host_config}
use distributed_benchmark_pl.Telemetry.Hdr.{Histogram}
use distributed_benchmark_pl.Worker.{
  Env, W, Failure, exec, update_run_status, update_submission_status, update_container_info,
  update_run_target, update_run_started, fail_submission_of, fail_run, complete_run, finish_run,
  run_container, run_loaded, process_run,
}
use distributed_benchmark_pl.Worker.Passive.{
  Passive, load-Keeps, lookup-Keeps, start_fleet-Keeps, wait_for_healthy-Keeps,
  get_container_logs-Keeps, build_image-Keeps, compute_and_store-Keeps, run_telemetry-Keeps,
}

abbrev has_text : String → List String → Bool
has_text s [] = false
has_text s (t ∷ l) = str_eq t s || has_text s l

-- The settings of the service: a root that cannot be written, no new privileges, and the service's limits,
-- runtime and network.
abbrev pub is_confined : SandboxEnv → ContainerSpec → Bool
is_confined env spec =
    spec.readonly_rootfs
    && (has_text "no-new-privileges" spec.security_opt
        && (spec.nano_cpus == env.limits.0
            && (spec.memory == env.limits.1
                && (str_eq spec.runtime (apply_host_config env.runtime "")
                    && str_eq spec.network env.docker_network))))

-- The containers that were created with other settings.
abbrev pub loose : SandboxEnv → List DockerCall → List ContainerSpec
loose env [] = []
loose env (container_created id spec ∷ l) =
    let rest = loose env l in if is_confined env spec then rest else spec ∷ rest
loose env (image_built tag ∷ l) = loose env l
loose env (container_started id ∷ l) = loose env l
loose env (container_stopped id ∷ l) = loose env l
loose env (container_removed id ∷ l) = loose env l
loose env (image_removed tag ∷ l) = loose env l

container_spec-confined :
    (env : SandboxEnv) (tag sub_id : String)
    → is_confined env (container_spec env tag sub_id) ≡ true
unfolding container_spec
container_spec-confined env tag sub_id =
    ground (arith, eq_refl (apply_host_config env.runtime ""), eq_refl env.docker_network)

module _ {F : Type 0} (env : SandboxEnv) where
  abbrev pub created_loose : W F → List ContainerSpec
  created_loose w = loose env w.docker

  pub loose-Passive : Passive {F = F} created_loose
  loose-Passive = record {
    snapshots = λ w l m. refl;
    aggregates = λ w l. refl;
    board = λ w l. refl;
    messages = λ w m. refl;
    images = λ w tag. refl;
  }

  pub Keeps-exec :
      {E : Type 0} (b : Bool) (e : E) (f : Db F → Db F) → Keeps {S = W F} created_loose (exec b e f)
  Keeps-exec b e f = Keeps-call b e (λ (w : W F). (tt {0}, record w { db = f w.db })) (λ w. refl)

  Keeps-created :
      (b : Bool) (e : SandboxError) (tag sub_id : String)
      → Keeps created_loose (
          call b e
            (did {F = F} (container_created env.container_id (container_spec env tag sub_id))))
  Keeps-created b e tag sub_id =
      Keeps-call b e
        (did {F = F} (container_created env.container_id (container_spec env tag sub_id)))
        (λ w. rw (container_spec-confined env tag sub_id) refl)

  Keeps-removed :
      (b : Bool) (e : SandboxError) (id : String)
      → Keeps created_loose (call b e (did {F = F} (container_removed id)))
  Keeps-removed b e id = Keeps-call b e (did {F = F} (container_removed id)) (λ w. refl)

  Keeps-started :
      (b : Bool) (e : SandboxError) (id : String)
      → Keeps created_loose (call b e (did {F = F} (container_started id)))
  Keeps-started b e id = Keeps-call b e (did {F = F} (container_started id)) (λ w. refl)

  Keeps-stopped :
      (b : Bool) (e : SandboxError) (id : String)
      → Keeps created_loose (call b e (did {F = F} (container_stopped id)))
  Keeps-stopped b e id = Keeps-call b e (did {F = F} (container_stopped id)) (λ w. refl)

  Keeps-untagged :
      (b : Bool) (e : SandboxError) (tag : String)
      → Keeps created_loose (call b e (did {F = F} (image_removed tag)))
  Keeps-untagged b e tag = Keeps-call b e (did {F = F} (image_removed tag)) (λ w. refl)

  Keeps-nothing : (b : Bool) (e : SandboxError) → Keeps created_loose (call b e (nothing {F = F}))
  Keeps-nothing b e = Keeps-call b e (nothing {F = F}) (λ w. refl)

  pub launch_container-Keeps :
      (tag sub_id : String) → Keeps created_loose (launch_container {F = F} env tag sub_id)
  unfolding launch_container
  launch_container-Keeps tag sub_id =
      search (keeps_rules, Keeps-created, Keeps-started, Keeps-removed, Keeps-nothing) depth 14

  remove_image-Keeps :
      (called : SandboxEnv) (tag : String) → Keeps created_loose (remove_image {F = F} called tag)
  unfolding remove_image
  remove_image-Keeps called tag = elim (Bool-cases (str_eq tag "")) [
    | inl empty ↦ rw empty (Keeps-pure tt)
    | inr tagged ↦ rw tagged (Keeps-attempt _ (Keeps-untagged _ _ _))
  ]

  pub tear_down-Keeps :
      (called : SandboxEnv) (id tag : String)
      → Keeps created_loose (tear_down {F = F} called id tag)
  unfolding tear_down
  tear_down-Keeps called id tag =
      search (keeps_rules, Keeps-stopped, Keeps-removed, remove_image-Keeps) depth 14
