-- ===== src/Sandbox.antt =====
-- backend/services/sandbox_service.go. The Docker daemon, the file system and the engine's health
-- endpoint are parameters: which calls fail, and what they answer. A call that fails has no effect.
pub mod Limits
pub mod Memory
pub mod Service
pub mod Health
use Prim.Native.String.{◌++◌ as concat}
use mathlib.Core.Option
use distributed_benchmark_pl.Base.{
  ℕ, zero, suc, String, Bool, true, false, Option, List, [], ◌∷◌, ltb, str_eq, ◌||◌, if◌then◌else◌,
}
use distributed_benchmark_pl.Base.Text.{codes, text_eq, to_lower}
use distributed_benchmark_pl.Store.{
  World, ContainerSpec, DockerCall, image_built, container_created, container_started,
  container_stopped, container_removed, image_removed,
}
use distributed_benchmark_pl.Sandbox.Service.{ContainerRuntime, apply_host_config}
use distributed_benchmark_pl.Exec.{Exec, pure, raise, call, attempt, catch, ◌>>◌}

pub data SandboxSite : Type 0 where
  extract_zip write_dockerfile tar_context image_build build_stream : SandboxSite
  container_create container_start container_undo container_inspect : SandboxSite
  container_logs container_stop container_remove image_remove : SandboxSite

pub data SandboxError : Type 0 where
  extract_failed unsupported_language write_dockerfile_failed tar_context_failed : SandboxError
  docker_build_failed build_stream_failed : SandboxError
  create_failed start_failed inspect_failed : SandboxError
  context_done health_timed_out : SandboxError
  ignored : SandboxError

abbrev pub is_context_done : SandboxError → Bool
is_context_done extract_failed = false
is_context_done unsupported_language = false
is_context_done write_dockerfile_failed = false
is_context_done tar_context_failed = false
is_context_done docker_build_failed = false
is_context_done build_stream_failed = false
is_context_done create_failed = false
is_context_done start_failed = false
is_context_done inspect_failed = false
is_context_done context_done = true
is_context_done health_timed_out = false
is_context_done ignored = false

-- A round of the loop of WaitForHealthy: what its `select` chose. A response is its status code.
pub data HealthEvent : Type 0 where
  ctx_done deadline unreachable : HealthEvent
  response : ℕ → HealthEvent

pub record SandboxEnv : Type 0 where
  pub fault : SandboxSite → Bool
  -- the submission brings its own Dockerfile
  pub has_dockerfile : Bool
  -- the identifier that the daemon gives, and the address on the shared network, if it has one
  pub container_id : String
  pub ip_address : Option String
  -- the network of the backend; "" if it has none
  pub docker_network : String
  pub health : List HealthEvent
  -- the service's runtime, and what parseLimits gives
  pub runtime : ContainerRuntime
  pub limits : ℕ × ℕ

pub record ContainerInfo : Type 0 where
  pub container_id : String
  pub host : String
  pub port : ℕ

-- s[:n]
abbrev pub take_chars : ℕ → String → String
take_chars zero s = String.[]
take_chars (suc n) String.[] = String.[]
take_chars (suc n) (String.◌∷◌ c s) = String.◌∷◌ c (take_chars n s)

unfoldable pub container_name : String → String
container_name sub_id = concat "bench-sub-" (take_chars 8 sub_id)

unfoldable pub image_tag_of : String → String
image_tag_of sub_id = concat (concat "bench-sub-" (take_chars 8 sub_id)) ":latest"

-- dockerfileFor: whether it has a Dockerfile for the language.
unfoldable pub has_generated_dockerfile : String → Bool
has_generated_dockerfile lang =
    let l = to_lower (codes lang) in
    text_eq l (codes "go")
    || text_eq l (codes "cpp")
    || text_eq l (codes "rust")
    || text_eq l (codes "python")

-- The address on the shared network, or else the container's name.
unfoldable pub host_of : SandboxEnv → String → String
host_of env sub_id =
    let host = if str_eq env.docker_network "" then "" else Option.get_or env.ip_address "" in
    if str_eq host "" then container_name sub_id else host

-- The config, the host's config and the network's config of LaunchContainer.
unfoldable pub container_spec : SandboxEnv → String → String → ContainerSpec
container_spec env image_tag sub_id = record {
  name = container_name sub_id;
  image = image_tag;
  labels = ("bench.submission_id", sub_id) ∷ ("bench.managed", "true") ∷ [];
  nano_cpus = env.limits.0;
  memory = env.limits.1;
  readonly_rootfs = true;
  tmpfs = ("/tmp", "rw,noexec,nosuid,size=64m") ∷ [];
  security_opt = "no-new-privileges" ∷ [];
  runtime = apply_host_config env.runtime "";
  network = env.docker_network;
}

module _ {F : Type 0} where
  abbrev pub did : DockerCall → World F → Unit {0} × World F
  did c w = (tt, record w { docker = c ∷ w.docker })

  abbrev pub nothing : World F → Unit {0} × World F
  nothing w = (tt, w)

  -- The Dockerfile of the submission, or a generated one.
  unfoldable pub ensure_dockerfile : SandboxEnv → String → Exec (World F) SandboxError (Unit {0})
  ensure_dockerfile env language =
      if env.has_dockerfile
      then pure tt
      else if has_generated_dockerfile language
      then call (env.fault write_dockerfile) write_dockerfile_failed nothing
      else raise unsupported_language

  unfoldable pub build_image : SandboxEnv → String → String → Exec (World F) SandboxError String
  build_image env sub_id language = do
    call (env.fault extract_zip) extract_failed nothing
    ensure_dockerfile env language
    call (env.fault tar_context) tar_context_failed nothing
    call (env.fault image_build) docker_build_failed nothing
    call (env.fault build_stream) build_stream_failed (did (image_built (image_tag_of sub_id)))
    pure (image_tag_of sub_id)

  unfoldable pub launch_container :
      SandboxEnv → String → String → Exec (World F) SandboxError ContainerInfo
  launch_container env image_tag sub_id = do
    call (env.fault container_create) create_failed
        (did (container_created env.container_id (container_spec env image_tag sub_id)))
    catch (call (env.fault container_start) start_failed (did (container_started env.container_id)))
        (λ e. do
          attempt {E = SandboxError}
              (call (env.fault container_undo) ignored (did (container_removed env.container_id)))
          raise e)
    call (env.fault container_inspect) inspect_failed nothing
    pure (record { container_id = env.container_id; host = host_of env sub_id; port = 8080 })

  -- The loop of WaitForHealthy. After the listed rounds the deadline fires.
  unfoldable pub wait_rounds : List HealthEvent → Exec (World F) SandboxError (Unit {0})
  wait_rounds [] = raise health_timed_out
  wait_rounds (ctx_done ∷ es) = raise context_done
  wait_rounds (deadline ∷ es) = raise health_timed_out
  wait_rounds (unreachable ∷ es) = wait_rounds es
  wait_rounds (response code ∷ es) =
      let rest = wait_rounds es in if ltb code 500 then pure tt else rest

  unfoldable pub wait_for_healthy : SandboxEnv → Exec (World F) SandboxError (Unit {0})
  wait_for_healthy env = wait_rounds env.health

  unfoldable pub get_container_logs : SandboxEnv → Exec (World F) SandboxError (Unit {0})
  get_container_logs env = call (env.fault container_logs) ignored nothing

  unfoldable pub remove_image : SandboxEnv → String → Exec (World F) SandboxError (Unit {0})
  remove_image env image_tag =
      if str_eq image_tag ""
      then pure tt
      else attempt {E = SandboxError}
          (call (env.fault image_remove) ignored (did (image_removed image_tag)))

  -- TearDown ignores the errors of its three calls.
  unfoldable pub tear_down : SandboxEnv → String → String → Exec (World F) SandboxError (Unit {0})
  tear_down env container_id image_tag = do
    attempt {E = SandboxError}
        (call (env.fault container_stop) ignored (did (container_stopped container_id)))
    attempt {E = SandboxError}
        (call (env.fault container_remove) ignored (did (container_removed container_id)))
    remove_image env image_tag
