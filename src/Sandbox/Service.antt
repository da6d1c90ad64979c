-- ===== src/Sandbox/Service.antt =====
-- NewSandboxService, detectOwnNetwork and the runtimes of backend/services/sandbox_service.go.
use distributed_benchmark_pl.Base.{String, none, some, List, [], ◌∷◌, str_eq, if◌then◌else◌}
use distributed_benchmark_pl.Exec.{Exec, pure, call, ◌>>◌}
use distributed_benchmark_pl.Settings.Loading.{Settings}
use distributed_benchmark_pl.Startup.Actions.{
  opened, docker_client, docker_connect, docker_ping, StartError, docker_client_failed,
  docker_ping_failed, Process, Machine, act,
}

pub data ContainerRuntime : Type 0 where
  runc gvisor : ContainerRuntime

unfoldable pub runtime_name : ContainerRuntime → String
runtime_name runc = "runc"
runtime_name gvisor = "runsc"

-- ApplyHostConfig on the field Runtime of the host's settings; "" is the daemon's default.
unfoldable pub apply_host_config : ContainerRuntime → String → String
apply_host_config runc current = current
apply_host_config gvisor current = "runsc"

pub record SandboxService : Type 0 where
  pub runtime : ContainerRuntime
  pub docker_network : String

unfoldable pub first_network : List String → String
first_network [] = ""
first_network (name ∷ names) = name

-- "" is no network.
unfoldable pub detect_own_network : Machine → String
detect_own_network m = elim m.hostname [
  | none ↦ ""
  | some host ↦ elim (m.inspect host) [ none ↦ "" | some networks ↦ first_network networks ]
]

unfoldable pub runtime_of : String → ContainerRuntime
runtime_of mode = if str_eq mode "gvisor" then gvisor else runc

-- A failed ping leaves the client open.
unfoldable pub new_sandbox_service :
    {F : Type 0} → Machine → Settings F → Exec Process StartError SandboxService
new_sandbox_service m cfg = do
  call (m.fault docker_connect) docker_client_failed (λ s. (tt, s))
  act (opened docker_client)
  call (m.fault docker_ping) docker_ping_failed (λ s. (tt, s))
  pure (record {
    runtime = runtime_of cfg.core.sandbox_network_mode;
    docker_network = detect_own_network m;
  })
