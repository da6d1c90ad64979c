-- ===== src/Worker/Confinement/Processing.antt =====
-- The steps of processRun of backend/workers/benchmark_worker.go and the settings of the containers
-- that they create.
use distributed_benchmark_pl.Base.{List}
use distributed_benchmark_pl.Base.Float.{Float64}
use distributed_benchmark_pl.Models.{Config}
use distributed_benchmark_pl.Store.{ContainerSpec}
use distributed_benchmark_pl.Exec.Keeps.{Keeps}
use distributed_benchmark_pl.Telemetry.Hdr.{Histogram}
use distributed_benchmark_pl.Worker.{Env, W}
use distributed_benchmark_pl.Worker.Confinement.{created_loose}

module _ {F : Type 0} (H : Type 0) ⦃fl : Float64 F⦄ ⦃hdr : Histogram H⦄ (env : Env)
    (cfg : Config F) where
  abbrev seen : W F → List ContainerSpec
  seen = created_loose env.sandbox
