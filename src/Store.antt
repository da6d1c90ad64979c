-- ===== src/Store.antt =====
-- The state that the handlers and the worker share: the tables of backend/migrations as lists of
-- rows, what is published, and what the Docker daemon was made to do.
use distributed_benchmark_pl.Base.{ℕ, String, Bool, Option, List, [], ◌∷◌, str_eq, if◌then◌else◌}
use distributed_benchmark_pl.Base.Table.{find_by, update_where}
use distributed_benchmark_pl.Models.{
  Submission, BenchmarkRun, MetricSnapshot, MetricAggregate, LeaderboardEntry, LiveMetricEvent,
}

pub record Db (F : Type 0) : Type 0 where
  pub submissions : List Submission
  pub benchmark_runs : List BenchmarkRun
  pub metric_snapshots : List (MetricSnapshot F)
  pub metric_aggregates : List (MetricAggregate F)
  pub leaderboard : List (LeaderboardEntry F)

-- The settings of a new container. A tmpfs is its directory and its options; `runtime` and `network` are
-- empty for the daemon's defaults.
pub record ContainerSpec : Type 0 where
  pub name : String
  pub image : String
  pub labels : List (String × String)
  pub nano_cpus : ℕ
  pub memory : ℕ
  pub readonly_rootfs : Bool
  pub tmpfs : List (String × String)
  pub security_opt : List String
  pub runtime : String
  pub network : String

-- What a call of the Docker daemon did.
pub data DockerCall : Type 0 where
  image_built : String → DockerCall
  container_created : String → ContainerSpec → DockerCall
  container_started : String → DockerCall
  container_stopped : String → DockerCall
  container_removed : String → DockerCall
  image_removed : String → DockerCall

-- A message of the telemetry channel: an event of the ingester, or the leaderboard.
pub data Message (F : Type 0) : Type 0 where
  metric : LiveMetricEvent F → Message F
  board : List (LeaderboardEntry F) → Message F

-- `docker` is the list of what was done, latest first; `published` holds the messages, latest last.
pub record World (F : Type 0) : Type 0 where
  pub db : Db F
  pub docker : List DockerCall
  pub published : List (Message F)

abbrev pub submission_key : Submission → String
submission_key s = s.id

abbrev pub run_key : BenchmarkRun → String
run_key r = r.id

module _ {F : Type 0} where
  -- SELECT ... WHERE id = $1; `none` is sql.ErrNoRows.
  unfoldable pub find_submission : String → Db F → Option Submission
  find_submission id d = find_by submission_key id d.submissions

  unfoldable pub find_run : String → Db F → Option BenchmarkRun
  find_run id d = find_by run_key id d.benchmark_runs

  -- UPDATE ... WHERE id = $1; the trigger of submissions sets `updated_at`.
  unfoldable pub update_submission : ℕ → String → (Submission → Submission) → Db F → Db F
  update_submission now id f d = record d {
    submissions =
        update_where submission_key id (λ s. record (f s) { updated_at = now }) d.submissions;
  }

  unfoldable pub update_run : String → (BenchmarkRun → BenchmarkRun) → Db F → Db F
  update_run id f d = record d { benchmark_runs = update_where run_key id f d.benchmark_runs }

unfoldable pub without : String → List String → List String
without id [] = []
without id (c ∷ l) = let rest = without id l in if str_eq c id then rest else c ∷ rest

-- The containers that exist, given what was done.
unfoldable pub live : List DockerCall → List String
live [] = []
live (container_created id spec ∷ l) = id ∷ live l
live (container_removed id ∷ l) = without id (live l)
live (image_built tag ∷ l) = live l
live (container_started id ∷ l) = live l
live (container_stopped id ∷ l) = live l
live (image_removed tag ∷ l) = live l
