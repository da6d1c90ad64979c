-- ===== src/Worker.antt =====
-- backend/workers/benchmark_worker.go. `process_run` composes the steps as the source does; the
-- environment says which calls fail, what the daemon and the engine answer, and which events the
-- telemetry loop sees. The failures of the statements of scoring and the sandbox are in their modules.
pub mod Pipeline
pub mod Confinement
pub mod Passive
pub mod Quiet
pub mod Containers
pub mod Loop
pub mod Recording
pub mod Statuses
use mathlib.Core.Option
use distributed_benchmark_pl.Base.{
  ℕ, ◌+◌, ◌-◌, ◌/◌, String, Bool, true, false, Option, none, some, List, [], ◌∷◌, ◌++◌, map, str_eq,
  ltb, if◌then◌else◌,
}
use distributed_benchmark_pl.Base.Float.{Float64}
use distributed_benchmark_pl.Models.{
  Submission, SubmissionStatus, BenchmarkRun, BenchmarkStatus, Config, LiveMetricEvent,
}
use distributed_benchmark_pl.Store.{
  Db, World, Message, metric, find_submission, find_run, update_submission, update_run,
}
use distributed_benchmark_pl.Exec.{
  Result, ok, err, Exec, pure, raise, call, catch, attempt, ◌>>=◌, ◌>>◌,
}
use distributed_benchmark_pl.Sandbox.{
  SandboxEnv, SandboxError, ContainerInfo, build_image, launch_container, wait_for_healthy,
  get_container_logs, tear_down, is_context_done,
}
use distributed_benchmark_pl.Scoring.{ScoringEnv, compute_and_store}
use distributed_benchmark_pl.Telemetry.Hdr.{Histogram}
use distributed_benchmark_pl.Telemetry
use distributed_benchmark_pl.Telemetry.{TelemetryIngester, Event, new_telemetry_ingester}
use distributed_benchmark_pl.Botfleet.Fleet
use distributed_benchmark_pl.Botfleet.Fleet.{Fleet, FleetConfig, Ramp}

-- The sandbox called with a context that is done: the Docker client sends no request.
abbrev pub with_done_context : SandboxEnv → SandboxEnv
with_done_context env = record env { fault = λ site. true }

-- The sandbox as the calls after a failed wait for health find it.
unfoldable pub after_wait : SandboxError → SandboxEnv → SandboxEnv
after_wait e env = if is_context_done e then with_done_context env else env

-- The statements of this file that can fail.
pub data Site : Type 0 where
  load_run load_submission run_running submission_building : Site
  container_info run_target submission_running run_started : Site
  fail_run_row fail_run_lookup fail_submission : Site
  complete_run_row submission_completed : Site

-- The errors that processRun returns: those that failRun records, a failed status update, and the
-- cancelled context.
pub data Failure : Type 0 where
  load_failed health_check_failed fleet_start_failed : Failure
  build_failed launch_failed : SandboxError → Failure

pub data RunError : Type 0 where
  run_failed : Failure → RunError
  status_update_failed : RunError
  context_cancelled : RunError
  ignored : RunError

pub record Env : Type 0 where
  pub fault : Site → Bool
  pub now : Site → ℕ
  pub sandbox : SandboxEnv
  pub scoring : ScoringEnv
  -- what the telemetry loop saw until it returned
  pub telemetry : List Event
  -- the context was done before the benchmark's time was over
  pub cancelled : Bool
  pub started_at : ℕ
  pub ended_at : ℕ

abbrev pub W : Type 0 → Type 0
W F = World F

-- A statement that changes the tables.
abbrev pub exec : {F E : Type 0} → Bool → E → (Db F → Db F) → Exec (W F) E (Unit {0})
exec fault e f = call fault e (λ w. (tt, record w { db = f w.db }))

-- A query; a missing row is an error.
abbrev pub row_or : {F E A : Type 0} → E → Option A → Exec (W F) E A
row_or e none = raise e
row_or e (some a) = pure a

abbrev pub query : {F E A : Type 0} → Bool → E → (Db F → Option A) → Exec (W F) E A
query fault e f = do found ← call fault e (λ w. (f w.db, w)); row_or e found

-- The fixed part of the message that failRun records; what the failing call said follows it.
abbrev pub message : Failure → String
message load_failed = "load failed: "
message (build_failed e) = "build failed: "
message (launch_failed e) = "launch failed: "
message health_check_failed = "health check failed: "
message fleet_start_failed = "fleet start failed: "

-- The UPDATE of failRun.
abbrev pub failed_row : ℕ → Failure → BenchmarkRun → BenchmarkRun
failed_row now failure r = record r {
  status = BenchmarkStatus.failed;
  error_msg = some (message failure);
  ended_at = some now;
}

module _ {F : Type 0} where
  -- SELECT of the run, then of its submission.
  unfoldable pub load_run_and_submission :
      Env → String → Exec (W F) RunError (BenchmarkRun × Submission)
  unfolding find_run find_submission
  load_run_and_submission env run_id = do
    run ← query (env.fault load_run) ignored (find_run run_id)
    sub ← query (env.fault load_submission) ignored (find_submission run.submission_id)
    pure (run, sub)

  unfoldable pub update_run_status :
      Bool → String → BenchmarkStatus → Exec (W F) RunError (Unit {0})
  update_run_status fault run_id status =
      exec fault status_update_failed (update_run run_id (λ r. record r { status = status }))

  unfoldable pub update_submission_status :
      Bool → ℕ → String → SubmissionStatus → Exec (W F) RunError (Unit {0})
  update_submission_status fault now sub_id status =
      exec fault status_update_failed
        (update_submission now sub_id (λ s. record s { status = status }))

  unfoldable pub update_container_info :
      Env → String → String → String → Exec (W F) RunError (Unit {0})
  update_container_info env sub_id container_id image_tag = attempt {E = RunError} (
      exec (env.fault container_info) ignored (
        update_submission (env.now container_info) sub_id
          (λ s. record s { container_id = container_id; image_tag = image_tag })))

  unfoldable pub update_run_target : Env → String → String → ℕ → Exec (W F) RunError (Unit {0})
  update_run_target env run_id host port = attempt {E = RunError} (
      exec (env.fault run_target) ignored
        (update_run run_id (λ r. record r { target_host = host; target_port = port })))

  unfoldable pub update_run_started : Env → String → Exec (W F) RunError (Unit {0})
  update_run_started env run_id = attempt {E = RunError} (
      exec (env.fault run_started) ignored
        (update_run run_id (λ r. record r { started_at = some env.started_at })))

  unfoldable pub fail_submission_of : Env → Option BenchmarkRun → Exec (W F) RunError (Unit {0})
  fail_submission_of env none = pure tt
  fail_submission_of env (some r) =
      if str_eq r.submission_id ""
      then pure tt
      else attempt {E = RunError} (
          update_submission_status (env.fault fail_submission) (env.now fail_submission)
            r.submission_id SubmissionStatus.failed)

  -- The submission of the run, as far as it can be read: no row and an error leave it empty.
  unfoldable pub lookup_submission : Env → String → Exec (W F) RunError (Option BenchmarkRun)
  lookup_submission env run_id =
      catch
        (call {E = RunError} (env.fault fail_run_lookup) ignored (λ w. (find_run run_id w.db, w)))
        (λ e. pure none)

  unfoldable pub fail_run : {A : Type 0} → Env → String → Failure → Exec (W F) RunError A
  fail_run env run_id failure = do
    attempt {E = RunError} (
        exec (env.fault fail_run_row) ignored
          (update_run run_id (failed_row (env.now fail_run_row) failure)))
    found ← lookup_submission env run_id
    fail_submission_of env found
    raise (run_failed failure)

  unfoldable pub complete_run : Env → String → Exec (W F) RunError (Unit {0})
  complete_run env run_id = attempt {E = RunError} (
      exec (env.fault complete_run_row) ignored (
        update_run run_id (λ r. record r {
          status = BenchmarkStatus.completed;
          ended_at = some env.ended_at;
          duration_ms = some ((env.ended_at - env.started_at) / 1000000);
        })))

-- The fleet's settings for a run.
unfoldable pub fleet_config :
    {F : Type 0} → Config F → BenchmarkRun → Submission → String → FleetConfig
fleet_config cfg run sub run_id = record {
  min_workers = run.bot_workers;
  max_workers = cfg.bot_fleet_max_workers;
  ramp_duration = cfg.bot_ramp_duration;
  order_rate = run.bot_order_rate;
  protocol = run.bot_protocol;
  run_id = run_id;
  submission_id = sub.id;
  team_name = sub.team_name;
}

-- Fleet.Start: an unknown protocol is its only error.
unfoldable pub start_fleet : {F : Type 0} → FleetConfig → Exec (W F) RunError (Unit {0})
start_fleet {F} fleet_cfg =
    row_or ignored
      (Option.map (λ (p : Fleet F × Option Ramp). tt) (Fleet.start (Fleet.new {F = F} fleet_cfg)))

module _ {F H : Type 0} where
  -- What the telemetry loop wrote, added to the tables and the channel.
  unfoldable pub add_telemetry : TelemetryIngester F H → W F → Unit {0} × W F
  add_telemetry t w = (
    tt,
    record w {
      db = record w.db { metric_snapshots = w.db.metric_snapshots ++ t.store };
      published = w.published ++ map metric t.published;
    },
  )

module _ {F : Type 0} (H : Type 0) ⦃fl : Float64 F⦄ ⦃hdr : Histogram H⦄ (env : Env)
    (cfg : Config F) where
  unfoldable pub run_telemetry : String → Submission → Exec (W F) RunError (Unit {0})
  run_telemetry run_id sub = call false ignored (
      add_telemetry (
        Telemetry.run cfg (new_telemetry_ingester {F = F} {H = H} run_id sub.id sub.team_name)
          env.telemetry))

  -- Steps 8 to 12, once the fleet runs.
  unfoldable pub finish_run :
      String → Submission → ContainerInfo → String → Bool → Exec (W F) RunError (Unit {0})
  finish_run run_id sub info image_tag true = do
    run_telemetry run_id sub
    attempt (tear_down (with_done_context env.sandbox) info.container_id image_tag)
    raise context_cancelled
  finish_run run_id sub info image_tag false = do
    run_telemetry run_id sub
    attempt (compute_and_store env.scoring cfg run_id)
    attempt (tear_down env.sandbox info.container_id image_tag)
    complete_run env run_id
    attempt {E = RunError} (
        update_submission_status (env.fault submission_completed) (env.now submission_completed)
          sub.id SubmissionStatus.completed)

  -- Steps 5 to 12, once the container runs.
  unfoldable pub run_container :
      BenchmarkRun → Submission → String → ContainerInfo → String → Exec (W F) RunError (Unit {0})
  run_container run sub run_id info image_tag = do
    update_container_info env sub.id info.container_id image_tag
    update_run_target env run_id info.host info.port
    catch (wait_for_healthy env.sandbox) (λ e. do
      attempt (get_container_logs (after_wait e env.sandbox))
      attempt (tear_down (after_wait e env.sandbox) info.container_id image_tag)
      fail_run env run_id health_check_failed)
    attempt {E = RunError} (
        update_submission_status (env.fault submission_running) (env.now submission_running) sub.id
          SubmissionStatus.running)
    update_run_started env run_id
    catch (start_fleet (fleet_config cfg run sub run_id)) (λ e. do
      attempt (tear_down env.sandbox info.container_id image_tag)
      fail_run env run_id fleet_start_failed)
    finish_run run_id sub info image_tag env.cancelled

  -- Steps 2 to 12, once the run and its submission are loaded.
  unfoldable pub run_loaded : String → BenchmarkRun × Submission → Exec (W F) RunError (Unit {0})
  run_loaded run_id (run, sub) = do
    update_run_status (env.fault run_running) run_id BenchmarkStatus.running
    update_submission_status (env.fault submission_building) (env.now submission_building) sub.id
        SubmissionStatus.building
    image_tag ←
        catch (build_image env.sandbox sub.id sub.language)
          (λ e. fail_run env run_id (build_failed e))
    info ←
        catch (launch_container env.sandbox image_tag sub.id)
          (λ e. fail_run env run_id (launch_failed e))
    run_container run sub run_id info image_tag

  unfoldable pub process_run : String → Exec (W F) RunError (Unit {0})
  process_run run_id = do
    loaded ← catch (load_run_and_submission env run_id) (λ e. fail_run env run_id load_failed)
    run_loaded run_id loaded
