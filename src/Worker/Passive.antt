-- ===== src/Worker/Passive.antt =====
-- The steps of a run that change neither the runs and submissions nor which containers exist, for
-- any view of the state that sees only those.
use distributed_benchmark_pl.Base.{
  String, Option, none, some, List, [], ◌∷◌, ◌≡◌, refl, Bool, Bool-cases, inl, inr, ltb,
}
use distributed_benchmark_pl.Base.Float.{Float64}
use distributed_benchmark_pl.Models.{
  Submission, Config, MetricAggregate, MetricSnapshot, LeaderboardEntry,
}
use distributed_benchmark_pl.Store.{Db, Message, image_built}
use distributed_benchmark_pl.Exec.{call}
use distributed_benchmark_pl.Exec.Keeps.{
  Keeps, Keeps-pure, Keeps-raise, Keeps-bind, Keeps-read, Keeps-call, keeps_rules,
}
use distributed_benchmark_pl.Sandbox.{
  SandboxEnv, SandboxError, HealthEvent, build_image, ensure_dockerfile, has_generated_dockerfile,
  wait_for_healthy, wait_rounds, did, nothing, get_container_logs, ctx_done, deadline, unreachable,
  response,
}
use distributed_benchmark_pl.Scoring.{
  ScoringEnv, NormalizedScores, compute_and_store, store_aggregate, upsert_leaderboard, upsert_for,
  publish_leaderboard_update,
}
use distributed_benchmark_pl.Telemetry.Hdr.{Histogram}
use distributed_benchmark_pl.Botfleet.Fleet.{FleetConfig}
use distributed_benchmark_pl.Worker.{
  Env, W, row_or, query, load_run_and_submission, lookup_submission, run_telemetry, add_telemetry,
  start_fleet,
}

-- The view sees no metrics, no leaderboard, no message and no image.
pub record Passive {F V : Type 0} (view : W F → V) : Type 0 where
  pub snapshots :
      (w : W F) (l : List (MetricSnapshot F)) (m : List (Message F))
      → view (record w { db = record w.db { metric_snapshots = l }; published = m }) ≡ view w
  pub aggregates :
      (w : W F) (l : List (MetricAggregate F))
      → view (record w { db = record w.db { metric_aggregates = l } }) ≡ view w
  pub board :
      (w : W F) (l : List (LeaderboardEntry F))
      → view (record w { db = record w.db { leaderboard = l } }) ≡ view w
  pub messages : (w : W F) (m : List (Message F)) → view (record w { published = m }) ≡ view w
  pub images :
      (w : W F) (tag : String) → view (record w { docker = image_built tag ∷ w.docker }) ≡ view w

module _ {F V E : Type 0} {view : W F → V} where
  Keeps-row_or : {A : Type 0} (e : E) (o : Option A) → Keeps view (row_or e o)
  Keeps-row_or e none = Keeps-raise e
  Keeps-row_or e (some a) = Keeps-pure a

  pub Keeps-query : {A : Type 0} (b : Bool) (e : E) (f : Db F → Option A) → Keeps view (query b e f)
  Keeps-query b e f =
      Keeps-bind (call b e (λ w. (f w.db, w))) (λ o. row_or e o) (Keeps-read b e (λ w. f w.db))
        (λ o. Keeps-row_or e o)

module _ {F V : Type 0} (view : W F → V) where
  pub load-Keeps : (env : Env) (run_id : String) → Keeps view (load_run_and_submission env run_id)
  unfolding load_run_and_submission
  load-Keeps env run_id = search (keeps_rules, Keeps-query)

  pub lookup-Keeps : (env : Env) (run_id : String) → Keeps view (lookup_submission env run_id)
  unfolding lookup_submission
  lookup-Keeps env run_id = search keeps_rules

  pub start_fleet-Keeps : (fleet_cfg : FleetConfig) → Keeps view (start_fleet fleet_cfg)
  unfolding start_fleet
  start_fleet-Keeps fleet_cfg = Keeps-row_or _ _

  wait_rounds-Keeps : (es : List HealthEvent) → Keeps view (wait_rounds es)
  unfolding wait_rounds
  wait_rounds-Keeps [] = search keeps_rules
  wait_rounds-Keeps (ctx_done ∷ es) = search keeps_rules
  wait_rounds-Keeps (deadline ∷ es) = search keeps_rules
  wait_rounds-Keeps (unreachable ∷ es) = wait_rounds-Keeps es
  wait_rounds-Keeps (response code ∷ es) = elim (Bool-cases (ltb code 500)) [
    | inl healthy ↦ rw healthy (Keeps-pure tt)
    | inr sick ↦ rw sick (wait_rounds-Keeps es)
  ]

  pub wait_for_healthy-Keeps : (env : SandboxEnv) → Keeps view (wait_for_healthy env)
  unfolding wait_for_healthy
  wait_for_healthy-Keeps env = wait_rounds-Keeps env.health

  Keeps-nothing : (b : Bool) (e : SandboxError) → Keeps view (call b e (nothing {F = F}))
  Keeps-nothing b e = Keeps-call b e (nothing {F = F}) (λ w. refl)

  pub get_container_logs-Keeps : (env : SandboxEnv) → Keeps view (get_container_logs env)
  unfolding get_container_logs
  get_container_logs-Keeps env = Keeps-nothing _ _

  ensure_dockerfile-Keeps :
      (env : SandboxEnv) (language : String) → Keeps view (ensure_dockerfile env language)
  unfolding ensure_dockerfile
  ensure_dockerfile-Keeps env language = elim (Bool-cases env.has_dockerfile) [
    | inl own ↦ rw own (Keeps-pure tt)
    | inr missing ↦ elim (Bool-cases (has_generated_dockerfile language)) [
      | inl known ↦ rw (missing, known) (Keeps-nothing _ _)
      | inr unknown ↦ rw (missing, unknown) (Keeps-raise _)
    ]
  ]

module _ {F V : Type 0} (view : W F → V) (p : Passive view) where
  Keeps-built :
      (b : Bool) (e : SandboxError) (tag : String)
      → Keeps view (call b e (did {F = F} (image_built tag)))
  Keeps-built b e tag = Keeps-call b e (did {F = F} (image_built tag)) (λ w. p.images w tag)

module _ {F V : Type 0} (view : W F → V) (p : Passive view) where
  pub build_image-Keeps :
      (env : SandboxEnv) (sub_id language : String) → Keeps view (build_image env sub_id language)
  unfolding build_image
  build_image-Keeps env sub_id language =
      search (keeps_rules, Keeps-nothing view, Keeps-built view p, ensure_dockerfile-Keeps view)
        depth 14

module _ {F V E : Type 0} (view : W F → V) (p : Passive view) where
  Keeps-publish :
      (b : Bool) (e : E) (f : W F → List (Message F))
      → Keeps view (call b e (λ w. (tt {0}, record w { published = f w })))
  Keeps-publish b e f =
      Keeps-call b e (λ w. (tt {0}, record w { published = f w })) (λ w. p.messages w (f w))

  Keeps-put_board :
      (b : Bool) (e : E) (f : W F → List (LeaderboardEntry F))
      → Keeps view (call b e (λ w. (tt {0}, record w { db = record w.db { leaderboard = f w } })))
  Keeps-put_board b e f =
      Keeps-call b e (λ w. (tt {0}, record w { db = record w.db { leaderboard = f w } }))
        (λ w. p.board w (f w))

  Keeps-put_aggregate :
      (b : Bool) (e : E) (f : W F → List (MetricAggregate F))
      → Keeps view
          (call b e (λ w. (tt {0}, record w { db = record w.db { metric_aggregates = f w } })))
  Keeps-put_aggregate b e f =
      Keeps-call b e (λ w. (tt {0}, record w { db = record w.db { metric_aggregates = f w } }))
        (λ w. p.aggregates w (f w))

module _ {F V : Type 0} ⦃fl : Float64 F⦄ (view : W F → V) (p : Passive view)
    (env : ScoringEnv) where
  publish-Keeps : Keeps view (publish_leaderboard_update env)
  unfolding publish_leaderboard_update
  publish-Keeps = search (keeps_rules, Keeps-publish view p)

  upsert_for-Keeps :
      (run_id : String) (agg : MetricAggregate F) (scores : NormalizedScores F)
      (o : Option Submission)
      → Keeps view (upsert_for env run_id agg scores o)
  unfolding upsert_for
  upsert_for-Keeps run_id agg scores none = Keeps-raise _
  upsert_for-Keeps run_id agg scores (some sub) =
      search (keeps_rules, Keeps-put_board view p, publish-Keeps)

  pub compute_and_store-Keeps :
      (cfg : Config F) (run_id : String) → Keeps view (compute_and_store env cfg run_id)
  unfolding compute_and_store upsert_leaderboard store_aggregate
  compute_and_store-Keeps cfg run_id =
      search (keeps_rules, Keeps-put_aggregate view p, upsert_for-Keeps) depth 8

module _ {F V : Type 0} (H : Type 0) ⦃fl : Float64 F⦄ ⦃hdr : Histogram H⦄ (view : W F → V)
    (p : Passive view) (env : Env) (cfg : Config F) where
  pub run_telemetry-Keeps :
      (run_id : String) (sub : Submission) → Keeps view (run_telemetry H env cfg run_id sub)
  unfolding run_telemetry add_telemetry
  run_telemetry-Keeps run_id sub = record { at = λ w. p.snapshots w _ _ }
