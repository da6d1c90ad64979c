-- ===== src/Submissions/Triggering.antt =====
-- TriggerRun of backend/api/submission_handler.go.
use mathlib.Core.List.{reverse-cons}
use distributed_benchmark_pl.Base.{
  String, Bool, true, false, some, [], ◌∷◌, ◌++◌, ◌≡◌, ◌≢◌, ◌⊎◌, refl, if◌then◌else◌, Bool-cases,
  Option-cases, inl, inr,
}
use distributed_benchmark_pl.Models.{Submission, Config}
use distributed_benchmark_pl.Queue.{enqueue_run}
use distributed_benchmark_pl.Queue.Fifo.{waiting}
use distributed_benchmark_pl.Store.{find_submission}
use distributed_benchmark_pl.Submissions.{
  Backend, HandlerEnv, Response, created_run, is_runnable, new_run, trigger_run, trigger_found,
  select_submission, insert_run, enqueue_call,
}

module _ {F E : Type 0} where
  -- A run that was triggered: the submission was there in a runnable state, the run is the last row
  -- of its table, and it waits last in the queue if Redis took it.
  pub record Triggered (env : HandlerEnv) (cfg : Config F) (sub_id : String) (s t : Backend F E)
      : Type 0 where
    pub sub : Submission
    pub found : find_submission sub_id s.db ≡ some sub
    pub runnable : is_runnable sub.status ≡ true
    pub row : t.db.benchmark_runs ≡ s.db.benchmark_runs ++ new_run env cfg sub_id ∷ []
    pub submissions : t.db.submissions ≡ s.db.submissions
    pub other_tables :
        (t.db.metric_snapshots ≡ s.db.metric_snapshots)
        × (t.db.metric_aggregates ≡ s.db.metric_aggregates)
        × (t.db.leaderboard ≡ s.db.leaderboard)
    pub dead_letters : t.redis.dead_letter ≡ s.redis.dead_letter
    pub uploads : t.files ≡ s.files
    pub queued :
        waiting t.redis
        ≡ (if env.fault enqueue_call then waiting s.redis else waiting s.redis ++ env.new_id ∷ [])

  abbrev Outcome : HandlerEnv → Config F → String → Backend F E → Response × Backend F E → Type 0
  Outcome env cfg sub_id s r =
      ((r.0 ≡ created_run (new_run env cfg sub_id)) × Triggered env cfg sub_id s r.1)
      ⊎ ((r.0 ≢ created_run (new_run env cfg sub_id)) × (r.1 ≡ s))

  enqueue-dead_letter :
      (b : Bool) (run_id : String) (s : Backend F E)
      → (enqueue_run b run_id s.redis).1.dead_letter ≡ s.redis.dead_letter
  unfolding enqueue_run
  enqueue-dead_letter true run_id s = refl
  enqueue-dead_letter false run_id s = refl

  enqueue_lem :
      (b : Bool) (run_id : String) (s : Backend F E)
      → waiting (enqueue_run b run_id s.redis).1
        ≡ (if b then waiting s.redis else waiting s.redis ++ run_id ∷ [])
  unfolding enqueue_run
  enqueue_lem true run_id s = refl
  enqueue_lem false run_id s = reverse-cons run_id s.redis.benchmark_runs

  trigger_found-Outcome :
      (env : HandlerEnv) (cfg : Config F) (sub_id : String) (sub : Submission) (s : Backend F E)
      → find_submission sub_id s.db ≡ some sub
      → Outcome env cfg sub_id s (trigger_found env cfg sub_id sub s)
  unfolding trigger_found
  trigger_found-Outcome env cfg sub_id sub s found = elim (Bool-cases (is_runnable sub.status)) [
    | inr stuck ↦ rw stuck (inr (cc, refl))
    | inl runnable ↦ elim (Bool-cases (env.fault insert_run)) [
      | inl fails ↦ rw (runnable, fails) (inr (cc, refl))
      | inr works ↦
          rw (runnable, works)
            (inl (
              refl,
              record {
                sub = sub;
                found = found;
                runnable = runnable;
                row = refl;
                submissions = refl;
                other_tables = (refl, refl, refl);
                dead_letters = enqueue-dead_letter (env.fault enqueue_call) env.new_id s;
                uploads = refl;
                queued = enqueue_lem (env.fault enqueue_call) env.new_id s;
              },
            ))
    ]
  ]

  pub trigger_queues_or_keeps :
      (env : HandlerEnv) (cfg : Config F) (sub_id : String) (s : Backend F E)
      → let r = trigger_run env cfg sub_id s in
        ((r.0 ≡ created_run (new_run env cfg sub_id)) × Triggered env cfg sub_id s r.1)
        ⊎ ((r.0 ≢ created_run (new_run env cfg sub_id)) × (r.1 ≡ s))
  unfolding trigger_run
  trigger_queues_or_keeps env cfg sub_id s = elim (Bool-cases (env.fault select_submission)) [
    | inl fails ↦ rw fails (inr (cc, refl))
    | inr works ↦ elim (Option-cases (find_submission sub_id s.db)) [
      | inl missing ↦ rw (works, missing) (inr (cc, refl))
      | inr (sub, found) ↦ rw (works, found) (trigger_found-Outcome env cfg sub_id sub s found)
    ]
  ]
