-- ===== src/Api/Replies.antt =====
-- The answers of the router and of the probes (backend/api/routes.go, backend/api/health_handler.go).
use distributed_benchmark_pl.Base.{
  ℕ, String, List, ◌≡◌, ◌≢◌, ◌⊎◌, ◌≤◌, inl, inr, refl, ap, arith, Bool-cases, Option-cases,
}
use distributed_benchmark_pl.Base.Float.{Float64}
use distributed_benchmark_pl.Models.{Config, Submission}
use distributed_benchmark_pl.Store.{find_submission}
use distributed_benchmark_pl.Submissions.{
  Backend, HandlerEnv, Response, get_submission, delete, trigger_run, select_submission, count_rows,
}
use distributed_benchmark_pl.Submissions.Creating.{CreateSubmissionRequest, create}
use distributed_benchmark_pl.Submissions.Creating.Admitted.{create_stores_or_keeps}
use distributed_benchmark_pl.Submissions.Deleting.{delete_clears_or_keeps}
use distributed_benchmark_pl.Submissions.Triggering.{trigger_queues_or_keeps}
use distributed_benchmark_pl.Submissions.Listing.{list, list_runs, list_selected, selected}
use distributed_benchmark_pl.Leaderboard.{BoardEnv}
use distributed_benchmark_pl.Api.{
  Method, get, post, put, delete_method, options, Resource, root, health_check, readiness_check,
  livez, static_file, all_submissions, submission_at, run_of, runs_of, board, board_stream,
  metrics_of, unknown, resource, Request, Probe, Reply, health, readiness, status_code,
  response_code, handle_method, handle, handle_get, handle_post, handle_delete,
}

-- The readiness probe answers 200 exactly if the health check does, and otherwise they answer 503 and 207.
probes_agree :
    (F : Type 0) (p : Probe)
    → ((status_code (readiness {F = F} p) ≡ 200) × (status_code (health {F = F} p) ≡ 200))
      ⊎ ((status_code (readiness {F = F} p) ≡ 503) × (status_code (health {F = F} p) ≡ 207))
unfolding readiness health status_code
probes_agree F p = elim (Bool-cases p.postgres) [
  | inl pg ↦ elim (Bool-cases p.redis) [
    | inl rd ↦ simp (pg, rd) (inl (refl, refl))
    | inr rd ↦ simp (pg, rd) (inr (refl, refl))
  ]
  | inr pg ↦ elim (Bool-cases p.redis) [
    | inl rd ↦ simp (pg, rd) (inr (refl, refl))
    | inr rd ↦ simp (pg, rd) (inr (refl, refl))
  ]
]

module _ {F E : Type 0} where
  get_submission-same :
      (env : HandlerEnv) (id : String) (s : Backend F E) → (get_submission env id s).1 ≡ s
  unfolding get_submission
  get_submission-same env id s = elim (Bool-cases (env.fault select_submission)) [
    | inl fails ↦ rw fails refl
    | inr works ↦ elim (Option-cases (find_submission id s.db)) [
      | inl missing ↦ rw (works, missing) refl
      | inr (sub, found) ↦ rw (works, found) refl
    ]
  ]

  list_selected-same :
      (env : HandlerEnv) (page size : ℕ) (rows : List Submission) (s : Backend F E)
      → (list_selected env page size rows s).1 ≡ s
  unfolding list_selected
  list_selected-same env page size rows s = ground (arith)

  list-same :
      (env : HandlerEnv) (page size : ℕ) (wanted : String) (s : Backend F E)
      → (list env page size wanted s).1 ≡ s
  unfolding list
  list-same env page size wanted s = elim (Bool-cases (env.fault count_rows)) [
    | inl fails ↦ rw fails refl
    | inr works ↦ elim (Option-cases (selected wanted s.db)) [
      | inl missing ↦ rw (works, missing) refl
      | inr (rows, found) ↦ rw (works, found) (list_selected-same env page size rows s)
    ]
  ]

  list_runs-same : (env : HandlerEnv) (id : String) (s : Backend F E) → (list_runs env id s).1 ≡ s
  unfolding list_runs
  list_runs-same env id s = ground arith

  -- The tables and the queue stay.
  abbrev Same : Backend F E → Backend F E → Type 0
  Same s t = (t.db ≡ s.db) × (t.redis ≡ s.redis)

  -- An answer below 400, or nothing done.
  abbrev Sound : Backend F E → Response × Backend F E → Type 0
  Sound s r = (response_code r.0 ≤ 399) ⊎ Same s r.1

  create-Sound :
      (env : HandlerEnv) (cfg : Config F) (form : CreateSubmissionRequest) (s : Backend F E)
      → Sound s (create env cfg form s)
  unfolding response_code
  create-Sound env cfg form s = elim (create_stores_or_keeps env cfg form s) [
    | inl (sub, answer, stored) ↦ rw answer (inl (omega arith))
    | inr (other, db, redis) ↦ inr (db, redis)
  ]

  trigger-Sound :
      (env : HandlerEnv) (cfg : Config F) (id : String) (s : Backend F E)
      → Sound s (trigger_run env cfg id s)
  unfolding response_code
  trigger-Sound env cfg id s = elim (trigger_queues_or_keeps env cfg id s) [
    | inl (answer, triggered) ↦ rw answer (inl (omega arith))
    | inr (other, same) ↦ inr (ap (λ t. t.db) same, ap (λ t. t.redis) same)
  ]

  delete-Sound : (env : HandlerEnv) (id : String) (s : Backend F E) → Sound s (delete env id s)
  unfolding response_code
  delete-Sound env id s = elim (delete_clears_or_keeps env id s) [
    | inl (answer, deleted) ↦ rw answer (inl (omega arith))
    | inr (other, same) ↦ inr (ap (λ t. t.db) same, ap (λ t. t.redis) same)
  ]

  module _ ⦃fl : Float64 F⦄ (env : HandlerEnv) (lb : BoardEnv F) (probe : Probe)
      (cfg : Config F) where
    handle_get-same :
        (req : Request F) (r : Resource) (s : Backend F E)
        → (handle_get env lb probe cfg req r s).1 ≡ s
    unfolding handle_get
    handle_get-same req root s = refl
    handle_get-same req static_file s = refl
    handle_get-same req health_check s = refl
    handle_get-same req readiness_check s = refl
    handle_get-same req livez s = refl
    handle_get-same req all_submissions s = list-same env req.page req.page_size req.status s
    handle_get-same req (submission_at id) s = get_submission-same env id s
    handle_get-same req (run_of id) s = refl
    handle_get-same req (runs_of id) s = list_runs-same env id s
    handle_get-same req board s = refl
    handle_get-same req board_stream s = refl
    handle_get-same req (metrics_of id) s = refl
    handle_get-same req unknown s = refl

    -- An answer of the router below 400, or nothing done.
    abbrev Answered : Backend F E → Reply F × Backend F E → Type 0
    Answered s r = (status_code r.0 ≤ 399) ⊎ Same s r.1

    handle_post-Answered :
        (req : Request F) (r : Resource) (s : Backend F E)
        → Answered s (handle_post env lb probe cfg req r s)
    unfolding handle_post status_code
    handle_post-Answered req all_submissions s = create-Sound env cfg req.form s
    handle_post-Answered req (run_of id) s = trigger-Sound env cfg id s
    handle_post-Answered req _ s = inr (refl, refl)

    handle_delete-Answered :
        (r : Resource) (s : Backend F E) → Answered s (handle_delete env lb probe cfg r s)
    unfolding handle_delete status_code
    handle_delete-Answered (submission_at id) s = delete-Sound env id s
    handle_delete-Answered _ s = inr (refl, refl)

    handle_method-same :
        (m : Method) (req : Request F) (r : Resource) (s : Backend F E)
        → m ≢ post
        → m ≢ delete_method
        → (handle_method env lb probe cfg m req r s).1 ≡ s
    unfolding handle_method
    handle_method-same options req r s no_post no_delete = refl
    handle_method-same get req r s no_post no_delete = handle_get-same req r s
    handle_method-same post req r s no_post no_delete = absurd (no_post refl)
    handle_method-same delete_method req r s no_post no_delete = absurd (no_delete refl)
    handle_method-same put req r s no_post no_delete = refl

    handle_method-Answered :
        (m : Method) (req : Request F) (r : Resource) (s : Backend F E)
        → Answered s (handle_method env lb probe cfg m req r s)
    unfolding handle_method
    handle_method-Answered options req r s = inr (refl, refl)
    handle_method-Answered get req r s =
        let same = handle_get-same req r s in inr (ap (λ t. t.db) same, ap (λ t. t.redis) same)
    handle_method-Answered post req r s = handle_post-Answered req r s
    handle_method-Answered delete_method req r s = handle_delete-Answered r s
    handle_method-Answered put req r s = inr (refl, refl)

    -- A request with another method than POST and DELETE changes neither the tables, nor the queue, nor the
    -- staged files.
    other_methods_keep :
        (req : Request F) (s : Backend F E)
        → req.method ≢ post
        → req.method ≢ delete_method
        → (handle env lb probe cfg req s).1 ≡ s
    unfolding handle
    other_methods_keep req s = handle_method-same req.method req (resource req.path) s

    -- A request that is answered with a status code of 400 or more leaves the tables and the queue
    -- as they were.
    pub errors_keep_tables :
        (req : Request F) (s : Backend F E)
        → let r = handle env lb probe cfg req s in
          400 ≤ status_code r.0 → (r.1.db ≡ s.db) × (r.1.redis ≡ s.redis)
    unfolding handle
    errors_keep_tables req s bad =
        elim (handle_method-Answered req.method req (resource req.path) s) [
          | inl fine ↦ absurd (omega (arith, fine, bad))
          | inr same ↦ same
        ]
