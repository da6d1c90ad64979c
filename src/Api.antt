-- ===== src/Api.antt =====
-- backend/api/routes.go and backend/api/health_handler.go, with the status codes of
-- backend/utils/response.go: a request goes to its handler, and the answer and the new state come
-- back. A path is the list of its parts between the slashes, without one at its end; the query is
-- given by its parsed values.
pub mod Replies
pub mod Middleware
pub mod RequestLog
use distributed_benchmark_pl.Base.{
  ℕ, String, Bool, true, false, List, [], ◌∷◌, ◌&&◌, str_eq, if◌then◌else◌,
}
use distributed_benchmark_pl.Base.Float.{Float64}
use distributed_benchmark_pl.Models.{Config}
use distributed_benchmark_pl.Submissions.{
  Backend, HandlerEnv, Response, ok_submission, ok_list, ok_runs, created_submission, created_run,
  no_content, bad_request, not_found, conflict, unprocessable, internal_error, get_submission,
  delete, trigger_run,
}
use distributed_benchmark_pl.Submissions.Creating.{CreateSubmissionRequest, create}
use distributed_benchmark_pl.Submissions.Listing.{list, list_runs}
use distributed_benchmark_pl.Leaderboard.{
  BoardEnv, BoardResponse, ok_board, ok_metrics, run_not_found, database_error, Frame, Event,
  Ending, snapshot, stream, run_metrics,
}

pub data Method : Type 0 where
  get post put delete_method options : Method

-- What the paths name; `:id` and `:runID` are arguments.
pub data Resource : Type 0 where
  root health_check readiness_check livez static_file : Resource
  all_submissions : Resource
  submission_at : String → Resource
  run_of : String → Resource
  runs_of : String → Resource
  board : Resource
  board_stream : Resource
  metrics_of : String → Resource
  unknown : Resource

unfoldable pub v1_resource : List String → Resource
v1_resource [] = unknown
v1_resource (a ∷ []) =
    if str_eq a "submissions"
    then all_submissions
    else if str_eq a "leaderboard"
    then board
    else unknown
v1_resource (a ∷ b ∷ []) =
    if str_eq a "submissions"
    then submission_at b
    else if str_eq a "leaderboard" && str_eq b "ws"
    then board_stream
    else unknown
v1_resource (a ∷ b ∷ c ∷ []) =
    if str_eq a "submissions"
    then (if str_eq c "run" then run_of b else if str_eq c "runs" then runs_of b else unknown)
    else unknown
v1_resource (a ∷ b ∷ c ∷ d ∷ []) =
    if str_eq a "leaderboard" && str_eq b "runs" && str_eq d "metrics"
    then metrics_of c
    else unknown
v1_resource (a ∷ b ∷ c ∷ d ∷ e ∷ l) = unknown

unfoldable pub resource : List String → Resource
resource [] = root
resource (a ∷ []) =
    if str_eq a "health"
    then health_check
    else if str_eq a "readiness"
    then readiness_check
    else if str_eq a "livez"
    then livez
    else unknown
resource (a ∷ b ∷ l) =
    let rest = v1_resource l in
    if str_eq a "api" && str_eq b "v1"
    then rest
    else if str_eq a "static"
    then static_file
    else unknown

pub record Request (F : Type 0) : Type 0 where
  pub method : Method
  pub path : List String
  pub page : ℕ
  pub page_size : ℕ
  pub status : String
  pub limit : ℕ
  pub form : CreateSubmissionRequest
  -- what Stream's select meets
  pub events : List (Event F × Bool)

-- Whether the two pings work.
pub record Probe : Type 0 where
  pub postgres : Bool
  pub redis : Bool

pub data CheckStatus : Type 0 where
  ok degraded down : CheckStatus

-- The status and the checks of healthResponse, without the versions and the times.
pub record HealthResponse : Type 0 where
  pub status : CheckStatus
  pub postgres : CheckStatus
  pub redis : CheckStatus

pub data Reply (F : Type 0) : Type 0 where
  health_reply : ℕ → Bool → HealthResponse → Reply F
  ready : Reply F
  postgres_unavailable : Reply F
  redis_unavailable : Reply F
  alive : Reply F
  submission_reply : Response → Reply F
  board_reply : BoardResponse F → Reply F
  stream_reply : List (Frame F) × Ending → Reply F
  file_reply : Reply F
  preflight : Reply F
  route_not_found : Reply F

unfoldable pub health : {F : Type 0} → Probe → Reply F
health p =
    let pg = if p.postgres then ok else down in
    let first = if p.postgres then ok else degraded in
    let rd = if p.redis then ok else down in
    let overall : CheckStatus = if p.redis then first else degraded in
    let fine : Bool = elim overall [ ok ↦ true | degraded ↦ false | down ↦ false ] in
    health_reply (if fine then 200 else 207) fine
      (record { status = overall; postgres = pg; redis = rd })

unfoldable pub readiness : {F : Type 0} → Probe → Reply F
readiness p =
    if p.postgres then (if p.redis then ready else redis_unavailable) else postgres_unavailable

unfoldable pub response_code : Response → ℕ
response_code (ok_submission s) = 200
response_code (ok_list p) = 200
response_code (ok_runs l) = 200
response_code (created_submission s) = 201
response_code (created_run r) = 201
response_code no_content = 204
response_code bad_request = 400
response_code not_found = 404
response_code conflict = 409
response_code unprocessable = 422
response_code internal_error = 500

unfoldable pub board_code : {F : Type 0} → BoardResponse F → ℕ
board_code (ok_board b) = 200
board_code (ok_metrics l) = 200
board_code run_not_found = 404
board_code database_error = 500

-- The upgrade of a stream is answered with 101; a file is taken to be there.
unfoldable pub status_code : {F : Type 0} → Reply F → ℕ
status_code (health_reply n b h) = n
status_code ready = 200
status_code postgres_unavailable = 503
status_code redis_unavailable = 503
status_code alive = 200
status_code (submission_reply r) = response_code r
status_code (board_reply r) = board_code r
status_code (stream_reply r) = 101
status_code file_reply = 200
status_code preflight = 204
status_code route_not_found = 404

module _ {F E : Type 0} ⦃fl : Float64 F⦄ (env : HandlerEnv) (lb : BoardEnv F) (probe : Probe)
    (cfg : Config F) where
  abbrev pub submission_answer : Response × Backend F E → Reply F × Backend F E
  submission_answer r = (submission_reply r.0, r.1)

  unfoldable pub handle_get : Request F → Resource → Backend F E → Reply F × Backend F E
  handle_get req root s = (file_reply, s)
  handle_get req static_file s = (file_reply, s)
  handle_get req health_check s = (health probe, s)
  handle_get req readiness_check s = (readiness probe, s)
  handle_get req livez s = (alive, s)
  handle_get req all_submissions s =
      submission_answer (list env req.page req.page_size req.status s)
  handle_get req (submission_at id) s = submission_answer (get_submission env id s)
  handle_get req (run_of id) s = (route_not_found, s)
  handle_get req (runs_of id) s = submission_answer (list_runs env id s)
  handle_get req board s = (board_reply (snapshot lb s.db), s)
  handle_get req board_stream s = (stream_reply (stream lb s.db req.events), s)
  handle_get req (metrics_of id) s = (board_reply (run_metrics lb id req.limit s.db), s)
  handle_get req unknown s = (route_not_found, s)

  unfoldable pub handle_post : Request F → Resource → Backend F E → Reply F × Backend F E
  handle_post req all_submissions s = submission_answer (create env cfg req.form s)
  handle_post req (run_of id) s = submission_answer (trigger_run env cfg id s)
  handle_post req _ s = (route_not_found, s)

  unfoldable pub handle_delete : Resource → Backend F E → Reply F × Backend F E
  handle_delete (submission_at id) s = submission_answer (delete env id s)
  handle_delete _ s = (route_not_found, s)

  unfoldable pub handle_method : Method → Request F → Resource → Backend F E → Reply F × Backend F E
  handle_method options req r s = (preflight, s)
  handle_method get req r s = handle_get req r s
  handle_method post req r s = handle_post req r s
  handle_method delete_method req r s = handle_delete r s
  handle_method put req r s = (route_not_found, s)

  -- The router, after corsHeaders, which answers OPTIONS.
  unfoldable pub handle : Request F → Backend F E → Reply F × Backend F E
  handle req s = handle_method req.method req (resource req.path) s
