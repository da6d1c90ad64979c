-- ===== src/Tests/Serving.antt =====
-- The router, the board's handlers, the archive and the settings at concrete inputs.
use mathlib.Core.List.{Perm}
use distributed_benchmark_pl.Base.{
  ℕ, ◌-◌, ◌^◌, String, Bool, true, false, none, some, List, [], ◌∷◌, ◌≡◌, ◌≢◌, ◌⊎◌, refl, All,
  arith, length,
}
use distributed_benchmark_pl.Base.Sorting.{Ascending}
use distributed_benchmark_pl.Base.Text.{codes}
use distributed_benchmark_pl.Archive.Cleaning.{
  clean_parts, clean_loop, clean_part, split_slash, cons_part, lead, is_rooted, is_proper,
}
use distributed_benchmark_pl.Archive.Unzip.{
  DirEntry, HasName, Inside, extract_submission_zip, extract_submission_zip-Inside,
}
use distributed_benchmark_pl.Models.{Submission}
use distributed_benchmark_pl.Store.{Message}
use distributed_benchmark_pl.Submissions.{Backend, HandlerEnv, created_submission}
use distributed_benchmark_pl.Submissions.Creating.{CreateSubmissionRequest, create, binds}
use distributed_benchmark_pl.Submissions.Creating.Admitted.{Stored, create_stores_or_keeps}
use distributed_benchmark_pl.Submissions.Listing.{fetch, fetch_all_pages, newer, selected}
use distributed_benchmark_pl.Validator.{total_pages}
use distributed_benchmark_pl.Leaderboard.{BoardEnv, Event, received, ping_due}
use distributed_benchmark_pl.Api.{
  Method, post, v1_resource, Request, Probe, handle, handle_method, handle_post, resource,
  status_code, response_code,
}
use distributed_benchmark_pl.Base.{Option}
use distributed_benchmark_pl.Api.RequestLog.{
  LogLevel, request, Secured, Handled, logged_chain, logged_chain_answers,
}
use distributed_benchmark_pl.Api.Middleware.{Context, header, id_of, is_options}
use distributed_benchmark_pl.Api.Replies.{errors_keep_tables}
use distributed_benchmark_pl.Settings.{Env, get_env_int}
use distributed_benchmark_pl.Settings.Integers.{
  signed_decimal, decimal, decimal_within, get_env_int-signed_decimal,
}
use distributed_benchmark_pl.Settings.Loading.{Weights, load}
use distributed_benchmark_pl.Settings.Required.{Loads, load-Loads}
use distributed_benchmark_pl.Tests.Data.{settings, the_submission, the_run}
use distributed_benchmark_pl.Tests.Instances.{whole}

abbrev all_works : HandlerEnv
all_works = record {
  fault = λ site. false;
  new_id = "sub-0003";
  now = 12;
  copied = none;
  place = λ x. 0;
}

abbrev tables : Backend ℕ String
tables = record {
  db = record {
    submissions = the_submission ∷ record the_submission { id = "sub-0002"; created_at = 2 } ∷ [];
    benchmark_runs = the_run ∷ [];
    metric_snapshots = [];
    metric_aggregates = [];
    leaderboard = [];
  };
  redis = record { benchmark_runs = "run-1" ∷ []; dead_letter = [] };
  staged = "sub-0001" ∷ [];
  files = [];
}

abbrev form : CreateSubmissionRequest
form = record {
  team_name = "team";
  language = "go";
  file = some (record { filename = "../engine.go"; size = 2048; content = 112 ∷ 107 ∷ [] });
}

create_stores_or_keeps_example :
    let r = create all_works settings form tables in
    ((sub : Submission) × (r.0 ≡ created_submission sub)
      × Stored all_works settings form tables sub r.1)
    ⊎ (((sub : Submission) → r.0 ≢ created_submission sub)
        × (r.1.db ≡ tables.db)
        × (r.1.redis ≡ tables.redis))
create_stores_or_keeps_example = create_stores_or_keeps all_works settings form tables

-- Both rows, on one page each.
fetch_all_pages_example :
    let l = fetch (λ k. all_works) 1 "" tables 0 (total_pages (length tables.db.submissions) 1) in
    Perm l tables.db.submissions × Ascending newer l
unfolding selected
fetch_all_pages_example =
    fetch_all_pages (λ k. all_works) (λ k site. refl) 1 "" tables tables.db.submissions refl
      (omega arith) (omega arith) ((refl, tt), (tt, tt)) (omega arith)

abbrev board_env : BoardEnv ℕ
board_env = record {
  upgrade_fails = false;
  query_fails = false;
  exists_fails = false;
  marshal_fails = false;
  first_write_fails = false;
  bad_entry = λ e. false;
  bad_snapshot = λ m. false;
  now = 20;
}

-- A board, a ping, and the same board again on a connection that breaks.
abbrev events : List (Event ℕ × Bool)
events =
    (received (Message.board []), true)
    ∷ (ping_due, true)
    ∷ (received (Message.board []), false)
    ∷ []

-- An archive with an entry that leads out of the directory.
abbrev upload : List DirEntry
upload =
    record {
      name = codes "engine.zip";
      is_dir = false;
      archive = some (
          record {
            name = codes "../../etc/passwd";
            is_dir = false;
            mkdir_fails = false;
            create_fails = false;
            open_fails = false;
            copy_fails = false;
          }
          ∷ record {
            name = codes "main.go";
            is_dir = false;
            mkdir_fails = false;
            create_fails = false;
            open_fails = false;
            copy_fails = false;
          }
          ∷ []);
    }
    ∷ []

named : HasName (codes "./submissions/sub-0001")
unfolding clean_parts clean_loop clean_part split_slash cons_part lead is_rooted is_proper
named = (codes "submissions" ∷ [], codes "sub-0001", refl, refl)

extract_submission_zip-Inside_example :
    All
      (Inside (codes "./submissions/sub-0001"))
      (extract_submission_zip (some upload) (codes "./submissions/sub-0001")).0
extract_submission_zip-Inside_example =
    extract_submission_zip-Inside (codes "./submissions/sub-0001") named (some upload)

abbrev probe : Probe
probe = record { postgres = true; redis = false }

abbrev a_request : Method → List String → Request ℕ
a_request m path = record {
  method = m;
  path = path;
  page = 1;
  page_size = 20;
  status = "";
  limit = 200;
  form = record form { team_name = "x" };
  events = [];
}

-- An upload with a team name that is too short.
abbrev refused_upload : Request ℕ
refused_upload = a_request post ("api" ∷ "v1" ∷ "submissions" ∷ [])

refused_upload-code :
    status_code (handle all_works board_env probe settings refused_upload tables).0 ≡ 400
unfolding handle handle_method resource v1_resource handle_post create binds status_code
    response_code
refused_upload-code = refl

errors_keep_tables_example :
    let r = handle all_works board_env probe settings refused_upload tables in
    (r.1.db ≡ tables.db) × (r.1.redis ≡ tables.redis)
errors_keep_tables_example =
    errors_keep_tables all_works board_env probe settings refused_upload tables
      (rw refused_upload-code (omega arith))

abbrev minus_one : Env
minus_one key = "-1"

get_env_int-signed_decimal_example : get_env_int minus_one "REDIS_DB" 0 ≡ 2 ^ 64 - 1
unfolding signed_decimal decimal decimal_within
get_env_int-signed_decimal_example =
    get_env_int-signed_decimal minus_one "REDIS_DB" (2 ^ 64 - 1) 0 (omega arith) refl

abbrev tenths : Weights ℕ
tenths = record { three_tenths = 3; one_tenth = 1 }

load-Loads_example :
    Loads
      (λ t. some 3)
      (λ t. some 60)
      tenths
      minus_one
      (load (λ t. some 3) (λ t. some 60) tenths minus_one)
load-Loads_example = load-Loads (λ t. some 3) (λ t. some 60) tenths minus_one

abbrev upload_context : Context
upload_context = record {
  method = post;
  is_upload_path = true;
  sent_request_id = "";
  headers = [];
  body_limit = none;
}

-- A handler that panics.
abbrev always_panics : Context → Option ℕ
always_panics c = none

logged_chain_answers_example :
    let r = logged_chain false 256 "0123456789ab" always_panics upload_context in
    (header "X-Request-ID" r.0.headers ≡ some (id_of "0123456789ab" upload_context))
    × (((is_options post ≡ true)
          × (r.0.status ≡ 204)
          × (header "X-Frame-Options" r.0.headers ≡ none)
          × (r.1 ≡ request LogLevel.info post 204 upload_context.sent_request_id ∷ []))
        ⊎ ((is_options post ≡ false) × Secured r.0.headers × Handled upload_context none r))
logged_chain_answers_example =
    logged_chain_answers false 256 "0123456789ab" always_panics upload_context refl
