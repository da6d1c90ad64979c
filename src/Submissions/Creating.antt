-- ===== src/Submissions/Creating.antt =====
-- Create of backend/api/submission_handler.go, with the binding tags of CreateSubmissionRequest
-- (backend/models/submission.go). No middleware sets the user id, which is empty. A directory that
-- MkdirAll made and what saveUpload wrote stay when a later step fails.
pub mod Admitted
use distributed_benchmark_pl.Base.{
  ℕ, ltb, leb, String, Bool, true, false, Option, none, some, List, [], ◌∷◌, ◌++◌, ◌||◌, ◌&&◌,
  str_eq, length, take, if◌then◌else◌, ◌≡◌, ◌≢◌, ◌⊎◌, refl, Bool-cases, Option-cases, inl, inr, ◌≤◌,
  arith,
}
use distributed_benchmark_pl.Base.Text.{Text, codes, text_eq}
use distributed_benchmark_pl.Models.{Submission, SubmissionStatus, Config}
use distributed_benchmark_pl.Validator.{normalize_language, validate_submission_file}
use distributed_benchmark_pl.Submissions.{
  Backend, HandlerEnv, Response, created_submission, bad_request, unprocessable, internal_error,
  make_dir, open_upload, create_dest, insert_submission, StoredFile, drop_if,
}
use distributed_benchmark_pl.Submissions.Naming.{base_name}

pub record Upload : Type 0 where
  pub filename : String
  pub size : ℕ
  pub content : List ℕ

-- The multipart form; `none` is a request without the field `file`.
pub record CreateSubmissionRequest : Type 0 where
  pub team_name : String
  pub language : String
  pub file : Option Upload

-- The tags required, min, max and oneof; min and max count runes.
unfoldable pub binds : CreateSubmissionRequest → Bool
binds req =
    leb 2 (length (codes req.team_name))
    && leb (length (codes req.team_name)) 64
    && (str_eq req.language "go"
        || str_eq req.language "cpp"
        || str_eq req.language "rust"
        || str_eq req.language "python")

-- The string of a language of the four.
unfoldable pub spelled : Text → String
spelled lang =
    if text_eq lang (codes "go")
    then "go"
    else if text_eq lang (codes "cpp")
    then "cpp"
    else if text_eq lang (codes "rust")
    then "rust"
    else "python"

unfoldable pub new_submission : HandlerEnv → CreateSubmissionRequest → Text → Upload → Submission
new_submission env req lang file = record {
  id = env.new_id;
  user_id = "";
  team_name = req.team_name;
  filename = base_name file.filename;
  language = spelled lang;
  status = SubmissionStatus.pending;
  container_id = "";
  image_tag = "";
  error_msg = none;
  created_at = env.now;
  updated_at = env.now;
}

module _ {F E : Type 0} where
  -- os.Create truncates a file that is there.
  unfoldable pub put_file : String → String → List ℕ → Backend F E → Backend F E
  put_file dir name content s = record s {
    files =
        record { dir = dir; name = name; content = content }
        ∷ drop_if (λ f. str_eq f.dir dir && str_eq f.name name) s.files;
  }

  -- Whether it returns an error. A failed copy leaves the bytes that it has copied.
  unfoldable pub save_upload :
      HandlerEnv → String → String → Upload → Backend F E → Bool × Backend F E
  save_upload env dir name file s =
      if env.fault open_upload || env.fault create_dest then (true, s) else elim env.copied [
        | none ↦ (false, put_file dir name file.content s)
        | some n ↦ (true, put_file dir name (take n file.content) s)
      ]

  -- From MkdirAll on.
  unfoldable pub stage : HandlerEnv → Submission → Upload → Backend F E → Response × Backend F E
  stage env sub file s =
      let made = record s { staged = s.staged ++ sub.id ∷ [] } in
      let saved = save_upload env sub.id sub.filename file made in
      if env.fault make_dir
      then (internal_error, s)
      else if saved.0
      then (internal_error, saved.1)
      else if env.fault insert_submission
      then (internal_error, saved.1)
      else (
        created_submission sub,
        record saved.1 {
          db = record saved.1.db { submissions = saved.1.db.submissions ++ sub ∷ [] };
        },
      )

  unfoldable pub create_upload :
      HandlerEnv
      → Config F
      → CreateSubmissionRequest
      → Text
      → Upload
      → Backend F E
      → Response × Backend F E
  create_upload env cfg req lang file s =
      elim (validate_submission_file file.size (codes file.filename) lang cfg.max_upload_mb) [
        | some e ↦ (unprocessable, s)
        | none ↦ stage env (new_submission env req lang file) file s
      ]

  -- From the look at the file on.
  unfoldable pub create_file :
      HandlerEnv
      → Config F
      → CreateSubmissionRequest
      → Text
      → Option Upload
      → Backend F E
      → Response × Backend F E
  create_file env cfg req lang none s = (bad_request, s)
  create_file env cfg req lang (some file) s = create_upload env cfg req lang file s

  unfoldable pub create :
      HandlerEnv → Config F → CreateSubmissionRequest → Backend F E → Response × Backend F E
  create env cfg req s =
      if binds req
      then elim (normalize_language (codes req.language)) [
        | none ↦ (unprocessable, s)
        | some lang ↦ create_file env cfg req lang req.file s
      ]
      else (bad_request, s)
