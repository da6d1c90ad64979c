-- ===== src/Submissions/Creating/Admitted.antt =====
-- The uploads that Create of backend/api/submission_handler.go stores.
use mathlib.Core.Bool.{false≢true}
use text.Mathlib.TextEquality.{eq_iff}
use distributed_benchmark_pl.Base.{
  List, sym, ◌∙◌, ◌||◌, ℕ, String, true, false, Option, none, some, [], ◌∷◌, ◌++◌, ◌||◌, str_eq,
  length, ap, ◌∙◌, sym, ◌≡◌, ◌≢◌, ◌⊎◌, refl, Bool-cases, Option-cases, inl, inr, ◌≤◌, arith,
}
use distributed_benchmark_pl.Base.Text.{Text, NoSlash, codes, to_lower, to_lower_rune}
use distributed_benchmark_pl.Models.{Submission, SubmissionStatus, Config}
use distributed_benchmark_pl.Validator.{
  normalize_language, validate_submission_file, member, allowed_extensions, ext, ext_scan,
  trim_space, trim_left, is_space,
}
use distributed_benchmark_pl.Submissions.{
  Backend, HandlerEnv, Response, created_submission, make_dir, open_upload, create_dest,
  insert_submission, StoredFile,
}
use distributed_benchmark_pl.Submissions.Naming.{base_name, base_name-component, ext_nil}
use distributed_benchmark_pl.Submissions.Creating.{
  CreateSubmissionRequest, Upload, create, create_file, create_upload, stage, put_file, save_upload,
  binds, spelled, new_submission,
}

-- A file name that stays in the directory it is put into.
pub record StaysInside (name : String) : Type 0 where
  pub no_slash : NoSlash (codes name)
  pub not_here : name ≢ "."
  pub not_above : name ≢ ".."

extension_allowed :
    (size : ℕ) (filename lang : Text) (max_mb : ℕ)
    → validate_submission_file size filename lang max_mb ≡ none
    → member (to_lower (ext filename)) (allowed_extensions (to_lower lang)) ≡ true
unfolding validate_submission_file
extension_allowed size filename lang max_mb h = ground (arith, h)

nothing_not_allowed : (lang : Text) → member (to_lower (ext [])) (allowed_extensions lang) ≡ false
unfolding member allowed_extensions to_lower to_lower_rune ext ext_scan
nothing_not_allowed lang = ground arith

dot_not_allowed :
    (lang : Text) → member (to_lower (ext (codes "."))) (allowed_extensions lang) ≡ false
unfolding member allowed_extensions to_lower to_lower_rune ext ext_scan
dot_not_allowed lang = ground arith

dots_not_allowed :
    (lang : Text) → member (to_lower (ext (codes ".."))) (allowed_extensions lang) ≡ false
unfolding member allowed_extensions to_lower to_lower_rune ext ext_scan
dots_not_allowed lang = ground arith

accepted-StaysInside :
    (size : ℕ) (filename : String) (lang : Text) (max_mb : ℕ)
    → validate_submission_file size (codes filename) lang max_mb ≡ none
    → StaysInside (base_name filename)
accepted-StaysInside size filename lang max_mb h =
    let allowed = extension_allowed size (codes filename) lang max_mb h in
    let l = to_lower lang in
    let has : ext (codes filename) ≢ [] = λ none_there. false≢true (
      sym (nothing_not_allowed l)
      ∙ ap (λ e. member (to_lower e) (allowed_extensions l)) (ext_nil ∙ sym none_there)
      ∙ allowed) in
    let base = base_name-component filename has in
    let also : member (to_lower (ext (codes (base_name filename)))) (allowed_extensions l) ≡ true =
      rw base.1 allowed in
    record {
      no_slash = base.0;
      not_here = λ e. false≢true (sym (dot_not_allowed l) ∙ (rw e at also));
      not_above = λ e. false≢true (sym (dots_not_allowed l) ∙ (rw e at also));
    }

-- The four languages are their own normal form.
abbrev Named : String → Type 0
Named l = (normalize_language (codes l) ≡ some (codes l)) × (spelled (codes l) ≡ l)

named :
    (l : String)
    → (str_eq l "go" || str_eq l "cpp" || str_eq l "rust" || str_eq l "python") ≡ true
    → Named l
unfolding normalize_language member to_lower to_lower_rune trim_space trim_left is_space spelled
named l h = elim (Bool-cases (str_eq l "go")) [
  | inl go ↦ rw ((eq_iff l "go").0 go) (refl, refl)
  | inr not_go ↦ elim (Bool-cases (str_eq l "cpp")) [
    | inl cpp ↦ rw ((eq_iff l "cpp").0 cpp) (refl, refl)
    | inr not_cpp ↦ elim (Bool-cases (str_eq l "rust")) [
      | inl rust ↦ rw ((eq_iff l "rust").0 rust) (refl, refl)
      | inr not_rust ↦
          let last : str_eq l "python" ≡ true = rw (not_go, not_cpp, not_rust) at h in
          rw ((eq_iff l "python").0 last) (refl, refl)
    ]
  ]
]

language_lem : (req : CreateSubmissionRequest) → binds req ≡ true → Named req.language
unfolding binds
language_lem req bound = named req.language (ground (arith, bound))

module _ {F E : Type 0} (env : HandlerEnv) (cfg : Config F) (req : CreateSubmissionRequest)
    (s : Backend F E) where
  -- An upload that was stored: the form was valid, the file was accepted, its name stays in the directory of
  -- the submission, and the pending submission is the last row of its table.
  pub record Stored (sub : Submission) (t : Backend F E) : Type 0 where
    pub file : Upload
    pub present : req.file ≡ some file
    pub name_length : (2 ≤ length (codes req.team_name)) × (length (codes req.team_name) ≤ 64)
    pub accepted :
        validate_submission_file file.size
          (codes file.filename)
          (codes req.language)
          cfg.max_upload_mb
        ≡ none
    pub inside : StaysInside sub.filename
    pub team : sub.team_name ≡ req.team_name
    pub language : sub.language ≡ req.language
    pub pending : sub.status ≡ SubmissionStatus.pending
    pub saved :
        (rest : List StoredFile) × (t.files
          ≡ record { dir = sub.id; name = sub.filename; content = file.content } ∷ rest)
    pub row : t.db ≡ record s.db { submissions = s.db.submissions ++ sub ∷ [] }

  -- Whether a response tells of a new submission or not.
  abbrev Outcome : Response × Backend F E → Type 0
  Outcome r =
      ((sub : Submission) × (r.0 ≡ created_submission sub) × Stored sub r.1)
      ⊎ (((sub : Submission) → r.0 ≢ created_submission sub)
          × (r.1.db ≡ s.db)
          × (r.1.redis ≡ s.redis))

  name_length_lem :
      binds req ≡ true → (2 ≤ length (codes req.team_name)) × (length (codes req.team_name) ≤ 64)
  unfolding binds
  name_length_lem bound = ground (arith, bound)

  save_upload-Saved :
      (dir name : String) (file : Upload) (t : Backend F E)
      → ((save_upload env dir name file t).1.db ≡ t.db)
        × ((save_upload env dir name file t).1.redis ≡ t.redis)
        × (((save_upload env dir name file t).0 ≡ true)
            ⊎ ((rest : List StoredFile) × ((save_upload env dir name file t).1.files
                  ≡ record { dir = dir; name = name; content = file.content } ∷ rest)))
  unfolding save_upload put_file
  save_upload-Saved dir name file t =
      elim (Bool-cases (env.fault open_upload || env.fault create_dest)) [
        | inl fails ↦ rw fails (refl, refl, inl refl)
        | inr opened ↦ elim (Option-cases env.copied) [
          | inl whole ↦ rw (opened, whole) (refl, refl, inr (_, refl))
          | inr (n, breaks) ↦ rw (opened, breaks) (refl, refl, inl refl)
        ]
      ]

  stage-Outcome :
      (file : Upload)
      → binds req ≡ true
      → req.file ≡ some file
      → validate_submission_file file.size
          (codes file.filename)
          (codes req.language)
          cfg.max_upload_mb
        ≡ none
      → Outcome (stage env (new_submission env req (codes req.language) file) file s)
  unfolding stage new_submission
  stage-Outcome file bound present accepted =
      let sub = new_submission env req (codes req.language) file in
      let made : Backend F E = record s { staged = s.staged ++ sub.id ∷ [] } in
      let facts = save_upload-Saved sub.id sub.filename file made in
      elim (Bool-cases (env.fault make_dir)) [
        | inl fails ↦ rw fails (inr (λ sub. cc, refl, refl))
        | inr there ↦ elim (Bool-cases (save_upload env sub.id sub.filename file made).0) [
          | inl fails ↦ rw (there, fails) (inr (λ sub. cc, facts.0, facts.1))
          | inr saved ↦ elim (Bool-cases (env.fault insert_submission)) [
            | inl fails ↦ rw (there, saved, fails) (inr (λ sub. cc, facts.0, facts.1))
            | inr inserted ↦ elim facts.2 [
              | inl fails ↦ let wrong : true ≡ false = sym fails ∙ saved in cc
              | inr written ↦
                  rw (there, saved, inserted)
                    (inl (
                      sub,
                      refl,
                      record {
                        file = file;
                        present = present;
                        name_length = name_length_lem bound;
                        accepted = accepted;
                        inside =
                            accepted-StaysInside file.size file.filename (codes req.language)
                              cfg.max_upload_mb accepted;
                        team = refl;
                        language = (language_lem req bound).1;
                        pending = refl;
                        saved = written;
                        row = rw facts.0 refl;
                      },
                    ))
            ]
          ]
        ]
      ]

  create_upload-Outcome :
      (file : Upload)
      → binds req ≡ true
      → req.file ≡ some file
      → Outcome (create_upload env cfg req (codes req.language) file s)
  unfolding create_upload
  create_upload-Outcome file bound present =
      elim (Option-cases (
        validate_submission_file file.size (codes file.filename) (codes req.language)
          cfg.max_upload_mb)) [
            | inr (e, refused) ↦ rw (create_upload, refused) (inr (λ sub. cc, refl, refl))
            | inl accepted ↦
                rw (create_upload, accepted) (stage-Outcome file bound present accepted)
          ]

  create_file-Outcome :
      binds req ≡ true
      → (o : Option Upload) → req.file ≡ o
      → Outcome (create_file env cfg req (codes req.language) o s)
  unfolding create_file
  create_file-Outcome bound none missing = inr (λ sub. cc, refl, refl)
  create_file-Outcome bound (some file) present = create_upload-Outcome file bound present

  -- Create either answers with a new submission, and then the team name has 2 to 64 characters, the file was
  -- accepted, the stored file name has no slash and is neither . nor .., and the pending submission of the
  -- team and the language is added to its table and no other row is changed, and the file of that name in its
  -- directory holds the bytes of the upload; or it answers otherwise and
  -- leaves the tables and the queue as they were.
  pub create_stores_or_keeps :
      let r = create env cfg req s in
      ((sub : Submission) × (r.0 ≡ created_submission sub) × Stored sub r.1)
      ⊎ (((sub : Submission) → r.0 ≢ created_submission sub)
          × (r.1.db ≡ s.db)
          × (r.1.redis ≡ s.redis))
  unfolding create
  create_stores_or_keeps = elim (Bool-cases (binds req)) [
    | inr unbound ↦ rw unbound (inr (λ sub. cc, refl, refl))
    | inl bound ↦ rw (bound, (language_lem req bound).0) (create_file-Outcome bound req.file refl)
  ]
