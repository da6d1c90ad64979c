-- ===== src/Submissions/Listing.antt =====
-- List and ListRuns of backend/api/submission_handler.go. The page and the page size are the 64 bits that
-- strconv.Atoi gives, and a text that is no value of the enum submission_status is an error of the database,
-- as is a negative offset. In List the database orders
-- the rows of one `created_at` by the `place` of the request, which differs from query to query; ListRuns, which
-- has no pages, keeps the order of the table for them.
use Prim.Native.Nat.{◌%◌}
use mathlib.Core.List.{Perm}
use native.Mathlib.Nat.{mul-le-mul_right, mul-le-mul_left, mod-eq_of_lt}
use distributed_benchmark_pl.Base.{
  ℕ, zero, suc, ◌+◌, ◌-◌, ◌*◌, ◌^◌, ◌≤◌, ◌<◌, map, ltb, leb, String, Bool, true, false, Option,
  none, some, List, [], ◌∷◌, ◌++◌, str_eq, take, drop, length, if◌then◌else◌, ◌≡◌, refl, ap, ◌∙◌,
  sym, subst, arith, ◌==◌, ◌&&◌, ◌||◌, All, Bool-cases, inl, inr,
}
use distributed_benchmark_pl.Base.Sorting.{
  sort_by, filter, sort_by-Agree, Agree, pages, pages_all, drop-drop, Ascending, sort_by-Ascending,
  sort_by-perm, length-sort_by,
}
use distributed_benchmark_pl.Models.{
  Submission, SubmissionStatus, BenchmarkRun, BenchmarkRunSummary,
}
use distributed_benchmark_pl.Store.{Db, find_submission}
use distributed_benchmark_pl.Validator.Pages.{total_pages_bounds}
use distributed_benchmark_pl.Validator.{parse_pagination, total_pages, page_of, size_of, below_one}
use distributed_benchmark_pl.Submissions.{
  Backend, HandlerEnv, Response, drop_if, ok_list, ok_runs, internal_error, count_rows, list_rows,
  list_runs_rows, scan_row, HandlerSite,
}

abbrev newer_run : BenchmarkRun → BenchmarkRun → Bool
newer_run a b = ltb b.created_at a.created_at

abbrev pub summary_of : Submission → BenchmarkRun → BenchmarkRunSummary
summary_of sub r = record {
  id = r.id;
  submission_id = r.submission_id;
  team_name = sub.team_name;
  status = r.status;
  duration_ms = r.duration_ms;
  created_at = r.created_at;
}

-- The rows of the join that ListRuns selects, latest first.
unfoldable pub run_summaries : {F : Type 0} → String → Db F → List BenchmarkRunSummary
run_summaries sub_id d = elim (find_submission sub_id d) [
  | none ↦ []
  | some sub ↦ map (summary_of sub) (
      sort_by newer_run
        (filter (λ (r : BenchmarkRun). str_eq r.submission_id sub_id) d.benchmark_runs))
]

unfoldable pub list_runs :
    {F E : Type 0} → HandlerEnv → String → Backend F E → Response × Backend F E
list_runs env sub_id s = if env.fault list_runs_rows then (internal_error, s) else (
  ok_runs (
      drop_if (λ (r : BenchmarkRunSummary). env.fault (scan_row r.id)) (run_summaries sub_id s.db)),
  s,
)

-- The values of the enum.
abbrev pub status_named : String → Option SubmissionStatus
status_named t =
    if str_eq t "pending"
    then some SubmissionStatus.pending
    else if str_eq t "building"
    then some SubmissionStatus.building
    else if str_eq t "ready"
    then some SubmissionStatus.ready
    else if str_eq t "running"
    then some SubmissionStatus.running
    else if str_eq t "completed"
    then some SubmissionStatus.completed
    else if str_eq t "failed"
    then some SubmissionStatus.failed
    else none

abbrev pub status_eq : SubmissionStatus → SubmissionStatus → Bool
status_eq SubmissionStatus.pending SubmissionStatus.pending = true
status_eq SubmissionStatus.building SubmissionStatus.building = true
status_eq SubmissionStatus.ready SubmissionStatus.ready = true
status_eq SubmissionStatus.running SubmissionStatus.running = true
status_eq SubmissionStatus.completed SubmissionStatus.completed = true
status_eq SubmissionStatus.failed SubmissionStatus.failed = true
status_eq _ _ = false

abbrev pub newer : Submission → Submission → Bool
newer a b = ltb b.created_at a.created_at

-- ORDER BY created_at DESC, which leaves the order of the rows of one `created_at` to the database.
abbrev pub listed_before : HandlerEnv → Submission → Submission → Bool
listed_before env a b =
    newer a b || (a.created_at == b.created_at && ltb (env.place a) (env.place b))

-- The rows that the WHERE clause selects; no clause for the empty text.
unfoldable pub selected : {F : Type 0} → String → Db F → Option (List Submission)
selected wanted d = if str_eq wanted "" then some d.submissions else elim (status_named wanted) [
  | none ↦ none
  | some status ↦ some (filter (λ (x : Submission). status_eq x.status status) d.submissions)
]

module _ {F E : Type 0} where
  unfoldable pub list_selected :
      HandlerEnv → ℕ → ℕ → List Submission → Backend F E → Response × Backend F E
  list_selected env page size rows s =
      let p = parse_pagination page size in
      if env.fault list_rows
      then (internal_error, s)
      else if leb (2 ^ 63) p.offset
      then (internal_error, s)
      else (
        ok_list (record {
          items =
              drop_if (λ (x : Submission). env.fault (scan_row x.id))
                (take p.size (drop p.offset (sort_by (listed_before env) rows)));
          page = p.page;
          page_size = p.size;
          total_items = length rows;
          total_pages = total_pages (length rows) p.size;
        }),
        s,
      )

  unfoldable pub list : HandlerEnv → ℕ → ℕ → String → Backend F E → Response × Backend F E
  list env page size wanted s =
      if env.fault count_rows then (internal_error, s) else elim (selected wanted s.db) [
        | none ↦ (internal_error, s)
        | some rows ↦ list_selected env page size rows s
      ]

newer_asym : (a b : Submission) → newer a b ≡ true → newer b a ≡ false
newer_asym a b h = ground (arith, h)

-- No two rows have the same `created_at`.
abbrev pub DistinctTimes : List Submission → Type 0
DistinctTimes [] = Unit {0}
DistinctTimes (a ∷ l) =
    All (λ (b : Submission). (b.created_at == a.created_at) ≡ false) l × DistinctTimes l

-- Then the order of the rows is the same for every query.
same_order :
    (env : HandlerEnv) (a : Submission) (l : List Submission)
    → All (λ (b : Submission). (b.created_at == a.created_at) ≡ false) l
    → All (λ (b : Submission). listed_before env b a ≡ newer b a) l
same_order env a [] apart = tt
same_order env a (b ∷ l) apart = (
  elim (Bool-cases (newer b a)) [
    | inl before ↦ rw before refl
    | inr after ↦ rw (after, apart.0) refl
  ],
  same_order env a l apart.1,
)

DistinctTimes-Agree :
    (env : HandlerEnv) (l : List Submission) → DistinctTimes l → Agree (listed_before env) newer l
DistinctTimes-Agree env [] apart = tt
DistinctTimes-Agree env (a ∷ l) apart =
    (same_order env a l apart.0, DistinctTimes-Agree env l apart.1)

-- What a client gets that asks for the pages k + 1, ..., k + n, each in a request of its own; another
-- answer than a page gives nothing.
abbrev items_of : Response → List Submission
items_of (ok_list p) = p.items
items_of _ = []

abbrev pub fetch :
    {F E : Type 0} → (ℕ → HandlerEnv) → ℕ → String → Backend F E → ℕ → ℕ → List Submission
fetch envs size wanted s k zero = []
fetch envs size wanted s k (suc n) =
    items_of (list (envs k) (suc k) size wanted s).0 ++ fetch envs size wanted s (suc k) n

page_of-kept : (k : ℕ) → suc k < 2 ^ 63 → page_of (suc k) ≡ suc k
unfolding page_of below_one
page_of-kept k fits = ground (arith, fits)

size_of-kept : (size : ℕ) → 1 ≤ size → size ≤ 100 → size_of size ≡ size
unfolding size_of below_one
size_of-kept size low high = ground arith

-- A page number and a size in their ranges stay, and their offset does not wrap.
parse_pagination-kept :
    (k size : ℕ)
    → 1 ≤ size
    → size ≤ 100
    → suc k * size < 2 ^ 63
    → parse_pagination (suc k) size ≡ record { page = suc k; size = size; offset = k * size }
unfolding parse_pagination
parse_pagination-kept k size low high fits =
    let far : suc k * 1 ≤ suc k * size = mul-le-mul_left (suc k) low in
    let offset : k * size % 2 ^ 64 ≡ k * size = mod-eq_of_lt (omega (arith, fits)) in
    let same : (suc k - 1) * size ≡ k * size = ap (λ n. n * size) {x = suc k - 1} (omega arith) in
    rw (page_of-kept k (omega (arith, far, fits)), size_of-kept size low high, same, offset) refl

module _ (envs : ℕ → HandlerEnv)
    (works : (k : ℕ) (site : HandlerSite) → (envs k).fault site ≡ false) where
  all_scanned :
      (k : ℕ) (l : List Submission)
      → drop_if (λ (x : Submission). (envs k).fault (scan_row x.id)) l ≡ l
  unfolding drop_if
  all_scanned k [] = refl
  all_scanned k (x ∷ l) = rw (works k (scan_row x.id)) (ap (◌∷◌ x) (all_scanned k l))

  module _ {F E : Type 0} (size : ℕ) (wanted : String) (s : Backend F E) (rows : List Submission)
      (found : selected wanted s.db ≡ some rows) (low : 1 ≤ size) (high : size ≤ 100)
      (apart : DistinctTimes rows) where
    page_items :
        (k : ℕ)
        → suc k * size < 2 ^ 63
        → items_of (list (envs k) (suc k) size wanted s).0
          ≡ take size (drop (k * size) (sort_by newer rows))
    unfolding list list_selected
    page_items k fits =
        let small : leb (2 ^ 63) (k * size) ≡ false = ground (arith, fits) in
        rw
          (
            works k count_rows,
            found,
            works k list_rows,
            parse_pagination-kept k size low high fits,
            small,
            sort_by-Agree (listed_before (envs k)) newer rows
                (DistinctTimes-Agree (envs k) rows apart),
          )
          (all_scanned k _)

    fetch-pages :
        (n k : ℕ)
        → (k + n) * size < 2 ^ 63
        → fetch envs size wanted s k n ≡ pages size n (drop (k * size) (sort_by newer rows))
    unfolding pages
    fetch-pages zero k fits = refl
    fetch-pages (suc n) k fits =
        let here : suc k * size ≤ (k + suc n) * size = mul-le-mul_right size (omega arith) in
        let there : (suc k + n) * size < 2 ^ 63 = omega (arith, fits) in
        let next : k * size + size ≡ suc k * size = omega arith in
        rw
          (
            page_items k (omega (arith, fits, here)),
            fetch-pages n (suc k) there,
            drop-drop size (k * size) (sort_by newer rows),
            next,
          )
          refl

    -- If no call fails, 1 to 100 rows are asked for per page, and the WHERE clause selects the rows `rows`,
    -- fewer than 2 ^ 62 and no two of one `created_at`, then the answers for the pages 1 to TotalPages together hold each of `rows` once,
    -- with no later `created_at` after an earlier one.
    pub fetch_all_pages :
        length rows < 2 ^ 62
        → let l = fetch envs size wanted s 0 (total_pages (length rows) size) in
          Perm l rows × Ascending newer l
    fetch_all_pages few =
        let n = total_pages (length rows) size in
        let bounds = total_pages_bounds size (length rows) low in
        let all = fetch-pages n 0 (omega (arith, few, high, bounds.1)) in
        let start : 0 * size ≡ 0 = omega arith in
        let begin = ap (λ k. pages size n (drop k (sort_by newer rows))) start in
        let whole =
          pages_all size n (sort_by newer rows)
            (omega (arith, bounds.0, length-sort_by newer rows)) in
        subst (λ l. Perm l rows × Ascending newer l) (sym (all ∙ begin ∙ whole))
          (sort_by-perm newer rows, sort_by-Ascending newer (λ a b h. newer_asym a b h) rows)
