-- ===== src/Validator.antt =====
-- backend/utils/validator.go. A file name is a list of code points; a Go int is given by the 64 bits
-- of its two's complement.
pub mod Uploads
pub mod Pages
use Prim.Native.Nat.{◌%◌}
use distributed_benchmark_pl.Base.{
  ℕ, ◌+◌, ◌-◌, ◌*◌, ◌/◌, ◌^◌, String, Bool, true, false, Option, none, some, List, [], ◌∷◌, ◌++◌,
  arith, ltb, leb, ◌==◌, reverse, map, length, take, if◌then◌else◌, ◌||◌, ◌&&◌,
}
use distributed_benchmark_pl.Base.Text.{Text, codes, text_eq, to_lower}

unfoldable pub member : Text → List Text → Bool
member t [] = false
member t (x ∷ xs) = text_eq t x || member t xs

abbrev pub allowed_languages : List Text
allowed_languages = codes "go" ∷ codes "cpp" ∷ codes "rust" ∷ codes "python" ∷ []

-- The values of the map AllowedExtensions; a missing key gives no extension.
unfoldable pub allowed_extensions : Text → List Text
allowed_extensions lang =
    if text_eq lang (codes "go")
    then codes ".go" ∷ codes ".tar.gz" ∷ codes ".zip" ∷ []
    else if text_eq lang (codes "cpp")
    then codes ".cpp" ∷ codes ".cc" ∷ codes ".tar.gz" ∷ codes ".zip" ∷ []
    else if text_eq lang (codes "rust")
    then codes ".rs" ∷ codes ".tar.gz" ∷ codes ".zip" ∷ []
    else if text_eq lang (codes "python")
    then codes ".py" ∷ codes ".tar.gz" ∷ codes ".zip" ∷ []
    else []

-- filepath.Ext scans the name from its end: what it has seen up to the first dot, dot included, and
-- nothing if a slash or the beginning comes first. `seen` is what the scan has passed.
unfoldable pub ext_scan : Text → Text → Text
ext_scan [] seen = []
ext_scan (c ∷ s) seen =
    let rest = ext_scan s (c ∷ seen) in
    if c == b'.' then c ∷ seen else if c == b'/' then [] else rest

unfoldable pub ext : Text → Text
ext name = ext_scan (reverse name) []

pub data UploadError : Type 0 where
  too_large : UploadError
  unsupported_language : UploadError
  extension_not_allowed : UploadError

-- maxMB * 1024 * 1024 as a wrapping product; sizes are not negative.
unfoldable pub max_bytes : ℕ → ℕ
max_bytes max_mb = max_mb * 1048576 % 2 ^ 64

-- The size is at most the limit as signed numbers.
unfoldable pub within_size : ℕ → ℕ → Bool
within_size size max_mb =
    if leb (2 ^ 63) (max_bytes max_mb) then false else leb size (max_bytes max_mb)

-- ValidateSubmissionFile; `none` is its nil.
unfoldable pub validate_submission_file : ℕ → Text → Text → ℕ → Option UploadError
validate_submission_file size filename language max_mb =
    let lang = to_lower language in
    if within_size size max_mb
    then if member lang allowed_languages
      then if member (to_lower (ext filename)) (allowed_extensions lang)
        then none
        else some extension_not_allowed
      else some unsupported_language
    else some too_large

-- unicode.IsSpace
unfoldable pub is_space : ℕ → Bool
is_space c =
    leb 9 c && leb c 13
    || c == 32
    || c == 0x85
    || c == 0xA0
    || c == 0x1680
    || leb 0x2000 c && leb c 0x200A
    || c == 0x2028
    || c == 0x2029
    || c == 0x202F
    || c == 0x205F
    || c == 0x3000

unfoldable pub trim_left : Text → Text
trim_left [] = []
trim_left (c ∷ s) = let rest = trim_left s in if is_space c then rest else c ∷ s

-- strings.TrimSpace
unfoldable pub trim_space : Text → Text
trim_space s = reverse (trim_left (reverse (trim_left s)))

unfoldable pub normalize_language : Text → Option Text
normalize_language lang =
    let l = to_lower (trim_space lang) in if member l allowed_languages then some l else none

-- Truncate; 0x2026 is the ellipsis.
unfoldable pub truncate : Text → ℕ → Text
truncate s n = if leb (length s) n then s else take n s ++ 0x2026 ∷ []

pub record Pagination : Type 0 where
  pub page : ℕ
  pub size : ℕ
  pub offset : ℕ

-- n < 1 for the int with the bits `n`
unfoldable pub below_one : ℕ → Bool
below_one n = n == 0 || leb (2 ^ 63) n

unfoldable pub page_of : ℕ → ℕ
page_of page = if below_one page then 1 else page

unfoldable pub size_of : ℕ → ℕ
size_of size = if below_one size || ltb 100 size then 20 else size

unfoldable pub parse_pagination : ℕ → ℕ → Pagination
parse_pagination page size = record {
  page = page_of page;
  size = size_of size;
  offset = (page_of page - 1) * size_of size % 2 ^ 64;
}

-- TotalPages of a count, which is not negative, and a page size of `parse_pagination`.
unfoldable pub total_pages : ℕ → ℕ → ℕ
total_pages total size =
    if size == 0 then 0 else if total % size == 0 then total / size else total / size + 1
