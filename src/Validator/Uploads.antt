-- ===== src/Validator/Uploads.antt =====
-- ValidateSubmissionFile of backend/utils/validator.go.
use mathlib.Core.List.{reverse-append}
use distributed_benchmark_pl.Base.{◌≢◌, ℕ, ◌≡◌, refl, false, ◌++◌, arith, none}
use distributed_benchmark_pl.Base.Text.{Text, codes, to_lower, to_lower_rune}
use distributed_benchmark_pl.Validator.{
  ext, ext_scan, member, allowed_extensions, validate_submission_file,
}

abbrev ends_tar_gz : Text
ends_tar_gz = codes "zg.rat."

-- A name that ends in .tar.gz has the extension .gz.
ext-tar_gz : (stem : Text) → ext (stem ++ codes ".tar.gz") ≡ codes ".gz"
unfolding ext ext_scan
ext-tar_gz stem = simp reverse-append

gz_not_allowed : (lang : Text) → member (codes ".gz") (allowed_extensions lang) ≡ false
unfolding member allowed_extensions
gz_not_allowed lang = ground arith

to_lower_gz : to_lower (codes ".gz") ≡ codes ".gz"
unfolding to_lower to_lower_rune
to_lower_gz = refl

-- No upload whose name ends in .tar.gz is accepted, although each language lists that ending.
tar_gz_is_refused :
    (size : ℕ) (stem language : Text) (max_mb : ℕ)
    → validate_submission_file size (stem ++ codes ".tar.gz") language max_mb ≢ none
unfolding validate_submission_file
tar_gz_is_refused size stem language max_mb =
    ground (arith, ext-tar_gz stem, to_lower_gz, gz_not_allowed (to_lower language))
