-- ===== src/Archive.antt =====
-- The names in an uploaded archive: zipCommonPrefix and the stripping in unzipTo of
-- backend/services/tar_helper.go. Names are lists of code points with forward slashes.
pub mod Stripping
pub mod Cleaning
pub mod Slashes
pub mod Unzip
pub mod Context
use distributed_benchmark_pl.Base.{
  Bool, true, false, ◌&&◌, Option, none, some, List, [], ◌∷◌, ◌==◌, if◌then◌else◌,
}
use distributed_benchmark_pl.Base.Text.{Text, text_eq}

-- name[:idx+1] for the first slash; `none` if there is none.
unfoldable pub top_of : Text → Option Text
top_of [] = none
top_of (c ∷ s) =
    let rest = top_of s in
    if c == b'/' then some (c ∷ []) else elim rest [ none ↦ none | some top ↦ some (c ∷ top) ]

-- The loop of zipCommonPrefix, from the prefix so far.
unfoldable pub prefix_from : Text → List Text → Text
prefix_from prefix [] = prefix
prefix_from prefix ([] ∷ names) = prefix_from prefix names
prefix_from prefix ((c ∷ name) ∷ names) = elim (top_of (c ∷ name)) [
  | none ↦ []
  | some top ↦
      let first = prefix_from top names in
      let again = prefix_from prefix names in
      if text_eq prefix [] then first else if text_eq prefix top then again else []
]

unfoldable pub zip_common_prefix : List Text → Text
zip_common_prefix names = prefix_from [] names

-- strings.TrimPrefix: `none` if the prefix is not there.
unfoldable pub after_prefix : Text → Text → Option Text
after_prefix [] s = some s
after_prefix (c ∷ p) [] = none
after_prefix (c ∷ p) (d ∷ s) = let rest = after_prefix p s in if c == d then rest else none

unfoldable pub trim_prefix : Text → Text → Text
trim_prefix s prefix = elim (after_prefix prefix s) [ none ↦ s | some rest ↦ rest ]
