-- ===== src/Tests/Requests.antt =====
-- The validators at concrete requests.
use distributed_benchmark_pl.Base.{◌≡◌, ◌≤◌, ltb, leb, arith}
use distributed_benchmark_pl.Base.{List, [], ◌∷◌, ◌⊎◌, some, All}
use distributed_benchmark_pl.Base.Text.{Text, codes}
use Prim.Native.Nat.{◌%◌, ◌*◌, ◌^◌}
use mathlib.Core.List.{◌++◌}
use distributed_benchmark_pl.Settings.Integers.{decimal}
use distributed_benchmark_pl.Sandbox.Limits.{memory_of}
use distributed_benchmark_pl.Sandbox.Memory.{memory_of-decimal}
use distributed_benchmark_pl.Archive.{zip_common_prefix, top_of}
use distributed_benchmark_pl.Archive.Stripping.{InTop, zip_common_prefix_is_shared}
use distributed_benchmark_pl.Validator.{parse_pagination, total_pages, page_of, size_of, below_one}
use distributed_benchmark_pl.Validator.Pages.{pages_are_those_with_rows}

-- The third page of 50 rows at 20 rows each.
pages_are_those_with_rows_example :
    let p = parse_pagination 3 20 in
    (1 ≤ p.size)
    × (p.size ≤ 100)
    × (1 ≤ p.page)
    × (ltb p.offset 50 ≡ leb p.page (total_pages 50 p.size))
unfolding page_of size_of below_one
pages_are_those_with_rows_example = pages_are_those_with_rows 3 20 50 (omega arith)

-- An archive of one folder.
abbrev folder : List Text
folder = codes "src/" ∷ codes "src/main.go" ∷ []

zip_common_prefix_is_shared_example :
    let p = zip_common_prefix folder in (p ≡ []) ⊎ ((top_of p ≡ some p) × All (InTop p) folder)
zip_common_prefix_is_shared_example = zip_common_prefix_is_shared folder

memory_of-decimal_example :
    (memory_of (decimal 512 ++ codes "g") ≡ 512 * 1073741824 % 2 ^ 64)
    × (memory_of (decimal 512 ++ codes "m") ≡ 512 * 1048576 % 2 ^ 64)
    × (memory_of (decimal 512 ++ codes "mb") ≡ 512)
memory_of-decimal_example = memory_of-decimal 512 (omega arith)
