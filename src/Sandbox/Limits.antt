-- ===== src/Sandbox/Limits.antt =====
-- parseLimits of backend/services/sandbox_service.go. Sscanf with %f and the conversion int64 of a float are
-- parameters; an int is given by its 64 bits.
use Prim.Native.Nat.{◌%◌}
use distributed_benchmark_pl.Base.{
  ℕ, ◌*◌, ◌^◌, String, Bool, Option, none, some, [], ◌∷◌, ◌&&◌, ◌||◌, leb, ◌==◌, if◌then◌else◌,
}
use distributed_benchmark_pl.Base.Float.{Float64, float, ◌*F◌}
use distributed_benchmark_pl.Base.Text.{Text, codes, to_lower}
use distributed_benchmark_pl.Archive.Unzip.{has_suffix}
use distributed_benchmark_pl.Settings.{parse_int}
use distributed_benchmark_pl.Validator.{is_space}

-- Without the spaces in front; a line break among them is an error.
unfoldable pub skip_space : Text → Option Text
skip_space [] = some []
skip_space (c ∷ s) =
    let rest = skip_space s in if c == 10 then none else if is_space c then rest else some (c ∷ s)

unfoldable pub is_digit : ℕ → Bool
is_digit c = leb b'0' c && leb c b'9'

unfoldable pub leading_digits : Text → Text
leading_digits [] = []
leading_digits (c ∷ s) = let rest = leading_digits s in if is_digit c then c ∷ rest else []

-- The sign, if there is one, and the digits after it.
unfoldable pub number_token : Text → Text
number_token [] = []
number_token (c ∷ s) =
    if c == b'+' || c == b'-' then c ∷ leading_digits s else leading_digits (c ∷ s)

-- What Sscanf with %d leaves in a variable that was 0.
unfoldable pub scan_int : Text → ℕ
scan_int s = elim (skip_space s) [
  | none ↦ 0
  | some t ↦ elim (parse_int (number_token t)) [ none ↦ 0 | some v ↦ v ]
]

-- The memory limit, with its products wrapping.
unfoldable pub memory_of : Text → ℕ
memory_of limit =
    let mem = to_lower limit in
    let v = scan_int mem in
    if has_suffix mem (codes "g")
    then v * 1073741824 % 2 ^ 64
    else if has_suffix mem (codes "m")
    then v * 1048576 % 2 ^ 64
    else v

module _ {F : Type 0} ⦃fl : Float64 F⦄ (scan_float : String → F) (to_int64 : F → ℕ) where
  unfoldable pub parse_limits : String → String → ℕ × ℕ
  parse_limits cpu_limit memory_limit =
      (to_int64 (scan_float cpu_limit *F float 1000000000), memory_of (codes memory_limit))
