-- ===== src/Settings.antt =====
-- Load and the helpers of backend/config/config.go. An environment gives the value of each variable, the empty
-- text for one that is not set, after godotenv.Load. An int is given by its 64 bits. ParseFloat and
-- ParseDuration are parameters; `none` is their error.
pub mod Integers
pub mod Loading
pub mod Required
use Prim.Native.Nat.{◌%◌}
use distributed_benchmark_pl.Base.{
  ℕ, ◌+◌, ◌-◌, ◌*◌, ◌^◌, String, Bool, true, false, Option, none, some, List, [], ◌∷◌, ◌&&◌, ltb,
  leb, ◌==◌, str_eq, if◌then◌else◌,
}
use distributed_benchmark_pl.Base.Text.{Text, codes}
use distributed_benchmark_pl.Models.{Config}

abbrev pub Env : Type 0
Env = String → String

unfoldable pub get_env : Env → String → String → String
get_env env key fallback = if str_eq (env key) "" then fallback else env key

-- The digits of a number after the ones that make up `n`; `none` if a character is no digit.
unfoldable pub parse_digits : ℕ → Text → Option ℕ
parse_digits n [] = some n
parse_digits n (c ∷ s) =
    let rest = parse_digits (n * 10 + (c - b'0')) s in
    if leb b'0' c && leb c b'9' then rest else none

-- A number without sign; it has a digit.
unfoldable pub parse_unsigned : Text → Option ℕ
parse_unsigned [] = none
parse_unsigned (c ∷ s) = parse_digits 0 (c ∷ s)

unfoldable pub in_range : ℕ → Option ℕ → Option ℕ
in_range bound none = none
in_range bound (some n) = if ltb n bound then some n else none

-- strconv.Atoi and strconv.ParseInt(s, 10, 64)
unfoldable pub parse_int : Text → Option ℕ
parse_int [] = none
parse_int (c ∷ s) =
    if c == b'+'
    then in_range (2 ^ 63) (parse_unsigned s)
    else if c == b'-'
    then elim (in_range (2 ^ 63 + 1) (parse_unsigned s)) [
      | none ↦ none
      | some n ↦ some ((2 ^ 64 - n) % 2 ^ 64)
    ]
    else in_range (2 ^ 63) (parse_unsigned (c ∷ s))

-- getEnvInt, and getEnvInt64
unfoldable pub get_env_int : Env → String → ℕ → ℕ
get_env_int env key fallback =
    if str_eq (env key) ""
    then fallback
    else elim (parse_int (codes (env key))) [ none ↦ fallback | some i ↦ i ]

module _ {F : Type 0} (parse_float : String → Option F) where
  unfoldable pub get_env_float : Env → String → F → F
  get_env_float env key fallback =
      if str_eq (env key) ""
      then fallback
      else elim (parse_float (env key)) [ none ↦ fallback | some f ↦ f ]
