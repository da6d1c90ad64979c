-- ===== src/Sandbox/Memory.antt =====
-- The memory limit that parseLimits of backend/services/sandbox_service.go reads off a decimal notation.
use Prim.Native.Nat.{◌/◌, ◌%◌}
use distributed_benchmark_pl.Base.{
  ℕ, zero, suc, ◌+◌, ◌*◌, ◌^◌, ◌<◌, ltb, true, false, some, [], ◌∷◌, ◌++◌, ◌||◌, ◌==◌, ◌≡◌, refl,
  ap, sym, ◌∙◌, arith, All, All-append, subst, reverse, Bool-cases, inl, inr, ltb→lt,
}
use native.Mathlib.Nat.{mod-lt}
use mathlib.Core.List.{reverse-append}
use distributed_benchmark_pl.Archive.{after_prefix}
use distributed_benchmark_pl.Archive.Cleaning.{has_prefix}
use distributed_benchmark_pl.Archive.Unzip.{has_suffix}
use distributed_benchmark_pl.Validator.{is_space}
use distributed_benchmark_pl.Base.Text.{Text, codes, to_lower, to_lower_rune}
use distributed_benchmark_pl.Settings.{parse_int}
use distributed_benchmark_pl.Settings.Integers.{
  decimal, decimal_within, parse_int-decimal, decimal-start,
}
use distributed_benchmark_pl.Sandbox.Limits.{
  skip_space, is_digit, leading_digits, number_token, scan_int, memory_of,
}

abbrev IsDigit : ℕ → Type 0
IsDigit c = is_digit c ≡ true

code-IsDigit : (d : ℕ) → d < 10 → IsDigit (b'0' + d)
unfolding is_digit
code-IsDigit d small = ground arith

decimal_within-IsDigit : (fuel n : ℕ) → All IsDigit (decimal_within fuel n)
unfolding decimal_within
decimal_within-IsDigit zero n = (code-IsDigit (n % 10) (mod-lt n (omega arith)), tt)
decimal_within-IsDigit (suc fuel) n = elim (Bool-cases (ltb n 10)) [
  | inl small ↦ rw small (code-IsDigit n (ltb→lt n 10 small), tt)
  | inr large ↦ rw large (
      All-append IsDigit (decimal_within fuel (n / 10)) _ (decimal_within-IsDigit fuel (n / 10))
        (code-IsDigit (n % 10) (mod-lt n (omega arith)), tt))
]

lower_digit : (c : ℕ) → IsDigit c → to_lower_rune c ≡ c
unfolding is_digit to_lower_rune
lower_digit c h = ground (arith, h)

lower_digits : (s t : Text) → All IsDigit s → to_lower (s ++ t) ≡ s ++ to_lower t
unfolding to_lower
lower_digits [] t h = refl
lower_digits (c ∷ s) t h = rw (lower_digit c h.0) (ap (◌∷◌ c) (lower_digits s t h.1))

leading_digits-append :
    (s t : Text) → All IsDigit s → leading_digits t ≡ [] → leading_digits (s ++ t) ≡ s
unfolding leading_digits
leading_digits-append [] t h stop = stop
leading_digits-append (c ∷ s) t h stop = rw h.0 (ap (◌∷◌ c) (leading_digits-append s t h.1 stop))

first_digit :
    (c : ℕ)
    → IsDigit c
    → ((c == 10) ≡ false) × (is_space c ≡ false) × ((c == b'+' || c == b'-') ≡ false)
unfolding is_digit is_space
first_digit c h = (ground (arith, h), ground (arith, h), ground (arith, h))

skip_space-digit : (c : ℕ) (s : Text) → IsDigit c → skip_space (c ∷ s) ≡ some (c ∷ s)
unfolding skip_space
skip_space-digit c s h = let (line, space, sign) = first_digit c h in rw (line, space) refl

number_token-digits :
    (c : ℕ) (s t : Text)
    → All IsDigit (c ∷ s)
    → leading_digits t ≡ []
    → number_token (c ∷ (s ++ t)) ≡ c ∷ s
unfolding number_token
number_token-digits c s t h stop =
    let (line, space, sign) = first_digit c h.0 in
    let digits : leading_digits (c ∷ (s ++ t)) ≡ c ∷ s = leading_digits-append (c ∷ s) t h stop in
    rw (sign, digits) refl

scan_int-digits :
    (c : ℕ) (s t : Text) (n : ℕ)
    → All IsDigit (c ∷ s)
    → leading_digits t ≡ []
    → parse_int (c ∷ s) ≡ some n
    → scan_int (c ∷ (s ++ t)) ≡ n
unfolding scan_int
scan_int-digits c s t n h stop parsed =
    rw (scan_int, skip_space-digit c (s ++ t) h.0, number_token-digits c s t h stop, parsed) refl

scan_int-decimal :
    (n : ℕ) (t : Text) → n < 2 ^ 63 → leading_digits t ≡ [] → scan_int (decimal n ++ t) ≡ n
unfolding decimal
scan_int-decimal n t fits stop =
    let (c, s, e, plus, minus) = decimal-start n n (omega arith) in
    let digits : All IsDigit (c ∷ s) = subst (All IsDigit) e (decimal_within-IsDigit n n) in
    let parsed : parse_int (c ∷ s) ≡ some n = ap parse_int (sym e) ∙ parse_int-decimal n fits in
    ap (λ d. scan_int (d ++ t)) e ∙ scan_int-digits c s t n digits stop parsed

has_suffix-append :
    (s t suffix : Text)
    → has_suffix (s ++ t) suffix ≡ has_prefix (reverse t ++ reverse s) (reverse suffix)
unfolding has_suffix
has_suffix-append s t suffix = ap (λ r. has_prefix r (reverse suffix)) (reverse-append s t)

-- A number that fits into an int64, in decimal, is read as gibibytes before g, as mebibytes before m, both with
-- a wrapping product, and as bytes before mb.
pub memory_of-decimal :
    (n : ℕ)
    → n < 2 ^ 63
    → (memory_of (decimal n ++ codes "g") ≡ n * 1073741824 % 2 ^ 64)
      × (memory_of (decimal n ++ codes "m") ≡ n * 1048576 % 2 ^ 64)
      × (memory_of (decimal n ++ codes "mb") ≡ n)
unfolding memory_of has_prefix after_prefix to_lower_rune to_lower leading_digits is_digit decimal
memory_of-decimal n fits =
    let digits = decimal_within-IsDigit n n in
    let gib = scan_int-decimal n (codes "g") fits refl in
    let mib = scan_int-decimal n (codes "m") fits refl in
    let bytes = scan_int-decimal n (codes "mb") fits refl in
    (
      rw
          (
            lower_digits (decimal_within n n) (codes "g") digits,
            gib,
            has_suffix-append (decimal n) (codes "g") (codes "g"),
          )
          refl,
      rw
          (
            lower_digits (decimal_within n n) (codes "m") digits,
            mib,
            has_suffix-append (decimal n) (codes "m") (codes "g"),
            has_suffix-append (decimal n) (codes "m") (codes "m"),
          )
          refl,
      rw
          (
            lower_digits (decimal_within n n) (codes "mb") digits,
            bytes,
            has_suffix-append (decimal n) (codes "mb") (codes "g"),
            has_suffix-append (decimal n) (codes "mb") (codes "m"),
          )
          refl,
    )
