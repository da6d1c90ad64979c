-- ===== src/Settings/Integers.antt =====
-- strconv.Atoi and ParseInt as backend/config/config.go uses them, against the decimal notation.
use Prim.Native.Nat.{◌/◌, ◌%◌}
use native.Mathlib.Nat.{mod-lt, mod-eq_of_lt, div-add-mod'}
use text.Mathlib.TextEquality.{eq_iff}
use distributed_benchmark_pl.Base.{
  ℕ, zero, suc, ◌+◌, ◌-◌, ◌*◌, ◌^◌, ◌<◌, ◌≤◌, String, true, false, none, some, [], ◌∷◌, ◌++◌, ◌&&◌,
  ltb, leb, ◌==◌, str_eq, if◌then◌else◌, ◌≡◌, ◌≢◌, refl, ap, sym, ◌∙◌, arith, Bool-cases, inl, inr,
  ltb→lt, lt→ltb,
}
use distributed_benchmark_pl.Base.Text.{Text, codes}
use distributed_benchmark_pl.Settings.{
  Env, parse_digits, parse_unsigned, in_range, parse_int, get_env_int,
}

-- The decimal notation of a number of at most `fuel` + 1 digits.
unfoldable pub decimal_within : ℕ → ℕ → Text
decimal_within zero n = (b'0' + n % 10) ∷ []
decimal_within (suc fuel) n =
    let front = decimal_within fuel (n / 10) in
    if ltb n 10 then (b'0' + n) ∷ [] else front ++ (b'0' + n % 10) ∷ []

-- The decimal notation; no number has more digits than its value and one.
unfoldable pub decimal : ℕ → Text
decimal n = decimal_within n n

decimal_test : decimal 1024 ≡ codes "1024"
unfolding decimal decimal_within
decimal_test = refl

digit_lem : (d : ℕ) → d < 10 → (leb b'0' (b'0' + d) && leb (b'0' + d) b'9') ≡ true
digit_lem d small = ground arith

parse_digit : (n d : ℕ) → d < 10 → parse_digits n ((b'0' + d) ∷ []) ≡ some (n * 10 + d)
unfolding parse_digits
parse_digit n d small =
    let value : n * 10 + (b'0' + d - b'0') ≡ n * 10 + d = omega arith in
    rw (digit_lem d small, value) refl

parse_digits-append :
    (n m d : ℕ) (s : Text)
    → d < 10
    → parse_digits n s ≡ some m
    → parse_digits n (s ++ (b'0' + d) ∷ []) ≡ some (m * 10 + d)
unfolding parse_digits
parse_digits-append n m d [] small h =
    let same : n ≡ m = cc in rw (sym same) (parse_digit n d small)
parse_digits-append n m d (c ∷ s) small h = elim (Bool-cases (leb b'0' c && leb c b'9')) [
  | inl digit ↦
      let rest : parse_digits (n * 10 + (c - b'0')) s ≡ some m = rw digit at h in
      rw digit (parse_digits-append (n * 10 + (c - b'0')) m d s small rest)
  | inr other ↦ let wrong : none ≡ some m = rw other at h in cc
]

parse_digits-decimal : (fuel n : ℕ) → n ≤ fuel → parse_digits 0 (decimal_within fuel n) ≡ some n
unfolding decimal_within
parse_digits-decimal zero n h =
    let none_left : n % 10 ≡ n = mod-eq_of_lt (omega (arith, h)) in
    rw none_left (parse_digit 0 n (omega (arith, h)) ∙ ap some {x = 0 * 10 + n} (omega arith))
parse_digits-decimal (suc fuel) n h = elim (Bool-cases (ltb n 10)) [
  | inl small ↦
      rw small (parse_digit 0 n (ltb→lt n 10 small) ∙ ap some {x = 0 * 10 + n} (omega arith))
  | inr large ↦
      let whole : n / 10 * 10 + n % 10 ≡ n = div-add-mod' n 10 in
      let more : 10 ≤ n = ground (arith, large) in
      let front = parse_digits-decimal fuel (n / 10) (omega (arith, h, more, whole)) in
      let digits =
        parse_digits-append 0 (n / 10) (n % 10) (decimal_within fuel (n / 10))
          (mod-lt n (omega arith)) front in
      rw large (digits ∙ ap some whole)
]

-- The notation starts with a digit.
pub decimal-start :
    (fuel n : ℕ)
    → n ≤ fuel
    → (c : ℕ) × (s : Text) × (decimal_within fuel n ≡ c ∷ s)
      × ((c == b'+') ≡ false)
      × ((c == b'-') ≡ false)
unfolding decimal_within
decimal-start zero n h = (b'0' + n % 10, [], refl, ground arith, ground arith)
decimal-start (suc fuel) n h = elim (Bool-cases (ltb n 10)) [
  | inl small ↦ rw small (b'0' + n, [], refl, ground (arith), ground (arith))
  | inr large ↦
      let more : 10 ≤ n = ground (arith, large) in
      let whole = div-add-mod' n 10 in
      let (c, s, e, plus, minus) = decimal-start fuel (n / 10) (omega (arith, h, more, whole)) in
      rw (large, e) (c, s ++ (b'0' + n % 10) ∷ [], refl, plus, minus)
]

pub parse_int-decimal : (n : ℕ) → n < 2 ^ 63 → parse_int (decimal n) ≡ some n
unfolding parse_int parse_unsigned decimal in_range
parse_int-decimal n fits =
    let (c, s, e, plus, minus) = decimal-start n n (omega arith) in
    let whole = parse_digits-decimal n n (omega arith) in
    let digits : parse_digits 0 (c ∷ s) ≡ some n = rw e at whole in
    rw (e, plus, minus, digits, lt→ltb n (2 ^ 63) fits) refl

parse_int-negative : (n : ℕ) → 1 ≤ n → n ≤ 2 ^ 63 → parse_int (b'-' ∷ decimal n) ≡ some (2 ^ 64 - n)
unfolding parse_int parse_unsigned decimal in_range
parse_int-negative n pos fits =
    let (c, s, e, plus, minus) = decimal-start n n (omega arith) in
    let whole = parse_digits-decimal n n (omega arith) in
    let digits : parse_digits 0 (c ∷ s) ≡ some n = rw e at whole in
    let small : (2 ^ 64 - n) % 2 ^ 64 ≡ 2 ^ 64 - n = mod-eq_of_lt (omega (arith, pos)) in
    rw (e, digits, lt→ltb n (2 ^ 63 + 1) (omega (arith, fits)), small) refl

-- The int with the bits `n` in decimal, with a sign if it is negative.
unfoldable pub signed_decimal : ℕ → Text
signed_decimal n = if ltb n (2 ^ 63) then decimal n else b'-' ∷ decimal (2 ^ 64 - n)

parse_int-signed_decimal : (n : ℕ) → n < 2 ^ 64 → parse_int (signed_decimal n) ≡ some n
unfolding signed_decimal
parse_int-signed_decimal n fits = elim (Bool-cases (ltb n (2 ^ 63))) [
  | inl small ↦ rw small (parse_int-decimal n (ltb→lt n (2 ^ 63) small))
  | inr large ↦
      let low : 2 ^ 63 ≤ n = ground (arith, large) in
      let back : 2 ^ 64 - (2 ^ 64 - n) ≡ n = omega (arith, fits) in
      rw large
        (parse_int-negative (2 ^ 64 - n) (omega (arith, fits)) (omega (arith, low)) ∙ ap some back)
]

parse_int_nil : parse_int [] ≡ none
unfolding parse_int
parse_int_nil = refl

filled : (env : Env) (key : String) → codes (env key) ≢ [] → str_eq (env key) "" ≡ false
filled env key some_text = elim (Bool-cases (str_eq (env key) "")) [
  | inl empty ↦ absurd (some_text (ap codes ((eq_iff (env key) "").0 empty)))
  | inr other ↦ other
]

-- Each 64-bit int, written in decimal with a sign if it is negative, is read back by getEnvInt and getEnvInt64,
-- whatever the fallback is.
pub get_env_int-signed_decimal :
    (env : Env) (key : String) (n fallback : ℕ)
    → n < 2 ^ 64
    → codes (env key) ≡ signed_decimal n
    → get_env_int env key fallback ≡ n
unfolding get_env_int
get_env_int-signed_decimal env key n fallback fits written =
    let parsed : parse_int (codes (env key)) ≡ some n =
      ap parse_int written ∙ parse_int-signed_decimal n fits in
    let there : codes (env key) ≢ [] = λ empty.
      let wrong : none ≡ some n = sym parse_int_nil ∙ ap parse_int (sym empty) ∙ parsed in cc in
    rw (filled env key there, parsed) refl
