-- ===== src/Tests/Extended.antt =====
-- Whole numbers with an infinity and a value that is not a number: as in IEEE 754 the infinity divided by
-- itself is not a number, a number divided by zero is infinite, and each comparison with what is not
-- a number is false.
use native.Mathlib.Nat.{div-mul-le_self, le-div_iff_mul-le}
use distributed_benchmark_pl.Base.{
  ℕ, ◌+◌, ◌-◌, ◌*◌, ◌/◌, ◌≤◌, ◌≡◌, refl, Bool, true, false, arith, ltb, leb, ◌==◌, if◌then◌else◌,
}
use distributed_benchmark_pl.Base.Float.{Float64, IsOrdered}

pub data Extended : Type 0 where
  number : ℕ → Extended
  infinite nan : Extended

abbrev le_of : Extended → Extended → Bool
le_of (number m) (number n) = leb m n
le_of (number m) infinite = true
le_of (number m) nan = false
le_of infinite (number n) = false
le_of infinite infinite = true
le_of infinite nan = false
le_of nan (number n) = false
le_of nan infinite = false
le_of nan nan = false

abbrev lt_of : Extended → Extended → Bool
lt_of (number m) (number n) = ltb m n
lt_of (number m) infinite = true
lt_of (number m) nan = false
lt_of infinite (number n) = false
lt_of infinite infinite = false
lt_of infinite nan = false
lt_of nan (number n) = false
lt_of nan infinite = false
lt_of nan nan = false

abbrev sum_of : Extended → Extended → Extended
sum_of (number m) (number n) = number (m + n)
sum_of (number m) infinite = infinite
sum_of (number m) nan = nan
sum_of infinite (number n) = infinite
sum_of infinite infinite = infinite
sum_of infinite nan = nan
sum_of nan (number n) = nan
sum_of nan infinite = nan
sum_of nan nan = nan

abbrev difference_of : Extended → Extended → Extended
difference_of (number m) (number n) = number (m - n)
difference_of (number m) infinite = nan
difference_of (number m) nan = nan
difference_of infinite (number n) = infinite
difference_of infinite infinite = nan
difference_of infinite nan = nan
difference_of nan (number n) = nan
difference_of nan infinite = nan
difference_of nan nan = nan

abbrev product_of : Extended → Extended → Extended
product_of (number m) (number n) = number (m * n)
product_of (number m) infinite = if m == 0 then nan else infinite
product_of (number m) nan = nan
product_of infinite (number n) = if n == 0 then nan else infinite
product_of infinite infinite = infinite
product_of infinite nan = nan
product_of nan (number n) = nan
product_of nan infinite = nan
product_of nan nan = nan

abbrev quotient_of : Extended → Extended → Extended
quotient_of (number m) (number n) =
    if n == 0 then (if m == 0 then nan else infinite) else number (m / n)
quotient_of (number m) infinite = number 0
quotient_of (number m) nan = nan
quotient_of infinite (number n) = infinite
quotient_of infinite infinite = nan
quotient_of infinite nan = nan
quotient_of nan (number n) = nan
quotient_of nan infinite = nan
quotient_of nan nan = nan

abbrev log10_of : Extended → Extended
log10_of (number n) = number (if leb 100 n then 2 else if leb 10 n then 1 else 0)
log10_of infinite = infinite
log10_of nan = nan

instance abbrev pub extended : Float64 Extended
extended = record {
  of_int = number;
  add = sum_of;
  sub = difference_of;
  mul = product_of;
  div = quotient_of;
  lt = lt_of;
  le = le_of;
  log10 = log10_of;
}

number_of : (x y : Extended) → le_of x y ≡ true → (le_of x x ≡ true) × (le_of y y ≡ true)
number_of (number a) (number b) h = (ground arith, ground arith)
number_of (number a) infinite h = (ground arith, refl)
number_of (number a) nan h = cc
number_of infinite (number b) h = cc
number_of infinite infinite h = (refl, refl)
number_of infinite nan h = cc
number_of nan (number b) h = cc
number_of nan infinite h = cc
number_of nan nan h = cc

trans_of : (x y z : Extended) → le_of x y ≡ true → le_of y z ≡ true → le_of x z ≡ true
trans_of (number a) (number b) (number c) h k = ground (arith, h, k)
trans_of (number a) (number b) infinite h k = refl
trans_of (number a) (number b) nan h k = cc
trans_of (number a) infinite (number c) h k = cc
trans_of (number a) infinite infinite h k = refl
trans_of (number a) infinite nan h k = cc
trans_of (number a) nan (number c) h k = cc
trans_of (number a) nan infinite h k = cc
trans_of (number a) nan nan h k = cc
trans_of infinite (number b) (number c) h k = cc
trans_of infinite (number b) infinite h k = cc
trans_of infinite (number b) nan h k = cc
trans_of infinite infinite (number c) h k = cc
trans_of infinite infinite infinite h k = refl
trans_of infinite infinite nan h k = cc
trans_of infinite nan (number c) h k = cc
trans_of infinite nan infinite h k = cc
trans_of infinite nan nan h k = cc
trans_of nan (number b) (number c) h k = cc
trans_of nan (number b) infinite h k = cc
trans_of nan (number b) nan h k = cc
trans_of nan infinite (number c) h k = cc
trans_of nan infinite infinite h k = cc
trans_of nan infinite nan h k = cc
trans_of nan nan (number c) h k = cc
trans_of nan nan infinite h k = cc
trans_of nan nan nan h k = cc

not_lt_of :
    (x y : Extended) → le_of x x ≡ true → le_of y y ≡ true → lt_of x y ≡ false → le_of y x ≡ true
not_lt_of (number a) (number b) p q h = ground (arith, h)
not_lt_of (number a) infinite p q h = cc
not_lt_of (number a) nan p q h = cc
not_lt_of infinite (number b) p q h = refl
not_lt_of infinite infinite p q h = refl
not_lt_of infinite nan p q h = cc
not_lt_of nan (number b) p q h = cc
not_lt_of nan infinite p q h = cc
not_lt_of nan nan p q h = cc

not_le_of :
    (x y : Extended) → le_of x x ≡ true → le_of y y ≡ true → le_of x y ≡ false → le_of y x ≡ true
not_le_of (number a) (number b) p q h = ground (arith, h)
not_le_of (number a) infinite p q h = cc
not_le_of (number a) nan p q h = cc
not_le_of infinite (number b) p q h = refl
not_le_of infinite infinite p q h = cc
not_le_of infinite nan p q h = cc
not_le_of nan (number b) p q h = cc
not_le_of nan infinite p q h = cc
not_le_of nan nan p q h = cc

le_of_lt : (x y : Extended) → lt_of x y ≡ true → le_of x y ≡ true
le_of_lt (number a) (number b) h = ground (arith, h)
le_of_lt (number a) infinite h = refl
le_of_lt (number a) nan h = cc
le_of_lt infinite (number b) h = cc
le_of_lt infinite infinite h = cc
le_of_lt infinite nan h = cc
le_of_lt nan (number b) h = cc
le_of_lt nan infinite h = cc
le_of_lt nan nan h = cc

not_lt_of_le : (x y : Extended) → le_of x y ≡ true → lt_of y x ≡ false
not_lt_of_le (number a) (number b) h = ground (arith, h)
not_lt_of_le (number a) infinite h = refl
not_lt_of_le (number a) nan h = cc
not_lt_of_le infinite (number b) h = cc
not_lt_of_le infinite infinite h = refl
not_lt_of_le infinite nan h = cc
not_lt_of_le nan (number b) h = cc
not_lt_of_le nan infinite h = cc
not_lt_of_le nan nan h = cc

quotient_mono :
    (m n k : ℕ)
    → m ≤ n
    → 1 ≤ k
    → le_of (quotient_of (number m) (number k)) (quotient_of (number n) (number k)) ≡ true
quotient_mono m n k h pos =
    let below = div-mul-le_self m k in
    let le : m / k ≤ n / k = (le-div_iff_mul-le pos).1 (omega (arith, below)) in
    let some_parts : (k == 0) ≡ false = ground arith in rw some_parts (ground (arith, le))

-- The laws that the theorems take hold where there are infinities and values that are not numbers.
pub extended_ordered : IsOrdered Extended
extended_ordered = record {
  le_number = number_of;
  le_trans = trans_of;
  le_of_not_lt = not_lt_of;
  le_of_not_le = not_le_of;
  le_of_lt = le_of_lt;
  not_lt_of_le = not_lt_of_le;
  of_int_mono = λ m n h. ground arith;
  div_int_mono = λ m n k h pos exact. quotient_mono m n k h pos;
}
