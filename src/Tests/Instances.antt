-- ===== src/Tests/Instances.antt =====
-- Concrete parameters for the tests: whole numbers for floats, and a small histogram.
use native.Mathlib.Nat.{div-mul-le_self, le-div_iff_mul-le, zero-div}
use distributed_benchmark_pl.Base.{
  ℕ, ◌+◌, ◌-◌, ◌*◌, ◌/◌, ◌≤◌, ◌<◌, refl, none, some, arith, ltb, leb, if◌then◌else◌,
}
use distributed_benchmark_pl.Base.Float.{Float64, IsOrdered}
use distributed_benchmark_pl.Scoring.Silent.{HasZero}
use distributed_benchmark_pl.Telemetry.Hdr.{Histogram, IsHistogram}

-- The number of digits less one, up to 999.
abbrev log10_of : ℕ → ℕ
log10_of n = if leb 100 n then 2 else if leb 10 n then 1 else 0

instance abbrev pub whole : Float64 ℕ
whole = record {
  of_int = λ n. n;
  add = ◌+◌;
  sub = ◌-◌;
  mul = ◌*◌;
  div = ◌/◌;
  lt = ltb;
  le = leb;
  log10 = log10_of;
}

quotient_mono : (x y z : ℕ) → x ≤ y → 0 < z → x / z ≤ y / z
quotient_mono x y z h pos =
    let below = div-mul-le_self x z in (le-div_iff_mul-le pos).1 (omega (arith, below))

pub whole_ordered : IsOrdered ℕ
whole_ordered = record {
  le_number = λ x y h. ground arith;
  le_trans = λ x y z h k. ground arith;
  le_of_not_lt = λ x y a b h. ground arith;
  le_of_not_le = λ x y a b h. ground arith;
  le_of_lt = λ x y h. ground arith;
  not_lt_of_le = λ x y h. ground arith;
  of_int_mono = λ m n h. ground arith;
  div_int_mono = λ m n k h pos exact. let le = quotient_mono m n k h pos in ground (arith, le);
}

pub whole_zero : HasZero ℕ
whole_zero = record {
  zero-add = refl;
  zero-div = λ n h. zero-div n;
  zero-mul = λ n exact. omega arith;
}

-- A histogram that keeps its range, its count and its largest value.
pub record Counts : Type 0 where
  pub top : ℕ
  pub count : ℕ
  pub largest : ℕ

instance abbrev pub counts : Histogram Counts
counts = record {
  new = λ lo hi digits. record { top = hi; count = 0; largest = 0 };
  record_value = λ h v.
      if ltb v (2 * h.top)
      then some (record {
        top = h.top;
        count = h.count + 1;
        largest = if ltb h.largest v then v else h.largest;
      })
      else none;
  total_count = λ h. h.count;
  highest_trackable_value = λ h. h.top;
  value_at_quantile = λ h p. h.largest;
  reset = λ h. record { top = h.top; count = 0; largest = 0 };
}

pub counts_laws : IsHistogram Counts
counts_laws = record {
  highest-new = λ lo hi digits. refl;
  highest-reset = λ h. refl;
  count-new = λ lo hi digits. refl;
  count-reset = λ h. refl;
  count-record = λ h h' v e. ground arith;
  refuses = λ h v e. ground arith;
  quantile_mono = λ h p q e. ground arith;
}
