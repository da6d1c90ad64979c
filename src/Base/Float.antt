-- ===== src/Base/Float.antt =====
-- Go's float64 and PostgreSQL's double precision: the operations and comparisons that the platform
-- uses, as an interface. `◌<F◌` and `◌≤F◌` are false where one side is NaN.
use Prim.Native.Nat.{ℕ, ◌≤◌, ◌^◌}
use mathlib.Core.Path.{◌≡◌}
use mathlib.Core.Bool.{Bool, true, false}

pub record Float64 (F : Type 0) : Type 0 where
  -- float64(n), and the literals
  pub of_int : ℕ → F
  pub add : F → F → F
  pub sub : F → F → F
  pub mul : F → F → F
  pub div : F → F → F
  pub lt : F → F → Bool
  pub le : F → F → Bool
  -- math.Log10
  pub log10 : F → F

module _ {F : Type 0} ⦃fl : Float64 F⦄ where
  infixl 65 ◌+F◌ ◌-F◌
  infixl 70 ◌*F◌ ◌/F◌
  infix 50 ◌<F◌ ◌≤F◌
  abbrev pub float : ℕ → F
  float = fl.of_int

  abbrev pub ◌+F◌ : F → F → F
  ◌+F◌ = fl.add

  abbrev pub ◌-F◌ : F → F → F
  ◌-F◌ = fl.sub

  abbrev pub ◌*F◌ : F → F → F
  ◌*F◌ = fl.mul

  abbrev pub ◌/F◌ : F → F → F
  ◌/F◌ = fl.div

  abbrev pub ◌<F◌ : F → F → Bool
  ◌<F◌ = fl.lt

  abbrev pub ◌≤F◌ : F → F → Bool
  ◌≤F◌ = fl.le

  abbrev pub log10 : F → F
  log10 = fl.log10

  -- A value that is not NaN is at most itself.
  abbrev pub IsNumber : F → Type 0
  IsNumber x = (x ≤F x) ≡ true

-- IEEE 754 comparison: an order away from NaN.
pub record IsOrdered (F : Type 0) ⦃fl : Float64 F⦄ : Type 0 where
  pub le_number : (x y : F) → (x ≤F y) ≡ true → ((x ≤F x) ≡ true) × ((y ≤F y) ≡ true)
  pub le_trans : (x y z : F) → (x ≤F y) ≡ true → (y ≤F z) ≡ true → (x ≤F z) ≡ true
  pub le_of_not_lt :
      (x y : F) → (x ≤F x) ≡ true → (y ≤F y) ≡ true → (x <F y) ≡ false → (y ≤F x) ≡ true
  pub le_of_not_le :
      (x y : F) → (x ≤F x) ≡ true → (y ≤F y) ≡ true → (x ≤F y) ≡ false → (y ≤F x) ≡ true
  pub le_of_lt : (x y : F) → (x <F y) ≡ true → (x ≤F y) ≡ true
  pub not_lt_of_le : (x y : F) → (x ≤F y) ≡ true → (y <F x) ≡ false
  pub of_int_mono : (m n : ℕ) → m ≤ n → fl.le (fl.of_int m) (fl.of_int n) ≡ true
  -- Correct rounding is monotone: an integer, or the infinity that a too large one rounds to, divided by
  -- a positive integer that is exact.
  pub div_int_mono :
      (m n k : ℕ)
      → m ≤ n
      → 1 ≤ k
      → k ≤ 2 ^ 53
      → fl.le (fl.div (fl.of_int m) (fl.of_int k)) (fl.div (fl.of_int n) (fl.of_int k)) ≡ true
