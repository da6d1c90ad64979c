-- ===== src/Validator/Pages.antt =====
-- ParsePagination and TotalPages of backend/utils/validator.go.
use native.Mathlib.Nat.{mod-lt, div-add-mod', mul-le-mul_right}
use distributed_benchmark_pl.Base.{
  ℕ, zero, suc, ◌+◌, ◌-◌, ◌*◌, ◌/◌, ◌%◌, ◌^◌, ◌≤◌, ◌<◌, ◌≡◌, arith, inl, inr, ltb, leb, Bool-cases,
  if◌then◌else◌, ◌==◌, subst, false,
}
use distributed_benchmark_pl.Validator.{total_pages, parse_pagination, page_of, size_of, below_one}

-- How many pages there are, by the quotient and the remainder.
abbrev rounded_up : ℕ → ℕ → ℕ
rounded_up q r = if r == 0 then q else q + 1

-- A page starts inside the rows exactly if the quotient, rounded up, reaches it.
page_within : (p q r size : ℕ) → r < size → ltb (p * size) (q * size + r) ≡ ltb p (rounded_up q r)
page_within p q r size lt = elim (Bool-cases (ltb p q)) [
  | inl before ↦
      let h : suc p * size ≤ q * size = mul-le-mul_right size (ground (arith, before)) in
      ground (arith, h, before)
  | inr after ↦
      let h : q * size ≤ p * size = mul-le-mul_right size (ground (arith, after)) in
      elim (Bool-cases (ltb q p)) [
        | inl far ↦
            let k : suc q * size ≤ p * size = mul-le-mul_right size (ground (arith, far)) in
            ground (arith, k, far)
        | inr near ↦ let same : p ≡ q = ground (arith, after, near) in rw same (ground arith)
      ]
]

total_pages_lem :
    (p size total : ℕ) → zero < size → ltb (p * size) total ≡ ltb p (total_pages total size)
unfolding total_pages
total_pages_lem p size total pos =
    let h = page_within p (total / size) (total % size) size (mod-lt total pos) in
    let here =
      subst (λ x. ltb (p * size) x ≡ ltb p (rounded_up (total / size) (total % size)))
        (div-add-mod' total size) h in
    ground (arith, here)

-- The pages hold all rows, and the last one is not empty.
pub total_pages_bounds :
    (size total : ℕ)
    → 1 ≤ size
    → (total ≤ total_pages total size * size) × (total_pages total size * size < total + size)
unfolding total_pages
total_pages_bounds size total pos =
    let small : total % size < size = mod-lt total pos in
    let whole = div-add-mod' total size in
    let some_rows : (size == 0) ≡ false = ground arith in
    elim (Bool-cases (total % size == 0)) [
      | inl full ↦
          let none_left : total % size ≡ 0 = ground (arith, full) in
          rw (some_rows, full) (omega (arith, whole, none_left), omega (arith, whole, pos))
      | inr partial ↦
          let left : 0 < total % size = ground (arith, partial) in
          rw (some_rows, partial) (omega (arith, whole, small), omega (arith, whole, left))
    ]

-- ParsePagination gives a page of 1 to 100 rows, and as long as its offset does not wrap, the page
-- has rows of a list of `total` exactly if its number is at most TotalPages.
pub pages_are_those_with_rows :
    (page size total : ℕ)
    → (page_of page - 1) * size_of size < 2 ^ 64
    → let p = parse_pagination page size in
      (1 ≤ p.size)
      × (p.size ≤ 100)
      × (1 ≤ p.page)
      × (ltb p.offset total ≡ leb p.page (total_pages total p.size))
unfolding parse_pagination page_of size_of below_one
pages_are_those_with_rows page size total fits =
    let pos : zero < size_of size = ground arith in
    ground (arith, total_pages_lem (page_of page - 1) (size_of size) total pos)
