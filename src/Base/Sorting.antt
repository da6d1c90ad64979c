-- ===== src/Base/Sorting.antt =====
-- ORDER BY and WHERE on a list of rows. Rows that `before` does not tell apart keep the order of the
-- table.
use Prim.Native.Nat.{ℕ, zero, suc, ◌+◌, ◌*◌, ◌≤◌}
use mathlib.Core.Path.{◌≡◌, refl, sym, ◌∙◌, ap}
use mathlib.Core.Logic.{inl, inr}
use mathlib.Core.Bool.{Bool, true, false}
use mathlib.Core.List.{List, [], ◌∷◌, ◌++◌, Perm}
use mathlib.Core.List.Perm
use native.Mathlib.Omega.{arith}
use distributed_benchmark_pl.Base.Tests.{if◌then◌else◌, Bool-cases}
use distributed_benchmark_pl.Base.Lists.{take, drop, length, All}

module _ {ℓ} {A : Type ℓ} where
  unfoldable pub filter : (A → Bool) → List A → List A
  filter f [] = []
  filter f (a ∷ l) = let rest = filter f l in if f a then a ∷ rest else rest

  unfoldable pub insert_by : (A → A → Bool) → A → List A → List A
  insert_by before a [] = a ∷ []
  insert_by before a (b ∷ l) =
      let rest = insert_by before a l in if before b a then b ∷ rest else a ∷ b ∷ l

  unfoldable pub sort_by : (A → A → Bool) → List A → List A
  sort_by before [] = []
  sort_by before (a ∷ l) = insert_by before a (sort_by before l)

  insert_by-perm :
      (before : A → A → Bool) (a : A) (l : List A) → Perm (insert_by before a l) (a ∷ l)
  unfolding insert_by
  insert_by-perm before a [] = Perm.refl _
  insert_by-perm before a (b ∷ l) = elim (Bool-cases (before b a)) [
    | inl later ↦ rw later (Perm.trans (Perm.cons b (insert_by-perm before a l)) (Perm.swap a b l))
    | inr first ↦ rw first (Perm.refl _)
  ]

  pub sort_by-perm : (before : A → A → Bool) (l : List A) → Perm (sort_by before l) l
  unfolding sort_by
  sort_by-perm before [] = Perm.refl []
  sort_by-perm before (a ∷ l) =
      Perm.trans (insert_by-perm before a (sort_by before l)) (Perm.cons a (sort_by-perm before l))

  length-insert_by :
      (before : A → A → Bool) (a : A) (l : List A) → length (insert_by before a l) ≡ suc (length l)
  unfolding insert_by
  length-insert_by before a [] = refl
  length-insert_by before a (b ∷ l) = ground (arith, length-insert_by before a l)

  pub length-sort_by : (before : A → A → Bool) (l : List A) → length (sort_by before l) ≡ length l
  unfolding sort_by
  length-sort_by before [] = refl
  length-sort_by before (a ∷ l) =
      length-insert_by before a (sort_by before l) ∙ ap suc (length-sort_by before l)

  insert_by-All :
      (P : A → Type 0) (before : A → A → Bool) (a : A) (l : List A)
      → P a
      → All P l
      → All P (insert_by before a l)
  unfolding insert_by
  insert_by-All P before a [] p ps = (p, tt)
  insert_by-All P before a (b ∷ l) p ps = elim (Bool-cases (before b a)) [
    | inl later ↦ rw later (ps.0, insert_by-All P before a l p ps.1)
    | inr first ↦ rw first (p, ps)
  ]

  sort_by-All :
      (P : A → Type 0) (before : A → A → Bool) (l : List A) → All P l → All P (sort_by before l)
  unfolding sort_by
  sort_by-All P before [] ps = tt
  sort_by-All P before (a ∷ l) ps =
      insert_by-All P before a (sort_by before l) ps.0 (sort_by-All P before l ps.1)

  -- Two orders say the same of each two elements of the list.
  abbrev pub Agree : (before before' : A → A → Bool) → List A → Type 0
  Agree before before' [] = Unit {0}
  Agree before before' (a ∷ l) = All (λ b. before b a ≡ before' b a) l × Agree before before' l

  insert_by-Agree :
      (before before' : A → A → Bool) (a : A) (l : List A)
      → All (λ b. before b a ≡ before' b a) l
      → insert_by before a l ≡ insert_by before' a l
  unfolding insert_by
  insert_by-Agree before before' a [] same = refl
  insert_by-Agree before before' a (b ∷ l) same =
      rw (same.0, insert_by-Agree before before' a l same.1) refl

  pub sort_by-Agree :
      (before before' : A → A → Bool) (l : List A)
      → Agree before before' l
      → sort_by before l ≡ sort_by before' l
  unfolding sort_by
  sort_by-Agree before before' [] same = refl
  sort_by-Agree before before' (a ∷ l) same =
      ap (insert_by before a) (sort_by-Agree before before' l same.1)
      ∙ insert_by-Agree before before' a (sort_by before' l) (sort_by-All _ before' l same.0)

  -- No element stands right before one that comes before it in the order.
  abbrev pub Ascending : (A → A → Bool) → List A → Type 0
  Ascending before [] = Unit {0}
  Ascending before (a ∷ []) = Unit {0}
  Ascending before (a ∷ b ∷ l) = (before b a ≡ false) × Ascending before (b ∷ l)

  module _ (before : A → A → Bool) (asym : (a b : A) → before a b ≡ true → before b a ≡ false) where
    insert_by-Ascending :
        (a : A) (l : List A) → Ascending before l → Ascending before (insert_by before a l)
    unfolding insert_by
    insert_by-Ascending a [] s = tt
    insert_by-Ascending a (b ∷ []) s = ground (arith, asym b a)
    insert_by-Ascending a (b ∷ c ∷ l) s =
        ground (arith, asym b a, asym c a, insert_by-Ascending a (c ∷ l) s.1)

    pub sort_by-Ascending : (l : List A) → Ascending before (sort_by before l)
    unfolding sort_by
    sort_by-Ascending [] = tt
    sort_by-Ascending (a ∷ l) = insert_by-Ascending a (sort_by before l) (sort_by-Ascending l)

  -- The pages 0, 1, ..., n - 1 of `size` rows, one after the other.
  unfoldable pub pages : ℕ → ℕ → List A → List A
  pages size zero l = []
  pages size (suc n) l = take size l ++ pages size n (drop size l)

  pub take-drop : (n : ℕ) (l : List A) → take n l ++ drop n l ≡ l
  take-drop zero l = refl
  take-drop (suc n) [] = refl
  take-drop (suc n) (a ∷ l) = ap (◌∷◌ a) (take-drop n l)

  length-drop : (n m : ℕ) (l : List A) → length l ≤ n + m → length (drop n l) ≤ m
  length-drop zero m l h = omega (arith, h)
  length-drop (suc n) m [] h = omega arith
  length-drop (suc n) m (a ∷ l) h = length-drop n m l (omega (arith, h))

  drop_nil : (k : ℕ) → drop {A = A} k [] ≡ []
  drop_nil zero = refl
  drop_nil (suc k) = refl

  pub drop-drop : (m n : ℕ) (l : List A) → drop m (drop n l) ≡ drop (n + m) l
  drop-drop m zero l = ap (λ k. drop k l) (omega arith)
  drop-drop m (suc n) [] = drop_nil m ∙ sym (drop_nil (suc n + m))
  drop-drop m (suc n) (a ∷ l) =
      let same : suc (n + m) ≡ suc n + m = omega arith in
      drop-drop m n l ∙ ap (λ k. drop k (a ∷ l)) same

  -- Enough pages hold the whole list.
  pub pages_all : (size n : ℕ) (l : List A) → length l ≤ n * size → pages size n l ≡ l
  unfolding pages
  pages_all size zero [] h = refl
  pages_all size zero (a ∷ l) h = absurd (omega (arith, h))
  pages_all size (suc n) l h =
      ap (◌++◌ (take size l))
        (pages_all size n (drop size l) (length-drop size (n * size) l (omega (arith, h))))
      ∙ take-drop size l
