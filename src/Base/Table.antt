-- ===== src/Base/Table.antt =====
-- A database table as a list of rows with a text key: the statements SELECT, UPDATE and DELETE
-- with a condition `WHERE key = k`, and what a later SELECT sees of them.
use Prim.Native.String.{String}
use mathlib.Core.Path.{◌≡◌, refl, subst, ap, sym, ◌∙◌}
use mathlib.Core.Logic.{inl, inr}
use mathlib.Core.Option
use mathlib.Core.Option.{Option, none, some}
use mathlib.Core.List.{List, [], ◌∷◌, ◌++◌}
use native.Mathlib.Omega.{arith}
use text.Mathlib.Text.{◌==◌ as str_eq}
use text.Mathlib.TextEquality.{eq_iff}
use distributed_benchmark_pl.Base.Lists.{All}
use distributed_benchmark_pl.Base.Tests.{Bool-cases, if◌then◌else◌}

module _ {ℓ} {A : Type ℓ} (key : A → String) where
  unfoldable pub find_by : String → List A → Option A
  find_by k [] = none
  find_by k (a ∷ t) = if str_eq (key a) k then some a else find_by k t

  unfoldable pub update_where : String → (A → A) → List A → List A
  update_where k f [] = []
  update_where k f (a ∷ t) = (if str_eq (key a) k then f a else a) ∷ update_where k f t

  unfoldable pub delete_where : String → List A → List A
  delete_where k [] = []
  delete_where k (a ∷ t) =
      let rest = delete_where k t in if str_eq (key a) k then rest else a ∷ rest

  -- A row that is appended is found last.
  pub find_by-append :
      (k : String) (s t : List A)
      → find_by k (s ++ t) ≡ elim (find_by k s) [ none ↦ find_by k t | some a ↦ some a ]
  unfolding find_by
  find_by-append k [] t = refl
  find_by-append k (a ∷ s) t = ground (arith, find_by-append k s t)

  pub find_by-update_where :
      (k j : String) (f : A → A) (t : List A)
      → ((a : A) → key (f a) ≡ key a)
      → find_by j (update_where k f t)
        ≡ (if str_eq k j then Option.map f (find_by j t) else find_by j t)
  unfolding find_by update_where
  find_by-update_where k j f [] keeps = ground arith
  find_by-update_where k j f (a ∷ t) keeps = ground (
    arith,
    keeps a,
    eq_iff k j,
    eq_iff (key a) k,
    eq_iff (key a) j,
    find_by-update_where k j f t keeps,
  )

  pub find_by-delete_where :
      (k j : String) (t : List A)
      → find_by j (delete_where k t) ≡ (if str_eq k j then none else find_by j t)
  unfolding find_by delete_where
  find_by-delete_where k j [] = ground arith
  find_by-delete_where k j (a ∷ t) =
      ground (arith, eq_iff k j, eq_iff (key a) k, eq_iff (key a) j, find_by-delete_where k j t)

  -- A row that is found has the key that was looked for, and satisfies what all rows do.
  pub find_by_sound {κ} :
      (P : A → Type κ) (k : String) (t : List A) {a : A}
      → All P t
      → find_by k t ≡ some a
      → P a × (key a ≡ k)
  unfolding find_by
  find_by_sound P k [] h e = cc
  find_by_sound P k (b ∷ t) {a} h e = elim (Bool-cases (str_eq (key b) k)) [
    | inl hit ↦
        let same : b ≡ a = ground (arith, e) in
        (subst P same h.0, ap key (sym same) ∙ (eq_iff (key b) k).0 hit)
    | inr miss ↦ find_by_sound P k t h.1 (ground (arith, e))
  ]
