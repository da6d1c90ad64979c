-- ===== src/Archive/Stripping.antt =====
-- zipCommonPrefix and TrimPrefix on the names of an archive (backend/services/tar_helper.go).
use distributed_benchmark_pl.Base.{
  ℕ, subst, false, none, some, List, [], ◌∷◌, ◌++◌, ◌≡◌, ◌≢◌, ◌⊎◌, inl, inr, refl, sym, ap, ◌∙◌,
  arith, All, ◌==◌, if◌then◌else◌, Bool-cases, Option-cases,
}
use distributed_benchmark_pl.Base.Text.{Text, text_eq, eq_of_text_eq}
use distributed_benchmark_pl.Archive.{
  top_of, prefix_from, zip_common_prefix, after_prefix, trim_prefix,
}

after_prefix-append : (p s : Text) → after_prefix p (p ++ s) ≡ some s
unfolding after_prefix
after_prefix-append [] s = refl
after_prefix-append (c ∷ p) s = ground (arith, after_prefix-append p s)

trim_prefix-append : (p s : Text) → trim_prefix (p ++ s) p ≡ s
unfolding trim_prefix
trim_prefix-append p s = ground (arith, after_prefix-append p s)

-- The name is empty, or lies in the directory `p`, and stripping leaves the rest of it.
pub record InTop (p name : Text) : Type 0 where
  pub rest : Text
  pub splits : (name ≡ []) ⊎ ((name ≡ p ++ rest) × (trim_prefix name p ≡ rest))

-- A first component is a prefix, and ends at its only slash.
record Top (s top : Text) : Type 0 where
  rest : Text
  splits : s ≡ top ++ rest
  single : top_of top ≡ some top
  filled : top ≢ []

top_of-Top : (s top : Text) → top_of s ≡ some top → Top s top
unfolding top_of
top_of-Top [] top e = cc
top_of-Top (c ∷ s) top e = elim (Bool-cases (c == b'/')) [
  | inl slash ↦
      let same : top ≡ c ∷ [] = ground (arith, e, slash) in
      record {
        rest = s;
        splits = rw same refl;
        single = rw same (ground (arith, slash));
        filled = rw same cc;
      }
  | inr other ↦ elim (Option-cases (top_of s)) [
    | inl none_left ↦ ground (arith, e, other, none_left)
    | inr (t, found) ↦
        let same : top ≡ c ∷ t = ground (arith, e, other, found) in
        let inner = top_of-Top s t found in
        record {
          rest = inner.rest;
          splits = rw (same, inner.splits) refl;
          single = rw same (ground (arith, other, inner.single));
          filled = rw same cc;
        }
  ]
]

in_top : (s top : Text) → Top s top → InTop top s
in_top s top t = record {
  rest = t.rest;
  splits = inr (t.splits, ap (λ x. trim_prefix x top) t.splits ∙ trim_prefix-append top t.rest);
}

abbrev Shared : Text → Text → List Text → Type 0
Shared p q names = (q ≡ []) ⊎ ((q ≡ p) × All (InTop p) names)

text_eq_nil : (p : Text) → p ≢ [] → text_eq p [] ≡ false
text_eq_nil [] ne = ground (arith, ne refl)
text_eq_nil (c ∷ p) ne = refl

module _ (p : Text) (c : ℕ) (name : Text) (names : List Text) where
  prefix_root : top_of (c ∷ name) ≡ none → prefix_from p ((c ∷ name) ∷ names) ≡ []
  unfolding prefix_from
  prefix_root e = ground (arith, e)

  prefix_step :
      (top : Text)
      → top_of (c ∷ name) ≡ some top
      → p ≢ []
      → prefix_from p ((c ∷ name) ∷ names) ≡ (if text_eq p top then prefix_from p names else [])
  unfolding prefix_from
  prefix_step top e ne = ground (arith, e, text_eq_nil p ne)

prefix_first :
    (c : ℕ) (name : Text) (names : List Text) (top : Text)
    → top_of (c ∷ name) ≡ some top
    → prefix_from [] ((c ∷ name) ∷ names) ≡ prefix_from top names
unfolding prefix_from
prefix_first c name names top e = ground (arith, e)

prefix_skip : (p : Text) (names : List Text) → prefix_from p ([] ∷ names) ≡ prefix_from p names
unfolding prefix_from
prefix_skip p names = refl

prefix_end : (p : Text) → prefix_from p [] ≡ p
unfolding prefix_from
prefix_end p = refl

Shared-cons :
    (p q name : Text) (names : List Text)
    → InTop p name
    → Shared p q names
    → Shared p q (name ∷ names)
Shared-cons p q name names i (inl empty) = inl empty
Shared-cons p q name names i (inr (same, all)) = inr (same, (i, all))

empty_name : (p : Text) → InTop p []
empty_name p = record { rest = []; splits = inl refl }

-- A prefix that is already there stays and is shared, or the result is empty.
prefix_from-Shared : (p : Text) (names : List Text) → p ≢ [] → Shared p (prefix_from p names) names
prefix_from-Shared p [] ne = inr (prefix_end p, tt)
prefix_from-Shared p ([] ∷ names) ne =
    subst (λ q. Shared p q ([] ∷ names)) (sym (prefix_skip p names))
      (Shared-cons p _ [] names (empty_name p) (prefix_from-Shared p names ne))
prefix_from-Shared p ((c ∷ name) ∷ names) ne = elim (Option-cases (top_of (c ∷ name))) [
  | inl root ↦ inl (prefix_root p c name names root)
  | inr (top, found) ↦
      let step = prefix_step p c name names top found ne in
      elim (Bool-cases (text_eq p top)) [
        | inr other ↦ inl (ground (arith, step, other))
        | inl again ↦
            let here = in_top (c ∷ name) top (top_of-Top (c ∷ name) top found) in
            let mine = subst (λ q. InTop q (c ∷ name)) (sym (eq_of_text_eq p top again)) here in
            let same : prefix_from p ((c ∷ name) ∷ names) ≡ prefix_from p names =
              ground (arith, step, again) in
            subst (λ q. Shared p q ((c ∷ name) ∷ names)) (sym same)
              (Shared-cons p _ (c ∷ name) names mine (prefix_from-Shared p names ne))
      ]
]

abbrev OneTop : Text → List Text → Type 0
OneTop p names = (p ≡ []) ⊎ ((top_of p ≡ some p) × All (InTop p) names)

Shared-OneTop :
    (top q : Text) (names : List Text) → top_of top ≡ some top → Shared top q names → OneTop q names
Shared-OneTop top q names one (inl empty) = inl empty
Shared-OneTop top q names one (inr (same, all)) =
    subst (λ x. OneTop x names) (sym same) (inr (one, all))

from_empty : (names : List Text) → OneTop (prefix_from [] names) names
from_empty [] = inl (prefix_end [])
from_empty ([] ∷ names) =
    subst (λ q. OneTop q ([] ∷ names)) (sym (prefix_skip [] names))
      (elim (from_empty names) [
        | inl empty ↦ inl empty
        | inr (one, all) ↦ inr (one, (empty_name _, all))
      ])
from_empty ((c ∷ name) ∷ names) = elim (Option-cases (top_of (c ∷ name))) [
  | inl root ↦ inl (prefix_root [] c name names root)
  | inr (top, found) ↦
      let t = top_of-Top (c ∷ name) top found in
      subst (λ q. OneTop q ((c ∷ name) ∷ names)) (sym (prefix_first c name names top found))
        (Shared-OneTop top (prefix_from top names) ((c ∷ name) ∷ names) t.single (
          Shared-cons top _ (c ∷ name) names (in_top (c ∷ name) top t)
            (prefix_from-Shared top names t.filled)))
]

-- The common prefix of an archive is empty, or it is one directory name with its slash, each
-- nonempty name of the archive starts with it, and stripping leaves the rest of that name.
pub zip_common_prefix_is_shared :
    (names : List Text)
    → let p = zip_common_prefix names in (p ≡ []) ⊎ ((top_of p ≡ some p) × All (InTop p) names)
unfolding zip_common_prefix
zip_common_prefix_is_shared names = from_empty names
