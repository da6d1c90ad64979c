-- ===== src/Submissions/Naming.antt =====
-- filepath.Base as Create of backend/api/submission_handler.go uses it on the name of an upload, against the
-- extension that ValidateSubmissionFile reads.
use Prim.Native.Char.{code}
use mathlib.Core.List.{reverse-append, reverse-cons, append_assoc}
use distributed_benchmark_pl.Base.{
  String, Bool, true, false, Option, none, some, [], ◌∷◌, ◌++◌, reverse, ◌==◌, if◌then◌else◌, ◌≡◌,
  ◌≢◌, ◌⊎◌, refl, ap, ◌∙◌, sym, arith, Bool-cases, Option-cases, inl, inr,
}
use distributed_benchmark_pl.Base.Text.{Text, NoSlash, codes}
use distributed_benchmark_pl.Validator.{ext, ext_scan}

unfoldable pub is_empty : String → Bool
is_empty String.[] = true
is_empty (String.◌∷◌ c s) = false

-- Without the slashes at the end.
unfoldable pub strip_slashes : String → String
strip_slashes String.[] = String.[]
strip_slashes (String.◌∷◌ c s) =
    let rest = strip_slashes s in
    if code c == b'/'
    then (if is_empty rest then String.[] else String.◌∷◌ c rest)
    else String.◌∷◌ c rest

-- What follows the last slash, if there is one.
unfoldable pub after_slash : String → Option String
after_slash String.[] = none
after_slash (String.◌∷◌ c s) =
    let rest = after_slash s in
    elim rest [ some t ↦ some t | none ↦ if code c == b'/' then some s else none ]

-- filepath.Base
unfoldable pub base_name : String → String
base_name path =
    let t = strip_slashes path in
    if is_empty path
    then "."
    else if is_empty t
    then "/"
    else elim (after_slash t) [ none ↦ t | some u ↦ u ]

base_test : base_name "a/b.d/c.go" ≡ "c.go"
unfolding base_name strip_slashes after_slash is_empty
base_test = refl

ext_scan-slash : (v w seen : Text) → ext_scan (v ++ b'/' ∷ w) seen ≡ ext_scan v seen
unfolding ext_scan
ext_scan-slash [] w seen = refl
ext_scan-slash (c ∷ v) w seen = rw (ext_scan-slash v w (c ∷ seen)) refl

-- The extension is that of the last component.
ext-component : (v u : Text) → ext (v ++ b'/' ∷ u) ≡ ext u
unfolding ext
ext-component v u =
    let parts : reverse (v ++ b'/' ∷ u) ≡ reverse u ++ b'/' ∷ reverse v =
      reverse-append v (b'/' ∷ u)
      ∙ ap (λ l. l ++ reverse v) (reverse-cons b'/' u)
      ∙ append_assoc (reverse u) (b'/' ∷ []) (reverse v) in
    ap (λ l. ext_scan l []) parts ∙ ext_scan-slash (reverse u) (reverse v) []

pub ext_nil : ext [] ≡ []
unfolding ext ext_scan
ext_nil = refl

after_slash-none : (s : String) → after_slash s ≡ none → NoSlash (codes s)
unfolding after_slash
after_slash-none String.[] h = tt
after_slash-none (String.◌∷◌ c s) h = elim (Option-cases (after_slash s)) [
  | inr (t, found) ↦ let wrong : some t ≡ none = rw found at h in cc
  | inl nothing ↦ elim (Bool-cases (code c == b'/')) [
    | inl slash ↦ let wrong : some s ≡ none = rw (nothing, slash) at h in cc
    | inr other ↦ (other, after_slash-none s nothing)
  ]
]

after_slash-some :
    (s u : String)
    → after_slash s ≡ some u
    → NoSlash (codes u) × ((v : Text) × (codes s ≡ v ++ b'/' ∷ codes u))
unfolding after_slash
after_slash-some String.[] u h = cc
after_slash-some (String.◌∷◌ c s) u h = elim (Option-cases (after_slash s)) [
  | inr (t, found) ↦
      let same : some t ≡ some u = rw found at h in
      let rest = after_slash-some s u (found ∙ same) in
      (rest.0, (code c ∷ rest.1.0, ap (◌∷◌ (code c)) rest.1.1))
  | inl nothing ↦ elim (Bool-cases (code c == b'/')) [
    | inl slash ↦
        let whole : some s ≡ some u = rw (nothing, slash) at h in
        let same : s ≡ u = cc in
        let sep : code c ≡ b'/' = ground (arith, slash) in
        rw (sym same, sep) (after_slash-none s nothing, ([], refl))
    | inr other ↦ let wrong : none ≡ some u = rw (nothing, other) at h in cc
  ]
]

is_empty-eq : (s : String) → is_empty s ≡ true → s ≡ ""
unfolding is_empty
is_empty-eq String.[] h = refl
is_empty-eq (String.◌∷◌ c s) h = cc

strip_slashes-kept :
    (s : String) → (strip_slashes s ≡ s) ⊎ ((v : Text) × (codes s ≡ v ++ b'/' ∷ []))
unfolding strip_slashes
strip_slashes-kept String.[] = inl refl
strip_slashes-kept (String.◌∷◌ c s) = elim (strip_slashes-kept s) [
  | inr (v, e) ↦ inr (code c ∷ v, ap (◌∷◌ (code c)) e)
  | inl kept ↦ elim (Bool-cases (code c == b'/')) [
    | inr other ↦ inl (rw (other, kept) refl)
    | inl slash ↦ elim (Bool-cases (is_empty s)) [
      | inr more ↦ inl (rw (slash, kept, more) refl)
      | inl end ↦
          let sep : code c ≡ b'/' = ground (arith, slash) in
          inr ([], rw (is_empty-eq s end, sep) refl)
    ]
  ]
]

-- A name with an extension has a last component, which is its Base, has no slash, and has the extension.
pub base_name-component :
    (s : String)
    → ext (codes s) ≢ []
    → NoSlash (codes (base_name s)) × (ext (codes (base_name s)) ≡ ext (codes s))
unfolding base_name
base_name-component s h = elim (Bool-cases (is_empty s)) [
  | inl end ↦ absurd (h (rw (is_empty-eq s end) ext_nil))
  | inr more ↦ elim (strip_slashes-kept s) [
    | inr (v, e) ↦ absurd (h (ap ext e ∙ ext-component v [] ∙ ext_nil))
    | inl kept ↦ elim (Option-cases (after_slash s)) [
      | inl nothing ↦ rw (more, kept, more, nothing, kept) (after_slash-none s nothing, refl)
      | inr (u, found) ↦
          let parts = after_slash-some s u found in
          let same = ap ext parts.1.1 ∙ ext-component parts.1.0 (codes u) in
          rw (more, kept, more, found) (parts.0, sym same)
    ]
  ]
]
