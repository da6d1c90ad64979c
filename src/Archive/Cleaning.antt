-- ===== src/Archive/Cleaning.antt =====
-- filepath.Clean, filepath.Join and strings.HasPrefix as unzipTo of backend/services/tar_helper.go
-- uses them, on paths with forward slashes.
use distributed_benchmark_pl.Base.{
  ℕ, Bool, true, false, ◌||◌, not, none, some, List, [], ◌∷◌, ◌++◌, ◌==◌, if◌then◌else◌, ◌≡◌, ◌⊎◌,
  inl, inr, refl, sym, ◌∙◌, arith, All, All-append, Bool-cases,
}
use distributed_benchmark_pl.Base.Text.{Text, codes, text_eq}
use distributed_benchmark_pl.Archive.{after_prefix}

-- One more code point before the parts of a text.
unfoldable pub cons_part : ℕ → List Text → List Text
cons_part c [] = if c == b'/' then [] ∷ [] ∷ [] else (c ∷ []) ∷ []
cons_part c (p ∷ ps) = if c == b'/' then [] ∷ p ∷ ps else (c ∷ p) ∷ ps

-- The parts between the slashes.
unfoldable pub split_slash : Text → List Text
split_slash [] = [] ∷ []
split_slash (c ∷ s) = cons_part c (split_slash s)

unfoldable pub join_slash : List Text → Text
join_slash [] = []
join_slash (p ∷ []) = p
join_slash (p ∷ q ∷ ps) = p ++ b'/' ∷ join_slash (q ∷ ps)

unfoldable pub is_rooted : Text → Bool
is_rooted [] = false
is_rooted (c ∷ s) = c == b'/'

-- A part that is neither empty nor . nor ..
unfoldable pub is_proper : Text → Bool
is_proper p = not (text_eq p [] || text_eq p (codes ".") || text_eq p (codes ".."))

-- Clean at a part .. after the parts so far.
unfoldable pub back : Bool → List Text → List Text
back rooted [] = if rooted then [] else codes ".." ∷ []
back rooted (p ∷ []) = if text_eq p (codes "..") then p ∷ codes ".." ∷ [] else []
back rooted (p ∷ q ∷ ps) = p ∷ back rooted (q ∷ ps)

unfoldable pub clean_part : Bool → List Text → Text → List Text
clean_part rooted out p =
    if text_eq p [] || text_eq p (codes ".")
    then out
    else if text_eq p (codes "..")
    then back rooted out
    else out ++ p ∷ []

unfoldable pub clean_loop : Bool → List Text → List Text → List Text
clean_loop rooted out [] = out
clean_loop rooted out (p ∷ ps) = clean_loop rooted (clean_part rooted out p) ps

-- The parts of the cleaned path; an empty part at the front stands for the root.
unfoldable pub lead : Bool → List Text → List Text
lead true [] = [] ∷ [] ∷ []
lead true (p ∷ ps) = [] ∷ p ∷ ps
lead false [] = codes "." ∷ []
lead false (p ∷ ps) = p ∷ ps

unfoldable pub clean_parts : Text → List Text
clean_parts path = lead (is_rooted path) (clean_loop (is_rooted path) [] (split_slash path))

unfoldable pub clean : Text → Text
clean path = join_slash (clean_parts path)

-- Join of two elements, the second of which is not empty.
unfoldable pub join_path : Text → Text → Text
join_path dir name = if text_eq dir [] then clean name else clean (dir ++ b'/' ∷ name)

unfoldable pub has_prefix : Text → Text → Bool
has_prefix s prefix = elim (after_prefix prefix s) [ none ↦ false | some rest ↦ true ]

clean_test : clean (codes "/a//./b/../c/") ≡ codes "/a/c"
unfolding clean clean_parts clean_loop clean_part back lead split_slash cons_part join_slash
    is_rooted
clean_test = refl

clean_up_test : clean (codes "a/../../x") ≡ codes "../x"
unfolding clean clean_parts clean_loop clean_part back lead split_slash cons_part join_slash
    is_rooted
clean_up_test = refl

abbrev pub Proper : Text → Type 0
Proper p = is_proper p ≡ true

-- The parts that are not proper come first.
abbrev pub Shaped : List Text → Type 0
Shaped [] = Unit {0}
Shaped (p ∷ ps) = ((is_proper p ≡ false) × Shaped ps) ⊎ ((is_proper p ≡ true) × All Proper ps)

Shaped-append : (out : List Text) (p : Text) → Shaped out → Proper p → Shaped (out ++ p ∷ [])
Shaped-append [] p s h = inr (h, tt)
Shaped-append (q ∷ out) p (inl (odd, s)) h = inl (odd, Shaped-append out p s h)
Shaped-append (q ∷ out) p (inr (proper, s)) h =
    inr (proper, All-append Proper out (p ∷ []) s (h, tt))

up_odd : is_proper (codes "..") ≡ false
unfolding is_proper
up_odd = refl

Proper-not_up : (p : Text) → Proper p → text_eq p (codes "..") ≡ false
unfolding is_proper
Proper-not_up p h = ground (arith, h)

All-back :
    (rooted : Bool) (p : Text) (ps : List Text)
    → All Proper (p ∷ ps)
    → All Proper (back rooted (p ∷ ps))
unfolding back
All-back rooted p [] h = rw (Proper-not_up p h.0) tt
All-back rooted p (q ∷ ps) h = (h.0, All-back rooted q ps h.1)

Shaped-back : (rooted : Bool) (out : List Text) → Shaped out → Shaped (back rooted out)
unfolding back
Shaped-back true [] s = tt
Shaped-back false [] s = inl (up_odd, tt)
Shaped-back rooted (p ∷ []) (inr (proper, s)) = rw (Proper-not_up p proper) tt
Shaped-back rooted (p ∷ []) (inl (odd, s)) = elim (Bool-cases (text_eq p (codes ".."))) [
  | inl up ↦ rw up (inl (odd, inl (up_odd, tt)))
  | inr other ↦ rw other tt
]
Shaped-back rooted (p ∷ q ∷ ps) (inl (odd, s)) = inl (odd, Shaped-back rooted (q ∷ ps) s)
Shaped-back rooted (p ∷ q ∷ ps) (inr (proper, s)) = inr (proper, All-back rooted q ps s)

Proper-text_eq :
    (p : Text)
    → (text_eq p [] || text_eq p (codes ".")) ≡ false
    → text_eq p (codes "..") ≡ false
    → Proper p
unfolding is_proper
Proper-text_eq p kept other = ground (arith, kept, other)

Shaped-clean_part :
    (rooted : Bool) (out : List Text) (p : Text) → Shaped out → Shaped (clean_part rooted out p)
unfolding clean_part is_proper
Shaped-clean_part rooted out p s = elim (Bool-cases (text_eq p [] || text_eq p (codes "."))) [
  | inl skipped ↦ rw skipped s
  | inr kept ↦ elim (Bool-cases (text_eq p (codes ".."))) [
    | inl up ↦ rw (kept, up) (Shaped-back rooted out s)
    | inr other ↦ rw (kept, other) (Shaped-append out p s (Proper-text_eq p kept other))
  ]
]

Shaped-clean_loop :
    (rooted : Bool) (out ps : List Text) → Shaped out → Shaped (clean_loop rooted out ps)
unfolding clean_loop
Shaped-clean_loop rooted out [] s = s
Shaped-clean_loop rooted out (p ∷ ps) s =
    Shaped-clean_loop rooted (clean_part rooted out p) ps (Shaped-clean_part rooted out p s)

Shaped-lead : (rooted : Bool) (ps : List Text) → Shaped ps → Shaped (lead rooted ps)
unfolding lead is_proper
Shaped-lead true [] s = inl (refl, inl (refl, tt))
Shaped-lead true (p ∷ ps) s = inl (refl, s)
Shaped-lead false [] s = inl (refl, tt)
Shaped-lead false (p ∷ ps) s = s

pub Shaped-clean_parts : (path : Text) → Shaped (clean_parts path)
unfolding clean_parts
Shaped-clean_parts path =
    Shaped-lead (is_rooted path) _ (Shaped-clean_loop (is_rooted path) [] (split_slash path) tt)

All-tail :
    (front : List Text) (p : Text) (more : List Text)
    → All Proper (front ++ p ∷ more)
    → All Proper more
All-tail [] p more h = h.1
All-tail (q ∷ front) p more h = All-tail front p more h.1

-- After a proper part, all are.
pub Shaped-after :
    (front : List Text) (p : Text) (more : List Text)
    → Shaped (front ++ p ∷ more)
    → Proper p
    → All Proper more
Shaped-after [] p more (inl (odd, s)) h = let wrong : true ≡ false = sym h ∙ odd in cc
Shaped-after [] p more (inr (proper, s)) h = s
Shaped-after (q ∷ front) p more (inl (odd, s)) h = Shaped-after front p more s h
Shaped-after (q ∷ front) p more (inr (proper, s)) h = All-tail front p more s
