-- ===== src/Archive/Slashes.antt =====
-- Paths of backend/services/tar_helper.go as lists of their parts: texts that end in a slash, and
-- their prefixes.
use mathlib.Core.List.{append_assoc}
use distributed_benchmark_pl.Base.{
  ℕ, Bool, true, false, none, some, List, [], ◌∷◌, ◌++◌, ◌==◌, ◌≡◌, inl, inr, refl, ap, ◌∙◌, arith,
  All, All-append, Bool-cases, ◌||◌,
}
use distributed_benchmark_pl.Base.Text.{Text, NoSlash, codes, text_eq}
use distributed_benchmark_pl.Archive.{after_prefix}
use distributed_benchmark_pl.Archive.Cleaning.{
  cons_part, split_slash, join_slash, is_rooted, back, clean_part, clean_loop, lead, clean_parts,
  clean,
}

-- Every part followed by a slash.
abbrev pub slashed : List Text → Text
slashed [] = []
slashed (p ∷ ps) = p ++ b'/' ∷ slashed ps

join_slash-slashed :
    (p : Text) (ps : List Text) → join_slash (p ∷ ps) ++ b'/' ∷ [] ≡ slashed (p ∷ ps)
unfolding join_slash
join_slash-slashed p [] = refl
join_slash-slashed p (q ∷ ps) =
    append_assoc p (b'/' ∷ join_slash (q ∷ ps)) (b'/' ∷ [])
    ∙ ap (λ l. p ++ b'/' ∷ l) (join_slash-slashed q ps)

lead-slashed :
    (rooted : Bool) (ps : List Text)
    → join_slash (lead rooted ps) ++ b'/' ∷ [] ≡ slashed (lead rooted ps)
unfolding lead
lead-slashed true [] = join_slash-slashed [] ([] ∷ [])
lead-slashed true (p ∷ ps) = join_slash-slashed [] (p ∷ ps)
lead-slashed false [] = join_slash-slashed (codes ".") []
lead-slashed false (p ∷ ps) = join_slash-slashed p ps

pub clean-slashed : (path : Text) → clean path ++ b'/' ∷ [] ≡ slashed (clean_parts path)
unfolding clean clean_parts
clean-slashed path = lead-slashed (is_rooted path) _

cons_part-NoSlash : (c : ℕ) (ps : List Text) → All NoSlash ps → All NoSlash (cons_part c ps)
unfolding cons_part
cons_part-NoSlash c [] h = elim (Bool-cases (c == b'/')) [
  | inl slash ↦ rw slash (tt, (tt, tt))
  | inr other ↦ rw other ((other, tt), tt)
]
cons_part-NoSlash c (p ∷ ps) h = elim (Bool-cases (c == b'/')) [
  | inl slash ↦ rw slash (tt, h)
  | inr other ↦ rw other ((other, h.0), h.1)
]

split_slash-NoSlash : (s : Text) → All NoSlash (split_slash s)
unfolding split_slash
split_slash-NoSlash [] = (tt, tt)
split_slash-NoSlash (c ∷ s) = cons_part-NoSlash c (split_slash s) (split_slash-NoSlash s)

back-NoSlash : (rooted : Bool) (out : List Text) → All NoSlash out → All NoSlash (back rooted out)
unfolding back
back-NoSlash true [] h = tt
back-NoSlash false [] h = ((refl, (refl, tt)), tt)
back-NoSlash rooted (p ∷ []) h = elim (Bool-cases (text_eq p (codes ".."))) [
  | inl up ↦ rw up (h.0, ((refl, (refl, tt)), tt))
  | inr other ↦ rw other tt
]
back-NoSlash rooted (p ∷ q ∷ ps) h = (h.0, back-NoSlash rooted (q ∷ ps) h.1)

clean_part-NoSlash :
    (rooted : Bool) (out : List Text) (p : Text)
    → All NoSlash out
    → NoSlash p
    → All NoSlash (clean_part rooted out p)
unfolding clean_part
clean_part-NoSlash rooted out p h hp = elim (Bool-cases (text_eq p [] || text_eq p (codes "."))) [
  | inl skipped ↦ rw skipped h
  | inr kept ↦ elim (Bool-cases (text_eq p (codes ".."))) [
    | inl up ↦ rw (kept, up) (back-NoSlash rooted out h)
    | inr other ↦ rw (kept, other) (All-append NoSlash out (p ∷ []) h (hp, tt))
  ]
]

clean_loop-NoSlash :
    (rooted : Bool) (out ps : List Text)
    → All NoSlash out
    → All NoSlash ps
    → All NoSlash (clean_loop rooted out ps)
unfolding clean_loop
clean_loop-NoSlash rooted out [] h hp = h
clean_loop-NoSlash rooted out (p ∷ ps) h hp =
    clean_loop-NoSlash rooted (clean_part rooted out p) ps (clean_part-NoSlash rooted out p h hp.0)
      hp.1

lead-NoSlash : (rooted : Bool) (ps : List Text) → All NoSlash ps → All NoSlash (lead rooted ps)
unfolding lead
lead-NoSlash true [] h = (tt, (tt, tt))
lead-NoSlash true (p ∷ ps) h = (tt, h)
lead-NoSlash false [] h = ((refl, tt), tt)
lead-NoSlash false (p ∷ ps) h = h

pub clean_parts-NoSlash : (path : Text) → All NoSlash (clean_parts path)
unfolding clean_parts
clean_parts-NoSlash path =
    lead-NoSlash (is_rooted path) _
      (clean_loop-NoSlash (is_rooted path) [] (split_slash path) tt (split_slash-NoSlash path))

-- Two parts before a slash are the same if the one with its slash begins the other.
same_part :
    (c d x y w : Text)
    → NoSlash c
    → NoSlash d
    → after_prefix (c ++ b'/' ∷ x) (d ++ b'/' ∷ y) ≡ some w
    → (c ≡ d) × (after_prefix x y ≡ some w)
unfolding after_prefix
same_part [] [] x y w hc hd h = (refl, h)
same_part [] (e ∷ d) x y w hc hd h =
    let other : (b'/' == e) ≡ false = ground (arith, hd.0) in
    let wrong : none ≡ some w = rw other at h in cc
same_part (e ∷ c) [] x y w hc hd h = let wrong : none ≡ some w = rw hc.0 at h in cc
same_part (e ∷ c) (f ∷ d) x y w hc hd h = elim (Bool-cases (e == f)) [
  | inl same ↦
      let eq : e ≡ f = ground (arith, same) in
      let rest = same_part c d x y w hc.1 hd.1 (rw same at h) in (rw (eq, rest.0) refl, rest.1)
  | inr other ↦ let wrong : none ≡ some w = rw other at h in cc
]

pub slashed-prefix :
    (ps qs : List Text) (w : Text)
    → All NoSlash ps
    → All NoSlash qs
    → after_prefix (slashed ps) (slashed qs) ≡ some w
    → (more : List Text) × (qs ≡ ps ++ more)
unfolding after_prefix
slashed-prefix [] qs w hp hq h = (qs, refl)
slashed-prefix ([] ∷ ps) [] w hp hq h = cc
slashed-prefix ((c ∷ p) ∷ ps) [] w hp hq h = cc
slashed-prefix (p ∷ ps) (q ∷ qs) w hp hq h =
    let same = same_part p q (slashed ps) (slashed qs) w hp.0 hq.0 h in
    let rest = slashed-prefix ps qs w hp.1 hq.1 same.1 in (rest.0, rw (same.0, rest.1) refl)
