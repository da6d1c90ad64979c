-- ===== src/Archive/Context/Written.antt =====
-- createTarContext of backend/services/tar_helper.go: what the walk writes for a directory whose
-- files and directories can all be read.
use distributed_benchmark_pl.Base.{
  ℕ, ◌≤◌, none, some, List, [], ◌∷◌, ◌++◌, length, ◌==◌, inl, inr, ◌≡◌, refl, ap, ◌∙◌, arith, true,
  false, Bool-cases, All, All-append,
}
use distributed_benchmark_pl.Base.Text.{Text, codes, text_eq, text_eq_refl, NoSlash}
use distributed_benchmark_pl.Archive.Cleaning.{cons_part, split_slash, join_slash}
use distributed_benchmark_pl.Archive.Context.{
  Tree, file, link, dir, unlisted, unstated, Entries, end, entry, ItemKind, file_item, link_item,
  dir_item, TarItem, rel_of, to_slash, slashes, add_file, add_dir, walk, walk_entries, child_of,
}

abbrev NoBackslash : Text → Type 0
NoBackslash [] = Unit {0}
NoBackslash (c ∷ s) = ((c == 0x5C) ≡ false) × NoBackslash s

-- A name without slash and backslash that is not the directory itself.
abbrev pub Plain : Text → Type 0
Plain n = NoSlash n × NoBackslash n × (text_eq n (codes ".") ≡ false)

-- Every directory can be listed, every file opened and read, and holds as many bytes as Lstat said;
-- a link leads to an empty file. The names are plain.
abbrev mutual
  pub Readable : Tree → Type 0
  Readable (file size none) = ⊥
  Readable (file size (some c)) = size ≡ length c
  Readable (link target none) = ⊥
  Readable (link target (some c)) = c ≡ []
  Readable (dir es) = ReadableEntries es
  Readable unlisted = ⊥
  Readable unstated = ⊥

  pub ReadableEntries : Entries → Type 0
  ReadableEntries end = Unit {0}
  ReadableEntries (entry n t es) = Plain n × Readable t × ReadableEntries es

-- The directory with the targets of its links forgotten.
abbrev mutual
  pub unlinked : Tree → Tree
  unlinked (file size read) = file size read
  unlinked (link target read) = link [] read
  unlinked (dir es) = dir (unlinked_entries es)
  unlinked unlisted = unlisted
  unlinked unstated = unstated

  pub unlinked_entries : Entries → Entries
  unlinked_entries end = end
  unlinked_entries (entry n t es) = entry n (unlinked t) (unlinked_entries es)

-- What the walk writes for the entries of a directory that can be read.
abbrev pub item : ItemKind → List Text → Text → TarItem
item kind path c = record { name = rel_of path; kind = kind; linkname = []; content = c }

abbrev mutual
  pub items_of : List Text → Tree → List TarItem
  items_of path (file size none) = []
  items_of path (file size (some c)) = item file_item path c ∷ []
  items_of path (link target none) = []
  items_of path (link target (some c)) = item link_item path c ∷ []
  items_of path (dir es) = item dir_item path [] ∷ items_below path es
  items_of path unlisted = []
  items_of path unstated = []

  pub items_below : List Text → Entries → List TarItem
  items_below path end = []
  items_below path (entry n t es) = items_of (path ++ n ∷ []) t ++ items_below path es

slashes-append : (s t : Text) → slashes (s ++ t) ≡ slashes s ++ slashes t
unfolding slashes
slashes-append [] t = refl
slashes-append (c ∷ s) t = ap (λ l. to_slash c ∷ l) (slashes-append s t)

slashes-plain : (s : Text) → NoBackslash s → slashes s ≡ s
unfolding slashes to_slash
slashes-plain [] h = refl
slashes-plain (c ∷ s) h = rw (h.0, slashes-plain s h.1) refl

slashes-join_slash : (ps : List Text) → All Plain ps → slashes (join_slash ps) ≡ join_slash ps
unfolding join_slash slashes to_slash
slashes-join_slash [] h = refl
slashes-join_slash (p ∷ []) h = slashes-plain p h.0.1
slashes-join_slash (p ∷ q ∷ ps) h =
    slashes-append p (b'/' ∷ join_slash (q ∷ ps))
    ∙ rw (slashes-plain p h.0.1, slashes-join_slash (q ∷ ps) h.1) refl

slashes-rel_of : (path : List Text) → All Plain path → slashes (rel_of path) ≡ rel_of path
unfolding rel_of
slashes-rel_of [] h = slashes-plain (codes ".") (refl, tt)
slashes-rel_of (p ∷ ps) h = slashes-join_slash (p ∷ ps) h

longer_than_dot : (p s : Text) → text_eq (p ++ b'/' ∷ s) (codes ".") ≡ false
longer_than_dot [] s = refl
longer_than_dot (c ∷ []) s = ground arith
longer_than_dot (c ∷ d ∷ p) s = ground arith

rel_of-below :
    (path : List Text) (n : Text) → Plain n → text_eq (rel_of (path ++ n ∷ [])) (codes ".") ≡ false
unfolding rel_of join_slash
rel_of-below [] n h = h.2
rel_of-below (p ∷ []) n h = longer_than_dot p n
rel_of-below (p ∷ q ∷ ps) n h = longer_than_dot p _

cons_part-slash : (c : ℕ) (ps : List Text) → cons_part b'/' (cons_part c ps) ≡ [] ∷ cons_part c ps
unfolding cons_part
cons_part-slash c [] = elim (Bool-cases (c == b'/')) [ inl h ↦ rw h refl | inr h ↦ rw h refl ]
cons_part-slash c (p ∷ ps) = elim (Bool-cases (c == b'/')) [ inl h ↦ rw h refl | inr h ↦ rw h refl ]

split_slash-first : (n s : Text) → NoSlash n → split_slash (n ++ b'/' ∷ s) ≡ n ∷ split_slash s
unfolding split_slash cons_part
split_slash-first [] [] h = refl
split_slash-first [] (c ∷ s) h = cons_part-slash c (split_slash s)
split_slash-first (c ∷ n) s h = rw (split_slash-first n s h.1, h.0) refl

split_slash-plain : (n : Text) → NoSlash n → split_slash n ≡ n ∷ []
unfolding split_slash cons_part
split_slash-plain [] h = refl
split_slash-plain (c ∷ n) h = rw (split_slash-plain n h.1, h.0) refl

pub split_slash-rel_of :
    (path : List Text) (n : Text)
    → All Plain path
    → Plain n
    → split_slash (rel_of (path ++ n ∷ [])) ≡ path ++ n ∷ []
unfolding rel_of join_slash
split_slash-rel_of [] n h hn = split_slash-plain n hn.0
split_slash-rel_of (p ∷ []) n h hn =
    split_slash-first p n h.0.0 ∙ ap (λ l. p ∷ l) (split_slash-plain n hn.0)
split_slash-rel_of (p ∷ q ∷ ps) n h hn =
    split_slash-first p _ h.0.0 ∙ ap (λ l. p ∷ l) (split_slash-rel_of (q ∷ ps) n h.1 hn)

pub child_of-below : (path : List Text) (n : Text) → child_of path (path ++ n ∷ []) ≡ some n
unfolding child_of
child_of-below [] n = refl
child_of-below (p ∷ ps) n = rw (text_eq_refl p, child_of-below ps n) refl

pub child_of-shallow :
    (path parts : List Text) → length parts ≤ length path → child_of path parts ≡ none
unfolding child_of
child_of-shallow [] [] h = refl
child_of-shallow [] (n ∷ ns) h = ground arith
child_of-shallow (p ∷ ps) [] h = refl
child_of-shallow (p ∷ ps) (n ∷ ns) h = elim (Bool-cases (text_eq p n)) [
  | inl same ↦ rw (same, child_of-shallow ps ns (omega (arith, h))) refl
  | inr other ↦ rw other refl
]

same_length : (a b : ℕ) → a ≡ b → (b == a) ≡ true
same_length a b h = ground (arith, h)

add_file-below :
    (path : List Text) (n : Text) (kind : ItemKind) (size : ℕ) (c : Text)
    → All Plain path
    → Plain n
    → size ≡ length c
    → add_file (slashes (rel_of (path ++ n ∷ []))) kind size (some c)
      ≡ some (item kind (path ++ n ∷ []) c ∷ [])
unfolding add_file
add_file-below path n kind size c plain hn fits =
    rw
      (
        slashes-rel_of (path ++ n ∷ []) (All-append Plain path (n ∷ []) plain (hn, tt)),
        rel_of-below path n hn,
        same_length size (length c) fits,
      )
      refl

mutual
  unfolding walk add_dir

  walk-items_of :
      (path : List Text) (n : Text) (t : Tree)
      → All Plain path
      → Plain n
      → Readable t
      → walk (path ++ n ∷ []) t ≡ some (items_of (path ++ n ∷ []) t)
  walk-items_of path n (file size none) plain hn h = absurd h
  walk-items_of path n (file size (some c)) plain hn h =
      add_file-below path n file_item size c plain hn h
  walk-items_of path n (link target none) plain hn h = absurd h
  walk-items_of path n (link target (some c)) plain hn h =
      add_file-below path n link_item 0 c plain hn (rw h refl)
  walk-items_of path n (dir es) plain hn h =
      let below = All-append Plain path (n ∷ []) plain (hn, tt) in
      rw
        (
          slashes-rel_of (path ++ n ∷ []) below,
          rel_of-below path n hn,
          walk_entries-items_below (path ++ n ∷ []) es below h,
        )
        refl
  walk-items_of path n unlisted plain hn h = absurd h
  walk-items_of path n unstated plain hn h = absurd h

  pub walk_entries-items_below :
      (path : List Text) (es : Entries)
      → All Plain path
      → ReadableEntries es
      → walk_entries path es ≡ some (items_below path es)
  walk_entries-items_below path end plain h = refl
  walk_entries-items_below path (entry n t es) plain h =
      rw (walk-items_of path n t plain h.0 h.1, walk_entries-items_below path es plain h.2) refl
