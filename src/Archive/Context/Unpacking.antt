-- ===== src/Archive/Context/Unpacking.antt =====
-- createTarContext of backend/services/tar_helper.go and the reader of Archive/Context: what the
-- archive of a directory unpacks to.
use mathlib.Core.List.{append_assoc, append-nil}
use distributed_benchmark_pl.Base.{
  ℕ, zero, suc, ◌<◌, ◌≤◌, none, some, List, [], ◌∷◌, ◌++◌, length, ◌≡◌, refl, ap, ◌∙◌, arith, All,
  All-append, length-append,
}
use distributed_benchmark_pl.Base.Text.{Text}
use distributed_benchmark_pl.Archive.Cleaning.{split_slash}
use distributed_benchmark_pl.Archive.Context.{
  file, link, dir, unlisted, unstated, Entries, end, entry, dir_item, TarItem, rel_of, to_slash,
  slashes, add_dir, walk, create_tar_context, read_entries, unpack,
}
use distributed_benchmark_pl.Archive.Context.Written.{
  Plain, ReadableEntries, unlinked_entries, item, items_below, split_slash-rel_of, child_of-below,
  child_of-shallow, walk_entries-items_below,
}

-- What follows lies outside the directories that are this deep.
abbrev Shallow : ℕ → List TarItem → Type 0
Shallow depth [] = Unit {0}
Shallow depth (i ∷ items) = length (split_slash i.name) ≤ depth

Shallow-deeper :
    (depth : ℕ) (items : List TarItem) → Shallow depth items → Shallow (suc depth) items
Shallow-deeper depth [] h = tt
Shallow-deeper depth (i ∷ items) h = omega (arith, h)

module _ (path : List Text) (plain : All Plain path) where
  rel_of-depth :
      (n : Text) → Plain n → length (split_slash (rel_of (path ++ n ∷ []))) ≤ suc (length path)
  rel_of-depth n h =
      rw (split_slash-rel_of path n plain h) (omega (arith, length-append path (n ∷ [])))

  Shallow-items_below :
      (es : Entries) (rest : List TarItem)
      → ReadableEntries es
      → Shallow (length path) rest
      → Shallow (suc (length path)) (items_below path es ++ rest)
  Shallow-items_below end rest h s = Shallow-deeper (length path) rest s
  Shallow-items_below (entry n (file size (some c)) es) rest h s = rel_of-depth n h.0
  Shallow-items_below (entry n (link target (some c)) es) rest h s = rel_of-depth n h.0
  Shallow-items_below (entry n (dir sub) es) rest h s = rel_of-depth n h.0
  Shallow-items_below (entry n (file size none) es) rest h s = absurd h.1
  Shallow-items_below (entry n (link target none) es) rest h s = absurd h.1
  Shallow-items_below (entry n unlisted es) rest h s = absurd h.1
  Shallow-items_below (entry n unstated es) rest h s = absurd h.1

read_entries-items_below :
    (fuel : ℕ) (path : List Text) (es : Entries) (rest : List TarItem)
    → All Plain path
    → ReadableEntries es
    → Shallow (length path) rest
    → length (items_below path es ++ rest) < fuel
    → read_entries fuel path (items_below path es ++ rest) ≡ (unlinked_entries es, rest)
unfolding read_entries
read_entries-items_below zero path es rest plain h s enough = ground arith
read_entries-items_below (suc k) path end [] plain h s enough = refl
read_entries-items_below (suc k) path end (i ∷ rest) plain h s enough =
    rw (read_entries, child_of-shallow path (split_slash i.name) s) refl
read_entries-items_below (suc k) path (entry n (file size (some c)) es) rest plain h s enough =
    let more = read_entries-items_below k path es rest plain h.2 s (omega (arith, enough)) in
    rw (read_entries, split_slash-rel_of path n plain h.0, child_of-below path n, more, h.1) refl
read_entries-items_below (suc k) path (entry n (link target (some c)) es) rest plain h s enough =
    let more = read_entries-items_below k path es rest plain h.2 s (omega (arith, enough)) in
    rw (read_entries, split_slash-rel_of path n plain h.0, child_of-below path n, more) refl
read_entries-items_below (suc k) path (entry n (dir sub) es) rest plain h s enough =
    let below = items_below (path ++ n ∷ []) sub in
    let after = items_below path es ++ rest in
    let assoc : (below ++ items_below path es) ++ rest ≡ below ++ after =
      append_assoc below (items_below path es) rest in
    let deep : length (path ++ n ∷ []) ≡ suc (length path) =
      length-append path (n ∷ []) ∙ omega arith in
    let room : length (below ++ after) < k =
      let h2 : suc (length (below ++ after)) < suc k = rw assoc at enough in omega (arith, h2) in
    let inner =
      read_entries-items_below k (path ++ n ∷ []) sub after
        (All-append Plain path (n ∷ []) plain (h.0, tt)) h.1
        (rw deep (Shallow-items_below path plain es rest h.2 s)) room in
    let more =
      read_entries-items_below k path es rest plain h.2 s
        (omega (arith, room, length-append below after)) in
    ap (λ l. read_entries (suc k) path (item dir_item (path ++ n ∷ []) [] ∷ l)) assoc
    ∙ rw (read_entries, split_slash-rel_of path n plain h.0, child_of-below path n, inner, more)
        refl
read_entries-items_below (suc k) path (entry n (file size none) es) rest plain h s enough =
    absurd h.1
read_entries-items_below (suc k) path (entry n (link target none) es) rest plain h s enough =
    absurd h.1
read_entries-items_below (suc k) path (entry n unlisted es) rest plain h s enough = absurd h.1
read_entries-items_below (suc k) path (entry n unstated es) rest plain h s enough = absurd h.1

-- If every directory below the given one can be listed, each file opened and read with as many
-- bytes as Lstat says, each link leads to an empty file, and no name has a slash or a backslash or
-- is ".", then createTarContext succeeds, and reading its archive back gives the directory, in which
-- each link has lost its target.
pub unpack-create_tar_context :
    (es : Entries)
    → ReadableEntries es
    → (items : List TarItem) × (create_tar_context (dir es) ≡ some items)
      × (unpack items ≡ dir (unlinked_entries es))
unfolding create_tar_context walk add_dir rel_of slashes to_slash unpack
unpack-create_tar_context es h =
    let items = items_below [] es in
    let end_of : items ++ [] ≡ items = append-nil items in
    let back : read_entries (suc (length items)) [] items ≡ (unlinked_entries es, []) =
      rw end_of at (
        read_entries-items_below (suc (length items)) [] es [] tt h tt (rw end_of (omega arith))) in
    (items, rw (walk_entries-items_below [] es tt h) refl, rw back refl)
