-- ===== src/Archive/Context.antt =====
-- createTarContext of backend/services/tar_helper.go: the archive of a directory that Docker builds
-- from. The directory is a tree, whose entries are in the lexical order in which filepath.Walk
-- visits them.
pub mod Written
pub mod Unpacking
use distributed_benchmark_pl.Base.{
  ℕ, zero, suc, ◌+◌, ◌<◌, ◌≤◌, Option, none, some, List, [], ◌∷◌, ◌++◌, map, length, ◌==◌,
  if◌then◌else◌, ◌≡◌, refl, arith, Bool, true, false, Bool-cases, length-append,
}
use distributed_benchmark_pl.Base.Text.{Text, codes, text_eq, text_eq_refl, NoSlash}
use distributed_benchmark_pl.Archive.Cleaning.{cons_part, split_slash, join_slash}

-- A file has the size that Lstat says and what opening and reading it gives, `none` for an error.
-- A link has its target, and opening it opens what it leads to. Lstat of `unstated` fails, and so does the listing of
-- `unlisted`.
mutual
  pub data Tree : Type 0 where
    file : ℕ → Option Text → Tree
    link : Text → Option Text → Tree
    dir : Entries → Tree
    unlisted : Tree
    unstated : Tree

  pub data Entries : Type 0 where
    end : Entries
    entry : Text → Tree → Entries → Entries

pub data ItemKind : Type 0 where
  file_item link_item dir_item : ItemKind

-- A header of the archive and the bytes after it.
pub record TarItem : Type 0 where
  pub name : Text
  pub kind : ItemKind
  pub linkname : Text
  pub content : Text

-- filepath.Rel of a visited path, by its parts below the directory.
unfoldable pub rel_of : List Text → Text
rel_of [] = codes "."
rel_of (p ∷ ps) = join_slash (p ∷ ps)

-- strings.ReplaceAll(rel, "\\", "/")
unfoldable pub to_slash : ℕ → ℕ
to_slash c = if c == 0x5C then b'/' else c

unfoldable pub slashes : Text → Text
unfolding to_slash
slashes = map to_slash

-- The callback at a file or link. tar.FileInfoHeader(info, "") leaves the header's Linkname empty, also
-- for a link. The writer refuses more bytes than the header's size with an
-- error of the write, and fewer with an error of the next header or of Close.
unfoldable pub add_file : Text → ItemKind → ℕ → Option Text → Option (List TarItem)
add_file rel kind size none = if text_eq rel (codes ".") then some [] else none
add_file rel kind size (some c) =
    if text_eq rel (codes ".")
    then some []
    else if length c == size
    then some (record { name = rel; kind = kind; linkname = []; content = c } ∷ [])
    else none

unfoldable pub add_dir : Text → List TarItem
add_dir rel =
    if text_eq rel (codes ".")
    then []
    else record { name = rel; kind = dir_item; linkname = []; content = [] } ∷ []

-- What comes after it, if both succeed.
abbrev pub followed_by : Option (List TarItem) → Option (List TarItem) → Option (List TarItem)
followed_by none rest = none
followed_by (some here) none = none
followed_by (some here) (some rest) = some (here ++ rest)

-- filepath.Walk with the callback: `none` is an error, the callback's own or one that it is given.
unfoldable mutual
  pub walk : List Text → Tree → Option (List TarItem)
  walk path (file size read) = add_file (slashes (rel_of path)) file_item size read
  walk path (link target read) = add_file (slashes (rel_of path)) link_item 0 read
  walk path (dir es) = followed_by (some (add_dir (slashes (rel_of path)))) (walk_entries path es)
  walk path unlisted = none
  walk path unstated = none

  pub walk_entries : List Text → Entries → Option (List TarItem)
  walk_entries path end = some []
  walk_entries path (entry name t es) =
      followed_by (walk (path ++ name ∷ []) t) (walk_entries path es)

unfoldable pub create_tar_context : Tree → Option (List TarItem)
create_tar_context t = walk [] t

-- The last part of a name that continues the path by one part.
unfoldable pub child_of : List Text → List Text → Option Text
child_of [] [] = none
child_of [] (n ∷ []) = some n
child_of [] (n ∷ m ∷ ns) = none
child_of (p ∷ ps) [] = none
child_of (p ∷ ps) (n ∷ ns) = let rest = child_of ps ns in if text_eq p n then rest else none

-- Reads the entries of a directory off an archive, in the order in which they are written, and what
-- comes after them. The first argument is fuel.
unfoldable pub read_entries : ℕ → List Text → List TarItem → Entries × List TarItem
read_entries zero path items = (end, items)
read_entries (suc n) path [] = (end, [])
read_entries (suc n) path (i ∷ items) = elim (child_of path (split_slash i.name)) [
  | none ↦ (end, i ∷ items)
  | some name ↦ elim i.kind [
    | file_item ↦
        let more = read_entries n path items in
        (entry name (file (length i.content) (some i.content)) more.0, more.1)
    | link_item ↦
        let more = read_entries n path items in
        (entry name (link i.linkname (some i.content)) more.0, more.1)
    | dir_item ↦
        let inner = read_entries n (path ++ name ∷ []) items in
        let more = read_entries n path inner.1 in (entry name (dir inner.0) more.0, more.1)
  ]
]

-- The directory that an archive unpacks to.
unfoldable pub unpack : List TarItem → Tree
unpack items = dir (read_entries (suc (length items)) [] items).0
