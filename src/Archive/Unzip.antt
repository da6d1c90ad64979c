-- ===== src/Archive/Unzip.antt =====
-- extractSubmissionZip and unzipTo of backend/services/tar_helper.go: which files and directories
-- they make. The archive's entries are a parameter, with which of the calls for an entry fail; a
-- call that fails makes nothing.
use mathlib.Core.List.{append_assoc}
use distributed_benchmark_pl.Base.{
  All-append, subst, Bool, true, false, ◌&&◌, not, ◌||◌, Option, none, some, List, [], ◌∷◌, ◌++◌,
  map, reverse, if◌then◌else◌, ◌≡◌, inl, inr, ap, ◌∙◌, All, Bool-cases, Option-cases,
}
use distributed_benchmark_pl.Base.Text.{Text, codes, text_eq, to_lower}
use distributed_benchmark_pl.Archive.{after_prefix, trim_prefix, zip_common_prefix}
use distributed_benchmark_pl.Archive.Cleaning.{
  clean, clean_parts, join_path, has_prefix, Proper, Shaped, Shaped-clean_parts, Shaped-after,
}
use distributed_benchmark_pl.Archive.Slashes.{
  slashed, clean-slashed, slashed-prefix, clean_parts-NoSlash,
}

pub record ZipEntry : Type 0 where
  pub name : Text
  pub is_dir : Bool
  pub mkdir_fails : Bool
  -- Create or Open
  pub create_fails : Bool
  pub open_fails : Bool
  pub copy_fails : Bool

abbrev entry_name : ZipEntry → Text
entry_name e = e.name

-- A directory made with MkdirAll, or a file made with Create in a directory made with MkdirAll.
pub data Made : Type 0 where
  dir_at : Text → Made
  file_at : Text → Made

-- The part of the loop that makes an entry's target, and whether the loop goes on.
unfoldable pub make_target : ZipEntry → Text → List Made × Bool
make_target e target =
    if e.is_dir
    then ((if e.mkdir_fails then [] else dir_at target ∷ []), true)
    else if e.mkdir_fails
    then ([], false)
    else if e.create_fails
    then ([], false)
    else (file_at target ∷ [], not (e.open_fails || e.copy_fails))

unfoldable pub unzip_entry : Text → Text → ZipEntry → List Made × Bool
unzip_entry prefix dest e =
    let name = if text_eq prefix [] then e.name else trim_prefix e.name prefix in
    let target = join_path dest name in
    if text_eq name []
    then ([], true)
    else if has_prefix (clean target ++ b'/' ∷ []) (clean dest ++ b'/' ∷ [])
    then make_target e target
    else ([], true)

-- The loop: what is made, and whether it returns nil.
unfoldable pub unzip_loop : Text → Text → List ZipEntry → List Made × Bool
unzip_loop prefix dest [] = ([], true)
unzip_loop prefix dest (e ∷ es) =
    let here = unzip_entry prefix dest e in
    let rest = unzip_loop prefix dest es in if here.1 then (here.0 ++ rest.0, rest.1) else here

-- `none` is an archive that OpenReader refuses.
unfoldable pub unzip_to : Option (List ZipEntry) → Text → List Made × Bool
unzip_to none dest = ([], false)
unzip_to (some entries) dest = unzip_loop (zip_common_prefix (map entry_name entries)) dest entries

-- What a directory lists, and what an archive in it holds.
pub record DirEntry : Type 0 where
  pub name : Text
  pub is_dir : Bool
  pub archive : Option (List ZipEntry)

-- strings.HasSuffix
unfoldable pub has_suffix : Text → Text → Bool
has_suffix s suffix = has_prefix (reverse s) (reverse suffix)

unfoldable pub extract_first : List DirEntry → Text → List Made × Bool
extract_first [] dir = ([], true)
extract_first (e ∷ es) dir =
    let rest = extract_first es dir in
    if not e.is_dir && has_suffix (to_lower e.name) (codes ".zip")
    then unzip_to e.archive dir
    else rest

-- `none` is a directory that ReadDir cannot read.
unfoldable pub extract_submission_zip : Option (List DirEntry) → Text → List Made × Bool
extract_submission_zip none dir = ([], false)
extract_submission_zip (some entries) dir = extract_first entries dir

abbrev pub made_at : Made → Text
made_at (dir_at t) = t
made_at (file_at t) = t

-- Below the directory, by parts that do not lead out of it.
abbrev pub Inside : Text → Made → Type 0
Inside dest made =
    (more : List Text) × (clean_parts (made_at made) ≡ clean_parts dest ++ more) × All Proper more

-- A directory that has a name: the path is not the root, and not . or ...
abbrev pub HasName : Text → Type 0
HasName dest =
    (front : List Text) × (last : Text) × (clean_parts dest ≡ front ++ last ∷ []) × Proper last

guard-Inside :
    (dest target : Text)
    → HasName dest
    → has_prefix (clean target ++ b'/' ∷ []) (clean dest ++ b'/' ∷ []) ≡ true
    → (more : List Text) × (clean_parts target ≡ clean_parts dest ++ more) × All Proper more
unfolding has_prefix
guard-Inside dest target (front, last, ends, proper) h =
    elim (Option-cases (after_prefix (clean dest ++ b'/' ∷ []) (clean target ++ b'/' ∷ []))) [
      | inl missing ↦ let wrong : false ≡ true = rw (has_prefix, missing) at h in cc
      | inr (w, found) ↦
          let parts : after_prefix (slashed (clean_parts dest)) (slashed (clean_parts target))
              ≡ some w =
            rw (clean-slashed dest, clean-slashed target) at found in
          let below =
            slashed-prefix (clean_parts dest) (clean_parts target) w (clean_parts-NoSlash dest)
              (clean_parts-NoSlash target) parts in
          let shape : clean_parts target ≡ front ++ last ∷ below.0 =
            below.1 ∙ ap (λ l. l ++ below.0) ends ∙ append_assoc front (last ∷ []) below.0 in
          (
            below.0,
            below.1,
            Shaped-after front last below.0 (subst Shaped shape (Shaped-clean_parts target)) proper,
          )
    ]

make_target-Inside :
    (dest : Text) (e : ZipEntry) (target : Text)
    → Inside dest (file_at target)
    → All (Inside dest) (make_target e target).0
unfolding make_target
make_target-Inside dest e target inside = elim (Bool-cases e.is_dir) [
  | inl dir ↦ elim (Bool-cases e.mkdir_fails) [
    | inl fails ↦ simp (dir, fails) tt
    | inr works ↦ simp (dir, works) (inside, tt)
  ]
  | inr file ↦ elim (Bool-cases e.mkdir_fails) [
    | inl fails ↦ simp (file, fails) tt
    | inr works ↦ elim (Bool-cases e.create_fails) [
      | inl fails ↦ simp (file, works, fails) tt
      | inr opened ↦ simp (file, works, opened) (inside, tt)
    ]
  ]
]

module _ (dest : Text) (named : HasName dest) where
  unzip_entry-Inside :
      (prefix : Text) (e : ZipEntry) → All (Inside dest) (unzip_entry prefix dest e).0
  unfolding unzip_entry
  unzip_entry-Inside prefix e =
      let name = if text_eq prefix [] then e.name else trim_prefix e.name prefix in
      let target = join_path dest name in
      elim (Bool-cases (text_eq name [])) [
        | inl empty ↦ rw empty tt
        | inr filled ↦
            elim (Bool-cases (has_prefix (clean target ++ b'/' ∷ []) (clean dest ++ b'/' ∷ []))) [
              | inr outside ↦ rw (filled, outside) tt
              | inl inside ↦
                  rw (filled, inside)
                    (make_target-Inside dest e target (guard-Inside dest target named inside))
            ]
      ]

  unzip_loop-Inside :
      (prefix : Text) (es : List ZipEntry) → All (Inside dest) (unzip_loop prefix dest es).0
  unfolding unzip_loop
  unzip_loop-Inside prefix [] = tt
  unzip_loop-Inside prefix (e ∷ es) = elim (Bool-cases (unzip_entry prefix dest e).1) [
    | inl goes_on ↦ rw goes_on (
        All-append (Inside dest) (unzip_entry prefix dest e).0 (unzip_loop prefix dest es).0
          (unzip_entry-Inside prefix e) (unzip_loop-Inside prefix es))
    | inr stops ↦ rw stops (unzip_entry-Inside prefix e)
  ]

  unzip_to-Inside : (archive : Option (List ZipEntry)) → All (Inside dest) (unzip_to archive dest).0
  unfolding unzip_to
  unzip_to-Inside none = tt
  unzip_to-Inside (some es) = unzip_loop-Inside _ es

  extract_first-Inside :
      (entries : List DirEntry) → All (Inside dest) (extract_first entries dest).0
  unfolding extract_first
  extract_first-Inside [] = tt
  extract_first-Inside (e ∷ es) =
      elim (Bool-cases (not e.is_dir && has_suffix (to_lower e.name) (codes ".zip"))) [
        | inl zip ↦ rw zip (unzip_to-Inside e.archive)
        | inr other ↦ rw other (extract_first-Inside es)
      ]

  -- If the path of the submission's directory, cleaned, ends in a part that is not empty, . or ..,
  -- then each file and directory that extractSubmissionZip makes has a cleaned path that continues
  -- the directory's by such parts only, whatever the names in the archive are.
  pub extract_submission_zip-Inside :
      (entries : Option (List DirEntry)) → All (Inside dest) (extract_submission_zip entries dest).0
  unfolding extract_submission_zip
  extract_submission_zip-Inside none = tt
  extract_submission_zip-Inside (some entries) = extract_first-Inside entries
