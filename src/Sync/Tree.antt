-- ===== src/Sync/Tree.antt =====
-- The trees that are compared: `local_file` and `local_dir` of es3/sync.cpp, `s3_file` and
-- `s3_directory` of es3/connection.h. One type serves for both sides; the maps of subdirectories
-- are the entries of a second type. Locks and parent pointers are left out.
pub mod Laws
use extreme_s.Prelude.{
  ℕ, Bool, true, false, List, [], ◌∷◌, ◌++◌, Option, none, some, Str, str_eq, str_lt, if◌then◌else◌,
}
use extreme_s.Prelude.Dict.{Dict}
use extreme_s.S3Path.{S3Path}

-- A directory has its name, its absolute name, its files and its subdirectories by name.
mutual
  pub data Dir (P F : Type 0) : Type 0 where
    dir : Str → P → Dict F → Subdirs P F → Dir P F

  pub data Subdirs (P F : Type 0) : Type 0 where
    end : Subdirs P F
    sub : Str → Dir P F → Subdirs P F → Subdirs P F

pub record LocalFile : Type 0 where
  pub absolute_name : Str
  pub name : Str
  pub unsyncable : Bool

pub record S3File : Type 0 where
  pub name : Str
  pub absolute_name : S3Path
  pub mtime_str : Str
  pub size : ℕ

abbrev pub LocalDir : Type 0
LocalDir = Dir Str LocalFile

abbrev pub S3Directory : Type 0
S3Directory = Dir S3Path S3File

abbrev pub values {ℓ} : {F : Type ℓ} → Dict F → List F
values [] = []
values ((k, f) ∷ m) = f ∷ values m

module _ {P F : Type 0} where
  abbrev pub dir_name : Dir P F → Str
  dir_name (dir n p fs ds) = n

  abbrev pub absolute : Dir P F → P
  absolute (dir n p fs ds) = p

  abbrev pub files : Dir P F → Dict F
  files (dir n p fs ds) = fs

  abbrev pub subdirs : Dir P F → Subdirs P F
  subdirs (dir n p fs ds) = ds

  -- The `std::map` operations on subdirectories.
  unfoldable pub lookup_sub : Str → Subdirs P F → Option (Dir P F)
  lookup_sub k end = none
  lookup_sub k (sub j d ds) = if str_eq j k then some d else lookup_sub k ds

  unfoldable pub has_sub : Str → Subdirs P F → Bool
  has_sub k end = false
  has_sub k (sub j d ds) = if str_eq j k then true else has_sub k ds

  unfoldable pub place_sub : Str → Dir P F → Subdirs P F → Subdirs P F
  place_sub k d end = sub k d end
  place_sub k d (sub j e ds) =
      if str_lt k j then sub k d (sub j e ds) else sub j e (place_sub k d ds)

  unfoldable pub replace_sub : Str → Dir P F → Subdirs P F → Subdirs P F
  replace_sub k d end = end
  replace_sub k d (sub j e ds) = if str_eq j k then sub j d ds else sub j e (replace_sub k d ds)

  pub erase_sub : Str → Subdirs P F → Subdirs P F
  erase_sub k end = end
  erase_sub k (sub j e ds) = let rest = erase_sub k ds in if str_eq j k then rest else sub j e rest

  abbrev pub no_subs : Subdirs P F → Bool
  no_subs end = true
  no_subs (sub j e ds) = false

  -- All files of a tree, a directory's own files first, then those of its subdirectories in order.
  unfoldable mutual
    pub all_files : Dir P F → List F
    all_files (dir n p fs ds) = values fs ++ all_files_below ds

    pub all_files_below : Subdirs P F → List F
    all_files_below end = []
    all_files_below (sub k d ds) = all_files d ++ all_files_below ds
