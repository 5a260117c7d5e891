-- ===== src/Sync/Local.antt =====
-- `check_entry` and `build_local_dir` of es3/sync.cpp: the tree of a local directory. The files on the
-- disk and Boost's functions on paths are parameters.
pub mod Spaces
pub mod Entries
pub mod Whole
pub mod Tests
use extreme_s.Prelude.{
  Bool, true, false, not, ◌&&◌, List, [], Option, none, some, Str, codes, str_eq, contains, last?,
  ◌==◌, if◌then◌else◌, Outcome, ok, fail, std_error, ◌>>=◌,
}
use extreme_s.Prelude.Dict.{insert}
use extreme_s.Sync.Tree.{
  Dir, dir, Subdirs, end, LocalFile, LocalDir, has_sub, place_sub, replace_sub,
}

-- What `status` and `symlink_status` say of an entry that is not gone into.
pub data Kind : Type 0 where
  regular symlink unknown : Kind

-- The entries of a directory with their absolute paths, in the order of the iterator. A directory that
-- is no symbolic link has its own entries, or cannot be read.
mutual
  pub data Item : Type 0 where
    folder : Str → Items → Item
    closed_folder : Str → Item
    plain : Str → Kind → Item

  pub data Items : Type 0 where
    no_item : Items
    item : Item → Items → Items

-- `bf::absolute`, `filename` and `parent_path`; the directory entry of a path, and the iterator over a
-- directory, which may throw.
pub record Folders : Type 0 where
  pub absolute_path : Str → Str
  pub filename : Str → Str
  pub parent_path : Str → Str
  pub entry_at : Str → Item
  pub entries_in : Str → Outcome Items

abbrev pub is_regular : Kind → Bool
is_regular regular = true
is_regular symlink = false
is_regular unknown = false

abbrev pub path_of : Item → Str
path_of (folder path items) = path
path_of (closed_folder path) = path
path_of (plain path kind) = path

-- `parent->files_[file->name_] = file`
pub add_file : LocalFile → LocalDir → LocalDir
add_file f (dir n p fs ds) = dir n p (insert f.name f fs) ds

-- `parent->subdirs_[target->name_] = target`
pub add_dir : Str → LocalDir → LocalDir → LocalDir
add_dir k d (dir n p fs ds) =
    dir n p fs (if has_sub k ds then replace_sub k d ds else place_sub k d ds)

module _ (disk : Folders) where
  abbrev pub file_at : Str → Kind → LocalFile
  file_at path kind = record {
    absolute_name = path;
    name = disk.filename path;
    unsyncable = not (is_regular kind);
  }

  -- `check_entry`, which gives the parent as it leaves it. The source puts a subdirectory into its parent
  -- before it fills it; the parent holds a pointer, so this comes to the same.
  mutual
    pub check_entry : LocalDir → Item → Outcome LocalDir
    check_entry parent (folder path items) =
        let filled = check_entries (dir (disk.filename path) path [] end) items in
        if contains path (codes " ")
        then ok parent
        else (filled >>= λ target. ok (add_dir (disk.filename path) target parent))
    check_entry parent (closed_folder path) =
        if contains path (codes " ") then ok parent else fail std_error
    check_entry parent (plain path kind) =
        if contains path (codes " ") then ok parent else ok (add_file (file_at path kind) parent)

    -- The loop over the iterator.
    pub check_entries : LocalDir → Items → Outcome LocalDir
    check_entries parent no_item = ok parent
    check_entries parent (item i is) = check_entry parent i >>= λ next. check_entries next is

  -- `start`
  pub start_of : Str → Str
  start_of start_path =
      let start = disk.absolute_path start_path in
      if str_eq (disk.filename start) (codes ".") then disk.parent_path start else start

  -- `*start_path.rbegin() != '/' && upload`; no argument of the program is empty.
  pub takes_itself : Str → Bool → Bool
  takes_itself start_path upload =
      elim (last? start_path) [ none ↦ true | some c ↦ not (c == b'/') ] && upload

  abbrev pub empty_at : Str → LocalDir
  empty_at path = dir (disk.filename path) path [] end

  pub build_local_dir : Str → Bool → Outcome LocalDir
  unfolding check_entry start_of takes_itself
  build_local_dir start_path upload =
      let start = start_of start_path in
      if takes_itself start_path upload
      then check_entry (empty_at (disk.parent_path start)) (disk.entry_at start)
      else (disk.entries_in start >>= λ is. check_entries (empty_at start) is)
