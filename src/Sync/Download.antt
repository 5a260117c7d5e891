-- ===== src/Sync/Download.antt =====
-- `synchronizer::process_downloads` of es3/sync.cpp.
-- What a round erases from `unseen` and what it schedules are again two functions.
pub mod Safety
pub mod Entries
pub mod Empty
use extreme_s.Prelude.{
  Bool, true, false, not, ◌||◌, ◌&&◌, List, [], ◌∷◌, ◌++◌, Option, none, some, Str, if◌then◌else◌,
  map, Outcome, ok, fail, null_pointer, es3_error, err_fatal, ◌>>=◌, both,
}
use extreme_s.Prelude.Dict.{Dict, lookup, has, insert, erase}
use extreme_s.S3Path.{S3Path}
use extreme_s.Sync.Tree.{
  Dir, dir, Subdirs, end, sub, LocalFile, LocalDir, S3File, S3Directory, dir_name, absolute, files,
  subdirs, lookup_sub, has_sub, values,
}
use extreme_s.Sync.Delete.{Task, download, delete_local, make_dir, remove_now, Rules, is_included}
use extreme_s.Sync.Upload.{Mode}

-- The file system's part: `operator /` of `bf::path`, and whether `mkdir` succeeds or finds the
-- directory there (`EEXIST`).
pub record Disk : Type 0 where
  pub join : Str → Str → Str
  pub can_make : Str → Bool

-- `unseen`: the absolute names of the local files and directories by their names.
unseen_files : Dict LocalFile → Dict Str → Dict Str
unseen_files [] u = u
unseen_files ((k, f) ∷ fs) u = unseen_files fs (insert k f.absolute_name u)

unseen_subs : Subdirs Str LocalFile → Dict Str → Dict Str
unseen_subs end u = u
unseen_subs (sub k d ds) u = unseen_subs ds (insert k (absolute d) u)

pub unseen : Option LocalDir → Dict Str
unfolding unseen_files unseen_subs
unseen none = []
unseen (some d) = unseen_subs (subdirs d) (unseen_files (files d) [])

seen_files : Dict S3File → Dict Str → Dict Str
seen_files [] u = u
seen_files ((k, f) ∷ fs) u = seen_files fs (erase f.name u)

seen_subs : Subdirs S3Path S3File → Dict Str → Dict Str
seen_subs end u = u
seen_subs (sub k d ds) u = seen_subs ds (erase (dir_name d) u)

-- `locals && locals->subdirs_.count(name)` and its like for files.
dir_there : Option LocalDir → Str → Bool
dir_there none name = false
dir_there (some d) name = has_sub name (subdirs d)

file_there : Option LocalDir → Str → Bool
file_there none name = false
file_there (some d) name = has name (files d)

sub_there : Option LocalDir → Str → Option LocalDir
sub_there none name = none
sub_there (some d) name = lookup_sub name (subdirs d)

module _ (m : Mode) (disk : Disk) where
  -- `if (!check_mode || !locals->files_.count(name))`
  unless_there : Option LocalDir → Str → List Task → Outcome (List Task)
  unless_there none name fetch = if m.check_mode then fail null_pointer else ok fetch
  unless_there (some d) name fetch =
      if not m.check_mode || not (has name (files d)) then ok fetch else ok []

  download_file : Option LocalDir → Str → S3File → Outcome (List Task)
  unfolding dir_there unless_there
  download_file locals local_path f =
      let shadowed = dir_there locals f.name in
      let fetch = download (disk.join local_path f.name) f.absolute_name shadowed ∷ [] in
      is_included m.rules f.absolute_name.path >>= λ take_in.
      if not take_in
      then ok []
      else if shadowed && not m.delete_missing
      then ok []
      else unless_there locals f.name fetch

  download_files : Option LocalDir → Str → Dict S3File → Outcome (List Task)
  unfolding download_file
  download_files locals local_path [] = ok []
  download_files locals local_path ((k, f) ∷ fs) =
      both (download_file locals local_path f) (download_files locals local_path fs)

  -- The local directory of that name, made if it is not there.
  local_dir_for : Option LocalDir → Str → Outcome (List Task)
  local_dir_for (some d) path = ok []
  local_dir_for none path =
      if disk.can_make path then ok (make_dir path ∷ []) else fail (es3_error err_fatal)

  -- One remote directory, with what is made of it for a given local directory.
  download_sub :
      Option LocalDir → Str → Str → (Option LocalDir → Outcome (List Task)) → Outcome (List Task)
  unfolding local_dir_for file_there sub_there
  download_sub locals path name down =
      let shadowed = file_there locals name in
      let new_dir = sub_there locals name in
      if shadowed && not m.delete_missing
      then ok []
      else both (ok (if shadowed then remove_now path ∷ [] else []))
          (both (local_dir_for new_dir path) (down new_dir))

  pub delete_unseen : Dict Str → Outcome (List Task)
  delete_unseen u = if m.delete_missing then ok (map delete_local (values u)) else ok []

  mutual
    process : S3Directory → Option LocalDir → Str → Outcome (List Task)
    process (dir n p fs ds) locals local_path = both (download_files locals local_path fs) (
        both (download_subs ds locals local_path)
          (delete_unseen (seen_subs ds (seen_files fs (unseen locals)))))

    download_subs : Subdirs S3Path S3File → Option LocalDir → Str → Outcome (List Task)
    download_subs end locals local_path = ok []
    download_subs (sub k d ds) locals local_path =
        let path = disk.join local_path (dir_name d) in
        both (download_sub locals path (dir_name d) (λ new_dir. process d new_dir path))
          (download_subs ds locals local_path)

  pub process_downloads : S3Directory → Option LocalDir → Str → Outcome (List Task)
  unfolding process
  process_downloads remotes locals local_path = process remotes locals local_path
