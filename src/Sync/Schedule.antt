-- ===== src/Sync/Schedule.antt =====
-- `synchronizer::create_schedule` and `list_subdir_task` of es3/sync.cpp. The listing of one remote
-- directory and the local files are parameters.
-- The tasks that read directories touch one directory each, so the order in which the agenda runs
-- them does not matter; they are run here along the tree, to a depth that is given as fuel.
pub mod Safety
pub mod Hazards
mod Tests
use extreme_s.Prelude.{
  ℕ, zero, suc, ◌+◌, Bool, true, false, not, ◌||◌, List, [], ◌∷◌, Option, none, some, Str, is_empty,
  if◌then◌else◌, Outcome, ok, fail, null_pointer, ◌>>=◌, both,
}
use extreme_s.S3Path.{S3Path}
use extreme_s.Sync.Tree.{
  dir, Subdirs, end, sub, LocalFile, LocalDir, S3File, S3Directory, absolute, files, subdirs,
  no_subs,
}
use extreme_s.Sync.Merge.{merge_to_left}
use extreme_s.Sync.Delete.{Task, Rules, delete_possibly_recursive}
use extreme_s.Sync.Upload.{Mode, process_upload}
use extreme_s.Sync.Download.{Disk, process_downloads}
use extreme_s.Sync.Local.{Folders, build_local_dir}

-- The members of `synchronizer`.
pub record Synchronizer : Type 0 where
  pub remote : List S3Path
  pub local : List Str
  pub do_upload : Bool
  pub delete_missing : Bool
  pub rules : Rules

-- `list_files_shallow`, as it ends after all attempts, and what a failed one leaves of its target.
pub record Remote : Type 0 where
  pub list_files_shallow : S3Path → Option S3Directory → Bool → Outcome S3Directory
  pub left_over : S3Directory → S3Directory

-- What `create_schedule` returns and has scheduled, with the failures of its own run of the agenda.
pub record Scheduled : Type 0 where
  pub found : Bool
  pub tasks : List Task
  pub failed : ℕ

abbrev pub Walked : Type 0
Walked = Option (S3Directory × ℕ)

module _ (remote_side : Remote) where
  join_sub : Str → Walked → Option (Subdirs S3Path S3File × ℕ) → Option (Subdirs S3Path S3File × ℕ)
  join_sub k none rest = none
  join_sub k (some w) none = none
  join_sub k (some (d', failed)) (some (ds', others)) = some (sub k d' ds', failed + others)

  -- The tasks for the subdirectories, with the failures.
  pub walk_subs :
      (S3Directory → Walked) → Subdirs S3Path S3File → Option (Subdirs S3Path S3File × ℕ)
  unfolding join_sub
  walk_subs walk end = some (end, 0)
  walk_subs walk (sub k d ds) = join_sub k (walk d) (walk_subs walk ds)

  with_subs : S3Directory → Option (Subdirs S3Path S3File × ℕ) → Walked
  with_subs d none = none
  with_subs (dir n p fs ds) (some (ds', failed)) = some (dir n p fs ds', failed)

  -- `list_subdir_task`, and the tasks that it schedules.
  list_subdir : (S3Directory → Walked) → S3Directory → Outcome S3Directory → Walked
  unfolding walk_subs with_subs
  list_subdir walk d (ok d') = with_subs d' (walk_subs walk (subdirs d'))
  list_subdir walk d (fail e) = some (remote_side.left_over d, 1)

  pub walk_dir : ℕ → S3Directory → Walked
  unfolding list_subdir
  walk_dir zero d = none
  walk_dir (suc depth) d =
      list_subdir (walk_dir depth) d (remote_side.list_files_shallow (absolute d) (some d) false)

  -- The tasks for the subdirectories of a root.
  pub walk_root : ℕ → S3Directory → Walked
  unfolding walk_dir
  walk_root depth d = with_subs d (walk_subs (walk_dir depth) (subdirs d))

  -- The listing of a root, and the tree that it becomes once its tasks have run.
  pub schedule_recursive_walk : ℕ → S3Path → Outcome Walked
  schedule_recursive_walk depth remote_path =
      remote_side.list_files_shallow remote_path none true >>= λ cur_root.
      ok (walk_root depth cur_root)

  join_root : Walked → Option (List S3Directory × ℕ) → Option (List S3Directory × ℕ)
  join_root none rest = none
  join_root (some w) none = none
  join_root (some (d', failed)) (some (ds', others)) = some (d' ∷ ds', failed + others)

  -- `agenda_->run()` on the tasks of all roots.
  walk_roots : ℕ → List S3Directory → Option (List S3Directory × ℕ)
  unfolding walk_root join_root
  walk_roots depth [] = some ([], 0)
  walk_roots depth (d ∷ ds) = join_root (walk_root depth d) (walk_roots depth ds)

  list_roots : Bool → List S3Path → Outcome (List S3Directory)
  list_roots try_to_root [] = ok []
  list_roots try_to_root (path ∷ paths) =
      remote_side.list_files_shallow path none try_to_root >>= λ cur_root.
      list_roots try_to_root paths >>= λ others. ok (cur_root ∷ others)

-- The loop over the local paths, with the tree so far.
build_locals : Folders → Bool → Option LocalDir → List Str → Outcome (Option LocalDir)
build_locals folders upload locals [] = ok locals
build_locals folders upload none (path ∷ paths) =
    build_local_dir folders path upload >>= λ cur. build_locals folders upload (some cur) paths
build_locals folders upload (some locals) (path ∷ paths) =
    build_local_dir folders path upload >>= λ cur.
    merge_to_left (λ (f : LocalFile). f.name) locals cur >>= λ merged.
    build_locals folders upload (some merged) paths

merge_remotes : Option S3Directory → List S3Directory → Outcome (Option S3Directory)
merge_remotes remotes [] = ok remotes
merge_remotes none (d ∷ ds) = merge_remotes (some d) ds
merge_remotes (some remotes) (d ∷ ds) =
    merge_to_left (λ (f : S3File). f.name) remotes d >>= λ merged. merge_remotes (some merged) ds

delete_all : Rules → Bool → List S3Directory → Outcome (List Task)
delete_all rules non_recursive [] = ok []
delete_all rules non_recursive (d ∷ ds) =
    both (delete_possibly_recursive rules d non_recursive) (delete_all rules non_recursive ds)

module _ (disk : Disk) (folders : Folders) (remote_side : Remote) (s : Synchronizer) where
  abbrev pub mode_of : Bool → Mode
  mode_of check_mode = record {
    rules = s.rules;
    delete_missing = s.delete_missing;
    check_mode = check_mode;
  }

  -- Both sides are pointers, which are null when there was no path.
  upload_all : Bool → Option LocalDir → Option S3Directory → Outcome (List Task)
  upload_all check_mode locals none = fail null_pointer
  upload_all check_mode none (some remotes) = fail null_pointer
  upload_all check_mode (some locals) (some remotes) =
      process_upload (mode_of check_mode) locals (some remotes) (absolute remotes)

  download_all : Bool → Option LocalDir → Option S3Directory → Outcome (List Task)
  download_all check_mode none remotes = fail null_pointer
  download_all check_mode (some locals) none = fail null_pointer
  download_all check_mode (some locals) (some remotes) =
      process_downloads (mode_of check_mode) disk remotes (some locals) (absolute locals)

  any_found : Option S3Directory → Bool
  any_found none = false
  any_found (some remotes) = not (is_empty (files remotes)) || not (no_subs (subdirs remotes))

  -- What follows the run of the agenda.
  pub finish : Bool → Bool → Bool → Option LocalDir → List S3Directory → ℕ → Outcome Scheduled
  unfolding delete_all merge_remotes upload_all download_all any_found
  finish check_mode delete_mode non_recursive_delete locals remote_lists failed =
      if delete_mode
      then (delete_all s.rules non_recursive_delete remote_lists >>= λ ts.
          ok (record { found = true; tasks = ts; failed = failed }))
      else (merge_remotes none remote_lists >>= λ remotes.
          if s.do_upload
          then (upload_all check_mode locals remotes >>= λ ts.
              ok (record { found = true; tasks = ts; failed = failed }))
          else (download_all check_mode locals remotes >>= λ ts.
              ok (record { found = any_found remotes; tasks = ts; failed = failed })))

  after_walk :
      (List S3Directory → ℕ → Outcome Scheduled)
      → Option (List S3Directory × ℕ)
      → Option (Outcome Scheduled)
  after_walk rest none = none
  after_walk rest (some (remote_lists, failed)) = some (rest remote_lists failed)

  after_lists :
      ℕ
      → (List S3Directory → ℕ → Outcome Scheduled)
      → Outcome (List S3Directory)
      → Option (Outcome Scheduled)
  unfolding walk_roots after_walk
  after_lists depth rest (fail e) = some (fail e)
  after_lists depth rest (ok roots) = after_walk rest (walk_roots remote_side depth roots)

  after_locals : ℕ → Bool → Bool → Bool → Outcome (Option LocalDir) → Option (Outcome Scheduled)
  unfolding after_lists finish list_roots
  after_locals depth check_mode delete_mode non_recursive_delete (fail e) = some (fail e)
  after_locals depth check_mode delete_mode non_recursive_delete (ok locals) =
      after_lists depth (finish check_mode delete_mode non_recursive_delete locals)
        (list_roots remote_side (not s.do_upload || delete_mode) s.remote)

  pub create_schedule : ℕ → Bool → Bool → Bool → Option (Outcome Scheduled)
  unfolding after_locals build_locals
  create_schedule depth check_mode delete_mode non_recursive_delete =
      after_locals depth check_mode delete_mode non_recursive_delete
        (build_locals folders s.do_upload none s.local)
