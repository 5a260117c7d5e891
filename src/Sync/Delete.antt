-- ===== src/Sync/Delete.antt =====
-- `synchronizer::delete_possibly_recursive` of es3/sync.cpp, and the tasks that a run schedules.
pub mod Laws
use extreme_s.Prelude.{
  Bool, true, false, not, ◌&&◌, List, [], ◌∷◌, ◌++◌, Str, if◌then◌else◌, Outcome, ok, fail,
  std_error, es3_error, err_fatal, ◌>>=◌, both,
}
use extreme_s.Prelude.Dict.{Dict}
use extreme_s.Glob
use extreme_s.Glob.{Result}
use extreme_s.S3Path.{S3Path}
use extreme_s.Sync.Tree.{Dir, dir, Subdirs, end, sub, S3File, S3Directory, no_subs}
use extreme_s.Sync.Filter.{check_included}

-- `file_uploader`, `remote_file_deleter`, `file_downloader` (with `delete_dir`) and
-- `local_file_deleter`, with the arguments that they are made from. `make_dir` and `remove_now` are
-- no tasks: they are the calls of `mkdir` and of a deleter's body while the schedule is made.
pub data Task : Type 0 where
  upload : Str → S3Path → Task
  delete_remote : S3Path → Task
  download : Str → S3Path → Bool → Task
  delete_local : Str → Task
  make_dir : Str → Task
  remove_now : Str → Task

-- An exception of the matcher is a `std::exception` to everyone else.
abbrev pub thrown {ℓ} : {A : Type ℓ} → Result A → Outcome A
thrown (Glob.ok a) = ok a
thrown (Glob.fail e) = fail std_error

-- The include and exclude rules of the run.
pub record Rules : Type 0 where
  pub included : List Str
  pub excluded : List Str

abbrev pub is_included : Rules → Str → Outcome Bool
is_included r name = thrown (check_included r.included r.excluded name)

-- The body of the loop over files.
delete_file : Rules → S3File → Outcome (List Task)
delete_file r f = is_included r (f.absolute_name.path) >>= λ take_in.
    if take_in then ok (delete_remote f.absolute_name ∷ []) else ok []

delete_files : Rules → Dict S3File → Outcome (List Task)
unfolding delete_file
delete_files r [] = ok []
delete_files r ((k, f) ∷ fs) = both (delete_file r f) (delete_files r fs)

module _ (r : Rules) where
  mutual
    -- The flag holds at the root only.
    delete_tree : S3Directory → Bool → Outcome (List Task)
    delete_tree (dir n p fs ds) non_recursive =
        let deletes = both (delete_files r fs) (delete_subdirs ds) in
        if non_recursive && not (no_subs ds) then fail (es3_error err_fatal) else deletes

    delete_subdirs : Subdirs S3Path S3File → Outcome (List Task)
    delete_subdirs end = ok []
    delete_subdirs (sub k d ds) = both (delete_tree d false) (delete_subdirs ds)

  pub delete_possibly_recursive : S3Directory → Bool → Outcome (List Task)
  unfolding delete_tree delete_files
  delete_possibly_recursive d non_recursive = delete_tree d non_recursive
