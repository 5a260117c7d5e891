-- ===== src/Sync/Upload.antt =====
-- `synchronizer::process_upload` of es3/sync.cpp.
-- A round of a loop does two things, it erases a name from the maps of what was not seen and it
-- schedules tasks; `seen_files`, `seen_subs` do the first, `upload_files`, `upload_subs` the second.
pub mod Safety
pub mod Unseen
mod Tests
use extreme_s.Prelude.{
  Bool, true, false, not, ◌||◌, List, [], ◌∷◌, Option, none, some, Str, if◌then◌else◌, map, Outcome,
  ok, fail, null_pointer, ◌>>=◌, both,
}
use extreme_s.Prelude.Dict.{Dict, lookup, has, erase}
use extreme_s.S3Path.{S3Path, derive}
use extreme_s.Sync.Tree.{
  Dir, dir, Subdirs, end, sub, LocalFile, LocalDir, S3File, S3Directory, dir_name, files, subdirs,
  lookup_sub, erase_sub, values,
}
use extreme_s.Sync.Delete.{
  Task, upload, delete_remote, Rules, is_included, delete_possibly_recursive,
}

-- `included_`, `excluded_`, `delete_missing_` and the argument `check_mode`.
pub record Mode : Type 0 where
  pub rules : Rules
  pub open rules use *
  pub delete_missing : Bool
  pub check_mode : Bool

-- `unseen` and `unseen_dirs`
pub record NotSeen : Type 0 where
  pub files_left : Dict S3File
  pub dirs_left : Subdirs S3Path S3File

not_seen : Option S3Directory → NotSeen
not_seen none = record { files_left = []; dirs_left = end }
not_seen (some r) = record { files_left = files r; dirs_left = subdirs r }

erase_name : Str → NotSeen → NotSeen
erase_name k u = record { files_left = erase k u.files_left; dirs_left = erase_sub k u.dirs_left }

seen_files : Dict LocalFile → NotSeen → NotSeen
unfolding erase_name
seen_files [] u = u
seen_files ((k, f) ∷ fs) u = seen_files fs (erase_name f.name u)

seen_subs : Subdirs Str LocalFile → NotSeen → NotSeen
unfolding erase_name
seen_subs end u = u
seen_subs (sub k d ds) u = seen_subs ds (erase_name (dir_name d) u)

module _ (m : Mode) where
  -- The remote side has a directory of that name.
  over_directory : S3Directory → List Task → Outcome (List Task)
  over_directory d sent =
      if m.delete_missing then both (delete_possibly_recursive m.rules d false) (ok sent) else ok []

  -- It has none.
  over_file : Bool → List Task → Outcome (List Task)
  over_file present sent = if not m.check_mode || not present then ok sent else ok []

  -- The `if` on the remote side, for a file that is taken in.
  upload_over : Option S3Directory → Str → List Task → Outcome (List Task)
  unfolding over_directory over_file
  upload_over none name sent = if m.check_mode then fail null_pointer else ok sent
  upload_over (some r) name sent = elim (lookup_sub name (subdirs r)) [
    | some d ↦ over_directory d sent
    | none ↦ over_file (has name (files r)) sent
  ]

  upload_file : Option S3Directory → S3Path → LocalFile → Outcome (List Task)
  unfolding upload_over
  upload_file remotes remote_path f =
      let sent = upload f.absolute_name (derive remote_path f.name) ∷ [] in
      if f.unsyncable
      then ok []
      else (is_included m.rules f.absolute_name >>= λ take_in.
          if take_in then upload_over remotes f.name sent else ok [])

  upload_files : Option S3Directory → S3Path → Dict LocalFile → Outcome (List Task)
  unfolding upload_file
  upload_files remotes remote_path [] = ok []
  upload_files remotes remote_path ((k, f) ∷ fs) =
      both (upload_file remotes remote_path f) (upload_files remotes remote_path fs)

  -- One local directory, with what is made of it for given remotes.
  upload_sub :
      Option S3Directory → Str → (Option S3Directory → Outcome (List Task)) → Outcome (List Task)
  upload_sub none name down = down none
  upload_sub (some r) name down = elim (lookup name (files r)) [
    | some f ↦
        if m.delete_missing
        then both (ok (delete_remote f.absolute_name ∷ [])) (down none)
        else ok []
    | none ↦ down (lookup_sub name (subdirs r))
  ]

  delete_dirs : Subdirs S3Path S3File → Outcome (List Task)
  delete_dirs end = ok []
  delete_dirs (sub k d ds) = both (delete_possibly_recursive m.rules d false) (delete_dirs ds)

  -- The last part: what the local side does not have.
  delete_unseen : NotSeen → Outcome (List Task)
  unfolding delete_dirs
  delete_unseen u =
      if m.delete_missing
      then both (ok (map (λ f. delete_remote f.absolute_name) (values u.files_left)))
          (delete_dirs u.dirs_left)
      else ok []

  mutual
    process : LocalDir → Option S3Directory → S3Path → Outcome (List Task)
    process (dir n p fs ds) remotes remote_path = both (upload_files remotes remote_path fs) (
        both (upload_subs ds remotes remote_path)
          (delete_unseen (seen_subs ds (seen_files fs (not_seen remotes)))))

    upload_subs : Subdirs Str LocalFile → Option S3Directory → S3Path → Outcome (List Task)
    upload_subs end remotes remote_path = ok []
    upload_subs (sub k d ds) remotes remote_path =
        both
          (upload_sub remotes (dir_name d) (λ rs. process d rs (derive remote_path (dir_name d))))
          (upload_subs ds remotes remote_path)

  pub process_upload : LocalDir → Option S3Directory → S3Path → Outcome (List Task)
  unfolding process
  process_upload locals remotes remote_path = process locals remotes remote_path
