-- ===== src/Sync/Upload/Safety.antt =====
-- What an upload may schedule.
use extreme_s.Prelude.{
  ◌≡◌, Bool, true, false, not, ◌||◌, List, [], ◌∷◌, Option, none, some, Str, if◌then◌else◌, map,
  All, Outcome, ok, fail, null_pointer, both, Ensures, Ensures-bind_eq, Ensures-both, Ensures-if,
}
use extreme_s.Prelude.Dict.{Dict, lookup, has}
use extreme_s.S3Path.{S3Path, derive}
use extreme_s.Sync.Tree.{
  dir, Subdirs, end, sub, LocalFile, LocalDir, S3File, S3Directory, dir_name, files, subdirs,
  lookup_sub, values,
}
use extreme_s.Sync.Delete.{
  Task, upload, delete_remote, download, delete_local, make_dir, remove_now, is_included,
  delete_possibly_recursive,
}
use extreme_s.Sync.Delete.Laws.{delete_possibly_recursive-Ensures}
use extreme_s.Sync.Upload.{
  Mode, NotSeen, over_directory, over_file, upload_over, upload_file, upload_files, upload_sub,
  delete_dirs, delete_unseen, process, upload_subs, process_upload,
}

module _ (m : Mode) where
  -- An upload is of a file that the rules take in, a deletion is of a remote file and happens only
  -- if missing files are to be deleted, and nothing is done to the local side.
  abbrev pub IsAllowed : Task → Type 0
  IsAllowed (upload p r) = is_included m.rules p ≡ ok true
  IsAllowed (delete_remote r) = m.delete_missing ≡ true
  IsAllowed (download p r d) = ⊥
  IsAllowed (delete_local p) = ⊥
  IsAllowed (make_dir p) = ⊥
  IsAllowed (remove_now p) = ⊥

  deletion-IsAllowed :
      (d : S3Directory)
      → m.delete_missing ≡ true
      → Ensures (All IsAllowed) (delete_possibly_recursive m.rules d false)
  deletion-IsAllowed d h = delete_possibly_recursive-Ensures m.rules IsAllowed d (λ f _. h)

  over_directory-IsAllowed :
      (d : S3Directory) (sent : List Task)
      → All IsAllowed sent
      → Ensures (All IsAllowed) (over_directory m d sent)
  unfolding over_directory
  over_directory-IsAllowed d sent h =
      Ensures-if (All IsAllowed) m.delete_missing _ _
        (λ e.
          Ensures-both IsAllowed (delete_possibly_recursive m.rules d false) (ok sent)
            (deletion-IsAllowed d e) h)
        (λ e. tt)

  over_file-IsAllowed :
      (b : Bool) (sent : List Task)
      → All IsAllowed sent
      → Ensures (All IsAllowed) (over_file m b sent)
  unfolding over_file
  over_file-IsAllowed b sent h =
      Ensures-if (All IsAllowed) (not m.check_mode || not b) (ok sent) (ok []) (λ e. h) (λ e. tt)

  upload_over-IsAllowed :
      (remotes : Option S3Directory) (name : Str) (sent : List Task)
      → All IsAllowed sent
      → Ensures (All IsAllowed) (upload_over m remotes name sent)
  unfolding upload_over
  upload_over-IsAllowed none name sent h =
      Ensures-if (All IsAllowed) m.check_mode (fail null_pointer) (ok sent) (λ e. tt) (λ e. h)
  upload_over-IsAllowed (some r) name sent h = by_lookup (lookup_sub name (subdirs r))
    where
      by_lookup :
          (o : Option S3Directory)
          → Ensures (All IsAllowed) (elim o [
            | some d ↦ over_directory m d sent
            | none ↦ over_file m (has name (files r)) sent
          ])
      by_lookup none = over_file-IsAllowed (has name (files r)) sent h
      by_lookup (some d) = over_directory-IsAllowed d sent h

  upload_files-IsAllowed :
      (remotes : Option S3Directory) (path : S3Path) (fs : Dict LocalFile)
      → Ensures (All IsAllowed) (upload_files m remotes path fs)
  unfolding upload_files upload_file
  upload_files-IsAllowed remotes path [] = tt
  upload_files-IsAllowed remotes path ((k, f) ∷ fs) =
      Ensures-both IsAllowed (upload_file m remotes path f) (upload_files m remotes path fs)
        (Ensures-if (All IsAllowed) f.unsyncable (ok []) _ (λ e. tt)
          (λ e. Ensures-bind_eq (All IsAllowed) (is_included m.rules f.absolute_name) _ pick))
        (upload_files-IsAllowed remotes path fs)
    where
      sent : List Task
      sent = upload f.absolute_name (derive path f.name) ∷ []

      pick :
          (b : Bool)
          → is_included m.rules f.absolute_name ≡ ok b
          → Ensures (All IsAllowed) (if b then upload_over m remotes f.name sent else ok [])
      pick true e = upload_over-IsAllowed remotes f.name sent (e, tt)
      pick false e = tt

  upload_sub-IsAllowed :
      (remotes : Option S3Directory) (name : Str) (down : Option S3Directory → Outcome (List Task))
      → ((rs : Option S3Directory) → Ensures (All IsAllowed) (down rs))
      → Ensures (All IsAllowed) (upload_sub m remotes name down)
  unfolding upload_sub
  upload_sub-IsAllowed none name down h = h none
  upload_sub-IsAllowed (some r) name down h = by_lookup (lookup name (files r))
    where
      by_lookup :
          (o : Option S3File)
          → Ensures (All IsAllowed) (elim o [
            | some f ↦
                if m.delete_missing
                then both (ok (delete_remote f.absolute_name ∷ [])) (down none)
                else ok []
            | none ↦ down (lookup_sub name (subdirs r))
          ])
      by_lookup none = h (lookup_sub name (subdirs r))
      by_lookup (some f) =
          Ensures-if (All IsAllowed) m.delete_missing _ _
            (λ e.
              Ensures-both IsAllowed (ok (delete_remote f.absolute_name ∷ [])) (down none) (e, tt)
                (h none))
            (λ e. tt)

  delete_dirs-IsAllowed :
      (ds : Subdirs S3Path S3File)
      → m.delete_missing ≡ true
      → Ensures (All IsAllowed) (delete_dirs m ds)
  unfolding delete_dirs
  delete_dirs-IsAllowed end h = tt
  delete_dirs-IsAllowed (sub k d ds) h =
      Ensures-both IsAllowed (delete_possibly_recursive m.rules d false) (delete_dirs m ds)
        (deletion-IsAllowed d h) (delete_dirs-IsAllowed ds h)

  deletions_of-IsAllowed :
      (fs : List S3File)
      → m.delete_missing ≡ true
      → All IsAllowed (map (λ f. delete_remote f.absolute_name) fs)
  deletions_of-IsAllowed [] h = tt
  deletions_of-IsAllowed (f ∷ fs) h = (h, deletions_of-IsAllowed fs h)

  delete_unseen-IsAllowed : (u : NotSeen) → Ensures (All IsAllowed) (delete_unseen m u)
  unfolding delete_unseen
  delete_unseen-IsAllowed u =
      Ensures-if (All IsAllowed) m.delete_missing _ _
        (λ e.
          Ensures-both IsAllowed
            (ok (map (λ f. delete_remote f.absolute_name) (values u.files_left)))
            (delete_dirs m u.dirs_left) (deletions_of-IsAllowed (values u.files_left) e)
            (delete_dirs-IsAllowed u.dirs_left e))
        (λ e. tt)

  mutual
    unfolding process

    process-IsAllowed :
        (d : LocalDir) (remotes : Option S3Directory) (path : S3Path)
        → Ensures (All IsAllowed) (process m d remotes path)
    process-IsAllowed (dir n p fs ds) remotes path =
        Ensures-both IsAllowed (upload_files m remotes path fs) _
          (upload_files-IsAllowed remotes path fs)
          (Ensures-both IsAllowed (upload_subs m ds remotes path) _
            (upload_subs-IsAllowed ds remotes path) (delete_unseen-IsAllowed _))

    upload_subs-IsAllowed :
        (ds : Subdirs Str LocalFile) (remotes : Option S3Directory) (path : S3Path)
        → Ensures (All IsAllowed) (upload_subs m ds remotes path)
    upload_subs-IsAllowed end remotes path = tt
    upload_subs-IsAllowed (sub k d ds) remotes path =
        Ensures-both IsAllowed (upload_sub m remotes (dir_name d) _) (upload_subs m ds remotes path)
          (upload_sub-IsAllowed remotes (dir_name d) _
            (λ rs. process-IsAllowed d rs (derive path (dir_name d))))
          (upload_subs-IsAllowed ds remotes path)

  -- A run that ends has scheduled only uploads of files that the rules take in and, if missing
  -- files are to be deleted, deletions of remote files. It never touches the local side.
  pub process_upload-IsAllowed :
      (locals : LocalDir) (remotes : Option S3Directory) (path : S3Path)
      → Ensures (All IsAllowed) (process_upload m locals remotes path)
  unfolding process_upload
  process_upload-IsAllowed = process-IsAllowed
