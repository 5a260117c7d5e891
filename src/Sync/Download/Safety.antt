-- ===== src/Sync/Download/Safety.antt =====
-- What a download may schedule, and do at once.
use extreme_s.Prelude.{
  ◌≡◌, refl, Bool, true, false, not, ◌||◌, ◌&&◌, List, [], ◌∷◌, Option, none, some, arith, Str,
  if◌then◌else◌, map, All, Outcome, ok, Ensures, Ensures-bind_eq, Ensures-both, Ensures-if,
}
use extreme_s.Prelude.Dict.{Dict, has}
use extreme_s.S3Path.{S3Path}
use extreme_s.Sync.Tree.{
  dir, Subdirs, end, sub, LocalDir, S3File, S3Directory, dir_name, files, values,
}
use extreme_s.Sync.Delete.{
  Task, upload, delete_remote, download, delete_local, make_dir, remove_now, is_included,
}
use extreme_s.Sync.Upload.{Mode}
use extreme_s.Sync.Download.{
  Disk, dir_there, file_there, sub_there, unless_there, download_file, download_files,
  local_dir_for, download_sub, delete_unseen, process, download_subs, process_downloads,
}

module _ (m : Mode) (disk : Disk) where
  -- A download is of a file that the rules take in. What removes something local (a download over a
  -- directory, a deletion, a removal at once) needs the leave to delete. The remote side is only read.
  abbrev pub IsAllowed : Task → Type 0
  IsAllowed (download p r d) =
      (is_included m.rules (r.path) ≡ ok true) × (d ≡ true → m.delete_missing ≡ true)
  IsAllowed (make_dir p) = Unit
  IsAllowed (delete_local p) = m.delete_missing ≡ true
  IsAllowed (remove_now p) = m.delete_missing ≡ true
  IsAllowed (upload p r) = ⊥
  IsAllowed (delete_remote r) = ⊥

  unless_there-IsAllowed :
      (locals : Option LocalDir) (name : Str) (fetch : List Task)
      → All IsAllowed fetch
      → Ensures (All IsAllowed) (unless_there m disk locals name fetch)
  unfolding unless_there
  unless_there-IsAllowed none name fetch h =
      Ensures-if (All IsAllowed) m.check_mode _ _ (λ e. tt) (λ e. h)
  unless_there-IsAllowed (some d) name fetch h =
      Ensures-if (All IsAllowed) (not m.check_mode || not (has name (files d))) (ok fetch) (ok [])
        (λ e. h) (λ e. tt)

  -- Where nothing is deleted, a shadowed name was passed over before.
  leave_needed : (s d : Bool) → (s && not d) ≡ false → s ≡ true → d ≡ true
  leave_needed s d e h = ground arith

  download_file-IsAllowed :
      (locals : Option LocalDir) (path : Str) (f : S3File)
      → Ensures (All IsAllowed) (download_file m disk locals path f)
  unfolding download_file
  download_file-IsAllowed locals path f =
      Ensures-bind_eq (All IsAllowed) (is_included m.rules f.absolute_name.path) _ pick
    where
      shadowed : Bool
      shadowed = dir_there locals f.name

      fetch : List Task
      fetch = download (disk.join path f.name) f.absolute_name shadowed ∷ []

      pick :
          (b : Bool)
          → is_included m.rules f.absolute_name.path ≡ ok b
          → Ensures (All IsAllowed) (
              if not b
              then ok []
              else if shadowed && not m.delete_missing
              then ok []
              else unless_there m disk locals f.name fetch)
      pick false e = tt
      pick true e =
          Ensures-if (All IsAllowed) (shadowed && not m.delete_missing) (ok []) _ (λ g. tt)
            λ g.
              unless_there-IsAllowed locals f.name fetch
                ((e, leave_needed shadowed m.delete_missing g), tt)

  download_files-IsAllowed :
      (locals : Option LocalDir) (path : Str) (fs : Dict S3File)
      → Ensures (All IsAllowed) (download_files m disk locals path fs)
  unfolding download_files
  download_files-IsAllowed locals path [] = tt
  download_files-IsAllowed locals path ((k, f) ∷ fs) =
      Ensures-both IsAllowed (download_file m disk locals path f) _
        (download_file-IsAllowed locals path f) (download_files-IsAllowed locals path fs)

  local_dir_for-IsAllowed :
      (o : Option LocalDir) (path : Str) → Ensures (All IsAllowed) (local_dir_for m disk o path)
  unfolding local_dir_for
  local_dir_for-IsAllowed (some d) path = tt
  local_dir_for-IsAllowed none path =
      Ensures-if (All IsAllowed) (disk.can_make path) _ _ (λ e. (tt, tt)) (λ e. tt)

  download_sub-IsAllowed :
      (locals : Option LocalDir) (path name : Str) (down : Option LocalDir → Outcome (List Task))
      → ((d : Option LocalDir) → Ensures (All IsAllowed) (down d))
      → Ensures (All IsAllowed) (download_sub m disk locals path name down)
  unfolding download_sub
  download_sub-IsAllowed locals path name down h =
      Ensures-if (All IsAllowed) (file_there locals name && not m.delete_missing) (ok []) _
        (λ e. tt)
        λ e.
          Ensures-both IsAllowed (ok (removal (file_there locals name))) _
            (removed (file_there locals name) (leave_needed _ _ e))
            (Ensures-both IsAllowed (local_dir_for m disk (sub_there locals name) path) _
              (local_dir_for-IsAllowed (sub_there locals name) path) (h (sub_there locals name)))
    where
      removal : Bool → List Task
      removal b = if b then remove_now path ∷ [] else []

      removed : (b : Bool) → (b ≡ true → m.delete_missing ≡ true) → All IsAllowed (removal b)
      removed true k = (k refl, tt)
      removed false k = tt

  deletions-IsAllowed :
      (ps : List Str) → m.delete_missing ≡ true → All IsAllowed (map delete_local ps)
  deletions-IsAllowed [] h = tt
  deletions-IsAllowed (p ∷ ps) h = (h, deletions-IsAllowed ps h)

  delete_unseen-IsAllowed : (u : Dict Str) → Ensures (All IsAllowed) (delete_unseen m disk u)
  unfolding delete_unseen
  delete_unseen-IsAllowed u =
      Ensures-if (All IsAllowed) m.delete_missing _ _ (deletions-IsAllowed (values u)) (λ e. tt)

  mutual
    unfolding process

    process-IsAllowed :
        (d : S3Directory) (locals : Option LocalDir) (path : Str)
        → Ensures (All IsAllowed) (process m disk d locals path)
    process-IsAllowed (dir n p fs ds) locals path =
        Ensures-both IsAllowed (download_files m disk locals path fs) _
          (download_files-IsAllowed locals path fs)
          (Ensures-both IsAllowed (download_subs m disk ds locals path) _
            (download_subs-IsAllowed ds locals path) (delete_unseen-IsAllowed _))

    download_subs-IsAllowed :
        (ds : Subdirs S3Path S3File) (locals : Option LocalDir) (path : Str)
        → Ensures (All IsAllowed) (download_subs m disk ds locals path)
    download_subs-IsAllowed end locals path = tt
    download_subs-IsAllowed (sub k d ds) locals path =
        Ensures-both IsAllowed
          (download_sub m disk locals (disk.join path (dir_name d)) (dir_name d) _)
          (download_subs m disk ds locals path)
          (download_sub-IsAllowed locals (disk.join path (dir_name d)) (dir_name d) _
            (λ new_dir. process-IsAllowed d new_dir (disk.join path (dir_name d))))
          (download_subs-IsAllowed ds locals path)

  -- A run that ends has scheduled only downloads of files that the rules take in. Nothing local is
  -- removed, then or later, unless missing files are to be deleted, and nothing remote is changed.
  pub process_downloads-IsAllowed :
      (remotes : S3Directory) (locals : Option LocalDir) (path : Str)
      → Ensures (All IsAllowed) (process_downloads m disk remotes locals path)
  unfolding process_downloads
  process_downloads-IsAllowed = process-IsAllowed
