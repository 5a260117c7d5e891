-- ===== src/Sync/Schedule/Safety.antt =====
-- What a schedule may hold, for uploads, downloads and deletions.
use extreme_s.Prelude.{
  ℕ, ◌≡◌, subst, Bool, true, false, not, List, [], ◌∷◌, Option, none, some, All, Outcome, ok, fail,
  es3_error, err_fatal, ◌&&◌, ◌||◌, Ensures, Ensures-bind, Ensures-both, Ensures-if, Bool-cases,
  inl, inr,
}
use extreme_s.Sync.Tree.{LocalDir, S3Directory, absolute, no_subs, subdirs, all_files}
use extreme_s.Sync.Delete.{
  Task, upload, delete_remote, download, delete_local, make_dir, remove_now, Rules, is_included,
  delete_possibly_recursive,
}
use extreme_s.Sync.Delete.Laws.{deletions, deletions-Ensures, delete_possibly_recursive_lem}
use extreme_s.Sync.Upload.Safety.{process_upload-IsAllowed}
use extreme_s.Sync.Upload.Safety as UploadSafety
use extreme_s.Sync.Download.{Disk}
use extreme_s.Sync.Download.Safety.{process_downloads-IsAllowed}
use extreme_s.Sync.Download.Safety as DownloadSafety
use extreme_s.Sync.Local.{Folders}
use extreme_s.Sync.Schedule.{
  Synchronizer, Remote, Scheduled, delete_all, merge_remotes, mode_of, upload_all, download_all,
  finish, after_walk, after_lists, after_locals, create_schedule, walk_roots, list_roots,
  build_locals,
}

-- Deletions are of remote files that the rules take in, whatever is missing.
abbrev pub IsDeletion : Rules → Task → Type 0
IsDeletion r (delete_remote p) = is_included r p.path ≡ ok true
IsDeletion r (upload p q) = ⊥
IsDeletion r (download p q d) = ⊥
IsDeletion r (delete_local p) = ⊥
IsDeletion r (make_dir p) = ⊥
IsDeletion r (remove_now p) = ⊥

delete_possibly_recursive-IsDeletion :
    (r : Rules) (d : S3Directory) (non_recursive : Bool)
    → Ensures (All (IsDeletion r)) (delete_possibly_recursive r d non_recursive)
delete_possibly_recursive-IsDeletion r d non_recursive =
    rw (delete_possibly_recursive_lem r d non_recursive) (
      Ensures-if (All (IsDeletion r)) (non_recursive && not (no_subs (subdirs d)))
        (fail (es3_error err_fatal)) (deletions r (all_files d)) (λ e. tt)
        (λ e. deletions-Ensures r (IsDeletion r) (all_files d) (λ f h. h)))

delete_all-IsDeletion :
    (r : Rules) (non_recursive : Bool) (ds : List S3Directory)
    → Ensures (All (IsDeletion r)) (delete_all r non_recursive ds)
unfolding delete_all
delete_all-IsDeletion r non_recursive [] = tt
delete_all-IsDeletion r non_recursive (d ∷ ds) =
    Ensures-both (IsDeletion r) (delete_possibly_recursive r d non_recursive)
      (delete_all r non_recursive ds) (delete_possibly_recursive-IsDeletion r d non_recursive)
      (delete_all-IsDeletion r non_recursive ds)

module _ (disk : Disk) (folders : Folders) (remote_side : Remote) (s : Synchronizer) where
  -- What a run may schedule: deletions alone, or what an upload or a download may.
  abbrev pub IsAllowed : Bool → Bool → Bool → Task → Type 0
  IsAllowed check_mode true upload_mode t = IsDeletion s.rules t
  IsAllowed check_mode false true t =
      UploadSafety.IsAllowed (mode_of disk folders remote_side s check_mode) t
  IsAllowed check_mode false false t =
      DownloadSafety.IsAllowed (mode_of disk folders remote_side s check_mode) disk t

  upload_all-IsAllowed :
      (check_mode : Bool) (locals : Option LocalDir) (remotes : Option S3Directory)
      → Ensures
          (All (IsAllowed check_mode false true))
          (upload_all disk folders remote_side s check_mode locals remotes)
  unfolding upload_all
  upload_all-IsAllowed check_mode locals none = tt
  upload_all-IsAllowed check_mode none (some remotes) = tt
  upload_all-IsAllowed check_mode (some locals) (some remotes) =
      process_upload-IsAllowed (mode_of disk folders remote_side s check_mode) locals (some remotes)
        (absolute remotes)

  download_all-IsAllowed :
      (check_mode : Bool) (locals : Option LocalDir) (remotes : Option S3Directory)
      → Ensures
          (All (IsAllowed check_mode false false))
          (download_all disk folders remote_side s check_mode locals remotes)
  unfolding download_all
  download_all-IsAllowed check_mode none remotes = tt
  download_all-IsAllowed check_mode (some locals) none = tt
  download_all-IsAllowed check_mode (some locals) (some remotes) =
      process_downloads-IsAllowed (mode_of disk folders remote_side s check_mode) disk remotes
        (some locals) (absolute locals)

  abbrev Fits : Bool → Bool → Bool → Scheduled → Type 0
  Fits check_mode delete_mode upload_mode r =
      All (IsAllowed check_mode delete_mode upload_mode) r.tasks

  finish-IsAllowed :
      (check_mode delete_mode non_recursive_delete : Bool) (locals : Option LocalDir)
      (remote_lists : List S3Directory) (failed : ℕ)
      → Ensures (Fits check_mode delete_mode s.do_upload) (
          finish disk folders remote_side s check_mode delete_mode non_recursive_delete locals
            remote_lists failed)
  unfolding finish
  finish-IsAllowed check_mode true non_recursive_delete locals remote_lists failed =
      Ensures-bind _ _ (delete_all s.rules non_recursive_delete remote_lists) _
        (delete_all-IsDeletion s.rules non_recursive_delete remote_lists) (λ ts h. h)
  finish-IsAllowed check_mode false non_recursive_delete locals remote_lists failed =
      Ensures-bind (λ (remotes : Option S3Directory). Unit {0}) _ (merge_remotes none remote_lists)
        _ (always (merge_remotes none remote_lists))
        (λ remotes h. elim (Bool-cases s.do_upload) [
          | inl up ↦ rw up (
              Ensures-bind _ _ (upload_all disk folders remote_side s check_mode locals remotes) _
                (upload_all-IsAllowed check_mode locals remotes) (λ ts k. k))
          | inr down ↦ rw down (
              Ensures-bind _ _ (download_all disk folders remote_side s check_mode locals remotes) _
                (download_all-IsAllowed check_mode locals remotes) (λ ts k. k))
        ])
    where
      always : (m : Outcome (Option S3Directory)) → Ensures (λ remotes. Unit {0}) m
      always (ok d) = tt
      always (fail e) = tt

  -- Where a schedule that was made comes from.
  after_walk-ok :
      (rest : List S3Directory → ℕ → Outcome Scheduled) (o : Option (List S3Directory × ℕ))
      {r : Scheduled}
      → after_walk disk folders remote_side s rest o ≡ some (ok r)
      → (ds : List S3Directory) × (n : ℕ) × (rest ds n ≡ ok r)
  unfolding after_walk
  after_walk-ok rest none e = cc
  after_walk-ok rest (some (ds, n)) e = (ds, n, cc)

  after_lists-ok :
      (depth : ℕ) (rest : List S3Directory → ℕ → Outcome Scheduled) (m : Outcome (List S3Directory))
      {r : Scheduled}
      → after_lists disk folders remote_side s depth rest m ≡ some (ok r)
      → (ds : List S3Directory) × (n : ℕ) × (rest ds n ≡ ok r)
  unfolding after_lists
  after_lists-ok depth rest (fail x) e = cc
  after_lists-ok depth rest (ok roots) e = after_walk-ok rest (walk_roots remote_side depth roots) e

  after_locals-ok :
      (depth : ℕ) (check_mode delete_mode non_recursive_delete : Bool)
      (m : Outcome (Option LocalDir)) {r : Scheduled}
      → after_locals disk folders remote_side s depth check_mode delete_mode non_recursive_delete m
        ≡ some (ok r)
      → (locals : Option LocalDir) × (ds : List S3Directory) × (n : ℕ) × (finish disk folders
            remote_side s check_mode delete_mode non_recursive_delete locals ds n
          ≡ ok r)
  unfolding after_locals
  after_locals-ok depth check_mode delete_mode non_recursive_delete (fail x) e = cc
  after_locals-ok depth check_mode delete_mode non_recursive_delete (ok locals) e =
      let (ds, n, same) =
        after_lists-ok depth
          (finish disk folders remote_side s check_mode delete_mode non_recursive_delete locals)
          (list_roots remote_side (not s.do_upload || delete_mode) s.remote) e in
      (locals, ds, n, same)

  -- A schedule that was made deletes nothing but remote files that the rules take in, if it is to
  -- delete; else it holds only what an upload may do, or what a download may, by its direction.
  pub create_schedule-IsAllowed :
      (depth : ℕ) (check_mode delete_mode non_recursive_delete : Bool) {r : Scheduled}
      → create_schedule disk folders remote_side s depth check_mode delete_mode non_recursive_delete
        ≡ some (ok r)
      → All (IsAllowed check_mode delete_mode s.do_upload) r.tasks
  unfolding create_schedule
  create_schedule-IsAllowed depth check_mode delete_mode non_recursive_delete {r} e =
      let (locals, ds, n, same) =
        after_locals-ok depth check_mode delete_mode non_recursive_delete
          (build_locals folders s.do_upload none s.local) e in
      subst (Ensures (Fits check_mode delete_mode s.do_upload)) same
        (finish-IsAllowed check_mode delete_mode non_recursive_delete locals ds n)
