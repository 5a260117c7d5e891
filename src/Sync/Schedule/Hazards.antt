-- ===== src/Sync/Schedule/Hazards.antt =====
-- Two ways in which a schedule deletes what the other side still has.
use extreme_s.Prelude.{
  ℕ, suc, ◌+◌, ◌≡◌, refl, Bool, true, false, not, [], ◌∷◌, none, some, Str, ok, fail, Failure,
}
use extreme_s.Prelude.Dict.{Dict}
use extreme_s.S3Path.{S3Path}
use extreme_s.Sync.Tree.{dir, Subdirs, end, sub, LocalDir, S3File, S3Directory}
use extreme_s.Sync.Delete.{Rules}
use extreme_s.Sync.Download.{Disk}
use extreme_s.Sync.Local.{Folders, build_local_dir}
use extreme_s.Sync.Schedule.{
  Synchronizer, Remote, join_sub, join_root, walk_subs, with_subs, list_subdir, walk_dir, walk_root,
  walk_roots, list_roots, build_locals, finish, after_walk, after_lists, after_locals,
  create_schedule,
}

-- One local path and one remote path, with the leave to delete.
abbrev pub mirror : Bool → Rules → Str → S3Path → Synchronizer
mirror upload rules start_path path = record {
  remote = path ∷ [];
  local = start_path ∷ [];
  do_upload = upload;
  delete_missing = true;
  rules = rules;
}

module _ (disk : Disk) (folders : Folders) (remote_side : Remote) (rules : Rules) where
  walk_roots-one :
      (depth : ℕ) (d d' : S3Directory) (failed : ℕ)
      → walk_root remote_side depth d ≡ some (d', failed)
      → walk_roots remote_side depth (d ∷ []) ≡ some (d' ∷ [], failed + 0)
  unfolding walk_roots join_root
  walk_roots-one depth d d' failed e = rw (walk_roots, e) refl

  -- The schedule for one root, once it was walked.
  pub schedule-one :
      (upload : Bool) (depth : ℕ) (start_path : Str) (path : S3Path) (locals : LocalDir)
      (root d' : S3Directory) (failed : ℕ)
      → build_local_dir folders start_path upload ≡ ok locals
      → remote_side.list_files_shallow path none (not upload) ≡ ok root
      → walk_root remote_side depth root ≡ some (d', failed)
      → create_schedule disk folders remote_side
          (mirror upload rules start_path path)
          depth
          false
          false
          false
        ≡ some (
            finish disk folders remote_side
              (mirror upload rules start_path path)
              false
              false
              false
              (some locals)
              (d' ∷ [])
              (failed + 0))
  unfolding create_schedule build_locals after_locals after_lists after_walk list_roots
  schedule-one true depth start_path path locals root d' failed built listed walked =
      rw (built, listed, walk_roots-one depth root d' failed walked) refl
  schedule-one false depth start_path path locals root d' failed built listed walked =
      rw (built, listed, walk_roots-one depth root d' failed walked) refl

  walk_dir-failed :
      (depth : ℕ) (k : Str) (q : S3Path) {e : Failure}
      → remote_side.list_files_shallow q (some (dir k q [] end)) false ≡ fail e
      → remote_side.left_over (dir k q [] end) ≡ dir k q [] end
      → walk_dir remote_side (suc depth) (dir k q [] end) ≡ some (dir k q [] end, 1)
  unfolding walk_dir list_subdir
  walk_dir-failed depth k q refused untouched = rw (refused, untouched) refl

  -- The walk of a root one of whose subdirectories cannot be listed.
  pub walk_root-failed :
      (depth others : ℕ) (rn j k : Str) (rp q : S3Path) (rfs : Dict S3File)
      (rds rds' : Subdirs S3Path S3File) {e : Failure}
      → remote_side.list_files_shallow q (some (dir k q [] end)) false ≡ fail e
      → remote_side.left_over (dir k q [] end) ≡ dir k q [] end
      → walk_subs remote_side (walk_dir remote_side (suc depth)) rds ≡ some (rds', others)
      → walk_root remote_side (suc depth) (dir rn rp rfs (sub j (dir k q [] end) rds))
        ≡ some (dir rn rp rfs (sub j (dir k q [] end) rds'), 1 + others)
  unfolding walk_root walk_subs with_subs join_sub
  walk_root-failed depth others rn j k rp q rfs rds rds' refused untouched rest =
      rw (walk_dir-failed depth k q refused untouched, rest) refl
