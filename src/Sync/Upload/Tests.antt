-- ===== src/Sync/Upload/Tests.antt =====
-- A remote file that an exclude rule names, and that is deleted.
use extreme_s.Prelude.{◌≡◌, refl, [], ◌∷◌, Str, codes, true, false, some, ok, In, str_eq}
use extreme_s.Prelude.Dict.{lookup}
use extreme_s.S3Path.{S3Path}
use extreme_s.Sync.Tree.{dir, end, S3File}
use extreme_s.Sync.Delete.{delete_remote}
use extreme_s.Sync.Upload.{
  Mode, process_upload, process, upload_files, delete_unseen, delete_dirs, seen_files, seen_subs,
  not_seen,
}
use extreme_s.Sync.Upload.Unseen.{process_upload-deletes_unseen}

abbrev mode : Mode
mode = record {
  rules = record { included = []; excluded = codes "*.log" ∷ [] };
  delete_missing = true;
  check_mode = false;
}

abbrev at : Str → S3Path
at path = record { zone = []; bucket = codes "logs"; path = path }

abbrev old_log : S3File
old_log = record {
  name = codes "old.log";
  absolute_name = at (codes "/old.log");
  mtime_str = [];
  size = 3;
}

has_old : lookup (codes "old.log") ((codes "old.log", old_log) ∷ []) ≡ some old_log
unfolding lookup str_eq
has_old = refl

run :
    process_upload mode
      (dir [] [] [] end)
      (some (dir [] (at []) ((codes "old.log", old_log) ∷ []) end))
      (at [])
    ≡ ok (delete_remote (at (codes "/old.log")) ∷ [])
unfolding process_upload process upload_files delete_unseen delete_dirs seen_files seen_subs
    not_seen
run = refl

process_upload-deletes_unseen_example :
    In (delete_remote (at (codes "/old.log"))) (delete_remote (at (codes "/old.log")) ∷ [])
process_upload-deletes_unseen_example =
    process_upload-deletes_unseen mode [] [] [] (at []) (at []) [] end
      ((codes "old.log", old_log) ∷ []) end (codes "old.log") refl has_old tt tt run
