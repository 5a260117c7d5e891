-- ===== src/Sync/Schedule/Tests.antt =====
-- A folder with a space in its name, and a remote folder that cannot be listed.
use extreme_s.Prelude.{
  ◌≡◌, refl, ◌∙◌, false, true, [], ◌∷◌, ◌++◌, none, some, List, Str, codes, All, Outcome, ok, fail,
  es3_error, err_warn, Option,
}
use extreme_s.S3Path.{S3Path}
use extreme_s.Sync.Tree.{dir, end, sub, S3File, S3Directory}
use extreme_s.Sync.Delete.{Task, Rules}
use extreme_s.Sync.Upload.{process_upload}
use extreme_s.Sync.Upload.Unseen.{process_upload-empty}
use extreme_s.Sync.Download.{Disk, process_downloads}
use extreme_s.Sync.Download.Empty.{process_downloads-ends}
use extreme_s.Sync.Local.Tests.{spaced, build_spaced, nested, dir_k}
use extreme_s.Sync.Schedule.{
  Synchronizer, Remote, Scheduled, mode_of, create_schedule, walk_root, walk_subs, finish,
  upload_all, merge_remotes, with_subs,
}
use extreme_s.Sync.Schedule.Safety.{IsAllowed, create_schedule-IsAllowed}
use extreme_s.Sync.Schedule.Hazards.{mirror, schedule-one}

abbrev no_rules : Rules
no_rules = record { included = []; excluded = [] }

abbrev disk : Disk
disk = record { join = λ a b. a ++ b; can_make = λ p. true }

abbrev at : Str → S3Path
at path = record { zone = []; bucket = codes "logs"; path = path }

abbrev remote_file : S3File
remote_file = record { name = codes "b"; absolute_name = at (codes "/b"); mtime_str = []; size = 3 }

abbrev root_with_b : S3Directory
root_with_b = dir [] (at (codes "/")) ((codes "b", remote_file) ∷ []) end

abbrev one_file : Remote
one_file = record { list_files_shallow = λ p t b. ok root_with_b; left_over = λ d. d }

abbrev spaced_folder : Str
spaced_folder = codes "/my d"

walked_b : walk_root one_file 1 root_with_b ≡ some (root_with_b, 0)
unfolding walk_root walk_subs with_subs
walked_b = refl

-- What the upload of the folder schedules.
abbrev upload_mode : Synchronizer
upload_mode = mirror true no_rules spaced_folder (at (codes "/"))

upload_end :
    (ts : List Task) × (process_upload
        (mode_of disk spaced one_file upload_mode false)
        (dir [] (codes "/") [] end)
        (some root_with_b)
        (at (codes "/"))
      ≡ ok ts)
upload_end =
    process_upload-empty (mode_of disk spaced one_file upload_mode false) [] [] (codes "/")
      (at (codes "/")) (at (codes "/")) ((codes "b", remote_file) ∷ []) refl

abbrev upload_run : Scheduled
upload_run = record { found = true; tasks = upload_end.0; failed = 0 }

uploads :
    create_schedule disk spaced one_file upload_mode 1 false false false ≡ some (ok upload_run)
unfolding finish merge_remotes upload_all
uploads =
    schedule-one disk spaced one_file no_rules true 1 spaced_folder (at (codes "/"))
      (dir [] (codes "/") [] end) root_with_b root_with_b 0 build_spaced refl walked_b
    ∙ rw (upload_end.1) refl

create_schedule-IsAllowed_example :
    All (IsAllowed disk spaced one_file upload_mode false false true) upload_run.tasks
create_schedule-IsAllowed_example =
    create_schedule-IsAllowed disk spaced one_file upload_mode 1 false false false uploads

-- A service that lists the root with the folder `k`, and answers with an error for the folder.
abbrev empty_k : S3Directory
empty_k = dir (codes "k") (at (codes "/k/")) [] end

abbrev root_with_k : S3Directory
root_with_k = dir [] (at (codes "/")) [] (sub (codes "k") empty_k end)

abbrev answer : Option S3Directory → Outcome S3Directory
answer none = ok root_with_k
answer (some d) = fail (es3_error err_warn)

abbrev failing : Remote
failing = record { list_files_shallow = λ p t b. answer t; left_over = λ d. d }

abbrev download_mode : Synchronizer
download_mode = mirror false no_rules (codes "/d/") (at (codes "/"))

download_end :
    (ts : List Task) × (process_downloads
        (mode_of disk nested failing download_mode false)
        disk
        root_with_k
        (some (dir (codes "/") (codes "/d/") [] (sub (codes "k") dir_k end)))
        (codes "/d/")
      ≡ ok ts)
download_end =
    process_downloads-ends (mode_of disk nested failing download_mode false) disk [] (codes "/")
      (codes "/d/") (codes "k") (at (codes "/")) (at (codes "/k/")) dir_k (codes "/d/") refl

abbrev download_run : Scheduled
download_run = record { found = true; tasks = download_end.0; failed = 1 }
