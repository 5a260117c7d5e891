-- ===== src/Commands/Rounds/Tests.antt =====
-- Commands in a world whose state is the number of failures of the next run.
use extreme_s.Prelude.{ℕ, ◌≡◌, refl, true, false, [], ◌∷◌, some, codes, starts_with, ok}
use extreme_s.S3Path.Tests.{logs, parse_logs}
use extreme_s.Sync.Tree.{dir, end, S3File}
use extreme_s.Sync.Delete.{Rules}
use extreme_s.Commands.{World, resolve, resolve_all}
use extreme_s.Commands.Rounds.{
  SyncOptions, RmOptions, do_rsync, sync_args_of, split_last, sync_up, all_exist, rounds,
  after_schedule, after_run, do_rm, rm_args_of,
}
use extreme_s.Commands.Rounds.Laws.{Finished, do_rsync-zero}

abbrev pub log_file : S3File
log_file = record { name = codes "b"; absolute_name = logs; mtime_str = codes "now"; size = 7 }

abbrev pub counting : World ℕ
counting = record {
  exists_at = λ p w. true;
  create_directories = λ p w. ok w;
  touch = λ p w. (0, w);
  find_region = λ b w. ok [];
  list_root = λ p w. ok (dir [] p [] end);
  upload_empty = λ p w. ok w;
  create_schedule = λ s c d n w. ok (true, w);
  recursive_walk = λ p w. ok w;
  walked_root = λ w. dir [] logs ((codes "b", log_file) ∷ []) end;
  recursive_publication = λ i e p w. ok w;
  run = λ w. (w, w);
  tasks_count = λ w. 0;
  published = λ w. 0;
}

abbrev no_rules : Rules
no_rules = record { included = []; excluded = [] }

abbrev sync_options : SyncOptions
sync_options = record {
  sync_args = codes "/d" ∷ codes "s3://logs/a/b" ∷ [];
  delete_missing = false;
  rules = no_rules;
}

abbrev rm_options : RmOptions
rm_options = record { rm_args = codes "s3://logs/a/b" ∷ []; recursive = true; rm_rules = no_rules }

rsync_ends : do_rsync counting false (some sync_options) 0 ≡ ok (0, 0)
unfolding do_rsync sync_args_of split_last sync_up all_exist rounds after_schedule after_run resolve
    starts_with
rsync_ends = rw parse_logs refl

do_rsync-zero_example : Finished counting 0
do_rsync-zero_example = do_rsync-zero counting (some sync_options) 0 rsync_ends

rm_ends : do_rm counting false (some rm_options) 0 ≡ ok (0, 0)
unfolding do_rm rm_args_of rounds after_schedule after_run resolve_all resolve
rm_ends = rw parse_logs refl
