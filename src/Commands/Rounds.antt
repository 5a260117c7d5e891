-- ===== src/Commands/Rounds.antt =====
-- `do_rsync` and `do_rm` of es3/commands.cpp.
pub mod Laws
pub mod Tests
use extreme_s.Prelude.{
  ℕ, zero, suc, ◌+◌, Bool, true, false, not, ◌&&◌, List, [], ◌∷◌, Option, none, some, Str, length,
  ltb, ◌==◌, if◌then◌else◌, Outcome, ok, fail, ◌>>=◌,
}
use extreme_s.S3Path.{S3Path}
use extreme_s.Sync.Delete.{Rules}
use extreme_s.Sync.Schedule.{Synchronizer}
use extreme_s.Commands.{World, to_int, is_remote, resolve, resolve_all}

-- What Boost makes of the parameters; an error of its own is `none` in the arguments of the commands.
pub record SyncOptions : Type 0 where
  pub sync_args : List Str
  pub delete_missing : Bool
  pub rules : Rules

pub record RmOptions : Type 0 where
  pub rm_args : List Str
  pub recursive : Bool
  pub rm_rules : Rules

-- The synchronizers that the commands make.
abbrev pub uploading : SyncOptions → List Str → S3Path → Synchronizer
uploading o sources path = record {
  remote = path ∷ [];
  local = sources;
  do_upload = true;
  delete_missing = o.delete_missing;
  rules = o.rules;
}

abbrev pub downloading : SyncOptions → Str → List S3Path → Synchronizer
downloading o tgt paths = record {
  remote = paths;
  local = tgt ∷ [];
  do_upload = false;
  delete_missing = o.delete_missing;
  rules = o.rules;
}

abbrev pub removing : RmOptions → List S3Path → Synchronizer
removing o paths = record {
  remote = paths;
  local = [];
  do_upload = true;
  delete_missing = true;
  rules = o.rm_rules;
}

-- `args.back()` and `args.pop_back()`.
pub split_last : Str → List Str → List Str × Str
split_last a [] = ([], a)
split_last a (b ∷ rest) = let (front, last) = split_last b rest in (a ∷ front, last)

module _ {W : Type 0} (world : World W) where
  -- The end of a round.
  pub after_run : ℕ × W → (W → Outcome (ℕ × W)) → Outcome (ℕ × W)
  after_run (failed, w) again =
      if not (to_int failed == 0)
      then ok (to_int failed, w)
      else if world.tasks_count w == 0
      then ok (0, w)
      else again w

  pub after_schedule : (W → Outcome (ℕ × W)) → Bool × W → Outcome (ℕ × W)
  unfolding after_run
  after_schedule again (false, w) = ok (2, w)
  after_schedule again (true, w) = after_run (world.run w) again

  -- `for(int f=0;f<3;++f)`, and what follows it.
  pub rounds : ℕ → Synchronizer → Bool → Bool → W → Outcome (ℕ × W)
  unfolding after_schedule
  rounds zero s delete_mode non_recursive w =
      if not (world.tasks_count w == 0) then ok (4, w) else ok (0, w)
  rounds (suc left) s delete_mode non_recursive w =
      world.create_schedule s false delete_mode non_recursive w >>= λ r.
      after_schedule (λ w'. rounds left s delete_mode non_recursive w') r

  all_exist : List Str → W → Bool
  all_exist [] w = true
  all_exist (path ∷ paths) w = world.exists_at path w && all_exist paths w

  sync_up : SyncOptions → List Str → Str → W → Outcome (ℕ × W)
  unfolding rounds all_exist
  sync_up o sources tgt w = resolve world tgt w >>= λ path.
      if all_exist sources w then rounds 3 (uploading o sources path) false false w else ok (3, w)

  -- The destination is made if it is not there.
  with_destination : Str → W → (W → Outcome (ℕ × W)) → Outcome (ℕ × W)
  with_destination tgt w rest =
      if world.exists_at tgt w
      then rest w
      else (world.create_directories tgt w >>= λ w'.
          if world.exists_at tgt w' then rest w' else ok (3, w'))

  download_into : SyncOptions → List Str → Str → W → Outcome (ℕ × W)
  unfolding rounds
  download_into o sources tgt w =
      resolve_all world sources w >>= λ paths. rounds 3 (downloading o tgt paths) false false w

  sync_down : SyncOptions → List Str → Str → W → Outcome (ℕ × W)
  unfolding download_into with_destination
  sync_down o sources tgt w = with_destination tgt w (λ w'. download_into o sources tgt w')

  sync_args_of : SyncOptions → List Str → W → Outcome (ℕ × W)
  unfolding sync_up sync_down split_last
  sync_args_of o [] w = ok (2, w)
  sync_args_of o (a ∷ []) w = ok (2, w)
  sync_args_of o (a ∷ b ∷ rest) w =
      let (sources, tgt) = split_last a (b ∷ rest) in
      if is_remote tgt then sync_up o sources tgt w else sync_down o sources tgt w

  pub do_rsync : Bool → Option SyncOptions → W → Outcome (ℕ × W)
  unfolding sync_args_of
  do_rsync true options w = ok (0, w)
  do_rsync false none w = ok (2, w)
  do_rsync false (some o) w = sync_args_of o o.sync_args w

  rm_args_of : RmOptions → List Str → W → Outcome (ℕ × W)
  unfolding rounds
  rm_args_of o [] w = ok (2, w)
  rm_args_of o (a ∷ rest) w = resolve_all world (a ∷ rest) w >>= λ paths.
      rounds 3 (removing o paths) true (not o.recursive) w

  pub do_rm : Bool → Option RmOptions → W → Outcome (ℕ × W)
  unfolding rm_args_of
  do_rm true options w = ok (0, w)
  do_rm false none w = ok (2, w)
  do_rm false (some o) w = rm_args_of o o.rm_args w
