-- ===== src/Commands/Usage.antt =====
-- `get_size` and `do_du` of es3/commands.cpp.
pub mod Totals
pub mod Times
pub mod Codes
mod Tests
use extreme_s.Prelude.{
  ℕ, zero, suc, ◌+◌, ◌%◌, ◌^◌, Bool, true, false, not, List, [], ◌∷◌, Option, none, some, Str,
  str_lt, ◌==◌, if◌then◌else◌, Outcome, ok, ◌>>=◌,
}
use extreme_s.Prelude.Dict.{Dict}
use extreme_s.S3Path.{S3Path}
use extreme_s.Sync.Tree.{Dir, dir, Subdirs, end, sub, S3File, S3Directory}
use extreme_s.Commands.{World, to_int, resolve}

-- `stat_struct`
pub record Stat : Type 0 where
  pub size : ℕ
  pub file_num : ℕ
  pub dir_num : ℕ
  pub recent_timestamp : Str

-- Additions to a `uint64_t`.
abbrev pub add64 : ℕ → ℕ → ℕ
add64 a b = (a + b) % 2 ^ 64

-- The body of the loop over files.
count_file : S3File → Stat → Stat
count_file f out = record {
  size = add64 out.size f.size;
  file_num = add64 out.file_num 1;
  dir_num = out.dir_num;
  recent_timestamp =
      if str_lt out.recent_timestamp f.mtime_str then f.mtime_str else out.recent_timestamp;
}

count_files : Dict S3File → Stat → Stat
unfolding count_file
count_files [] out = out
count_files ((k, f) ∷ fs) out = count_files fs (count_file f out)

mutual
  get_size_of : S3Directory → Stat → Stat
  get_size_of (dir n p fs ds) out = get_size_below ds (count_files fs out)

  -- The loop over subdirectories.
  get_size_below : Subdirs S3Path S3File → Stat → Stat
  get_size_below end out = out
  get_size_below (sub k d ds) out =
      get_size_below ds (get_size_of d (record out { dir_num = add64 out.dir_num 1 }))

pub get_size : S3Directory → Stat → Stat
unfolding get_size_of count_files
get_size cur out = get_size_of cur out

abbrev pub no_stat : Stat
no_stat = record { size = 0; file_num = 0; dir_num = 0; recent_timestamp = [] }

module _ {W : Type 0} (world : World W) where
  -- The code, and the totals if they are printed.
  totals_after : ℕ × W → ℕ × Option Stat × W
  totals_after (failed, w) =
      if not (to_int failed == 0)
      then (to_int failed, none, w)
      else if not (world.tasks_count w == 0)
      then (4, none, w)
      else (0, some (get_size (world.walked_root w) no_stat), w)

  pub do_du : Bool → List Str → W → Outcome (ℕ × Option Stat × W)
  unfolding totals_after
  do_du true params w = ok (0, none, w)
  do_du false [] w = ok (2, none, w)
  do_du false (a ∷ b ∷ rest) w = ok (2, none, w)
  do_du false (tgt ∷ []) w = resolve world tgt w >>= λ path.
      world.recursive_walk path w >>= λ w'. ok (totals_after (world.run w'))
