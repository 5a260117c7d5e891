-- ===== src/Commands/Ls.antt =====
-- `do_ls` of es3/commands.cpp, with `get_file_info`. What the agenda's run leaves in the map of
-- descriptions is an argument, as a function of the paths that have a task.
pub mod Lines
use extreme_s.Prelude.{
  ℕ, zero, suc, ◌+◌, ◌%◌, ◌^◌, Bool, true, false, not, List, [], ◌∷◌, ◌++◌, Option, none, some, Str,
  length, map, ltb, ◌==◌, if◌then◌else◌, Outcome, ok, fail, std_error, ◌>>=◌,
}
use extreme_s.S3Path.{S3Path}
use extreme_s.Sync.Tree.{Subdirs, end, sub, S3File, S3Directory, absolute, files, subdirs, values}
use extreme_s.Metadata.{FileDesc}
use extreme_s.Commands.{World, to_int, resolve}

pub record Details (W : Type 0) : Type 0 where
  pub find_mtime_and_size : S3Path → W → Outcome FileDesc
  pub run_infos : List S3Path → W → ℕ × W × (S3Path → Option FileDesc)

-- A line of the output.
pub data Line : Type 0 where
  dir_line : S3Path → Line
  file_line : ℕ → ℕ → S3Path → Line

pub record Listed : Type 0 where
  pub lines : List Line
  pub files_num : ℕ
  pub dirs_num : ℕ
  pub total : ℕ

dir_lines : Subdirs S3Path S3File → List Line
dir_lines end = []
dir_lines (sub k d ds) = dir_line (absolute d) ∷ dir_lines ds

-- `total+=size`, in 64 bits.
total_of : List S3File → ℕ → ℕ
total_of [] total = total
total_of (f ∷ fs) total = total_of fs ((total + f.size) % 2 ^ 64)

abbrev pub line_of : S3File → FileDesc → Line
line_of f md = file_line md.mtime md.raw_size f.absolute_name

module _ {W : Type 0} (world : World W) (details : Details W) where
  -- The loop that asks for one file after the other.
  pub ask_each : List S3File → W → Outcome (List Line)
  ask_each [] w = ok []
  ask_each (f ∷ fs) w = details.find_mtime_and_size f.absolute_name w >>= λ md.
      ask_each fs w >>= λ rest. ok (line_of f md ∷ rest)

  -- `desc_map.at(...)` throws if there is no entry.
  at_path : Option FileDesc → Outcome FileDesc
  at_path none = fail std_error
  at_path (some md) = ok md

  -- The loop over the map.
  pub from_map : (S3Path → Option FileDesc) → List S3File → Outcome (List Line)
  unfolding at_path
  from_map desc_map [] = ok []
  from_map desc_map (f ∷ fs) = at_path (desc_map f.absolute_name) >>= λ md.
      from_map desc_map fs >>= λ rest. ok (line_of f md ∷ rest)

  pub shown : S3Directory → W → List Line → ℕ × Option Listed × W
  unfolding dir_lines total_of
  shown cur w file_lines = (
    0,
    some (record {
      lines = dir_lines (subdirs cur) ++ file_lines;
      files_num = length (values (files cur));
      dirs_num = length (dir_lines (subdirs cur));
      total = total_of (values (files cur)) 0;
    }),
    w,
  )

  -- What follows the run of the tasks.
  after_infos : S3Directory → ℕ × W × (S3Path → Option FileDesc) → Outcome (ℕ × Option Listed × W)
  unfolding shown from_map
  after_infos cur (failed, w, desc_map) =
      if not (to_int failed == 0)
      then ok (to_int failed, none, w)
      else if not (world.tasks_count w == 0)
      then ok (4, none, w)
      else (from_map desc_map (values (files cur)) >>= λ ls. ok (shown cur w ls))

  pub list_files : S3Directory → W → Outcome (ℕ × Option Listed × W)
  unfolding after_infos ask_each
  list_files cur w =
      if ltb 10 (length (values (files cur)))
      then after_infos cur
          (details.run_infos (map (λ (f : S3File). f.absolute_name) (values (files cur))) w)
      else (ask_each (values (files cur)) w >>= λ ls. ok (shown cur w ls))

  pub do_ls : Bool → List Str → W → Outcome (ℕ × Option Listed × W)
  unfolding list_files
  do_ls true params w = ok (0, none, w)
  do_ls false [] w = ok (2, none, w)
  do_ls false (a ∷ b ∷ rest) w = ok (2, none, w)
  do_ls false (tgt ∷ []) w =
      resolve world tgt w >>= λ path. world.list_root path w >>= λ cur. list_files cur w
