-- ===== src/Commands.antt =====
-- es3/commands.cpp: the commands, their exit codes among them. The parsed options, which Boost makes of
-- the parameters, are arguments; the rest of the program and the operating system are the `World`, whose
-- state each command threads. (`walked_root` is what the pointer leads to that a recursive walk gave.) What is printed to the terminal is left out, but for the totals.
pub mod Rounds
pub mod Usage
pub mod Small
pub mod Ls
use extreme_s.Prelude.{
  ℕ, ◌+◌, ◌%◌, ◌^◌, Bool, true, false, not, List, [], ◌∷◌, Str, codes, starts_with, Outcome, ok,
  ◌>>=◌,
}
use extreme_s.S3Path.{S3Path, parse_path}
use extreme_s.Sync.Tree.{S3Directory}
use extreme_s.Sync.Schedule.{Synchronizer}

-- What the commands call: the file system, the connection, the synchronizer and the agenda. Counts that
-- `agenda::run` returns as `size_t` are kept as they are.
pub record World (W : Type 0) : Type 0 where
  pub exists_at : Str → W → Bool
  pub create_directories : Str → W → Outcome W
  pub touch : Str → W → ℕ × W
  pub find_region : Str → W → Outcome Str
  pub list_root : S3Path → W → Outcome S3Directory
  pub upload_empty : S3Path → W → Outcome W
  pub create_schedule : Synchronizer → Bool → Bool → Bool → W → Outcome (Bool × W)
  pub recursive_walk : S3Path → W → Outcome W
  pub walked_root : W → S3Directory
  pub recursive_publication : List Str → List Str → S3Path → W → Outcome W
  pub run : W → ℕ × W
  pub tasks_count : W → ℕ
  pub published : W → ℕ

-- `int res=ag->run()`, by its residue.
abbrev pub to_int : ℕ → ℕ
to_int n = n % 2 ^ 32

abbrev pub is_remote : Str → Bool
is_remote name = starts_with name (codes "s3://")

module _ {W : Type 0} (world : World W) where
  -- `parse_path`, with the zone of its bucket.
  pub resolve : Str → W → Outcome S3Path
  resolve url w = parse_path url >>= λ path.
      world.find_region path.bucket w >>= λ region. ok (record path { zone = region })

  pub resolve_all : List Str → W → Outcome (List S3Path)
  unfolding resolve
  resolve_all [] w = ok []
  resolve_all (url ∷ urls) w =
      resolve url w >>= λ path. resolve_all urls w >>= λ paths. ok (path ∷ paths)
