-- ===== src/Commands/Usage/Totals.antt =====
-- The totals of `get_size` against the list of all files.
use extreme_s.Prelude.{ℕ, suc, ◌+◌, ◌%◌, ◌^◌, ◌<◌, ◌≡◌, refl, [], ◌∷◌, arith}
use extreme_s.Prelude.Dict.{Dict}
use extreme_s.S3Path.{S3Path}
use extreme_s.Sync.Tree.{dir, Subdirs, end, sub, S3File, S3Directory}
use extreme_s.Sync.Merge.Laws.{
  weight, in_files, in_dir, in_subs, in_dir-dir, in_subs-sub, in_subs-end,
}
use extreme_s.Commands.Usage.{
  Stat, add64, count_file, count_files, get_size_of, get_size_below, get_size, no_stat,
}

record Fits (out : Stat) : Type 0 where
  size_fits : out.size < 2 ^ 64
  file_num_fits : out.file_num < 2 ^ 64
  dir_num_fits : out.dir_num < 2 ^ 64

-- The sums, as far as a `uint64_t` holds them.
pub record Adds (bytes number dirs : ℕ) (out r : Stat) : Type 0 where
  pub size_sum : r.size ≡ (out.size + bytes) % 2 ^ 64
  pub file_num_sum : r.file_num ≡ (out.file_num + number) % 2 ^ 64
  pub dir_num_sum : r.dir_num ≡ (out.dir_num + dirs) % 2 ^ 64

-- How many directories stand below.
mutual
  pub count_dirs : S3Directory → ℕ
  count_dirs (dir n p fs ds) = count_dirs_below ds

  pub count_dirs_below : Subdirs S3Path S3File → ℕ
  count_dirs_below end = 0
  count_dirs_below (sub k d ds) = suc (count_dirs d + count_dirs_below ds)

abbrev pub bytes_of : S3File → ℕ
bytes_of f = f.size

abbrev pub one : S3File → ℕ
one f = 1

Adds-Fits : {b n d : ℕ} {out r : Stat} → Adds b n d out r → Fits r
Adds-Fits a = record {
  size_fits = omega (arith, a.size_sum);
  file_num_fits = omega (arith, a.file_num_sum);
  dir_num_fits = omega (arith, a.dir_num_sum);
}

Adds-then :
    {b c n m d e : ℕ} {out middle r : Stat}
    → Adds b n d out middle
    → Adds c m e middle r
    → Adds (b + c) (n + m) (d + e) out r
Adds-then a a' = record {
  size_sum = omega (arith, a.size_sum, a'.size_sum);
  file_num_sum = omega (arith, a.file_num_sum, a'.file_num_sum);
  dir_num_sum = omega (arith, a.dir_num_sum, a'.dir_num_sum);
}

-- The same sums under other names.
Adds-same :
    {b c n m d e : ℕ} {out r : Stat} → b ≡ c → n ≡ m → d ≡ e → Adds b n d out r → Adds c m e out r
Adds-same x y z a = record {
  size_sum = omega (arith, a.size_sum, x);
  file_num_sum = omega (arith, a.file_num_sum, y);
  dir_num_sum = omega (arith, a.dir_num_sum, z);
}

Adds-none : (out : Stat) → Fits out → Adds 0 0 0 out out
Adds-none out h = record {
  size_sum = omega (arith, h.size_fits);
  file_num_sum = omega (arith, h.file_num_fits);
  dir_num_sum = omega (arith, h.dir_num_fits);
}

count_file-Adds : (f : S3File) (out : Stat) → Fits out → Adds f.size 1 0 out (count_file f out)
unfolding count_file
count_file-Adds f out h = record {
  size_sum = refl;
  file_num_sum = refl;
  dir_num_sum = omega (arith, h.dir_num_fits);
}

count_files-Adds :
    (fs : Dict S3File) (out : Stat)
    → Fits out
    → Adds (in_files bytes_of fs) (in_files one fs) 0 out (count_files fs out)
unfolding count_files weight
count_files-Adds [] out h = Adds-none out h
count_files-Adds ((k, f) ∷ fs) out h =
    let first = count_file-Adds f out h in
    Adds-then first (count_files-Adds fs (count_file f out) (Adds-Fits first))

mutual
  unfolding get_size_of count_dirs

  get_size_of-Adds :
      (d : S3Directory) (out : Stat)
      → Fits out
      → Adds (in_dir bytes_of d) (in_dir one d) (count_dirs d) out (get_size_of d out)
  get_size_of-Adds (dir n p fs ds) out h =
      let first = count_files-Adds fs out h in
      Adds-same (omega (arith, in_dir-dir bytes_of n p fs ds))
        (omega (arith, in_dir-dir one n p fs ds)) (omega arith)
        (Adds-then first (get_size_below-Adds ds (count_files fs out) (Adds-Fits first)))

  get_size_below-Adds :
      (ds : Subdirs S3Path S3File) (out : Stat)
      → Fits out
      → Adds
          (in_subs bytes_of ds)
          (in_subs one ds)
          (count_dirs_below ds)
          out
          (get_size_below ds out)
  get_size_below-Adds end out h =
      Adds-same (omega (arith, in_subs-end {P = S3Path} bytes_of end refl))
        (omega (arith, in_subs-end {P = S3Path} one end refl)) refl (Adds-none out h)
  get_size_below-Adds (sub k d ds) out h =
      let counted = record out { dir_num = add64 out.dir_num 1 } in
      let first : Adds 0 0 1 out counted = record {
        size_sum = omega (arith, h.size_fits);
        file_num_sum = omega (arith, h.file_num_fits);
        dir_num_sum = refl;
      } in
      let second = Adds-then first (get_size_of-Adds d counted (Adds-Fits first)) in
      Adds-same (omega (arith, in_subs-sub bytes_of k d ds)) (omega (arith, in_subs-sub one k d ds))
        (omega arith)
        (Adds-then second (get_size_below-Adds ds (get_size_of d counted) (Adds-Fits second)))

-- The totals of a tree are, modulo 2 ^ 64, the sum of the sizes and the number of all its files at
-- every depth, and the number of the directories below its root.
pub get_size-Adds :
    (d : S3Directory)
    → Adds (in_dir bytes_of d) (in_dir one d) (count_dirs d) no_stat (get_size d no_stat)
unfolding get_size
get_size-Adds d =
    get_size_of-Adds d no_stat
      (record { size_fits = omega arith; file_num_fits = omega arith; dir_num_fits = omega arith })
