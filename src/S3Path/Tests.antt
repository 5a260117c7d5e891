-- ===== src/S3Path/Tests.antt =====
-- Names of buckets and keys.
use extreme_s.Prelude.{◌≡◌, refl, [], codes, true, false, ok, arith, str_lt, contains, starts_with}
use extreme_s.S3Path.{
  S3Path, parse_path, print_path, path_lt, bucket_and_path, split_slash, check_path,
}
use extreme_s.S3Path.Laws.{parse_path-print_path, path_lt_both}

abbrev pub logs : S3Path
logs = record { zone = []; bucket = codes "logs"; path = codes "/a/b" }

no_double_slash : contains (codes "/a/b") (codes "//") ≡ false
unfolding contains starts_with
no_double_slash = refl

parse_path-print_path_example : parse_path (print_path logs) ≡ ok logs
parse_path-print_path_example =
    parse_path-print_path [] (codes "logs") (codes "a/b") (λ e. cc)
      (omega arith, (omega arith, (omega arith, (omega arith, tt)))) no_double_slash

pub parse_logs : parse_path (codes "s3://logs/a/b") ≡ ok logs
unfolding parse_path bucket_and_path split_slash check_path contains starts_with
parse_logs = refl

a_before_b : str_lt (codes "a") (codes "b") ≡ true
unfolding str_lt
a_before_b = refl

path_lt_both_example :
    (path_lt
        (record { zone = []; bucket = codes "a"; path = codes "b" })
        (record { zone = []; bucket = codes "b"; path = codes "a" })
      ≡ true)
    × (path_lt
          (record { zone = []; bucket = codes "b"; path = codes "a" })
          (record { zone = []; bucket = codes "a"; path = codes "b" })
        ≡ true)
path_lt_both_example = path_lt_both [] (codes "a") (codes "b") a_before_b
