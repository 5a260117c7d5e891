-- ===== src/S3Path.antt =====
-- Remote names: `s3_path`, `derive` and `operator <` of es3/connection.h; `parse_path` and
-- `extract_leaf` of es3/connection.cpp.
pub mod Laws
pub mod Tests
use extreme_s.Prelude.{
  ℕ, Bool, true, false, not, ◌&&◌, ◌||◌, List, [], ◌∷◌, ◌++◌, Option, none, some, Str, codes,
  str_lt, starts_with, contains, last?, ◌==◌, if◌then◌else◌, drop, Outcome, ok, fail, es3_error,
  std_error, err_fatal, ◌>>=◌,
}

pub record S3Path : Type 0 where
  pub zone : Str
  pub bucket : Str
  pub path : Str

-- The test of the last byte of the left path and the first of the right one.
abbrev needs_slash : Str → Str → Bool
needs_slash left [] = false
needs_slash left (c ∷ right) = elim (last? left) [
  | none ↦ not (c == b'/')
  | some d ↦ not (d == b'/') && not (c == b'/')
]

-- `derive`. Every path of the program begins with a slash; the source's `rbegin` has no meaning on
-- an empty one.
pub derive : S3Path → Str → S3Path
derive left right = record left {
  path = (if needs_slash left.path right then left.path ++ codes "/" else left.path) ++ right;
}

-- `operator <`
pub path_lt : S3Path → S3Path → Bool
path_lt left right =
    str_lt left.zone right.zone || str_lt left.bucket right.bucket || str_lt left.path right.path

-- `operator <<`
pub print_path : S3Path → Str
print_path p = codes "s3://" ++ (p.bucket ++ p.path)

-- What stands before the first slash, and what begins with it (nothing if there is no slash).
split_slash : Str → Str × Str
split_slash [] = ([], [])
split_slash (c ∷ s) =
    let (before, rest) = split_slash s in if c == b'/' then ([], c ∷ s) else (c ∷ before, rest)

-- The last two statements of `parse_path`.
check_path : S3Path → Outcome S3Path
check_path p = if contains p.path (codes "//") then fail (es3_error err_fatal) else ok p

bucket_and_path : Str × Str → Outcome S3Path
unfolding check_path
bucket_and_path ([], c ∷ path) = fail (es3_error err_fatal)
bucket_and_path (bucket, []) = check_path (record { zone = []; bucket = bucket; path = codes "/" })
bucket_and_path (b ∷ bucket, c ∷ path) =
    check_path (record { zone = []; bucket = b ∷ bucket; path = c ∷ path })

pub parse_path : Str → Outcome S3Path
unfolding bucket_and_path split_slash
parse_path url =
    if starts_with url (codes "s3://")
    then bucket_and_path (split_slash (drop 5 url))
    else fail std_error

-- What stands behind the last slash; none if there is no slash.
after_last_slash : Str → Option Str
after_last_slash [] = none
after_last_slash (c ∷ s) = elim (after_last_slash s) [
  | none ↦ if c == b'/' then some s else none
  | some leaf ↦ some leaf
]

pub extract_leaf : Str → Str
unfolding after_last_slash
extract_leaf path = elim (after_last_slash path) [
  | none ↦ path
  | some [] ↦ path
  | some (c ∷ leaf) ↦ c ∷ leaf
]
