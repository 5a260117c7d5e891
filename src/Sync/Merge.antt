-- ===== src/Sync/Merge.antt =====
-- `merge_to_left` of es3/sync.cpp, for local and for remote trees.
pub mod Laws
pub mod Success
use extreme_s.Prelude.{
  Bool, true, false, List, [], ◌∷◌, Option, none, some, Str, if◌then◌else◌, Outcome, ok, fail,
  es3_error, err_fatal, ◌>>=◌,
}
use extreme_s.Prelude.Dict.{Dict, has, insert}
use extreme_s.Sync.Tree.{
  Dir, dir, Subdirs, end, sub, dir_name, absolute, files, subdirs, lookup_sub, has_sub, place_sub,
  replace_sub,
}

-- The name that a file carries is a parameter, as the template's file type is.
module _ {P F : Type 0} (name_of : F → Str) where
  -- The loop over the right side's files, with the left side's files so far.
  merge_files : Dict F → Dict F → Subdirs P F → Outcome (Dict F)
  merge_files [] lefts dirs = ok lefts
  merge_files ((k, f) ∷ rights) lefts dirs =
      let rest = merge_files rights (insert (name_of f) f lefts) dirs in
      if has (name_of f) lefts
      then fail (es3_error err_fatal)
      else if has_sub (name_of f) dirs
      then fail (es3_error err_fatal)
      else rest

  -- One directory of the right side: merged with the one of its name, or put in as it is.
  merge_into :
      Dir P F
      → Option (Dir P F)
      → (Dir P F → Outcome (Dir P F))
      → Subdirs P F
      → Outcome (Subdirs P F)
  merge_into d none merge_with lefts = ok (place_sub (dir_name d) d lefts)
  merge_into d (some left) merge_with lefts =
      merge_with left >>= λ d'. ok (replace_sub (dir_name d) d' lefts)

  mutual
    -- `merge_to_left(left, right)` gives the new left side.
    merge : Dir P F → Dir P F → Outcome (Dir P F)
    merge left (dir n p fs ds) = merge_files fs (files left) (subdirs left) >>= λ fs'.
        merge_subs ds fs' (subdirs left) >>= λ ds'. ok (dir (dir_name left) (absolute left) fs' ds')

    -- The loop over the right side's directories, with the left side's so far.
    merge_subs : Subdirs P F → Dict F → Subdirs P F → Outcome (Subdirs P F)
    merge_subs end fs lefts = ok lefts
    merge_subs (sub k d ds) fs lefts =
        let merged = merge_into d (lookup_sub (dir_name d) lefts) (λ left. merge left d) lefts in
        if has (dir_name d) fs
        then fail (es3_error err_fatal)
        else (merged >>= λ lefts'. merge_subs ds fs lefts')

  pub merge_to_left : Dir P F → Dir P F → Outcome (Dir P F)
  unfolding merge merge_files merge_into
  merge_to_left left right = merge left right
