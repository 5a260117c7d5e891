-- ===== src/Sync/Delete/Laws.antt =====
-- What a deletion of a remote tree schedules.
use extreme_s.Prelude.{
  ◌≡◌, refl, Bool, true, false, not, ◌&&◌, List, [], ◌∷◌, ◌++◌, if◌then◌else◌, append_assoc,
  Outcome, ok, fail, es3_error, err_fatal, both, ap, All, map, ◌>>=◌, Ensures, Ensures-both,
  Ensures-bind_eq,
}
use extreme_s.Prelude.Dict.{Dict}
use extreme_s.S3Path.{S3Path}
use extreme_s.Sync.Tree.{
  dir, Subdirs, end, sub, S3File, S3Directory, no_subs, subdirs, values, all_files, all_files_below,
}
use extreme_s.Sync.Delete.{
  Task, delete_remote, Rules, is_included, delete_file, delete_files, delete_tree, delete_subdirs,
  delete_possibly_recursive,
}

-- The files of a list that the rules take in, in order; the rules may throw on a name.
pub taken_in : Rules → List S3File → Outcome (List S3File)
taken_in r [] = ok []
taken_in r (f ∷ fs) = is_included r f.absolute_name.path >>= λ take_in.
    taken_in r fs >>= λ rest. ok (if take_in then f ∷ rest else rest)

-- The reference: one deletion for each of them.
pub deletions : Rules → List S3File → Outcome (List Task)
deletions r fs = taken_in r fs >>= λ gs. ok (map (λ (f : S3File). delete_remote f.absolute_name) gs)

deletions-cons :
    (r : Rules) (f : S3File) (fs : List S3File)
    → deletions r (f ∷ fs) ≡ both (delete_file r f) (deletions r fs)
unfolding deletions taken_in delete_file
deletions-cons r f fs = by_rules (is_included r f.absolute_name.path) (taken_in r fs)
  where
    by_rules :
        (m : Outcome Bool) (k : Outcome (List S3File))
        → (m >>= λ take_in. k >>= λ rest. ok (if take_in then f ∷ rest else rest))
            >>= (λ gs. ok (map (λ (g : S3File). delete_remote g.absolute_name) gs))
          ≡ both
              (m >>= λ take_in. if take_in then ok (delete_remote f.absolute_name ∷ []) else ok [])
              (k >>= λ gs. ok (map (λ (g : S3File). delete_remote g.absolute_name) gs))
    by_rules (fail e) k = refl
    by_rules (ok true) (ok gs) = refl
    by_rules (ok false) (ok gs) = refl
    by_rules (ok true) (fail e) = refl
    by_rules (ok false) (fail e) = refl

both_assoc : (a b c : Outcome (List Task)) → both (both a b) c ≡ both a (both b c)
both_assoc (ok x) (ok y) (ok z) = ap ok (append_assoc x y z)
both_assoc (ok x) (ok y) (fail e) = refl
both_assoc (ok x) (fail e) c = refl
both_assoc (fail e) b c = refl

deletions-append :
    (r : Rules) (fs gs : List S3File)
    → deletions r (fs ++ gs) ≡ both (deletions r fs) (deletions r gs)
unfolding deletions taken_in
deletions-append r [] gs = left_unit (deletions r gs)
  where
    left_unit : (m : Outcome (List Task)) → m ≡ both (ok []) m
    left_unit (ok x) = refl
    left_unit (fail e) = refl
deletions-append r (f ∷ fs) gs =
    rw (deletions-cons r f (fs ++ gs), deletions-cons r f fs, deletions-append r fs gs)
      (sym_assoc (delete_file r f) (deletions r fs) (deletions r gs))
  where
    sym_assoc : (a b c : Outcome (List Task)) → both a (both b c) ≡ both (both a b) c
    sym_assoc a b c = rw (both_assoc a b c)

delete_files-deletions :
    (r : Rules) (fs : Dict S3File) → delete_files r fs ≡ deletions r (values fs)
unfolding delete_files deletions taken_in
delete_files-deletions r [] = refl
delete_files-deletions r ((k, f) ∷ fs) =
    rw (deletions-cons r f (values fs), delete_files-deletions r fs)

module _ (r : Rules) where
  mutual
    unfolding delete_tree all_files deletions taken_in

    delete_tree-deletions : (d : S3Directory) → delete_tree r d false ≡ deletions r (all_files d)
    delete_tree-deletions (dir n p fs ds) = rw (
      delete_files-deletions r fs,
      delete_subdirs-deletions ds,
      deletions-append r (values fs) (all_files_below ds),
    )

    delete_subdirs-deletions :
        (ds : Subdirs S3Path S3File) → delete_subdirs r ds ≡ deletions r (all_files_below ds)
    delete_subdirs-deletions end = refl
    delete_subdirs-deletions (sub k d ds) = rw (
      delete_tree-deletions d,
      delete_subdirs-deletions ds,
      deletions-append r (all_files d) (all_files_below ds),
    )

  -- A deletion that may not recurse is refused when there is a subdirectory. Any other one
  -- schedules, in order and at every depth, the deletion of each file that the rules take in, and
  -- nothing else.
  pub delete_possibly_recursive_lem :
      (d : S3Directory) (non_recursive : Bool)
      → delete_possibly_recursive r d non_recursive ≡ (
          if non_recursive && not (no_subs (subdirs d))
          then fail (es3_error err_fatal)
          else deletions r (all_files d))
  unfolding delete_possibly_recursive
  delete_possibly_recursive_lem (dir n p fs ds) true =
      ap
        (λ (rest : Outcome (List Task)).
          if not (no_subs ds) then fail (es3_error err_fatal) else rest)
        (delete_tree-deletions (dir n p fs ds))
  delete_possibly_recursive_lem (dir n p fs ds) false = delete_tree-deletions (dir n p fs ds)

module _ (r : Rules) (P : Task → Type 0) where
  pub deletions-Ensures :
      (fs : List S3File)
      → ((f : S3File)
          → is_included r f.absolute_name.path ≡ ok true
          → P (delete_remote f.absolute_name))
      → Ensures (All P) (deletions r fs)
  unfolding deletions taken_in delete_file
  deletions-Ensures [] h = tt
  deletions-Ensures (f ∷ fs) h = rw (deletions-cons r f fs) (
      Ensures-both P (delete_file r f) (deletions r fs)
        (Ensures-bind_eq (All P) (is_included r f.absolute_name.path) _ pick)
        (deletions-Ensures fs h))
    where
      pick :
          (b : Bool)
          → is_included r f.absolute_name.path ≡ ok b
          → Ensures (All P) (if b then ok (delete_remote f.absolute_name ∷ []) else ok [])
      pick true e = (h f e, tt)
      pick false e = tt

  -- What holds of the deletion of each file that the rules take in holds of all that is scheduled.
  pub delete_possibly_recursive-Ensures :
      (d : S3Directory)
      → ((f : S3File)
          → is_included r f.absolute_name.path ≡ ok true
          → P (delete_remote f.absolute_name))
      → Ensures (All P) (delete_possibly_recursive r d false)
  delete_possibly_recursive-Ensures d h =
      rw (delete_possibly_recursive_lem r d false) (deletions-Ensures (all_files d) h)
