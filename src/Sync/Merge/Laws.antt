-- ===== src/Sync/Merge/Laws.antt =====
-- No file is lost or made up by a merge.
use extreme_s.Prelude.{
  ℕ, ◌+◌, ◌≡◌, refl, inl, inr, true, false, List, [], ◌∷◌, ◌++◌, Option, none, some, arith, Str,
  str_eq, Outcome, fail, es3_error, err_fatal, Ensures, Ensures-if, Ensures-bind, Ensures-mono, ◌⊎◌,
  Bool-cases,
}
use extreme_s.Prelude.Dict.{Dict, has, insert, place}
use extreme_s.Sync.Tree.{
  Dir, dir, Subdirs, end, sub, dir_name, files, subdirs, lookup_sub, has_sub, place_sub,
  replace_sub, values, all_files, all_files_below,
}
use extreme_s.Sync.Merge.{merge_files, merge, merge_subs, merge_into, merge_to_left}

-- The sum of a measure over files. As the measure may be any, it counts each file as often as it is there.
unfoldable pub weight {ℓ} : {F : Type ℓ} → (F → ℕ) → List F → ℕ
weight w [] = 0
weight w (f ∷ fs) = w f + weight w fs

pub weight-append {ℓ} :
    {F : Type ℓ} (w : F → ℕ) (xs ys : List F) → weight w (xs ++ ys) ≡ weight w xs + weight w ys
unfolding weight
weight-append w [] ys = omega arith
weight-append w (x ∷ xs) ys = omega (arith, weight-append w xs ys)

module _ {F : Type 0} (w : F → ℕ) where
  abbrev pub in_files : Dict F → ℕ
  in_files m = weight w (values m)

  place-weight : (k : Str) (f : F) (m : Dict F) → in_files (place k f m) ≡ w f + in_files m
  unfolding place weight
  place-weight k f [] = refl
  place-weight k f ((j, g) ∷ m) = ground (arith, place-weight k f m)

  pub insert-weight :
      (k : Str) (f : F) (m : Dict F) → has k m ≡ false → in_files (insert k f m) ≡ w f + in_files m
  unfolding insert
  insert-weight k f m h = rw h (place-weight k f m)

module _ {P F : Type 0} (w : F → ℕ) where
  abbrev pub in_dir : Dir P F → ℕ
  in_dir d = weight w (all_files d)

  abbrev pub in_subs : Subdirs P F → ℕ
  in_subs ds = weight w (all_files_below ds)

  pub in_subs-sub :
      (k : Str) (d : Dir P F) (ds : Subdirs P F) → in_subs (sub k d ds) ≡ in_dir d + in_subs ds
  unfolding all_files
  in_subs-sub k d ds = weight-append w (all_files d) (all_files_below ds)

  pub in_subs-end : (ds : Subdirs P F) → ds ≡ end → in_subs ds ≡ 0
  unfolding all_files weight
  in_subs-end end e = refl
  in_subs-end (sub k d ds) e = cc

  pub in_dir-dir :
      (n : Str) (p : P) (fs : Dict F) (ds : Subdirs P F)
      → in_dir (dir n p fs ds) ≡ in_files w fs + in_subs ds
  unfolding all_files
  in_dir-dir n p fs ds = weight-append w (values fs) (all_files_below ds)

  pub place_sub-weight :
      (k : Str) (d : Dir P F) (ds : Subdirs P F)
      → in_subs (place_sub k d ds) ≡ in_dir d + in_subs ds
  unfolding place_sub
  place_sub-weight k d end = in_subs-sub k d end
  place_sub-weight k d (sub j e ds) = ground (
    arith,
    place_sub-weight k d ds,
    in_subs-sub k d (sub j e ds),
    in_subs-sub j e ds,
    in_subs-sub j e (place_sub k d ds),
  )

  replace_sub-weight :
      (k : Str) (d old : Dir P F) (ds : Subdirs P F)
      → lookup_sub k ds ≡ some old
      → in_subs (replace_sub k d ds) + in_dir old ≡ in_dir d + in_subs ds
  unfolding replace_sub lookup_sub
  replace_sub-weight k d old end e = cc
  replace_sub-weight k d old (sub j x ds) e = elim (Bool-cases (str_eq j k)) [
    | inl hit ↦
        let same : some x ≡ some old = rw hit at e in
        rw hit (ground (arith, in_subs-sub j d ds, in_subs-sub j x ds))
    | inr miss ↦ rw miss (
        omega (
          arith,
          replace_sub-weight k d old ds (rw miss at e),
          in_subs-sub j x ds,
          in_subs-sub j x (replace_sub k d ds),
        ))
  ]

module _ {P F : Type 0} (name_of : F → Str) (w : F → ℕ) where
  merge_files-weight :
      (rights lefts : Dict F) (dirs : Subdirs P F)
      → Ensures
          (λ (fs : Dict F). in_files w fs ≡ in_files w lefts + in_files w rights)
          (merge_files name_of rights lefts dirs)
  unfolding merge_files weight
  merge_files-weight [] lefts dirs = omega arith
  merge_files-weight ((k, f) ∷ rights) lefts dirs =
      let lefts' = insert (name_of f) f lefts in
      Ensures-if _ (has (name_of f) lefts) _ _ (λ e. tt)
        λ fresh.
          Ensures-if _ (has_sub (name_of f) dirs) _ _ (λ e. tt)
            λ free.
              Ensures-mono _ _ (merge_files name_of rights lefts' dirs)
                (λ fs e. omega (arith, insert-weight w (name_of f) f lefts fresh))
                (merge_files-weight rights lefts' dirs)

  merge_into-weight :
      (d : Dir P F) (o : Option (Dir P F)) (merge_with : Dir P F → Outcome (Dir P F))
      (lefts : Subdirs P F)
      → lookup_sub (dir_name d) lefts ≡ o
      → ((left : Dir P F)
          → Ensures (λ d'. in_dir w d' ≡ in_dir w left + in_dir w d) (merge_with left))
      → Ensures
          (λ ds. in_subs w ds ≡ in_subs w lefts + in_dir w d)
          (merge_into name_of d o merge_with lefts)
  unfolding merge_into
  merge_into-weight d none merge_with lefts e h =
      omega (arith, place_sub-weight w (dir_name d) d lefts)
  merge_into-weight d (some left) merge_with lefts e h =
      Ensures-bind _ _ (merge_with left) _ (h left)
        (λ d' p. omega (arith, replace_sub-weight w (dir_name d) d' left lefts e))

  mutual
    unfolding merge

    merge-weight :
        (left right : Dir P F)
        → Ensures (λ d. in_dir w d ≡ in_dir w left + in_dir w right) (merge name_of left right)
    merge-weight (dir ln lp lf ls) (dir n p fs ds) =
        Ensures-bind _ _ (merge_files name_of fs lf ls) _ (merge_files-weight fs lf ls) λ fs' e.
          Ensures-bind _ _ (merge_subs name_of ds fs' ls) _ (merge_subs-weight ds fs' ls) λ ds' g.
            omega
              (arith, in_dir-dir w ln lp fs' ds', in_dir-dir w ln lp lf ls, in_dir-dir w n p fs ds)

    merge_subs-weight :
        (rights : Subdirs P F) (fs : Dict F) (lefts : Subdirs P F)
        → Ensures
            (λ ds. in_subs w ds ≡ in_subs w lefts + in_subs w rights)
            (merge_subs name_of rights fs lefts)
    merge_subs-weight end fs lefts =
        let none_left : in_subs w end ≡ 0 = in_subs-end {P = P} w end refl in omega arith
    merge_subs-weight (sub k d ds) fs lefts =
        Ensures-if _ (has (dir_name d) fs) _ _ (λ e. tt)
          λ free.
            Ensures-bind _ _ (merge_into name_of d (lookup_sub (dir_name d) lefts) _ lefts) _
              (merge_into-weight d (lookup_sub (dir_name d) lefts) (λ left. merge name_of left d)
                lefts refl (λ left. merge-weight left d))
              λ lefts' g.
                Ensures-mono _ _ (merge_subs name_of ds fs lefts')
                  (λ ds' h. omega (arith, in_subs-sub w k d ds)) (merge_subs-weight ds fs lefts')

  -- A merge that meets no collision has the files of both sides, each as often as it was there:
  -- every measure of files adds up.
  pub merge_to_left-weight :
      (left right : Dir P F)
      → Ensures
          (λ d. in_dir w d ≡ in_dir w left + in_dir w right)
          (merge_to_left name_of left right)
  unfolding merge_to_left
  merge_to_left-weight = merge-weight

  -- A file of the right side whose name a file or a directory of the left side has is refused.
  pub merge_to_left-collision :
      (left : Dir P F) (n : Str) (p : P) (k : Str) (f : F) (fs : Dict F) (ds : Subdirs P F)
      → (has (name_of f) (files left) ≡ true) ⊎ (has_sub (name_of f) (subdirs left) ≡ true)
      → merge_to_left name_of left (dir n p ((k, f) ∷ fs) ds) ≡ fail (es3_error err_fatal)
  unfolding merge_to_left
  merge_to_left-collision left n p k f fs ds h = ground arith
