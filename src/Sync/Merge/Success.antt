-- ===== src/Sync/Merge/Success.antt =====
-- When a merge meets no collision.
use extreme_s.Prelude.{
  ℕ, ◌+◌, ◌≡◌, refl, sym, ◌∙◌, subst, inl, inr, false, [], ◌∷◌, Option, none, some, arith, Str,
  str_eq, str_eq_iff, Outcome, ok, Ensures, Bool-cases,
}
use extreme_s.Prelude.Dict.{Dict, has, insert, has-insert}
use extreme_s.Sync.Tree.{
  Dir, dir, Subdirs, end, sub, dir_name, absolute, files, subdirs, lookup_sub, has_sub, place_sub,
  replace_sub,
}
use extreme_s.Sync.Merge.{merge_files, merge, merge_subs, merge_into, merge_to_left}
use extreme_s.Sync.Merge.Laws.{in_dir, merge_to_left-weight}

module _ {P F : Type 0} where
  -- No directory of the list has the name.
  abbrev pub NoDir : Str → Subdirs P F → Type 0
  NoDir k end = Unit
  NoDir k (sub j d ds) = (str_eq k (dir_name d) ≡ false) × NoDir k ds

  place_sub-other :
      (k j : Str) (d : Dir P F) (ds : Subdirs P F)
      → str_eq k j ≡ false
      → lookup_sub j (place_sub k d ds) ≡ lookup_sub j ds
  unfolding lookup_sub place_sub
  place_sub-other k j d end h = ground arith
  place_sub-other k j d (sub i e ds) h = ground (arith, place_sub-other k j d ds h)

  replace_sub-other :
      (k j : Str) (d : Dir P F) (ds : Subdirs P F)
      → str_eq k j ≡ false
      → lookup_sub j (replace_sub k d ds) ≡ lookup_sub j ds
  unfolding lookup_sub replace_sub
  replace_sub-other k j d end h = refl
  replace_sub-other k j d (sub i e ds) h = elim (Bool-cases (str_eq i k)) [
    | inl hit ↦
        let same : i ≡ k = (str_eq_iff i k).0 hit in
        let other : str_eq i j ≡ false = rw same h in rw (hit, other) refl
    | inr miss ↦ rw miss (ground (arith, replace_sub-other k j d ds h))
  ]

module _ {F : Type 0} (name_of : F → Str) where
  -- No file of the list has the name.
  abbrev pub NoFile : Str → Dict F → Type 0
  NoFile k [] = Unit
  NoFile k ((j, f) ∷ fs) = (str_eq (name_of f) k ≡ false) × NoFile k fs

module _ {P F : Type 0} (name_of : F → Str) where
  -- The files have names of their own, which neither a file nor a directory of the other side has.
  abbrev pub FilesMergeable : Dict F → Dict F → Subdirs P F → Type 0
  FilesMergeable [] lefts dirs = Unit
  FilesMergeable ((k, f) ∷ fs) lefts dirs =
      (has (name_of f) lefts ≡ false)
      × (has_sub (name_of f) dirs ≡ false)
      × NoFile name_of (name_of f) fs
      × FilesMergeable fs lefts dirs

  -- The right side collides nowhere with the left side: its files are apart from all that the left side
  -- has, its directories have names of their own, which no file of either side has, and one whose
  -- name a directory of the left side has does not collide with that.
  abbrev mutual
    pub Mergeable : Dir P F → Dir P F → Type 0
    Mergeable left (dir n p fs ds) =
        FilesMergeable fs (files left) (subdirs left)
        × SubsMergeable ds fs (files left) (subdirs left)

    pub SubsMergeable : Subdirs P F → Dict F → Dict F → Subdirs P F → Type 0
    SubsMergeable end rights lefts dirs = Unit
    SubsMergeable (sub k d ds) rights lefts dirs =
        (has (dir_name d) lefts ≡ false)
        × NoFile name_of (dir_name d) rights
        × NoDir (dir_name d) ds
        × ((left : Dir P F) → lookup_sub (dir_name d) dirs ≡ some left → Mergeable left d)
        × SubsMergeable ds rights lefts dirs

  FilesMergeable-insert :
      (f : F) (fs lefts : Dict F) (dirs : Subdirs P F)
      → NoFile name_of (name_of f) fs
      → FilesMergeable fs lefts dirs
      → FilesMergeable fs (insert (name_of f) f lefts) dirs
  FilesMergeable-insert f [] lefts dirs other h = tt
  FilesMergeable-insert f ((k, g) ∷ fs) lefts dirs (here, later) (free, no_dir, own, apart) = (
    rw (has-insert (name_of f) (name_of g) f lefts, free)
        (ground (arith, str_eq_iff (name_of f) (name_of g), str_eq_iff (name_of g) (name_of f))),
    no_dir,
    own,
    FilesMergeable-insert f fs lefts dirs later apart,
  )

  merge_files-ok :
      (rights lefts : Dict F) (dirs : Subdirs P F)
      → FilesMergeable rights lefts dirs
      → (fs : Dict F) × (merge_files name_of rights lefts dirs ≡ ok fs)
        × ((k : Str) → has k lefts ≡ false → NoFile name_of k rights → has k fs ≡ false)
  unfolding merge_files
  merge_files-ok [] lefts dirs h = (lefts, refl, λ k free none_right. free)
  merge_files-ok ((j, f) ∷ rights) lefts dirs (free, no_dir, own, apart) =
      let (fs, made, names) =
        merge_files-ok rights (insert (name_of f) f lefts) dirs
          (FilesMergeable-insert f rights lefts dirs own apart) in
      (
        fs,
        rw (free, no_dir) made,
        λ k absent (other, others).
            names k (rw (has-insert (name_of f) k f lefts, other, absent) refl) others,
      )

  -- Where the left side has no directory of the name, or one that can be merged, the others stay.
  merge_into-ok :
      (d : Dir P F) (o : Option (Dir P F)) (merge_with : Dir P F → Outcome (Dir P F))
      (lefts : Subdirs P F)
      → ((left : Dir P F) → o ≡ some left → (d' : Dir P F) × (merge_with left ≡ ok d'))
      → (ds : Subdirs P F) × (merge_into name_of d o merge_with lefts ≡ ok ds)
        × ((k : Str) → str_eq (dir_name d) k ≡ false → lookup_sub k ds ≡ lookup_sub k lefts)
  unfolding merge_into
  merge_into-ok d none merge_with lefts h = (
    place_sub (dir_name d) d lefts,
    refl,
    λ k other. place_sub-other (dir_name d) k d lefts other,
  )
  merge_into-ok d (some left) merge_with lefts h =
      let (d', made) = h left refl in
      (
        replace_sub (dir_name d) d' lefts,
        rw made refl,
        λ k other. replace_sub-other (dir_name d) k d' lefts other,
      )

  SubsMergeable-same :
      (name : Str) (ds : Subdirs P F) (rights lefts : Dict F) (dirs dirs' : Subdirs P F)
      → ((k : Str) → str_eq name k ≡ false → lookup_sub k dirs' ≡ lookup_sub k dirs)
      → NoDir name ds
      → SubsMergeable ds rights lefts dirs
      → SubsMergeable ds rights lefts dirs'
  SubsMergeable-same name end rights lefts dirs dirs' same other h = tt
  SubsMergeable-same name (sub k d ds) rights lefts dirs dirs' same (here, later)
        (free, no_file, own, matching, apart) =
      (
        free,
        no_file,
        own,
        λ left e. matching left (sym (same (dir_name d) here) ∙ e),
        SubsMergeable-same name ds rights lefts dirs dirs' same later apart,
      )

  mutual
    unfolding merge

    merge-ok :
        (left right : Dir P F)
        → Mergeable left right
        → (d : Dir P F) × (merge name_of left right ≡ ok d)
    merge-ok left (dir n p fs ds) (files_fit, subs_fit) =
        let (fs', made, names) = merge_files-ok fs (files left) (subdirs left) files_fit in
        let (ds', merged) = merge_subs-ok ds fs (files left) fs' (subdirs left) names subs_fit in
        (dir (dir_name left) (absolute left) fs' ds', rw (made, merged) refl)

    merge_subs-ok :
        (ds : Subdirs P F) (rights lefts fs : Dict F) (dirs : Subdirs P F)
        → ((k : Str) → has k lefts ≡ false → NoFile name_of k rights → has k fs ≡ false)
        → SubsMergeable ds rights lefts dirs
        → (ds' : Subdirs P F) × (merge_subs name_of ds fs dirs ≡ ok ds')
    merge_subs-ok end rights lefts fs dirs names h = (dirs, refl)
    merge_subs-ok (sub k d ds) rights lefts fs dirs names (free, no_file, own, matching, apart) =
        let no_name = names (dir_name d) free no_file in
        let (dirs', put, same) =
          merge_into-ok d (lookup_sub (dir_name d) dirs) (λ left. merge name_of left d) dirs
            (λ left e. merge-ok left d (matching left e)) in
        let (ds', rest) =
          merge_subs-ok ds rights lefts fs dirs' names
            (SubsMergeable-same (dir_name d) ds rights lefts dirs dirs' same own apart) in
        (ds', rw (no_name, put, rest) refl)

  -- A merge of two sides that collide nowhere succeeds, and gives a tree with the files of both sides,
  -- each as often as it was there: every measure of files adds up.
  pub merge_to_left-ok :
      (w : F → ℕ) (left right : Dir P F)
      → Mergeable left right
      → (d : Dir P F) × (merge_to_left name_of left right ≡ ok d)
        × (in_dir w d ≡ in_dir w left + in_dir w right)
  unfolding merge_to_left
  merge_to_left-ok w left right h =
      let (d, made) = merge-ok left right h in
      (
        d,
        made,
        subst (Ensures (λ (t : Dir P F). in_dir w t ≡ in_dir w left + in_dir w right)) made
            (merge_to_left-weight name_of w left right),
      )
