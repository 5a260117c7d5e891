-- ===== src/Sync/Local/Entries.antt =====
-- The entries of a directory against the list of the files that they should give.
use extreme_s.Prelude.{
  ℕ, ◌+◌, ◌≡◌, refl, true, false, inl, inr, List, [], ◌∷◌, ◌++◌, arith, Str, codes, str_eq,
  contains, if◌then◌else◌, ok, Ensures, Ensures-bind, Ensures-if, Ensures-mono, Bool-cases, fail,
  std_error,
}
use extreme_s.Prelude.Dict.{has, insert, has-insert}
use extreme_s.Sync.Tree.{dir, end, LocalFile, LocalDir, files, subdirs, has_sub, place_sub}
use extreme_s.Sync.Tree.Laws.{has_sub-place_sub}
use extreme_s.Sync.Merge.Laws.{
  weight, weight-append, in_dir, in_subs-end, in_dir-dir, insert-weight, place_sub-weight,
}
use extreme_s.Sync.Local.{
  Kind, regular, symlink, unknown, Item, folder, closed_folder, plain, Items, no_item, item,
  Folders, path_of, add_file, add_dir, file_at, check_entry, check_entries,
}

module _ (disk : Folders) where
  abbrev name_of : Item → Str
  name_of i = disk.filename (path_of i)

  -- The file for an entry: only a regular one can be synchronized.
  abbrev pub expected : Str → Kind → LocalFile
  expected path regular = record {
    absolute_name = path;
    name = disk.filename path;
    unsyncable = false;
  }
  expected path symlink = record {
    absolute_name = path;
    name = disk.filename path;
    unsyncable = true;
  }
  expected path unknown = record {
    absolute_name = path;
    name = disk.filename path;
    unsyncable = true;
  }

  expected-file_at : (path : Str) (kind : Kind) → expected path kind ≡ file_at disk path kind
  expected-file_at path regular = refl
  expected-file_at path symlink = refl
  expected-file_at path unknown = refl

  -- The files to be found: those without a space in their path or in that of a directory above them.
  unfoldable mutual
    pub kept : Item → List LocalFile
    kept (folder path items) =
        let all = kept_all items in if contains path (codes " ") then [] else all
    kept (closed_folder path) = []
    kept (plain path kind) = if contains path (codes " ") then [] else expected path kind ∷ []

    pub kept_all : Items → List LocalFile
    kept_all no_item = []
    kept_all (item i is) = kept i ++ kept_all is

  -- No entry of the list has the name.
  abbrev pub Apart : Str → Items → Type 0
  Apart k no_item = Unit
  Apart k (item i is) = (str_eq k (name_of i) ≡ false) × Apart k is

  -- The names in a directory differ.
  abbrev mutual
    pub Distinct : Items → Type 0
    Distinct no_item = Unit
    Distinct (item i is) = Apart (name_of i) is × DistinctIn i × Distinct is

    pub DistinctIn : Item → Type 0
    DistinctIn (folder path items) = Distinct items
    DistinctIn (closed_folder path) = Unit
    DistinctIn (plain path kind) = Unit

  abbrev pub Fresh : LocalDir → Str → Type 0
  Fresh d k = (has k (files d) ≡ false) × (has_sub k (subdirs d) ≡ false)

  abbrev pub AllFresh : LocalDir → Items → Type 0
  AllFresh d no_item = Unit
  AllFresh d (item i is) = Fresh d (name_of i) × AllFresh d is

  add_file-Fresh :
      (f : LocalFile) (d : LocalDir) (is : Items)
      → Apart f.name is
      → AllFresh d is
      → AllFresh (add_file f d) is
  unfolding add_file
  add_file-Fresh f d no_item apart fresh = tt
  add_file-Fresh f (dir n p fs ds) (item i is) (other, apart) ((no_file, no_sub), fresh) = (
    ((rw (has-insert f.name (name_of i), other, no_file) refl), (no_sub)),
    add_file-Fresh f (dir n p fs ds) is apart fresh,
  )

  add_dir-Fresh :
      (k : Str) (d t : LocalDir) (is : Items)
      → has_sub k (subdirs d) ≡ false
      → Apart k is
      → AllFresh d is
      → AllFresh (add_dir k t d) is
  unfolding add_dir
  add_dir-Fresh k d t no_item free apart fresh = tt
  add_dir-Fresh k (dir n p fs ds) t (item i is) free (other, apart) ((no_file, no_sub), fresh) = (
    (no_file, rw (free, has_sub-place_sub k (name_of i) t ds, other, no_sub) refl),
    add_dir-Fresh k (dir n p fs ds) t is free apart fresh,
  )

  pub empty_fresh : (n p : Str) (is : Items) → AllFresh (dir n p [] end) is
  unfolding has has_sub
  empty_fresh n p no_item = tt
  empty_fresh n p (item i is) = ((refl, refl), empty_fresh n p is)

  module _ (w : LocalFile → ℕ) where
    add_file-weight :
        (f : LocalFile) (d : LocalDir)
        → has f.name (files d) ≡ false
        → in_dir w (add_file f d) ≡ in_dir w d + w f
    unfolding add_file
    add_file-weight f (dir n p fs ds) free = omega (
      arith,
      in_dir-dir w n p (insert f.name f fs) ds,
      in_dir-dir w n p fs ds,
      insert-weight w f.name f fs free,
    )

    add_dir-weight :
        (k : Str) (t d : LocalDir)
        → has_sub k (subdirs d) ≡ false
        → in_dir w (add_dir k t d) ≡ in_dir w d + in_dir w t
    unfolding add_dir
    add_dir-weight k t (dir n p fs ds) free = rw free (
        omega (
          arith,
          in_dir-dir w n p fs (place_sub k t ds),
          in_dir-dir w n p fs ds,
          place_sub-weight w k t ds,
        ))

    pub empty-weight : (n p : Str) → in_dir w (dir n p [] end) ≡ 0
    unfolding weight
    empty-weight n p =
        omega (arith, in_dir-dir {F = LocalFile} w n p [] end, in_subs-end {P = Str} w end refl)

    kept_space : (i : Item) → contains (path_of i) (codes " ") ≡ true → weight w (kept i) ≡ 0
    unfolding kept weight
    kept_space (folder path items) e = rw e refl
    kept_space (closed_folder path) e = refl
    kept_space (plain path kind) e = rw e refl

    kept-folder :
        (path : Str) (items : Items)
        → contains path (codes " ") ≡ false
        → weight w (kept (folder path items)) ≡ weight w (kept_all items)
    unfolding kept
    kept-folder path items e = rw e refl

    kept-plain :
        (path : Str) (kind : Kind)
        → contains path (codes " ") ≡ false
        → weight w (kept (plain path kind)) ≡ w (file_at disk path kind)
    unfolding kept weight
    kept-plain path kind e = rw (e, expected-file_at path kind) (omega arith)

    closed_nothing : (path : Str) → weight w (kept (closed_folder path)) ≡ 0
    unfolding kept weight
    closed_nothing path = refl

    none_kept : weight w (kept_all no_item) ≡ 0
    unfolding kept weight
    none_kept = refl

    some_kept :
        (i : Item) (is : Items)
        → weight w (kept_all (item i is)) ≡ weight w (kept i) + weight w (kept_all is)
    unfolding kept
    some_kept i is = weight-append w (kept i) (kept_all is)

    -- What an entry adds, and that it leaves the names of the later ones free.
    abbrev Adds : LocalDir → Item → Items → LocalDir → Type 0
    Adds d i is d' = (in_dir w d' ≡ in_dir w d + weight w (kept i)) × AllFresh d' is

    mutual
      unfolding check_entry

      check_entry-Adds :
          (d : LocalDir) (i : Item) (is : Items)
          → Fresh d (name_of i)
          → DistinctIn i
          → Apart (name_of i) is
          → AllFresh d is
          → Ensures (Adds d i is) (check_entry disk d i)
      check_entry-Adds d (folder path items) is (no_file, no_sub) distinct apart fresh =
          elim (Bool-cases (contains path (codes " "))) [
            | inl space ↦ rw space (omega (arith, kept_space (folder path items) space), fresh)
            | inr clean ↦ rw clean (
                Ensures-bind _ _ (check_entries disk (dir (disk.filename path) path [] end) items) _
                  (check_entries-weight (dir (disk.filename path) path [] end) items distinct
                    (empty_fresh (disk.filename path) path items))
                  (λ t e. (
                    omega (
                      arith,
                      add_dir-weight (disk.filename path) t d no_sub,
                      empty-weight (disk.filename path) path,
                      kept-folder path items clean,
                    ),
                    add_dir-Fresh (disk.filename path) d t is no_sub apart fresh,
                  )))
          ]
      check_entry-Adds d (closed_folder path) is free distinct apart fresh =
          Ensures-if (Adds d (closed_folder path) is) (contains path (codes " ")) (ok d)
            (fail std_error) (λ e. (omega (arith, closed_nothing path), fresh)) (λ e. tt)
      check_entry-Adds d (plain path kind) is (no_file, no_sub) distinct apart fresh =
          elim (Bool-cases (contains path (codes " "))) [
            | inl space ↦ rw space (omega (arith, kept_space (plain path kind) space), fresh)
            | inr clean ↦ rw clean (
              omega (
                arith,
                add_file-weight (file_at disk path kind) d no_file,
                kept-plain path kind clean,
              ),
              add_file-Fresh (file_at disk path kind) d is apart fresh,
            )
          ]

      pub check_entries-weight :
          (d : LocalDir) (is : Items)
          → Distinct is
          → AllFresh d is
          → Ensures
              (λ d'. in_dir w d' ≡ in_dir w d + weight w (kept_all is))
              (check_entries disk d is)
      check_entries-weight d no_item distinct fresh = omega (arith, none_kept)
      check_entries-weight d (item i is) (apart, here, below) (free, fresh) =
          Ensures-bind _ _ (check_entry disk d i) _ (check_entry-Adds d i is free here apart fresh)
            (λ next (e, later).
              Ensures-mono _ _ (check_entries disk next is) (λ d' g. omega (arith, some_kept i is))
                (check_entries-weight next is below later))
