-- ===== src/Sync/Local/Spaces.antt =====
-- A start path with a space in it.
use extreme_s.Prelude.{
  ◌≡◌, refl, inl, inr, Bool, true, [], ◌∷◌, ◌++◌, arith, Str, codes, contains, starts_with, ok,
  Bool-cases,
}
use extreme_s.Sync.Tree.{dir, end, LocalDir}
use extreme_s.Sync.Local.{
  Item, folder, closed_folder, plain, Items, no_item, item, Folders, path_of, check_entry,
  check_entries, start_of, takes_itself, build_local_dir,
}

contains-append : (s t : Str) → contains s (codes " ") ≡ true → contains (s ++ t) (codes " ") ≡ true
unfolding contains starts_with
contains-append [] t h = cc
contains-append (c ∷ s) t h = ground (arith, contains-append s t)

module _ (disk : Folders) where
  -- The paths of the entries continue the one of their directory.
  abbrev pub Under : Str → Items → Type 0
  Under start no_item = Unit
  Under start (item i is) = ((rest : Str) × (path_of i ≡ start ++ rest)) × Under start is

  check_entry-space :
      (d : LocalDir) (i : Item)
      → contains (path_of i) (codes " ") ≡ true
      → check_entry disk d i ≡ ok d
  unfolding check_entry
  check_entry-space d (folder path items) h = rw h refl
  check_entry-space d (closed_folder path) h = rw h refl
  check_entry-space d (plain path kind) h = rw h refl

  check_entries-space :
      (d : LocalDir) (start : Str) (is : Items)
      → contains start (codes " ") ≡ true
      → Under start is
      → check_entries disk d is ≡ ok d
  unfolding check_entry
  check_entries-space d start no_item h under = refl
  check_entries-space d start (item i is) h ((rest, e), under) =
      rw (check_entry-space d i (rw e (contains-append start rest h)))
        (check_entries-space d start is h under)

  -- The tree of a start path that is anywhere in it written with a space is empty, whatever is there.
  pub build_local_dir-space :
      (start_path : Str) (upload : Bool) {is : Items}
      → contains (start_of disk start_path) (codes " ") ≡ true
      → path_of (disk.entry_at (start_of disk start_path)) ≡ start_of disk start_path
      → disk.entries_in (start_of disk start_path) ≡ ok is
      → Under (start_of disk start_path) is
      → (n : Str) × (p : Str) × (build_local_dir disk start_path upload ≡ ok (dir n p [] end))
  unfolding build_local_dir
  build_local_dir-space start_path upload {is} h own e under =
      let start = start_of disk start_path in
      elim (Bool-cases (takes_itself disk start_path upload)) [
        | inl itself ↦ (
          disk.filename (disk.parent_path start),
          disk.parent_path start,
          rw itself (check_entry-space _ (disk.entry_at start) (rw own h)),
        )
        | inr inside ↦
            (disk.filename start, start, rw (inside, e) (check_entries-space _ start is h under))
      ]
