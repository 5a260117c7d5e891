-- ===== src/Sync/Local/Whole.antt =====
-- The local tree against the list of what it should hold.
use extreme_s.Prelude.{
  ℕ, ◌≡◌, refl, Bool, inl, inr, [], arith, Str, if◌then◌else◌, Outcome, ok, Ensures, Ensures-mono,
  Bool-cases, fail, ap, sym, ◌∙◌, ◌>>=◌,
}
use extreme_s.Sync.Tree.{dir, end, LocalFile, LocalDir}
use extreme_s.Sync.Merge.Laws.{weight, in_dir}
use extreme_s.Sync.Local.{
  Items, no_item, item, Folders, check_entry, check_entries, start_of, takes_itself, empty_at,
  build_local_dir,
}
use extreme_s.Sync.Local.Entries.{
  check_entries-weight, empty_fresh, empty-weight, kept_all, Distinct,
}

module _ (disk : Folders) where
  -- What the tree is made of: the path itself, or what the directory has.
  abbrev pub sources : Str → Bool → Outcome Items
  sources start_path upload =
      if takes_itself disk start_path upload
      then ok (item (disk.entry_at (start_of disk start_path)) no_item)
      else disk.entries_in (start_of disk start_path)

  bind-ok : (m : Outcome LocalDir) → (m >>= λ next. ok next) ≡ m
  bind-ok (ok d) = refl
  bind-ok (fail e) = refl

  -- The tree with its name left open.
  build-sources :
      (start_path : Str) (upload : Bool) {is : Items}
      → sources start_path upload ≡ ok is
      → (n : Str) × (p : Str) × (build_local_dir disk start_path upload
          ≡ check_entries disk (dir n p [] end) is)
  unfolding build_local_dir check_entry
  build-sources start_path upload {is} e =
      let start = start_of disk start_path in
      elim (Bool-cases (takes_itself disk start_path upload)) [
        | inl itself ↦
            let same : ok (item (disk.entry_at start) no_item) ≡ ok is = rw itself at e in
            let d = empty_at disk (disk.parent_path start) in
            (
              disk.filename (disk.parent_path start),
              disk.parent_path start,
              rw itself (
                  sym (bind-ok (check_entry disk d (disk.entry_at start)))
                  ∙ ap (λ m. m >>= λ js. check_entries disk d js) same),
            )
        | inr inside ↦
            let same : disk.entries_in start ≡ ok is = rw inside at e in
            (disk.filename start, start, rw (inside, same) refl)
      ]

  -- A tree that is built from entries whose names differ within each directory has exactly the files
  -- without a space in their path or in that of a directory above them, symbolic links and special
  -- files with the mark that they are not to be synchronized: every measure of files adds up.
  pub build_local_dir-weight :
      (w : LocalFile → ℕ) (start_path : Str) (upload : Bool) {is : Items}
      → sources start_path upload ≡ ok is
      → Distinct disk is
      → Ensures
          (λ d. in_dir w d ≡ weight w (kept_all disk is))
          (build_local_dir disk start_path upload)
  build_local_dir-weight w start_path upload {is} e distinct =
      let (n, p, same) = build-sources start_path upload e in
      rw same (
        Ensures-mono _ _ (check_entries disk (dir n p [] end) is)
          (λ d g. omega (arith, empty-weight disk w n p))
          (check_entries-weight disk w (dir n p [] end) is distinct (empty_fresh disk n p is)))
