-- ===== src/Sync/Download/Empty.antt =====
-- What a download does with local files under a remote directory without entries.
use extreme_s.Prelude.{
  ◌⊎◌, inl, inr, sym, ◌≡◌, refl, true, false, List, [], ◌++◌, some, Str, map, str_eq_refl, In,
  In-append_left, In-map, In-append_right, Outcome, ok, both, both-eq-ok, subst,
}
use extreme_s.Prelude.Dict.{Dict, has}
use extreme_s.S3Path.{S3Path}
use extreme_s.Sync.Tree.{
  dir, Subdirs, end, sub, LocalDir, S3File, S3Directory, files, subdirs, lookup_sub, values,
}
use extreme_s.Sync.Delete.{Task, delete_local}
use extreme_s.Sync.Upload.{Mode}
use extreme_s.Sync.Download.{
  Disk, unseen, seen_files, seen_subs, file_there, sub_there, local_dir_for, download_files,
  download_sub, delete_unseen, process, download_subs, process_downloads,
}

both_ends :
    (m k : Outcome (List Task))
    → ((ts : List Task) × (m ≡ ok ts))
    → ((us : List Task) × (k ≡ ok us))
    → (vs : List Task) × (both m k ≡ ok vs)
both_ends m k (ts, e) (us, g) = (ts ++ us, rw (e, g) refl)

-- The directory stands in the map.
abbrev pub SubIn : S3Directory → Subdirs S3Path S3File → Type 0
SubIn d end = ⊥
SubIn d (sub j e ds) = (d ≡ e) ⊎ SubIn d ds

module _ (m : Mode) (disk : Disk) where
  process-empty :
      (k : Str) (q : S3Path) (l : LocalDir) (path : Str)
      → m.delete_missing ≡ true
      → process m disk (dir k q [] end) (some l) path
        ≡ ok (map delete_local (values (unseen (some l))))
  unfolding process download_files delete_unseen seen_files seen_subs
  process-empty k q l path on = rw on refl

  -- The part of a schedule that a remote directory without entries makes, wherever it stands in the map.
  download_subs-empty :
      (k : Str) (q : S3Path) (ds : Subdirs S3Path S3File) (locals l : LocalDir) (path a : Str)
      {ts : List Task}
      → m.delete_missing ≡ true
      → SubIn (dir k q [] end) ds
      → has k (files locals) ≡ false
      → lookup_sub k (subdirs locals) ≡ some l
      → In a (values (unseen (some l)))
      → download_subs m disk ds (some locals) path ≡ ok ts
      → In (delete_local a) ts
  unfolding process download_sub file_there sub_there local_dir_for
  download_subs-empty k q end locals l path a on at no_file there left run = elim at [ ]
  download_subs-empty k q (sub j d ds) locals l path a {ts} on (inl e) no_file there left run =
      let run' : download_subs m disk (sub j (dir k q [] end) ds) (some locals) path ≡ ok ts =
        subst (λ x. download_subs m disk (sub j x ds) (some locals) path ≡ ok ts) (sym e) run in
      let (xs, ys, first, _, whole) =
        both-eq-ok _ (download_subs m disk ds (some locals) path) run' in
      let deletes = map delete_local (values (unseen (some l))) in
      let same : ok deletes ≡ ok xs =
        rw (no_file, there, process-empty k q l (disk.join path k) on) at first in
      let here : In (delete_local a) xs =
        subst (In (delete_local a)) (cc) (In-map delete_local a (values (unseen (some l))) left) in
      subst (In (delete_local a)) whole (In-append_left _ xs ys here)
  download_subs-empty k q (sub j d ds) locals l path a on (inr at) no_file there left run =
      let (xs, ys, _, later, whole) =
        both-eq-ok _ (download_subs m disk ds (some locals) path) run in
      subst (In (delete_local a)) whole (
        In-append_right _ xs ys
          (download_subs-empty k q ds locals l path a on at no_file there left later))

  -- If missing files are to be deleted, a remote directory without entries makes every run that ends
  -- delete all that the local directory of its name has.
  pub process_downloads-empties :
      (rn k : Str) (rp q : S3Path) (rfs : Dict S3File) (ds : Subdirs S3Path S3File)
      (locals l : LocalDir) (path a : Str) {ts : List Task}
      → m.delete_missing ≡ true
      → SubIn (dir k q [] end) ds
      → has k (files locals) ≡ false
      → lookup_sub k (subdirs locals) ≡ some l
      → In a (values (unseen (some l)))
      → process_downloads m disk (dir rn rp rfs ds) (some locals) path ≡ ok ts
      → In (delete_local a) ts
  unfolding process_downloads
  process_downloads-empties rn k rp q rfs ds locals l path a on at no_file there left run =
      let (xs, rest, _, later, first) =
        both-eq-ok (download_files m disk (some locals) path rfs) _ run in
      let (ys, zs, second, _, parts) =
        both-eq-ok (download_subs m disk ds (some locals) path) _ later in
      let here = download_subs-empty k q ds locals l path a on at no_file there left second in
      subst (In (delete_local a)) first (
        In-append_right _ xs rest (subst (In (delete_local a)) parts (In-append_left _ ys zs here)))

  delete_unseen_ends :
      (u : Dict Str) → m.delete_missing ≡ true → (ts : List Task) × (delete_unseen m disk u ≡ ok ts)
  unfolding delete_unseen
  delete_unseen_ends u on = (map delete_local (values u), rw on refl)

  download_sub_ends :
      (ln lp k : Str) (q : S3Path) (l : LocalDir) (path : Str)
      → m.delete_missing ≡ true
      → (ts : List Task) × (download_sub m disk
            (some (dir ln lp [] (sub k l end)))
            (disk.join path k)
            k
            (λ new_dir. process m disk (dir k q [] end) new_dir (disk.join path k))
          ≡ ok ts)
  unfolding download_sub file_there sub_there local_dir_for lookup_sub has
  download_sub_ends ln lp k q l path on = (
    map delete_local (values (unseen (some l))),
    rw (str_eq_refl k, process-empty k q l (disk.join path k) on) refl,
  )

  -- A remote directory with one empty directory, against a local one that has it: the run ends.
  pub process_downloads-ends :
      (rn ln lp k : Str) (rp q : S3Path) (l : LocalDir) (path : Str)
      → m.delete_missing ≡ true
      → (ts : List Task) × (process_downloads m disk
            (dir rn rp [] (sub k (dir k q [] end) end))
            (some (dir ln lp [] (sub k l end)))
            path
          ≡ ok ts)
  unfolding process_downloads process download_files
  process_downloads-ends rn ln lp k rp q l path on =
      both_ends (ok []) _ ([], refl)
        (both_ends _ _ (both_ends _ (ok []) (download_sub_ends ln lp k q l path on) ([], refl))
          (delete_unseen_ends _ on))
