-- ===== src/Sync/Upload/Unseen.antt =====
-- What an upload does with remote files that the local side does not have.
use extreme_s.Prelude.{
  ◌≡◌, refl, ◌∙◌, inl, inr, true, false, List, [], ◌∷◌, ◌++◌, some, Str, str_eq, map, All, In,
  In-append_left, In-append_right, ok, both-eq-ok, subst, Bool-cases,
}
use extreme_s.Prelude.Dict.{Dict, lookup, lookup-erase}
use extreme_s.S3Path.{S3Path}
use extreme_s.Sync.Tree.{dir, Subdirs, end, sub, LocalFile, S3File, dir_name, values}
use extreme_s.Sync.Delete.{Task, delete_remote}
use extreme_s.Sync.Upload.{
  Mode, NotSeen, not_seen, erase_name, seen_files, seen_subs, delete_dirs, delete_unseen,
  upload_files, upload_subs, process_upload,
}

-- No local file, or directory, of the list has the name.
abbrev pub NoFile : Str → Dict LocalFile → Type 0
NoFile k = All (λ (j, f). str_eq f.name k ≡ false)

abbrev pub NoSub : Str → Subdirs Str LocalFile → Type 0
NoSub k end = Unit
NoSub k (sub j d ds) = (str_eq (dir_name d) k ≡ false) × NoSub k ds

seen_files-other :
    (k : Str) (fs : Dict LocalFile) (u : NotSeen)
    → NoFile k fs
    → lookup k (seen_files fs u).files_left ≡ lookup k u.files_left
unfolding seen_files
seen_files-other k [] u h = refl
seen_files-other k ((j, f) ∷ fs) u h =
    seen_files-other k fs (erase_name f.name u) h.1 ∙ lookup-erase f.name k u.files_left ∙ rw (h.0)

seen_subs-other :
    (k : Str) (ds : Subdirs Str LocalFile) (u : NotSeen)
    → NoSub k ds
    → lookup k (seen_subs ds u).files_left ≡ lookup k u.files_left
unfolding seen_subs
seen_subs-other k end u h = refl
seen_subs-other k (sub j d ds) u h =
    seen_subs-other k ds (erase_name (dir_name d) u) h.1
    ∙ lookup-erase (dir_name d) k u.files_left
    ∙ rw (h.0)

In-values {ℓ} :
    {V : Type 0} {A : Type ℓ} (g : V → A) (k : Str) (m : Dict V) {v : V}
    → lookup k m ≡ some v
    → In (g v) (map g (values m))
unfolding lookup
In-values g k [] e = cc
In-values g k ((j, w) ∷ m) {v} e = elim (Bool-cases (str_eq j k)) [
  | inl hit ↦ let same : some w ≡ some v = rw hit at e in inl (cc)
  | inr miss ↦ inr (In-values g k m (rw miss at e))
]

module _ (m : Mode) where
  delete_unseen-In :
      (u : NotSeen) (k : Str) {f : S3File} {ts : List Task}
      → m.delete_missing ≡ true
      → lookup k u.files_left ≡ some f
      → delete_unseen m u ≡ ok ts
      → In (delete_remote f.absolute_name) ts
  unfolding delete_unseen
  delete_unseen-In u k {f} {ts} on e run =
      let deletes = map (λ (g : S3File). delete_remote g.absolute_name) (values u.files_left) in
      let (xs, ys, p, q, r) =
        both-eq-ok (ok deletes) (delete_dirs m u.dirs_left) (simp on at run) in
      let same : deletes ≡ xs = cc in
      subst (In (delete_remote f.absolute_name)) r (
        In-append_left _ xs ys (
          subst (In (delete_remote f.absolute_name)) same
            (In-values (λ (g : S3File). delete_remote g.absolute_name) k u.files_left e)))

  -- If missing files are to be deleted, a remote file whose name no local entry of the directory
  -- has is deleted by every run that ends, whether or not the include and exclude rules take it in.
  pub process_upload-deletes_unseen :
      (n rn : Str) (p : Str) (rp path : S3Path) (fs : Dict LocalFile) (ds : Subdirs Str LocalFile)
      (rfs : Dict S3File) (rds : Subdirs S3Path S3File) (k : Str) {f : S3File} {ts : List Task}
      → m.delete_missing ≡ true
      → lookup k rfs ≡ some f
      → NoFile k fs
      → NoSub k ds
      → process_upload m (dir n p fs ds) (some (dir rn rp rfs rds)) path ≡ ok ts
      → In (delete_remote f.absolute_name) ts
  unfolding process_upload not_seen
  process_upload-deletes_unseen n rn p rp path fs ds rfs rds k {f} {ts} on e no_file no_sub run =
      let remotes = some (dir rn rp rfs rds) in
      let u = not_seen remotes in
      let (xs, rest, _, later, first) = both-eq-ok (upload_files m remotes path fs) _ run in
      let (ys, zs, _, last, second) = both-eq-ok (upload_subs m ds remotes path) _ later in
      let left =
        seen_subs-other k ds (seen_files fs u) no_sub ∙ seen_files-other k fs u no_file ∙ e in
      let here = delete_unseen-In (seen_subs ds (seen_files fs u)) k on left last in
      subst (In (delete_remote f.absolute_name)) first (
        In-append_right _ xs rest
          (subst (In (delete_remote f.absolute_name)) second (In-append_right _ ys zs here)))

  -- An empty local tree against a remote directory without subdirectories: the run ends.
  pub process_upload-empty :
      (n rn p : Str) (rp path : S3Path) (rfs : Dict S3File)
      → m.delete_missing ≡ true
      → (ts : List Task) × (process_upload m (dir n p [] end) (some (dir rn rp rfs end)) path
          ≡ ok ts)
  unfolding process_upload not_seen upload_files delete_unseen seen_files seen_subs delete_dirs
  process_upload-empty n rn p rp path rfs on =
      (map (λ (f : S3File). delete_remote f.absolute_name) (values rfs) ++ [], rw on refl)
