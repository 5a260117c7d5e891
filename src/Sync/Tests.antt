-- ===== src/Sync/Tests.antt =====
-- A small local tree and a small remote one.
use extreme_s.Prelude.{
  refl, subst, some, str_eq, ok, ◌+◌, ◌≡◌, [], ◌∷◌, Str, codes, false, not, ◌&&◌, if◌then◌else◌,
  fail, es3_error, err_fatal,
}
use extreme_s.S3Path.{S3Path}
use extreme_s.Sync.Tree.{
  dir, end, sub, has_sub, lookup_sub, Subdirs, LocalFile, LocalDir, S3File, S3Directory, all_files,
  subdirs, no_subs,
}
use extreme_s.Sync.Delete.{Rules, delete_possibly_recursive}
use extreme_s.Sync.Delete.Laws.{deletions, delete_possibly_recursive_lem}
use extreme_s.Sync.Merge.{merge_to_left}
use extreme_s.Sync.Merge.Laws.{in_dir}
use extreme_s.Sync.Merge.Success.{Mergeable, merge_to_left-ok}
use extreme_s.Prelude.Dict.{has}

abbrev rules : Rules
rules = record { included = []; excluded = codes "*~" ∷ [] }

abbrev at : Str → S3Path
at path = record { zone = []; bucket = codes "logs"; path = path }

abbrev remote_file : S3File
remote_file = record {
  name = codes "b";
  absolute_name = at (codes "/d/b");
  mtime_str = [];
  size = 3;
}

abbrev remote_tree : S3Directory
remote_tree =
    dir (codes "d") (at (codes "/d/")) ((codes "b", remote_file) ∷ [])
      (sub (codes "e") (dir (codes "e") (at (codes "/d/e/")) [] end) end)

delete_possibly_recursive_lem_example : delete_possibly_recursive rules remote_tree false ≡ (
    if false && not (no_subs (subdirs remote_tree))
    then fail (es3_error err_fatal)
    else deletions rules (all_files remote_tree))
delete_possibly_recursive_lem_example = delete_possibly_recursive_lem rules remote_tree false

-- Two trees with a directory of the same name.
abbrev named : Str → LocalFile
named n = record { absolute_name = n; name = n; unsyncable = false }

abbrev name_of : LocalFile → Str
name_of f = f.name

abbrev one_file : Str → Str → Subdirs Str LocalFile → LocalDir
one_file n file ds = dir n n ((file, named file) ∷ []) ds

abbrev left_inner : LocalDir
left_inner = one_file (codes "s") (codes "x") end

abbrev right_inner : LocalDir
right_inner = one_file (codes "s") (codes "y") end

abbrev left_tree : LocalDir
left_tree = one_file (codes "d") (codes "a") (sub (codes "s") left_inner end)

abbrev right_tree : LocalDir
right_tree = one_file (codes "d") (codes "c") (sub (codes "s") right_inner end)

inner_fits : Mergeable name_of left_inner right_inner
unfolding has has_sub str_eq
inner_fits = ((refl, refl, tt, tt), tt)

same_dir : {d e : LocalDir} → some d ≡ some e → d ≡ e
same_dir e = cc

trees_fit : Mergeable name_of left_tree right_tree
unfolding has has_sub lookup_sub str_eq
trees_fit = (
  (refl, refl, tt, tt),
  (
    refl,
    (refl, tt),
    tt,
    λ left e. subst (λ l. Mergeable name_of l right_inner) (same_dir e) inner_fits,
    tt,
  ),
)

merge_to_left-ok_example :
    (d : LocalDir) × (merge_to_left name_of left_tree right_tree ≡ ok d)
    × (in_dir (λ f. 1) d ≡ in_dir (λ f. 1) left_tree + in_dir (λ f. 1) right_tree)
merge_to_left-ok_example = merge_to_left-ok name_of (λ f. 1) left_tree right_tree trees_fit
