-- ===== src/Sync/Local/Tests.antt =====
-- A directory with a file, a link and a file whose name has a space.
use extreme_s.Prelude.{
  ◌≡◌, refl, false, true, [], ◌∷◌, ◌++◌, ◌-◌, length, Str, codes, str_eq, contains, starts_with,
  drop, Ensures, ok,
}
use extreme_s.Sync.Tree.{dir, end, sub, LocalFile, LocalDir, has_sub, place_sub}
use extreme_s.Prelude.Dict.{insert, has, place}
use extreme_s.Sync.Merge.Laws.{weight, in_dir}
use extreme_s.Sync.Local.{
  folder, plain, regular, symlink, Items, no_item, item, Folders, build_local_dir, start_of,
  takes_itself, check_entry, add_file, add_dir,
}
use extreme_s.Sync.Local.Entries.{kept_all}
use extreme_s.Sync.Local.Whole.{sources, build_local_dir-weight}
use extreme_s.Sync.Local.Spaces.{build_local_dir-space}

abbrev things : Items
things =
    item (plain (codes "/d/a") regular)
      (item (plain (codes "/d/l") symlink) (item (plain (codes "/d/b c") regular) no_item))

abbrev folders : Folders
folders = record {
  absolute_path = λ p. p;
  filename = drop 3;
  parent_path = λ p. codes "/";
  entry_at = λ p. folder p things;
  entries_in = λ p. ok things;
}

things_of : sources folders (codes "/d/") true ≡ ok things
unfolding takes_itself start_of str_eq
things_of = refl

a_l : str_eq (codes "a") (codes "l") ≡ false
unfolding str_eq
a_l = refl

a_bc : str_eq (codes "a") (codes "b c") ≡ false
unfolding str_eq
a_bc = refl

l_bc : str_eq (codes "l") (codes "b c") ≡ false
unfolding str_eq
l_bc = refl

build_local_dir-weight_example :
    Ensures
      (λ (d : LocalDir). in_dir (λ f. 1) d ≡ weight (λ f. 1) (kept_all folders things))
      (build_local_dir folders (codes "/d/") true)
build_local_dir-weight_example =
    build_local_dir-weight folders (λ f. 1) (codes "/d/") true things_of
      ((a_l, (a_bc, tt)), tt, ((l_bc, tt), tt, (tt, tt, tt)))

-- The same for a directory whose own name has the space.
abbrev pub spaced : Folders
spaced = record {
  absolute_path = λ p. p;
  filename = drop 5;
  parent_path = λ p. codes "/";
  entry_at = λ p. folder p (item (plain (p ++ codes "/f") regular) no_item);
  entries_in = λ p. ok (item (plain (p ++ codes "/f") regular) no_item);
}

pub start_spaced : start_of spaced (codes "/my d") ≡ codes "/my d"
unfolding start_of str_eq
start_spaced = refl

space_there : contains (start_of spaced (codes "/my d")) (codes " ") ≡ true
unfolding contains starts_with
space_there = rw start_spaced refl

build_local_dir-space_example :
    (n : Str) × (p : Str) × (build_local_dir spaced (codes "/my d") true ≡ ok (dir n p [] end))
build_local_dir-space_example =
    build_local_dir-space spaced (codes "/my d") true space_there refl refl ((codes "/f", refl), tt)

-- A directory with a directory of one file.
abbrev pub last_byte : Str → Str
last_byte p = drop (length p - 1) p

abbrev pub nested : Folders
nested = record {
  absolute_path = λ p. p;
  filename = last_byte;
  parent_path = λ p. codes "/";
  entry_at = λ p. plain p regular;
  entries_in = λ p.
      ok (item (folder (codes "/d/k") (item (plain (codes "/d/k/f") regular) no_item)) no_item);
}

abbrev pub file_f : LocalFile
file_f = record { absolute_name = codes "/d/k/f"; name = codes "f"; unsyncable = false }

abbrev pub dir_k : LocalDir
dir_k = dir (codes "k") (codes "/d/k") ((codes "f", file_f) ∷ []) end

pub build_nested :
    build_local_dir nested (codes "/d/") false
    ≡ ok (dir (codes "/") (codes "/d/") [] (sub (codes "k") dir_k end))
unfolding build_local_dir start_of takes_itself str_eq check_entry contains starts_with add_file
    add_dir insert has place has_sub place_sub
build_nested = refl

pub build_spaced : build_local_dir spaced (codes "/my d") true ≡ ok (dir [] (codes "/") [] end)
unfolding build_local_dir start_of takes_itself str_eq check_entry contains starts_with
build_spaced = refl
