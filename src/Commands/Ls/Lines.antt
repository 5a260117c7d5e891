-- ===== src/Commands/Ls/Lines.antt =====
-- Both ways of listing show the same lines.
use extreme_s.Prelude.{
  ◌≡◌, refl, inl, inr, true, List, [], ◌∷◌, Option, some, map, In, arith, length, ltb, ◌==◌, ok,
  ◌>>=◌, ◌<◌,
}
use extreme_s.S3Path.{S3Path}
use extreme_s.Sync.Tree.{S3File, S3Directory, files, values}
use extreme_s.Metadata.{FileDesc}
use extreme_s.Commands.{World}
use extreme_s.Commands.Ls.{Details, at_path, ask_each, from_map, shown, after_infos, list_files}

module _ {W : Type 0} (world : World W) (details : Details W) where
  from_map-ask_each :
      (desc_map : S3Path → Option FileDesc) (fs : List S3File) (w : W)
      → ((f : S3File)
          → In f fs
          → (md : FileDesc) × (desc_map f.absolute_name ≡ some md)
            × (details.find_mtime_and_size f.absolute_name w ≡ ok md))
      → from_map world details desc_map fs ≡ ask_each world details fs w
  unfolding from_map ask_each at_path
  from_map-ask_each desc_map [] w agree = refl
  from_map-ask_each desc_map (f ∷ fs) w agree =
      let (md, mapped, asked) = agree f (inl refl) in
      rw (mapped, asked, from_map-ask_each desc_map fs w (λ g there. agree g (inr there))) refl

  -- When the tasks for the files all ran and left in the map what asking for each file gives, a directory
  -- with more than ten files is shown as one with fewer is: by asking for one file after the other.
  pub list_files-ask_each :
      (cur : S3Directory) (w w' : W) (desc_map : S3Path → Option FileDesc)
      → details.run_infos (map (λ (f : S3File). f.absolute_name) (values (files cur))) w
        ≡ (0, w', desc_map)
      → world.tasks_count w' ≡ 0
      → ((f : S3File)
          → In f (values (files cur))
          → (md : FileDesc) × (desc_map f.absolute_name ≡ some md)
            × (details.find_mtime_and_size f.absolute_name w ≡ ok md))
      → 10 < length (values (files cur))
      → list_files world details cur w ≡ (
          ask_each world details (values (files cur)) w >>= λ ls.
          ok (shown world details cur w' ls))
  unfolding list_files after_infos
  list_files-ask_each cur w w' desc_map ran empty agree many =
      let big : ltb 10 (length (values (files cur))) ≡ true = ground arith in
      let idle : (world.tasks_count w' == 0) ≡ true = ground arith in
      rw (big, ran, idle, from_map-ask_each desc_map (values (files cur)) w agree) refl
