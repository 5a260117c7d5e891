-- ===== src/Commands/Usage/Times.antt =====
-- The time that `get_size` finds against the list of all files.
use extreme_s.Prelude.{
  ◌≡◌, refl, ◌⊎◌, inl, inr, true, false, List, [], ◌∷◌, ◌++◌, arith, Str, str_lt, str_lt_trans,
  str_lt_irrefl, All, All-append, In, In-append_left, In-append_right, ◌∙◌, str_lt_cotrans,
  Bool-cases,
}
use extreme_s.Prelude.Dict.{Dict}
use extreme_s.S3Path.{S3Path}
use extreme_s.Sync.Tree.{
  dir, Subdirs, end, sub, S3File, S3Directory, values, all_files, all_files_below,
}
use extreme_s.Commands.Usage.{
  Stat, add64, count_file, count_files, get_size_of, get_size_below, get_size, no_stat,
}

-- The time of the files, compared as texts: none is later, and it is one of them or the one before.
abbrev pub Latest : List S3File → Str → Str → Type 0
Latest fs before recent =
    (str_lt recent before ≡ false)
    × All (λ f. str_lt recent f.mtime_str ≡ false) fs
    × ((recent ≡ before) ⊎ ((f : S3File) × In f fs × (recent ≡ f.mtime_str)))

Latest-lower :
    (fs : List S3File) (low high : Str)
    → str_lt high low ≡ false
    → All (λ f. str_lt low f.mtime_str ≡ false) fs
    → All (λ f. str_lt high f.mtime_str ≡ false) fs
Latest-lower [] low high h all = tt
Latest-lower (f ∷ fs) low high h (a, all) =
    (str_lt_cotrans high low f.mtime_str h a, Latest-lower fs low high h all)

Latest-append :
    (fs gs : List S3File) (before middle recent : Str)
    → Latest fs before middle
    → Latest gs middle recent
    → Latest (fs ++ gs) before recent
Latest-append fs gs before middle recent (a, all, b) (c, others, d) = (
  str_lt_cotrans recent middle before c a,
  All-append (λ f. str_lt recent f.mtime_str ≡ false) fs gs (Latest-lower fs middle recent c all)
      others,
  elim d [
    | inr (f, there, same) ↦ inr (f, In-append_right f fs gs there, same)
    | inl same ↦ elim b [
      | inl kept ↦ inl (same ∙ kept)
      | inr (f, there, time) ↦ inr (f, In-append_left f fs gs there, same ∙ time)
    ]
  ],
)

count_file-Latest :
    (f : S3File) (out : Stat)
    → Latest (f ∷ []) out.recent_timestamp (count_file f out).recent_timestamp
unfolding count_file
count_file-Latest f out = elim (Bool-cases (str_lt out.recent_timestamp f.mtime_str)) [
  | inr kept ↦ rw kept (str_lt_irrefl out.recent_timestamp, (kept, tt), inl refl)
  | inl later ↦ rw later (
    not_below out.recent_timestamp f.mtime_str later,
    (str_lt_irrefl f.mtime_str, tt),
    inr (f, inl refl, refl),
  )
]
  where
    not_below : (a b : Str) → str_lt a b ≡ true → str_lt b a ≡ false
    not_below a b h = ground (arith, str_lt_trans a b a, str_lt_irrefl a)

count_files-Latest :
    (fs : Dict S3File) (out : Stat)
    → Latest (values fs) out.recent_timestamp (count_files fs out).recent_timestamp
unfolding count_files
count_files-Latest [] out = (str_lt_irrefl out.recent_timestamp, tt, inl refl)
count_files-Latest ((k, f) ∷ fs) out =
    Latest-append (f ∷ []) (values fs) out.recent_timestamp (count_file f out).recent_timestamp
      (count_files fs (count_file f out)).recent_timestamp (count_file-Latest f out)
      (count_files-Latest fs (count_file f out))

mutual
  unfolding get_size_of all_files

  get_size_of-Latest :
      (d : S3Directory) (out : Stat)
      → Latest (all_files d) out.recent_timestamp (get_size_of d out).recent_timestamp
  get_size_of-Latest (dir n p fs ds) out =
      Latest-append (values fs) (all_files_below ds) out.recent_timestamp
        (count_files fs out).recent_timestamp
        (get_size_below ds (count_files fs out)).recent_timestamp (count_files-Latest fs out)
        (get_size_below-Latest ds (count_files fs out))

  get_size_below-Latest :
      (ds : Subdirs S3Path S3File) (out : Stat)
      → Latest (all_files_below ds) out.recent_timestamp (get_size_below ds out).recent_timestamp
  get_size_below-Latest end out = (str_lt_irrefl out.recent_timestamp, tt, inl refl)
  get_size_below-Latest (sub k d ds) out =
      let counted = record out { dir_num = add64 out.dir_num 1 } in
      Latest-append (all_files d) (all_files_below ds) out.recent_timestamp
        (get_size_of d counted).recent_timestamp
        (get_size_below ds (get_size_of d counted)).recent_timestamp (get_size_of-Latest d counted)
        (get_size_below-Latest ds (get_size_of d counted))

-- The time that is printed is later than or equal to that of every file of the tree, at every depth, and
-- it is the time of one of them (or the empty text).
pub get_size-Latest :
    (d : S3Directory) → Latest (all_files d) [] (get_size d no_stat).recent_timestamp
unfolding get_size
get_size-Latest d = get_size_of-Latest d no_stat
