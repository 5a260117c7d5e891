-- ===== src/Sync/Tree/Laws.antt =====
-- Looking up what was put into a map of subdirectories.
use extreme_s.Prelude.{
  ◌≡◌, refl, true, false, ◌||◌, some, arith, Str, str_eq, str_eq_iff, if◌then◌else◌,
}
use extreme_s.Sync.Tree.{Dir, Subdirs, end, sub, lookup_sub, has_sub, place_sub, replace_sub}

module _ {P F : Type 0} where
  pub has_sub-place_sub :
      (k j : Str) (d : Dir P F) (ds : Subdirs P F)
      → has_sub j (place_sub k d ds) ≡ str_eq k j || has_sub j ds
  unfolding has_sub place_sub
  has_sub-place_sub k j d end = ground arith
  has_sub-place_sub k j d (sub i e ds) = ground (arith, has_sub-place_sub k j d ds)

  pub has_sub-replace_sub :
      (k j : Str) (d : Dir P F) (ds : Subdirs P F)
      → has_sub k ds ≡ true
      → has_sub j (replace_sub k d ds) ≡ str_eq k j || has_sub j ds
  unfolding has_sub replace_sub
  has_sub-replace_sub k j d end h = cc
  has_sub-replace_sub k j d (sub i e ds) h =
      ground (arith, str_eq_iff k j, str_eq_iff i k, str_eq_iff i j, has_sub-replace_sub k j d ds)

  pub lookup_sub-place_sub :
      (k j : Str) (d : Dir P F) (ds : Subdirs P F)
      → has_sub k ds ≡ false
      → lookup_sub j (place_sub k d ds) ≡ (if str_eq k j then some d else lookup_sub j ds)
  unfolding has_sub lookup_sub place_sub
  lookup_sub-place_sub k j d end h = refl
  lookup_sub-place_sub k j d (sub i e ds) h =
      ground (arith, str_eq_iff k j, str_eq_iff i k, str_eq_iff i j, lookup_sub-place_sub k j d ds)

  pub lookup_sub-replace_sub :
      (k j : Str) (d : Dir P F) (ds : Subdirs P F)
      → has_sub k ds ≡ true
      → lookup_sub j (replace_sub k d ds) ≡ (if str_eq k j then some d else lookup_sub j ds)
  unfolding has_sub lookup_sub replace_sub
  lookup_sub-replace_sub k j d end h = cc
  lookup_sub-replace_sub k j d (sub i e ds) h =
      ground
        (arith, str_eq_iff k j, str_eq_iff i k, str_eq_iff i j, lookup_sub-replace_sub k j d ds)
