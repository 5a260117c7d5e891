-- ===== src/Commands/Usage/Codes.antt =====
-- What `do_du` prints when it ends with the code 0.
use extreme_s.Prelude.{
  ℕ, ◌≡◌, refl, inl, inr, true, false, List, [], ◌∷◌, Option, some, arith, Str, ◌==◌, ok, >>=-eq-ok,
  Bool-cases, ap,
}
use extreme_s.Sync.Tree.{S3Directory, all_files}
use extreme_s.Sync.Merge.Laws.{in_dir}
use extreme_s.Commands.{World, to_int, resolve}
use extreme_s.Commands.Usage.{Stat, no_stat, get_size, totals_after, do_du}
use extreme_s.Commands.Usage.Times.{Latest, get_size-Latest}
use extreme_s.Commands.Usage.Totals.{Adds, count_dirs, bytes_of, one, get_size-Adds}

-- The totals of a tree.
pub record AreTotals (d : S3Directory) (st : Stat) : Type 0 where
  pub sums : Adds (in_dir bytes_of d) (in_dir one d) (count_dirs d) no_stat st
  pub latest : Latest (all_files d) [] st.recent_timestamp

get_size-AreTotals : (d : S3Directory) → AreTotals d (get_size d no_stat)
get_size-AreTotals d = record { sums = get_size-Adds d; latest = get_size-Latest d }

module _ {W : Type 0} (world : World W) where
  totals_after-zero :
      (failed : ℕ) (w : W) {printed : Option Stat} {w' : W}
      → totals_after world (failed, w) ≡ (0, printed, w')
      → (printed ≡ some (get_size (world.walked_root w') no_stat)) × (world.tasks_count w' ≡ 0)
  unfolding totals_after
  totals_after-zero failed w {printed} {w'} e = elim (Bool-cases (to_int failed == 0)) [
    | inr failures ↦ absurd (lost failures (ap (λ r. r.0) (rw failures at e)))
    | inl none_failed ↦ elim (Bool-cases (world.tasks_count w == 0)) [
      | inr pending ↦ absurd (omega (arith, ap (λ r. r.0) (rw (none_failed, pending) at e)))
      | inl empty ↦
          let whole = rw (none_failed, empty) at e in
          ends empty (ap (λ r. r.1) whole) (ap (λ r. r.2) whole)
    ]
  ]
    where
      lost : (to_int failed == 0) ≡ false → to_int failed ≡ 0 → ⊥
      lost h k = ground arith

      ends :
          (world.tasks_count w == 0) ≡ true
          → some (get_size (world.walked_root w) no_stat) ≡ printed
          → w ≡ w'
          → (printed ≡ some (get_size (world.walked_root w') no_stat)) × (world.tasks_count w' ≡ 0)
      ends empty h same = rw (← same, ← h) (refl, ground arith)

  ok_inj : {a b : ℕ × Option Stat × W} → ok a ≡ ok b → a ≡ b
  ok_inj e = cc

  -- When `du` ends with the code 0, no task is left in the queue and it prints, of the tree that the walk
  -- has filled, the sum of the sizes and the number of all files, the number of directories (each modulo
  -- 2 ^ 64) and the latest time.
  pub do_du-zero :
      (params : List Str) (w : W) {printed : Option Stat} {w' : W}
      → do_du world false params w ≡ ok (0, printed, w')
      → (st : Stat) × (printed ≡ some st)
        × AreTotals (world.walked_root w') st
        × (world.tasks_count w' ≡ 0)
  unfolding do_du
  do_du-zero [] w e = absurd (omega (arith, ap (λ r. r.0) (ok_inj e)))
  do_du-zero (a ∷ b ∷ rest) w e = absurd (omega (arith, ap (λ r. r.0) (ok_inj e)))
  do_du-zero (tgt ∷ []) w {printed} {w'} e =
      let (path, named, next) = >>=-eq-ok (resolve world tgt w) _ e in
      let (w1, walked, last) = >>=-eq-ok (world.recursive_walk path w) _ next in
      let (shown, empty) = totals_after-zero (world.run w1).0 (world.run w1).1 (ok_inj last) in
      (
        get_size (world.walked_root w') no_stat,
        shown,
        get_size-AreTotals (world.walked_root w'),
        empty,
      )
