-- ===== src/Commands/Rounds/Laws.antt =====
-- What the exit codes of `do_rsync` and `do_rm` tell.
use extreme_s.Prelude.{
  ℕ, zero, suc, ◌≡◌, refl, ◌≢◌, ◌⊎◌, inl, inr, Bool, true, false, not, List, [], ◌∷◌, Option, none,
  some, arith, Str, ◌==◌, Outcome, ok, >>=-eq-ok, ok-pair, Bool-cases,
}
use extreme_s.Sync.Schedule.{Synchronizer}
use extreme_s.Commands.{World, to_int, is_remote, resolve, resolve_all}
use extreme_s.Commands.Rounds.{
  SyncOptions, RmOptions, split_last, after_run, after_schedule, rounds, all_exist, sync_up,
  with_destination, download_into, uploading, downloading, removing, sync_down, sync_args_of,
  do_rsync, rm_args_of, do_rm,
}

module _ {W : Type 0} (world : World W) where
  -- The state is that of the agenda at the end of a run, in which the count of failures was 0 (as an
  -- `int`), and nothing is left in the queue.
  abbrev pub Finished : W → Type 0
  Finished w =
      (before : W) × (failed : ℕ) × (world.run before ≡ (failed, w))
      × (to_int failed ≡ 0)
      × (world.tasks_count w ≡ 0)

  after_run-zero :
      (before : W) (failed : ℕ) (w : W) (again : W → Outcome (ℕ × W)) {w' : W}
      → world.run before ≡ (failed, w)
      → after_run world (failed, w) again ≡ ok (0, w')
      → Finished w' ⊎ ((world.tasks_count w ≢ 0) × (again w ≡ ok (0, w')))
  unfolding after_run
  after_run-zero before failed w again {w'} ran e = elim (Bool-cases (to_int failed == 0)) [
    | inr failures ↦
        let (code, state) = ok-pair _ _ refl refl (rw failures at e) in absurd (ground arith)
    | inl none_failed ↦ elim (Bool-cases (world.tasks_count w == 0)) [
      | inl empty ↦
          let (code, state) = ok-pair _ _ refl refl (rw (none_failed, empty) at e) in
          inl (before, failed, rw (← state) ran, ground arith, rw (← state) (ground arith))
      | inr pending ↦ inr (ground arith, rw (none_failed, pending) at e)
    ]
  ]

  after_schedule-zero :
      (r : Bool × W) (again : W → Outcome (ℕ × W)) {w' : W}
      → after_schedule world again r ≡ ok (0, w')
      → Finished w' ⊎ ((w : W) × (world.tasks_count w ≢ 0) × (again w ≡ ok (0, w')))
  unfolding after_schedule
  after_schedule-zero (false, w) again e =
      let (code, state) = ok-pair _ _ refl refl e in absurd (omega arith)
  after_schedule-zero (true, before) again e =
      elim (after_run-zero before (world.run before).0 (world.run before).1 again refl e) [
        | inl done ↦ inl done
        | inr (pending, next) ↦ inr ((world.run before).1, pending, next)
      ]

  rounds-zero :
      (left : ℕ) (s : Synchronizer) (delete_mode non_recursive : Bool) (w : W) {w' : W}
      → (left ≡ 0 → world.tasks_count w ≢ 0)
      → rounds world left s delete_mode non_recursive w ≡ ok (0, w')
      → Finished w'
  unfolding rounds
  rounds-zero zero s delete_mode non_recursive w pending e =
      let busy : (world.tasks_count w == 0) ≡ false = ground (arith, pending refl) in
      let (code, state) = ok-pair _ _ refl refl (rw busy at e) in absurd (omega arith)
  rounds-zero (suc left) s delete_mode non_recursive w {w'} pending e =
      let (r, made, next) =
        >>=-eq-ok (world.create_schedule s false delete_mode non_recursive w) _ e in
      elim (after_schedule-zero r (λ w1. rounds world left s delete_mode non_recursive w1) next) [
        | inl done ↦ done
        | inr (w1, busy, again) ↦
            rounds-zero left s delete_mode non_recursive w1 (λ none_left. busy) again
      ]

  with_destination-zero :
      (tgt : Str) (w : W) (rest : W → Outcome (ℕ × W)) {w' : W}
      → with_destination world tgt w rest ≡ ok (0, w')
      → (w1 : W) × (rest w1 ≡ ok (0, w'))
  unfolding with_destination
  with_destination-zero tgt w rest e = elim (Bool-cases (world.exists_at tgt w)) [
    | inl there ↦ (w, rw there at e)
    | inr missing ↦
        let (w1, made, next) = >>=-eq-ok (world.create_directories tgt w) _ (rw missing at e) in
        elim (Bool-cases (world.exists_at tgt w1)) [
          | inl there ↦ (w1, rw there at next)
          | inr still ↦
              let (code, state) = ok-pair _ _ refl refl (rw still at next) in absurd (omega arith)
        ]
  ]

  sync_up-zero :
      (o : SyncOptions) (sources : List Str) (tgt : Str) (w : W) {w' : W}
      → sync_up world o sources tgt w ≡ ok (0, w')
      → Finished w'
  unfolding sync_up
  sync_up-zero o sources tgt w e =
      let (path, named, next) = >>=-eq-ok (resolve world tgt w) _ e in
      elim (Bool-cases (all_exist world sources w)) [
        | inl there ↦
            rounds-zero 3 (uploading o sources path) false false w (λ h. absurd (omega arith))
              (rw there at next)
        | inr missing ↦
            let (code, state) = ok-pair _ _ refl refl (rw missing at next) in absurd (omega arith)
      ]

  download_into-zero :
      (o : SyncOptions) (sources : List Str) (tgt : Str) (w : W) {w' : W}
      → download_into world o sources tgt w ≡ ok (0, w')
      → Finished w'
  unfolding download_into
  download_into-zero o sources tgt w e =
      let (paths, named, last) = >>=-eq-ok (resolve_all world sources w) _ e in
      rounds-zero 3 (downloading o tgt paths) false false w (λ h. absurd (omega arith)) last

  sync_down-zero :
      (o : SyncOptions) (sources : List Str) (tgt : Str) (w : W) {w' : W}
      → sync_down world o sources tgt w ≡ ok (0, w')
      → Finished w'
  unfolding sync_down
  sync_down-zero o sources tgt w e =
      let (w1, next) = with_destination-zero tgt w (λ w1. download_into world o sources tgt w1) e in
      download_into-zero o sources tgt w1 next

  sync_args_of-zero :
      (o : SyncOptions) (args : List Str) (w : W) {w' : W}
      → sync_args_of world o args w ≡ ok (0, w')
      → Finished w'
  unfolding sync_args_of
  sync_args_of-zero o [] w e = let (code, state) = ok-pair _ _ refl refl e in absurd (omega arith)
  sync_args_of-zero o (a ∷ []) w e =
      let (code, state) = ok-pair _ _ refl refl e in absurd (omega arith)
  sync_args_of-zero o (a ∷ b ∷ rest) w e =
      let (sources, tgt) = split_last a (b ∷ rest) in
      elim (Bool-cases (is_remote tgt)) [
        | inl up ↦ sync_up-zero o sources tgt w (rw up at e)
        | inr down ↦ sync_down-zero o sources tgt w (rw down at e)
      ]

  -- A synchronization that ends with the code 0 has ended with a run of the agenda in which no task
  -- failed (the count is 0 as an `int`) and after which none waits.
  pub do_rsync-zero :
      (options : Option SyncOptions) (w : W) {w' : W}
      → do_rsync world false options w ≡ ok (0, w')
      → Finished w'
  unfolding do_rsync
  do_rsync-zero none w e = let (code, state) = ok-pair _ _ refl refl e in absurd (omega arith)
  do_rsync-zero (some o) w e = sync_args_of-zero o o.sync_args w e

  rm_args_of-zero :
      (o : RmOptions) (args : List Str) (w : W) {w' : W}
      → rm_args_of world o args w ≡ ok (0, w')
      → Finished w'
  unfolding rm_args_of
  rm_args_of-zero o [] w e = let (code, state) = ok-pair _ _ refl refl e in absurd (omega arith)
  rm_args_of-zero o (a ∷ rest) w e =
      let (paths, named, last) = >>=-eq-ok (resolve_all world (a ∷ rest) w) _ e in
      rounds-zero 3 (removing o paths) true (not o.recursive) w (λ h. absurd (omega arith)) last

  -- The same of a removal.
  pub do_rm-zero :
      (options : Option RmOptions) (w : W) {w' : W}
      → do_rm world false options w ≡ ok (0, w')
      → Finished w'
  unfolding do_rm
  do_rm-zero none w e = let (code, state) = ok-pair _ _ refl refl e in absurd (omega arith)
  do_rm-zero (some o) w e = rm_args_of-zero o o.rm_args w e
