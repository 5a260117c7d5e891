-- ===== src/Commands/Small/Laws.antt =====
-- Touching what is not there, and testing it.
use extreme_s.Prelude.{◌≡◌, refl, inl, inr, ◌⊎◌, true, false, [], ◌∷◌, Str, ok, Bool-cases}
use extreme_s.S3Path.{S3Path}
use extreme_s.Sync.Tree.{S3Directory}
use extreme_s.Commands.{World, is_remote, resolve}
use extreme_s.Commands.Small.{nothing_in, do_test, do_touch}

module _ {W : Type 0} (world : World W) where
  -- What a test of a remote name answers is what a touch goes by: where the test gives 1, the touch uploads
  -- an empty object of that name, and where it gives 0, the touch changes nothing.
  pub do_touch-do_test :
      (tgt : Str) (w : W) {path : S3Path} {d : S3Directory} {w' : W}
      → is_remote tgt ≡ true
      → resolve world tgt w ≡ ok path
      → world.list_root path w ≡ ok d
      → world.upload_empty path w ≡ ok w'
      → ((do_test world false (tgt ∷ []) w ≡ ok (1, w))
          × (do_touch world false (tgt ∷ []) w ≡ ok (0, w')))
        ⊎ ((do_test world false (tgt ∷ []) w ≡ ok (0, w))
            × (do_touch world false (tgt ∷ []) w ≡ ok (0, w)))
  unfolding do_test do_touch
  do_touch-do_test tgt w {path} {d} far named found sent = elim (Bool-cases (nothing_in d)) [
    | inl bare ↦ inl (rw (far, named, found, bare) refl, rw (far, named, found, bare, sent) refl)
    | inr full ↦ inr (rw (far, named, found, full) refl, rw (far, named, found, full) refl)
  ]
