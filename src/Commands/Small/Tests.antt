-- ===== src/Commands/Small/Tests.antt =====
-- A name that is not there.
use extreme_s.Prelude.{◌≡◌, refl, false, [], ◌∷◌, codes, ok, starts_with}
use extreme_s.S3Path.Tests.{parse_logs}
use extreme_s.Commands.{resolve}
use extreme_s.Commands.Rounds.Tests.{counting}
use extreme_s.Commands.Small.{do_test, do_touch}

touch_uploads : do_touch counting false (codes "s3://logs/a/b" ∷ []) 0 ≡ ok (0, 0)
unfolding do_touch resolve starts_with
touch_uploads = rw parse_logs refl

test_finds_nothing : do_test counting false (codes "s3://logs/a/b" ∷ []) 0 ≡ ok (1, 0)
unfolding do_test resolve starts_with
test_finds_nothing = rw parse_logs refl
