-- ===== src/Commands/Usage/Tests.antt =====
-- The usage of a folder with one file.
use extreme_s.Prelude.{◌≡◌, refl, [], ◌∷◌, some, codes, ok, false}
use extreme_s.S3Path.Tests.{parse_logs}
use extreme_s.Commands.{resolve}
use extreme_s.Commands.Rounds.Tests.{counting}
use extreme_s.Commands.Usage.{Stat, no_stat, do_du, totals_after, get_size}
use extreme_s.Commands.Usage.Codes.{AreTotals, do_du-zero}

du_ends :
    do_du counting false (codes "s3://logs/a/b" ∷ []) 0
    ≡ ok (0, some (get_size (counting.walked_root 0) no_stat), 0)
unfolding do_du totals_after resolve
du_ends = rw parse_logs refl

do_du-zero_example :
    (st : Stat) × (some (get_size (counting.walked_root 0) no_stat) ≡ some st)
    × AreTotals (counting.walked_root 0) st
    × (counting.tasks_count 0 ≡ 0)
do_du-zero_example = do_du-zero counting (codes "s3://logs/a/b" ∷ []) 0 du_ends
