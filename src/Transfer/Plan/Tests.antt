-- ===== src/Transfer/Plan/Tests.antt =====
-- Files of a few bytes cut into segments.
use extreme_s.Prelude.{◌+◌, ◌*◌, ◌<◌, ◌≤◌, ◌≡◌, ◌⊎◌, List, ok, fail, es3_error, err_fatal, arith}
use extreme_s.Transfer.Plan.{
  max_segments, minimal_block, Part, parts_of, download_parts, block_size, compress_blocks,
}
use extreme_s.Transfer.Plan.Cover.{Covers, download_parts_lem, compress_blocks-Covers}

download_parts_lem_example :
    ((max_segments < parts_of 10 4) × (download_parts 10 4 ≡ fail (es3_error err_fatal)))
    ⊎ ((parts : List Part) × (parts_of 10 4 ≤ max_segments)
        × (download_parts 10 4 ≡ ok parts)
        × Covers 4 0 0 parts 10)
download_parts_lem_example = download_parts_lem 10 4 (omega arith) (omega arith)

compress_blocks-Covers_example :
    Covers
      (block_size (3 * minimal_block + 1) 2)
      0
      0
      (compress_blocks (3 * minimal_block + 1) 2)
      (3 * minimal_block + 1)
compress_blocks-Covers_example =
    compress_blocks-Covers (3 * minimal_block + 1) 2 (omega arith) (omega arith)
