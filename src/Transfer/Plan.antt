-- ===== src/Transfer/Plan.antt =====
-- The arithmetic of segments: `file_uploader::start_upload` of es3/uploader.cpp,
-- `file_downloader::operator()` and `download_segment_task` of es3/downloader.cpp, and
-- `file_compressor::operator()` of es3/compressor.cpp.
pub mod Cover
pub mod Pumps
mod Tests
use extreme_s.Prelude.{
  ℕ, zero, suc, ◌+◌, ◌-◌, ◌*◌, ◌/◌, ◌%◌, ◌<◌, ◌≡◌, Bool, true, false, List, [], ◌∷◌, Option, none,
  some, ltb, ◌==◌, if◌then◌else◌, map, Outcome, ok, fail, es3_error, err_fatal, ◌>>=◌,
}

-- `MAX_PART_NUM`, `MAX_SEGMENTS` and `MINIMAL_BLOCK`.
abbrev pub max_part_num : ℕ
max_part_num = 10000

abbrev pub max_segments : ℕ
max_segments = 9999

abbrev pub minimal_block : ℕ
minimal_block = 1024 * 1024

-- `size/segment_size + ((size%segment_size)==0 ? 0 : 1)`
unfoldable pub parts_of : ℕ → ℕ → ℕ
parts_of size segment_size = size / segment_size + (if size % segment_size == 0 then 0 else 1)

-- A part: its number, where it begins, and how long it is.
pub record Part : Type 0 where
  pub number : ℕ
  pub offset : ℕ
  pub size : ℕ

-- `start_offset = segment_size*f`, and the rest of the file up to one segment.
part_at : ℕ → ℕ → ℕ → Part
part_at total segment_size f = record {
  number = f;
  offset = segment_size * f;
  size =
      if ltb segment_size (total - segment_size * f)
      then segment_size
      else total - segment_size * f;
}

-- The loop `for (f = ...; f < num; ++f)`, by the rounds left.
parts_from : ℕ → ℕ → ℕ → ℕ → List Part
unfolding part_at
parts_from total segment_size zero f = []
parts_from total segment_size (suc left) f =
    part_at total segment_size f ∷ parts_from total segment_size left (f + 1)

-- The segments that a download fetches.
pub download_parts : ℕ → ℕ → Outcome (List Part)
unfolding parts_of parts_from
download_parts remote_size segment_size =
    let seg_num = parts_of remote_size segment_size in
    if ltb max_segments seg_num
    then fail (es3_error err_fatal)
    else ok (parts_from remote_size segment_size (if seg_num == 0 then 1 else seg_num) 0)

-- `block_sz` of the compressor, for a file and the number of threads that may compress.
pub block_size : ℕ → ℕ → ℕ
block_size file_sz capability =
    let estimate = file_sz / minimal_block in
    file_sz / (if ltb capability estimate then capability else estimate)

-- The blocks that are compressed one by one.
pub compress_blocks : ℕ → ℕ → List Part
unfolding parts_of parts_from
compress_blocks file_sz capability =
    let block_sz = block_size file_sz capability in
    parts_from file_sz block_sz (parts_of file_sz block_sz) 0

-- A `file_pump`: its first segment and how many it moves.
pub record FilePump : Type 0 where
  pub cur_segment : ℕ
  pub number_of_segments : ℕ

-- `num_per_pump`
pub num_per_pump : ℕ → ℕ → ℕ → ℕ
num_per_pump segments io_threads max_in_flight =
    let even = segments / io_threads + 1 in
    if ltb (max_in_flight / 2) even then max_in_flight / 2 else even

-- `for (f = 0; f < number_of_segments; f += num_per_pump)`, with fuel; `none` means that the fuel
-- ran out.
pumps_from : ℕ → ℕ → ℕ → ℕ → Option (List FilePump)
pumps_from zero per segments f = none
pumps_from (suc fuel) per segments f =
    let cur = segments - f in
    let pump : FilePump = record {
      cur_segment = f;
      number_of_segments = if ltb per cur then per else cur;
    } in
    let rest = pumps_from fuel per segments (f + per) in
    if ltb f segments then elim rest [ none ↦ none | some pumps ↦ some (pump ∷ pumps) ] else some []

-- The number of parts that an upload of that many bytes has.
unfoldable pub number_of_segments : ℕ → ℕ → Outcome ℕ
unfolding parts_of
number_of_segments size segment_size =
    let count = parts_of size segment_size in
    if ltb max_part_num count
    then fail (es3_error err_fatal)
    else ok (if count == 0 then 1 else count)

-- `start_upload`: the number of parts, and the pumps that were scheduled.
pub start_upload : ℕ → ℕ → ℕ → ℕ → ℕ → Outcome (ℕ × Option (List FilePump))
unfolding number_of_segments pumps_from num_per_pump
start_upload fuel size segment_size io_threads max_in_flight =
    number_of_segments size segment_size >>= λ segments.
    ok (segments, pumps_from fuel (num_per_pump segments io_threads max_in_flight) segments 0)
