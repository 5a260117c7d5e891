-- ===== src/Transfer/Pump.antt =====
-- How `file_pump` of es3/uploader.cpp reads its segments from the pieces of a file.
pub mod Filled
pub mod Reading
pub mod Whole
mod Tests
use extreme_s.Prelude.{
  ℕ, zero, suc, ◌+◌, ◌-◌, ◌*◌, min, Bool, true, false, List, [], ◌∷◌, ◌++◌, Option, none, some, Str,
  ltb, ◌==◌, length, if◌then◌else◌, is_empty,
}
use extreme_s.Transfer.Plan.{FilePump}

-- Where a pump stands: the pieces from `cur_piece` on, and `offset_within_` of the first of them.
pub record Cursor : Type 0 where
  pub offset_within : ℕ
  pub pieces : List Str

-- `char buf[65536*8]`
abbrev buf_size : ℕ
buf_size = 65536 * 8

-- "First, skip to our piece": with no piece that holds the offset, the first one is taken.
skip_to : ℕ → ℕ → List Str → List Str → Cursor
skip_to start skipped all [] = record { offset_within = 0; pieces = all }
skip_to start skipped all (p ∷ ps) =
    let later = skip_to start (skipped + length p) all ps in
    if ltb start (skipped + length p)
    then record { offset_within = start - skipped; pieces = p ∷ ps }
    else later

pub skip : ℕ → List Str → Cursor
unfolding skip_to
skip start pieces = skip_to start 0 pieces pieces

abbrev prepend : Str → Option Str → Option Str
prepend bytes none = none
prepend bytes (some rest) = some (bytes ++ rest)

abbrev before : Str → Option (List Str) → Option (List Str)
before bytes none = none
before bytes (some rest) = some (bytes ∷ rest)

-- The segment that was read is sent, and the next ones are read from where it ended.
abbrev and_then : Option (Str × Cursor) → (Cursor → Option (List Str)) → Option (List Str)
and_then none next = none
and_then (some (bytes, at)) next = before bytes (next at)

-- The system's `read` of a file at an offset, of so many bytes at the most.
-- `cur_segment_+f`: the number of the part that is made of each segment.
unfoldable pub numbered : ℕ → List Str → List (ℕ × Str)
numbered f [] = []
numbered f (bytes ∷ segments) = (f, bytes) ∷ numbered (f + 1) segments

number_parts : ℕ → Option (List Str) → Option (List (ℕ × Str))
number_parts f none = none
number_parts f (some segments) = some (numbered f segments)

module _ (read : Str → ℕ → ℕ → Str) where
  -- `while(remaining_size>0)`, with fuel; `none` means that the fuel ran out.
  read_loop : ℕ → Str → ℕ → ℕ → Option Str
  read_loop fuel p offset zero = some []
  read_loop zero p offset (suc n) = none
  read_loop (suc fuel) p offset (suc n) =
      let res = read p offset (min (suc n) buf_size) in
      prepend res (read_loop fuel p (offset + length res) (suc n - length res))

  -- `while(segment_read_so_far<seg->data_.size())`: the bytes read so far, and then what the segment
  -- holds at the end with the place where the next one goes on.
  fill : ℕ → Str → ℕ → List Str → Option (Str × Cursor)
  unfolding read_loop
  fill segment_size got offset [] = some (got, record { offset_within = offset; pieces = [] })
  fill segment_size got offset (p ∷ ps) =
      let remaining_size = min (segment_size - length got) (length p - offset) in
      if ltb (length got) segment_size
      then elim (read_loop remaining_size p offset remaining_size) [
        | none ↦ none
        | some bytes ↦
            let next = fill segment_size (got ++ bytes) 0 ps in
            let stay : Cursor = record { offset_within = offset + length bytes; pieces = p ∷ ps } in
            if is_empty ps
            then some (got ++ bytes, stay)
            else if length p == (offset + length bytes)
            then next
            else some (got ++ bytes, stay)
      ]
      else some (got, record { offset_within = offset; pieces = p ∷ ps })

  -- `for(int f=0;f<number_of_segments_;++f)`: the segments that are sent, in order.
  read_segments : ℕ → ℕ → Cursor → Option (List Str)
  unfolding fill
  read_segments segment_size zero at = some []
  read_segments segment_size (suc n) at =
      and_then (fill segment_size [] at.offset_within at.pieces) (read_segments segment_size n)

  -- `file_pump::operator()`: the parts that it schedules, each with its number and its bytes.
  pub run_pump : ℕ → List Str → FilePump → Option (List (ℕ × Str))
  unfolding read_segments number_parts
  run_pump segment_size pieces pump = number_parts pump.cur_segment (
      read_segments segment_size pump.number_of_segments
        (skip (segment_size * pump.cur_segment) pieces))
