-- ===== src/Transfer/Pump/Tests.antt =====
-- Two pieces read in segments of three bytes, one byte at a time.
use extreme_s.Prelude.{
  ℕ, ◌≡◌, refl, List, [], ◌∷◌, Str, codes, length, take, drop, concat, ok, some, arith,
}
use extreme_s.Transfer.Plan.{FilePump, number_of_segments, start_upload, parts_of}
use extreme_s.Transfer.Pump.{numbered}
use extreme_s.Transfer.Pump.Reading.{Reads}
use extreme_s.Transfer.Pump.Whole.{run_pumps, start_upload-whole}

abbrev slow_read : Str → ℕ → ℕ → Str
slow_read p offset n = take 1 (drop offset p)

slow_read-Reads : Reads slow_read
slow_read-Reads p offset n positive enough = (1, omega arith, omega arith, refl)

abbrev two_pieces : List Str
two_pieces = codes "abcde" ∷ codes "fgh" ∷ []

abbrev second_pump : FilePump
second_pump = record { cur_segment = 1; number_of_segments = 2 }

three_parts : number_of_segments (length (concat two_pieces)) 3 ≡ ok 3
unfolding number_of_segments parts_of
three_parts = refl

start_upload-whole_example :
    (pumps : List FilePump) × (segments : List Str) × (start_upload 4
        (length (concat two_pieces))
        3
        2
        2
      ≡ ok (3, some pumps))
    × (run_pumps slow_read 3 two_pieces pumps ≡ some (numbered 0 segments))
    × (length segments ≡ 3)
    × (concat segments ≡ concat two_pieces)
start_upload-whole_example =
    start_upload-whole slow_read 4 3 2 2 3 two_pieces slow_read-Reads (omega arith) (omega arith)
      (omega arith) (omega arith) three_parts (omega arith)
