-- ===== src/Program/Tests.antt =====
-- The program with small handlers and small files.
use extreme_s.Prelude.{
  ℕ, ◌≡◌, ◌≤◌, is_empty, ◌≢◌, refl, false, List, [], ◌∷◌, none, some, arith, Str, codes, str_eq,
  length, concat, ok, take, drop,
}
use extreme_s.Prelude.Dict.{Dict, lookup}
use extreme_s.Agenda.{create}
use extreme_s.Transfer.Plan.{FilePump, number_of_segments, start_upload, parts_of}
use extreme_s.Transfer.Pump.{numbered}
use extreme_s.Transfer.Pump.Reading.{Reads}
use extreme_s.Transfer.Pump.Whole.{run_pumps}
use extreme_s.Program.{
  pos, Tuning, CommandLine, configured, returns, Handler, tuned_agenda, segment_bytes, main_program,
  run_command, dispatch, ending,
}
use extreme_s.Program.Tuned.{tuned_agenda-uploads, tuned_agenda-never_ends}
use extreme_s.Program.Codes.{main_program-zero}

abbrev autodetect : Tuning
autodetect = record {
  thread_num = pos 0;
  io_threads = pos 0;
  cpu_threads = pos 0;
  segment_size = pos 0;
  segments = pos 0;
}

abbrev one_segment : Tuning
one_segment = record autodetect { segments = pos 1 }

abbrev whole_read : Str → ℕ → ℕ → Str
whole_read p offset n = take n (drop offset p)

abbrev line : CommandLine
line = record {
  argc = 2;
  help = false;
  cur_subcommand = codes "ls";
  cur_sub_params = codes "s3://a" ∷ [];
}

abbrev fine : Handler
fine ag params help = ok 0

abbrev commands : Dict Handler
commands = (codes "ls", fine) ∷ []

ends_well : main_program 4 commands (some line) (configured autodetect) ≡ returns 0
unfolding main_program run_command dispatch ending lookup str_eq
ends_well = refl

main_program-zero_example :
    (l : CommandLine) × (t : Tuning) × (handler : Handler) × (some line ≡ some l)
    × (2 ≤ l.argc)
    × (l.help ≡ false)
    × (is_empty l.cur_subcommand ≡ false)
    × (configured autodetect ≡ configured t)
    × (lookup l.cur_subcommand commands ≡ some handler)
    × (handler (tuned_agenda 4 t) l.cur_sub_params false ≡ ok 0)
main_program-zero_example =
    main_program-zero 4 commands (some line) (configured autodetect) ends_well

one_part : number_of_segments 8 (tuned_agenda 4 autodetect).segment_size ≡ ok 1
unfolding tuned_agenda create segment_bytes number_of_segments parts_of
one_part = refl

one_part_again : number_of_segments 8 (tuned_agenda 4 one_segment).segment_size ≡ ok 1
unfolding tuned_agenda create segment_bytes number_of_segments parts_of
one_part_again = refl

tuned_agenda-never_ends_example :
    start_upload 1000 8
      (tuned_agenda 4 one_segment).segment_size
      (tuned_agenda 4 one_segment).class_limits.io_of
      (tuned_agenda 4 one_segment).max_segments_in_flight
    ≡ ok (1, none)
tuned_agenda-never_ends_example = tuned_agenda-never_ends 4 one_segment 1000 8 1 refl one_part_again

whole_read-Reads : Reads whole_read
whole_read-Reads p offset n positive enough = (n, positive, omega arith, refl)

abbrev pieces : List Str
pieces = codes "abcde" ∷ codes "fgh" ∷ []

zero_segments : pos 0 ≢ pos 1
zero_segments e = ground arith

tuned_agenda-uploads_example :
    (pumps : List FilePump) × (segments : List Str) × (start_upload 2
        (length (concat pieces))
        (tuned_agenda 4 autodetect).segment_size
        (tuned_agenda 4 autodetect).class_limits.io_of
        (tuned_agenda 4 autodetect).max_segments_in_flight
      ≡ ok (1, some pumps))
    × (run_pumps whole_read (tuned_agenda 4 autodetect).segment_size pieces pumps
        ≡ some (numbered 0 segments))
    × (length segments ≡ 1)
    × (concat segments ≡ concat pieces)
tuned_agenda-uploads_example =
    tuned_agenda-uploads 4 autodetect whole_read 2 1 pieces zero_segments whole_read-Reads
      (omega arith) one_part (omega arith)
