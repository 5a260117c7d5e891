-- ===== src/Program/Tuned.antt =====
-- The agenda that the options give, and the uploads that it serves.
use extreme_s.Prelude.{
  ℕ, ◌+◌, ◌<◌, ◌≤◌, ◌≡◌, ◌≢◌, ap, ◌*◌, List, none, some, arith, Str, length, concat, ok,
}
use extreme_s.Agenda.{create}
use extreme_s.Transfer.Plan.{FilePump, number_of_segments, start_upload}
use extreme_s.Transfer.Plan.Pumps.{start_upload-never_ends}
use extreme_s.Transfer.Pump.{numbered}
use extreme_s.Transfer.Pump.Reading.{Reads}
use extreme_s.Transfer.Pump.Whole.{run_pumps, start_upload-whole}
use extreme_s.Program.{
  ℤ, pos, negsuc, max_in_flight, min_segment_size, Tuning, or_default, in_flight, segment_bytes,
  tuned_agenda,
}

or_default_positive : (other : ℕ) (v : ℤ) → 0 < other → 0 < or_default other v
unfolding or_default
or_default_positive other (pos n) h = ground arith
or_default_positive other (negsuc n) h = h

in_flight-bounds : (v : ℤ) → (0 < in_flight v) × (in_flight v ≤ max_in_flight)
unfolding in_flight or_default
in_flight-bounds (pos n) = ground arith
in_flight-bounds (negsuc n) = (omega arith, omega arith)

in_flight-one : (v : ℤ) → in_flight v ≡ 1 → v ≡ pos 1
unfolding in_flight or_default
in_flight-one (pos n) h = ground arith
in_flight-one (negsuc n) h = absurd (omega arith)

segment_bytes-bound : (v : ℤ) → min_segment_size ≤ segment_bytes v
unfolding segment_bytes
segment_bytes-bound (pos n) = ground arith
segment_bytes-bound (negsuc n) = omega arith

-- The numbers of the agenda are within their bounds, whatever the options are: there are threads of
-- each class, a segment has 6 MiB or more, and between 1 and 200 segments may be in flight.
pub tuned_agenda-bounds :
    (processors : ℕ) (t : Tuning)
    → let a = tuned_agenda processors t in
      (0 < a.class_limits.unbound_of)
      × (0 < a.class_limits.cpu_of)
      × (0 < a.class_limits.io_of)
      × (min_segment_size ≤ a.segment_size)
      × (0 < a.max_segments_in_flight)
      × (a.max_segments_in_flight ≤ max_in_flight)
unfolding tuned_agenda create
tuned_agenda-bounds processors t = (
  or_default_positive (processors * 6 + 40) t.thread_num (omega arith),
  or_default_positive (processors + 2) t.cpu_threads (omega arith),
  or_default_positive (processors * 2 + 2) t.io_threads (omega arith),
  segment_bytes-bound t.segment_size,
  (in_flight-bounds t.segments).0,
  (in_flight-bounds t.segments).1,
)

many_in_flight :
    (processors : ℕ) (t : Tuning)
    → t.segments ≢ pos 1
    → 2 ≤ (tuned_agenda processors t).max_segments_in_flight
unfolding tuned_agenda create
many_in_flight processors t h =
    let (positive, most) = in_flight-bounds t.segments in
    let not_one : in_flight t.segments ≢ 1 = λ e. h (in_flight-one t.segments e) in omega arith

one_in_flight :
    (processors : ℕ) (t : Tuning)
    → t.segments ≡ pos 1
    → (tuned_agenda processors t).max_segments_in_flight ≡ 1
unfolding tuned_agenda create in_flight or_default
one_in_flight processors t e = ap in_flight e

-- With any options but the one that allows a single segment in flight, the upload of a file that is not
-- empty and fits in 10000 parts ends its scheduling, and its pumps send the whole file: as many segments
-- as it has parts, as the parts with the numbers from 0 on in order, which put together are the file's
-- pieces put together.
pub tuned_agenda-uploads :
    (processors : ℕ) (t : Tuning) (read : Str → ℕ → ℕ → Str) (fuel n : ℕ) (pieces : List Str)
    → t.segments ≢ pos 1
    → Reads read
    → 0 < length (concat pieces)
    → number_of_segments (length (concat pieces)) (tuned_agenda processors t).segment_size ≡ ok n
    → n < fuel
    → let a = tuned_agenda processors t in
      (pumps : List FilePump) × (segments : List Str) × (start_upload fuel
          (length (concat pieces))
          a.segment_size
          a.class_limits.io_of
          a.max_segments_in_flight
        ≡ ok (n, some pumps))
      × (run_pumps read a.segment_size pieces pumps ≡ some (numbered 0 segments))
      × (length segments ≡ n)
      × (concat segments ≡ concat pieces)
tuned_agenda-uploads processors t read fuel n pieces several reads some_byte count enough =
    let a = tuned_agenda processors t in
    let (_, _, io, seg, _, _) = tuned_agenda-bounds processors t in
    start_upload-whole read fuel a.segment_size a.class_limits.io_of a.max_segments_in_flight n
      pieces reads (omega arith) io (many_in_flight processors t several) some_byte count enough

-- The option that allows a single segment in flight is taken as it is, and then no upload ends its
-- scheduling, whatever the fuel.
pub tuned_agenda-never_ends :
    (processors : ℕ) (t : Tuning) (fuel size n : ℕ)
    → t.segments ≡ pos 1
    → number_of_segments size (tuned_agenda processors t).segment_size ≡ ok n
    → let a = tuned_agenda processors t in
      start_upload fuel size a.segment_size a.class_limits.io_of a.max_segments_in_flight
      ≡ ok (n, none)
tuned_agenda-never_ends processors t fuel size n e count =
    let a = tuned_agenda processors t in
    let (_, _, io, _, _, _) = tuned_agenda-bounds processors t in
    rw (one_in_flight processors t e)
      (start_upload-never_ends fuel size a.segment_size a.class_limits.io_of n io count)
