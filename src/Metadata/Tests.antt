-- ===== src/Metadata/Tests.antt =====
-- Numbers printed as rows of marks.
use extreme_s.Prelude.{
  ℕ, zero, suc, ◌-◌, ◌≡◌, refl, inl, inr, false, true, List, Str, codes, str_eq, map, length,
  replicate, arith, All, In-map, ok, true, [],
}
use extreme_s.Common.{is_white, trim, trim_loop}
use extreme_s.Metadata.{
  tolower, find_colon, find_header, header_line, upload_headers, find_mtime_and_size,
}
use extreme_s.Metadata.RoundTrip.{IsPlain, Only, reply_line, mtime_name, size_name}
use extreme_s.Transfer.Uploader.{Setting, Answers, file_uploader, unchanged}
use extreme_s.Transfer.Uploader.Again.{SentBack, file_uploader-again}

abbrev marks : ℕ → Str
marks n = replicate (suc n) b'x'

abbrev count_marks : Str → ℕ
count_marks s = length s - 1

plain_marks : (n : ℕ) → All (λ c. is_white c ≡ false) (replicate n b'x')
unfolding is_white
plain_marks zero = tt
plain_marks (suc n) = (refl, plain_marks n)

marks-IsPlain : (n : ℕ) → IsPlain (marks n)
marks-IsPlain n = (λ e. cc, plain_marks (suc n))

length-replicate : (n : ℕ) → length {A = ℕ} (replicate n b'x') ≡ n
length-replicate zero = refl
length-replicate (suc n) = omega (arith, length-replicate n)

count_marks-marks : (n : ℕ) → count_marks (marks n) ≡ n
count_marks-marks n = omega (arith, length-replicate n)

abbrev reply : List Str
reply = map reply_line (upload_headers marks false (codes "text/plain") 2 3 1)

times_once : Only mtime_name (marks 2) reply
unfolding upload_headers find_header find_colon tolower header_line trim trim_loop is_white str_eq
times_once = (inl refl, (inl refl, (inr refl, (inl refl, (inl refl, tt)))))

sizes_once : Only size_name (marks 3) reply
unfolding upload_headers find_header find_colon tolower header_line trim trim_loop is_white str_eq
sizes_once = (inl refl, (inl refl, (inl refl, (inr refl, (inl refl, tt)))))

abbrev setting : Setting
setting = record {
  do_compression = true;
  mimes = [];
  int_to_string = marks;
  segment_size = 10;
  io_threads = 2;
  max_in_flight = 4;
}

abbrev answers : Answers
answers = record {
  file_size = ok 3;
  last_write_time = ok 2;
  stat_mode = ok 5;
  extension = codes ".txt";
  first_bytes = ok [];
  opened_size = ok 3;
  find_mtime_and_size = find_mtime_and_size count_marks (ok (reply, 200));
  initiate_multipart = λ headers. ok (codes "id");
}

reply_sent : SentBack marks 2 3 false (codes "text/plain") 1 reply
reply_sent = record {
  sent = λ h. In-map reply_line h (upload_headers marks false (codes "text/plain") 2 3 1);
  one_time = times_once;
  one_size = sizes_once;
}

file_uploader-again_example : file_uploader setting 9 answers ≡ ok unchanged
file_uploader-again_example =
    file_uploader-again setting 9 answers count_marks marks false (codes "text/plain") 2 3 1 5 200
      reply (omega arith) (omega arith) marks-IsPlain count_marks-marks reply_sent refl refl refl
      refl
