-- ===== src/Transfer/Uploader/Again.antt =====
-- The task for a file that is already there.
use extreme_s.Prelude.{ℕ, ◌≡◌, ◌≢◌, refl, Bool, List, Str, ok, In}
use extreme_s.Metadata.{find_mtime_and_size, upload_headers}
use extreme_s.Metadata.RoundTrip.{
  IsPlain, Only, reply_line, mtime_name, size_name, up_to_date-upload_headers,
}
use extreme_s.Transfer.Uploader.{Setting, Answers, unchanged, file_uploader}

-- The service sends back, in any order among other lines, the headers of an upload with the time and
-- the size, and gives them no other value.
pub record SentBack (int_to_string : ℕ → Str) (t size : ℕ) (do_compress : Bool) (mime : Str)
    (mode : ℕ) (lines : List Str) : Type 0 where
  pub sent :
      (h : Str × Str)
      → In h (upload_headers int_to_string do_compress mime t size mode)
      → In (reply_line h) lines
  pub one_time : Only mtime_name (int_to_string t) lines
  pub one_size : Only size_name (int_to_string size) lines

-- A file that was uploaded, whatever its media type and permissions and with or without compression, is
-- not uploaded again while it has the same time and size, if these are not 0: from a reply that sends
-- back the headers of that upload, in any order among other lines and with no other value for the time
-- and the size, the task reads both, finds them equal, and ends with nothing done. The printed numbers
-- are not empty, have no white space, and are read back as they were.
pub file_uploader-again :
    (s : Setting) (fuel : ℕ) (a : Answers) (atoll : Str → ℕ) (int_to_string : ℕ → Str)
    (do_compress : Bool) (mime : Str) (t size old_mode mode code : ℕ) (lines : List Str)
    → t ≢ 0
    → size ≢ 0
    → ((n : ℕ) → IsPlain (int_to_string n))
    → ((n : ℕ) → atoll (int_to_string n) ≡ n)
    → SentBack int_to_string t size do_compress mime old_mode lines
    → a.file_size ≡ ok size
    → a.last_write_time ≡ ok t
    → a.stat_mode ≡ ok mode
    → a.find_mtime_and_size ≡ find_mtime_and_size atoll (ok (lines, code))
    → file_uploader s fuel a ≡ ok unchanged
unfolding file_uploader
file_uploader-again s fuel a atoll int_to_string do_compress mime t size old_mode mode code lines
      some_time some_size plain reads back e_size e_time e_mode e_md =
    let (md, found, same) =
      up_to_date-upload_headers atoll int_to_string do_compress mime t size old_mode code lines
        some_time some_size plain reads back.sent back.one_time back.one_size in
    rw (e_size, e_time, e_mode, e_md, found, same) refl
