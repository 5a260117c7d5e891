-- ===== src/Transfer/Uploader.antt =====
-- The task that uploads a file: `file_uploader::operator()` of es3/uploader.cpp and
-- `should_compress` of es3/compressor.cpp.
pub mod Magic
pub mod Again
mod Tests
use extreme_s.Prelude.{
  ℕ, zero, suc, Bool, true, false, not, ◌&&◌, List, [], ◌∷◌, Str, codes, str_eq, ltb, leb, ◌==◌,
  if◌then◌else◌, Option, Outcome, ok, ◌>>=◌,
}
use extreme_s.Prelude.Dict.{Dict}
use extreme_s.Mimes.{find_mime}
use extreme_s.Metadata.{FileDesc, up_to_date, upload_headers}
use extreme_s.Transfer.Plan.{FilePump, start_upload}

-- `COMPRESSION_THRESHOLD`
abbrev pub compression_threshold : ℕ
compression_threshold = 10000000

-- The extensions of files that are not compressed.
abbrev pub compact_extensions : List Str
compact_extensions =
    codes ".gz"
    ∷ codes ".zip"
    ∷ codes ".tgz"
    ∷ codes ".bz2"
    ∷ codes ".7z"
    ∷ codes ".bam"
    ∷ codes ".idx"
    ∷ codes ".png"
    ∷ codes ".gif"
    ∷ codes ".jpg"
    ∷ codes ".jpeg"
    ∷ codes ".htm"
    ∷ codes ".html"
    ∷ []

pub one_of : Str → List Str → Bool
one_of ext [] = false
one_of ext (e ∷ es) = let later = one_of ext es in if str_eq ext e then true else later

-- `char magic[4]={0}`, once `read` has written some bytes into it.
magic_at : ℕ → Str → ℕ
magic_at i [] = 0
magic_at zero (c ∷ cs) = c
magic_at (suc i) (c ∷ cs) = magic_at i cs

-- `magic[i]==k` for a signed `char`, as on x86: a byte from 128 on is a negative number, which no
-- positive `k` equals.
char_equals : ℕ → ℕ → Bool
char_equals b k = ltb b 128 && (b == k)

pub has_magic : Str → Bool
unfolding char_equals magic_at
has_magic magic =
    char_equals (magic_at 0 magic) 31
    && (char_equals (magic_at 1 magic) 139
        && (char_equals (magic_at 2 magic) 8 && char_equals (magic_at 3 magic) 8))

-- For the first bytes of the file, or the failure to open or to read it.
pub should_compress : Str → ℕ → Outcome Str → Outcome Bool
unfolding one_of
should_compress ext sz first_bytes =
    if one_of ext compact_extensions
    then ok false
    else if leb sz compression_threshold
    then ok false
    else (first_bytes >>= λ magic. ok (not (has_magic magic)))

-- What the system and the service answer about the file, each a value or a failure.
pub record Answers : Type 0 where
  pub file_size : Outcome ℕ
  pub last_write_time : Outcome ℕ
  pub stat_mode : Outcome ℕ
  pub extension : Str
  pub first_bytes : Outcome Str
  pub opened_size : Outcome ℕ
  pub find_mtime_and_size : Outcome FileDesc
  pub initiate_multipart : List (Str × Str) → Outcome Str

-- The agenda and the options that count, with the media types.
pub record Setting : Type 0 where
  pub do_compression : Bool
  pub mimes : Dict Str
  pub int_to_string : ℕ → Str
  pub segment_size : ℕ
  pub io_threads : ℕ
  pub max_in_flight : ℕ

-- What the task comes to: nothing to do, a compression that was scheduled, or the pumps of an upload.
pub data Begun : Type 0 where
  unchanged : Begun
  compressing : Str → Begun
  pumping : Str → ℕ → Option (List FilePump) → Begun

module _ (s : Setting) (fuel : ℕ) (a : Answers) where
  start_straight : Str → Outcome Begun
  start_straight upload_id = a.opened_size >>= λ size.
      start_upload fuel size s.segment_size s.io_threads s.max_in_flight >>= λ (segments, pumps).
      ok (pumping upload_id segments pumps)

  -- From the decision to upload.
  begin_upload : ℕ → ℕ → ℕ → Outcome Begun
  unfolding start_straight
  begin_upload file_sz mtime mode = should_compress a.extension file_sz a.first_bytes >>= λ should.
      let do_compress = should && s.do_compression in
      a.initiate_multipart (
        upload_headers s.int_to_string do_compress (find_mime a.extension s.mimes) mtime file_sz
          mode)
      >>= λ upload_id. if do_compress then ok (compressing upload_id) else start_straight upload_id

  pub file_uploader : Outcome Begun
  unfolding begin_upload
  file_uploader = a.file_size >>= λ file_sz. a.last_write_time >>= λ mtime. a.stat_mode >>= λ mode.
      a.find_mtime_and_size >>= λ md.
      if up_to_date md mtime file_sz then ok unchanged else begin_upload file_sz mtime mode
