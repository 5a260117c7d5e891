-- ===== src/Transfer/Finish.antt =====
-- How the last part of a transfer ends it: `part_upload_task` of es3/uploader.cpp,
-- `write_segment_task` of es3/downloader.cpp, and `on_complete` of es3/compressor.cpp.
pub mod Parts
pub mod Writes
pub mod Blocks
mod Tests
use extreme_s.Prelude.{
  ℕ, zero, suc, ◌+◌, ◌-◌, ◌<◌, ◌≡◌, Bool, true, false, List, [], ◌∷◌, ◌++◌, Str, ltb, ◌==◌, length,
  set, if◌then◌else◌, Outcome, ok, fail, Failure, std_error, es3_error, err_fatal,
}

-- `upload_content`, with the lists of etags that `complete_multipart` was called with.
pub record UploadContent : Type 0 where
  pub num_parts : ℕ
  pub num_completed : ℕ
  pub etags : List Str
  pub assembled : List (List Str)

-- `++num_completed_` and `etags_.at(num_) = etag`, under the lock.
abbrev pub record_part : ℕ → Str → UploadContent → UploadContent
record_part num etag c = record {
  num_parts = c.num_parts;
  num_completed = c.num_completed + 1;
  etags = set c.etags num etag;
  assembled = c.assembled;
}

abbrev pub assemble : UploadContent → UploadContent
assemble c = record {
  num_parts = c.num_parts;
  num_completed = c.num_completed;
  etags = c.etags;
  assembled = c.assembled ++ (c.etags ∷ []);
}

-- What the two calls of the service give: `upload_data`, the etag, and `complete_multipart`.
pub record Replies : Type 0 where
  pub upload : Outcome Str
  pub complete : Outcome (Unit {0})

-- `part_upload_task::operator()`: what it leaves, also when it throws.
pub part_upload : ℕ → Replies → UploadContent → UploadContent × Outcome (Unit {0})
part_upload num replies c = elim replies.upload [
  | fail e ↦ (c, fail e)
  | ok etag ↦
      let after = record_part num etag c in
      if ltb num (length c.etags)
      then if after.num_completed == after.num_parts
        then (assemble after, replies.complete)
        else (after, ok tt)
      else (after, fail std_error)
]

-- `download_content`, and how the file was put in its place.
pub data Ending : Type 0 where
  decompressed renamed : Ending

pub record DownloadContent : Type 0 where
  pub num_segments : ℕ
  pub segments_read : ℕ
  pub compressed : Bool
  pub delete_temp_file : Bool
  pub endings : List Ending

abbrev pub count_segment : DownloadContent → DownloadContent
count_segment c = record {
  num_segments = c.num_segments;
  segments_read = c.segments_read + 1;
  compressed = c.compressed;
  delete_temp_file = c.delete_temp_file;
  endings = c.endings;
}

-- A file that was compressed goes to a decompressor, which then owns the temporary file; any other is
-- renamed.
abbrev pub finish_file : DownloadContent → DownloadContent
finish_file c = record {
  num_segments = c.num_segments;
  segments_read = c.segments_read;
  compressed = c.compressed;
  delete_temp_file = if c.compressed then false else c.delete_temp_file;
  endings = c.endings ++ ((if c.compressed then decompressed else renamed) ∷ []);
}

-- What the system makes of `last_write_time`, `chmod` and `rename`: all of them succeed, or one fails.
-- Boost throws an exception of its own, and `libc_die2` a fatal error.
pub data Replaced : Type 0 where
  in_place time_refused mode_refused rename_refused : Replaced

replaced : Replaced → Outcome (Unit {0})
replaced in_place = ok tt
replaced time_refused = fail std_error
replaced mode_refused = fail (es3_error err_fatal)
replaced rename_refused = fail (es3_error err_fatal)

-- `write_segment_task::operator()`, for what the writing of the segment and, in a file that was not
-- compressed, the putting in place give.
pub write_segment :
    Outcome (Unit {0}) → Replaced → DownloadContent → DownloadContent × Outcome (Unit {0})
unfolding replaced
write_segment do_write replace c = elim do_write [
  | fail e ↦ (c, fail e)
  | ok u ↦
      let after = count_segment c in
      if after.segments_read == after.num_segments
      then (finish_file after, if after.compressed then ok tt else replaced replace)
      else (after, ok tt)
]

-- The counter of a `file_compressor`, the results in it, the threads that have left the lock of
-- `on_complete` and have not yet read the counter again, and the calls of `on_finish_`, each with the
-- results at that time.
pub record Compression : Type 0 where
  pub num_pending : ℕ
  pub results : List (Str × ℕ)
  pub leaving : ℕ
  pub finished : List (List (Str × ℕ))

-- The block under the lock, for a block's temporary file, its number and its size.
pub enter : Str → ℕ → ℕ → Compression → Compression
enter name num resulting_size c = record {
  num_pending = c.num_pending - 1;
  results = set c.results num (name, resulting_size);
  leaving = c.leaving + 1;
  finished = c.finished;
}

-- `if (num_pending_==0) on_finish_(result_)`, outside it.
pub leave : Compression → Compression
leave c = record {
  num_pending = c.num_pending;
  results = c.results;
  leaving = c.leaving - 1;
  finished = if c.num_pending == 0 then c.finished ++ (c.results ∷ []) else c.finished;
}

-- The counter and the results at the start, for so many blocks.
pub begin : ℕ → List (Str × ℕ) → Compression
begin num_blocks results = record {
  num_pending = num_blocks;
  results = results;
  leaving = 0;
  finished = [];
}

-- The threads take their turns in any order.
pub data CompressStep : Compression → Compression → Type 0 where
  entering :
      (name : Str) (num size : ℕ) (c : Compression)
      → 0 < c.num_pending
      → CompressStep c (enter name num size c)
  leaving_lock : (c : Compression) → 0 < c.leaving → CompressStep c (leave c)

pub data CompressReach : Compression → Compression → Type 0 where
  none_yet : (c : Compression) → CompressReach c c
  then_step : (a b c : Compression) → CompressReach a b → CompressStep b c → CompressReach a c
