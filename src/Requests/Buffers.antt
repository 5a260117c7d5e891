-- ===== src/Requests/Buffers.antt =====
-- `buf_data`, `write_data` and `download_data` of es3/connection.cpp: the callbacks by which curl takes
-- the bytes of an upload and gives those of a download. What curl calls them with is an argument.
pub mod Reads
pub mod Writes
pub mod Whole
mod Tests
use extreme_s.Prelude.{
  ℕ, ◌+◌, ◌-◌, Bool, true, false, not, List, [], ◌∷◌, ◌++◌, Option, Str, ◌==◌, min, if◌then◌else◌,
  length, take, drop, Outcome, ok, fail, es3_error, err_warn, ◌>>=◌,
}
use extreme_s.Requests.{ErrorNodes, checked, check_for_errors}

pub record BufData : Type 0 where
  pub buf : Str
  pub written : ℕ

-- `simple_read`: what is copied, and the state after it. The checksum is left out.
pub simple_read : ℕ → BufData → Str × BufData
simple_read size b =
    let tocopy = min (length b.buf - b.written) size in
    (take tocopy (drop b.written b.buf), record b { written = b.written + tocopy })

-- The calls for the sizes that curl asks for.
pub read_calls : List ℕ → BufData → List Str
unfolding simple_read
read_calls [] b = []
read_calls (size ∷ sizes) b = let (bytes, b') = simple_read size b in bytes ∷ read_calls sizes b'

-- The buffer is as long as `total_size_` says.
pub record WriteData : Type 0 where
  pub target : Str
  pub filled : ℕ

-- `simple_write`: how much it takes, and the state after it.
pub simple_write : Str → WriteData → ℕ × WriteData
simple_write bytes w =
    let tocopy = min (length w.target - w.filled) (length bytes) in
    (
      tocopy,
      record {
        target = take w.filled w.target ++ (take tocopy bytes ++ drop (w.filled + tocopy) w.target);
        filled = w.filled + tocopy;
      },
    )

-- curl gives its error 23 (`CURLE_WRITE_ERROR`) when a call takes fewer bytes than it was given.
after_write : ℕ → ℕ × WriteData → (WriteData → ℕ × WriteData) → ℕ × WriteData
after_write given (took, w) more = let rest = more w in if took == given then rest else (23, w)

pub write_calls : List Str → WriteData → ℕ × WriteData
unfolding after_write
write_calls [] w = (0, w)
write_calls (bytes ∷ more) w =
    after_write (length bytes) (simple_write bytes w) (λ w'. write_calls more w')

-- `download_data` into a buffer, for the pieces that arrive, the status and the parsed reply: the buffer
-- at its end.
pub download_data : Str → List Str → ℕ → Option ErrorNodes → Outcome Str
unfolding write_calls
download_data buffer pieces code doc =
    let (curl_code, wd) = write_calls pieces (record { target = buffer; filled = 0 }) in
    checked curl_code >>= λ u. check_for_errors 0 code doc >>= λ v.
    if not (wd.filled == length buffer) then fail (es3_error err_warn) else ok wd.target
