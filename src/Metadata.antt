-- ===== src/Metadata.antt =====
-- What is kept with a file on the remote side: the headers of an upload (es3/uploader.cpp), and how they
-- are read again (`find_header`, `find_mtime`, `find_mtime_and_size` of es3/connection.cpp). Boost's
-- printing of numbers and libc's `atoll` are parameters.
pub mod RoundTrip
mod Tests
use extreme_s.Prelude.{
  ℕ, zero, suc, ◌+◌, Bool, true, false, not, ◌&&◌, List, [], ◌∷◌, ◌++◌, Option, none, some, Str,
  codes, str_eq, map, leb, ◌==◌, if◌then◌else◌, is_empty, take, drop, Outcome, ok, ◌>>=◌,
}
use extreme_s.Common.{trim}

-- `file_desc`
pub record FileDesc : Type 0 where
  pub mtime : ℕ
  pub raw_size : ℕ
  pub remote_size : ℕ
  pub mode : ℕ
  pub compressed : Bool
  pub found : Bool

-- `::tolower`
tolower : ℕ → ℕ
tolower c = if leb b'A' c && leb c b'Z' then c + 32 else c

-- `line.find(':')`
find_colon : Str → Option ℕ
find_colon [] = none
find_colon (c ∷ line) =
    let rest = find_colon line in
    if c == b':' then some 0 else elim rest [ none ↦ none | some pos ↦ some (suc pos) ]

-- The value of a line if it is of the header, else the empty text.
pub find_header : Str → Str → Str
unfolding tolower find_colon
find_header line_raw header_name =
    let line = map tolower line_raw in
    elim (find_colon line) [
      | none ↦ []
      | some pos ↦
          if str_eq (trim (take pos line)) header_name then trim (drop (pos + 1) line_raw) else []
    ]

abbrev pub initial : FileDesc
initial = record {
  mtime = 0;
  raw_size = 0;
  remote_size = 0;
  mode = 436;
  compressed = false;
  found = false;
}

module _ (atoll : Str → ℕ) where
  -- `if (!text.empty()) field = atoll(text.c_str());`
  number_or : ℕ → Str → ℕ
  number_or old [] = old
  number_or old (c ∷ text) = atoll (c ∷ text)

  -- The callback for a line of the reply.
  pub find_mtime : Str → FileDesc → FileDesc
  unfolding number_or
  find_mtime line info = record {
    mtime = number_or info.mtime (find_header line (codes "x-amz-meta-last-modified"));
    raw_size = number_or info.raw_size (find_header line (codes "x-amz-meta-size"));
    remote_size = number_or info.remote_size (find_header line (codes "content-length"));
    compressed =
        if str_eq (find_header line (codes "x-amz-meta-compressed")) (codes "true")
        then true
        else info.compressed;
    mode = number_or info.mode (find_header line (codes "x-amz-meta-file-mode"));
    found = info.found;
  }

  -- curl calls it for one line after the other.
  pub read_lines : List Str → FileDesc → FileDesc
  unfolding find_mtime
  read_lines [] info = info
  read_lines (line ∷ lines) info = read_lines lines (find_mtime line info)

  after_reply : ℕ → FileDesc → FileDesc
  after_reply code info = record info {
    found = not (code == 404);
    raw_size = if info.raw_size == 0 then info.remote_size else info.raw_size;
  }

  -- For what the request comes to: an error of curl, or the lines of the reply and its status.
  pub find_mtime_and_size : Outcome (List Str × ℕ) → Outcome FileDesc
  unfolding read_lines after_reply
  find_mtime_and_size reply =
      reply >>= λ (lines, code). ok (after_reply code (read_lines lines initial))

-- The test of `file_uploader` that ends the task early.
pub up_to_date : FileDesc → ℕ → ℕ → Bool
up_to_date md mtime file_sz = not (md.mtime == 0) && (md.mtime == mtime) && (md.raw_size == file_sz)

-- The headers that it sends, with the media type that was found.
pub upload_headers : (ℕ → Str) → Bool → Str → ℕ → ℕ → ℕ → List (Str × Str)
upload_headers int_to_string do_compress mime mtime file_sz mode =
    let encoding = (codes "Content-Encoding", codes "gzip") ∷ [] in
    (codes "x-amz-meta-compressed", if do_compress then codes "true" else codes "false")
    ∷ (codes "Content-Type", mime)
    ∷ ((if do_compress then encoding else [])
        ++ ((codes "x-amz-meta-last-modified", int_to_string mtime)
            ∷ (codes "x-amz-meta-size", int_to_string file_sz)
            ∷ (codes "x-amz-meta-file-mode", int_to_string mode)
            ∷ []))

-- `iter->first + ": " + iter->second`
pub header_line : Str × Str → Str
header_line (name, value) = name ++ (codes ": " ++ value)
