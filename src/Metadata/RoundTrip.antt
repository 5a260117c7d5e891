-- ===== src/Metadata/RoundTrip.antt =====
-- The headers of an upload, read again.
use extreme_s.Prelude.{
  ℕ, ◌≡◌, refl, ◌≢◌, ◌∙◌, ◌⊎◌, inl, inr, Bool, true, false, List, [], ◌∷◌, ◌++◌, Str, codes, str_eq,
  ok, All, In, arith,
}
use extreme_s.Common.{is_white, trim, trim_loop}
use extreme_s.Common.Laws.{trim-line}
use extreme_s.Metadata.{
  FileDesc, tolower, find_colon, find_header, initial, number_or, find_mtime, read_lines,
  after_reply, find_mtime_and_size, up_to_date, upload_headers, header_line,
}

abbrev pub mtime_name : Str
mtime_name = codes "x-amz-meta-last-modified"

abbrev pub size_name : Str
size_name = codes "x-amz-meta-size"

-- A header as the service sends it back: with the end of a line.
abbrev pub reply_line : Str × Str → Str
reply_line h = header_line h ++ (13 ∷ 10 ∷ [])

abbrev pub IsPlain : Str → Type 0
IsPlain v = (v ≢ []) × All (λ c. is_white c ≡ false) v

trim-mtime_name : str_eq (trim mtime_name) mtime_name ≡ true
unfolding trim trim_loop is_white str_eq
trim-mtime_name = refl

trim-size_name : str_eq (trim size_name) size_name ≡ true
unfolding trim trim_loop is_white str_eq
trim-size_name = refl

find_header-mtime : (v : Str) → IsPlain v → find_header (reply_line (mtime_name, v)) mtime_name ≡ v
unfolding find_header find_colon tolower header_line
find_header-mtime v (some_text, plain) = rw (trim-mtime_name, trim-line v plain) refl

find_header-size : (v : Str) → IsPlain v → find_header (reply_line (size_name, v)) size_name ≡ v
unfolding find_header find_colon tolower header_line
find_header-size v (some_text, plain) = rw (trim-size_name, trim-line v plain) refl

-- No line has another value for the header.
abbrev pub Only : Str → Str → List Str → Type 0
Only name v = All (λ line. (find_header line name ≡ []) ⊎ (find_header line name ≡ v))

module _ (atoll : Str → ℕ) where
  number_or-same :
      (old n : ℕ) (text v : Str)
      → v ≢ []
      → atoll v ≡ n
      → (text ≡ v) ⊎ ((text ≡ []) × (old ≡ n))
      → number_or atoll old text ≡ n
  unfolding number_or
  number_or-same old n text [] h e k = absurd (h refl)
  number_or-same old n text (c ∷ v) h e (inl same) = rw same e
  number_or-same old n text (c ∷ v) h e (inr (none_there, kept)) = rw none_there kept

  sent_headers :
      (int_to_string : ℕ → Str) (do_compress : Bool) (mime : Str) (t size mode : ℕ)
      → In (mtime_name, int_to_string t) (upload_headers int_to_string do_compress mime t size mode)
        × In
            (size_name, int_to_string size)
            (upload_headers int_to_string do_compress mime t size mode)
  unfolding upload_headers
  sent_headers print true mime t size mode =
      (inr (inr (inr (inl refl))), inr (inr (inr (inr (inl refl)))))
  sent_headers print false mime t size mode = (inr (inr (inl refl)), inr (inr (inr (inl refl))))

  -- A field that every line sets from its header, if it has one.
  module _ (name : Str) (field : FileDesc → ℕ)
      (step : (line : Str) (info : FileDesc)
        → field (find_mtime atoll line info)
          ≡ number_or atoll (field info) (find_header line name)) where
    -- Once the field has its value it keeps it.
    read_lines_kept :
        (lines : List Str) (info : FileDesc) (n : ℕ) (v : Str)
        → v ≢ []
        → atoll v ≡ n
        → Only name v lines
        → field info ≡ n
        → field (read_lines atoll lines info) ≡ n
    unfolding read_lines
    read_lines_kept [] info n v h e only before = before
    read_lines_kept (line ∷ lines) info n v h e (here, only) before =
        read_lines_kept lines (find_mtime atoll line info) n v h e only (
          step line info
          ∙ number_or-same (field info) n (find_header line name) v h e
              (elim here [ inl no_value ↦ inr (no_value, before) | inr same ↦ inl same ]))

    read_lines_set :
        (lines : List Str) (info : FileDesc) (n : ℕ) (v line : Str)
        → v ≢ []
        → atoll v ≡ n
        → Only name v lines
        → In line lines
        → find_header line name ≡ v
        → field (read_lines atoll lines info) ≡ n
    unfolding read_lines
    read_lines_set [] info n v line h e only there value = elim there [ ]
    read_lines_set (l ∷ lines) info n v line h e (here, only) (inl same) value =
        let this : find_header l name ≡ v = rw (← same) value in
        read_lines_kept lines (find_mtime atoll l info) n v h e only
          (step l info ∙ number_or-same (field info) n (find_header l name) v h e (inl this))
    read_lines_set (l ∷ lines) info n v line h e (here, only) (inr later) value =
        read_lines_set lines (find_mtime atoll l info) n v line h e only later value

  mtime_step :
      (line : Str) (info : FileDesc)
      → (find_mtime atoll line info).mtime
        ≡ number_or atoll info.mtime (find_header line mtime_name)
  unfolding find_mtime
  mtime_step line info = refl

  size_step :
      (line : Str) (info : FileDesc)
      → (find_mtime atoll line info).raw_size
        ≡ number_or atoll info.raw_size (find_header line size_name)
  unfolding find_mtime
  size_step line info = refl

  up_to_date-after_reply :
      (code t size : ℕ) (info : FileDesc)
      → t ≢ 0
      → size ≢ 0
      → info.mtime ≡ t
      → info.raw_size ≡ size
      → up_to_date (after_reply atoll code info) t size ≡ true
  unfolding up_to_date after_reply
  up_to_date-after_reply code t size info h k e g = ground arith

  module _ (int_to_string : ℕ → Str) where
    -- A file that was uploaded counts as up to date: from a reply that sends back, in any order among
    -- other lines, the headers of the upload with the time and the size (and gives them no other value),
    -- the reader gets these two numbers, if they are not 0. The printed numbers have no white space and
    -- `atoll` reads them back.
    pub up_to_date-upload_headers :
        (do_compress : Bool) (mime : Str) (t size mode code : ℕ) (lines : List Str)
        → t ≢ 0
        → size ≢ 0
        → ((n : ℕ) → IsPlain (int_to_string n))
        → ((n : ℕ) → atoll (int_to_string n) ≡ n)
        → ((h : Str × Str)
            → In h (upload_headers int_to_string do_compress mime t size mode)
            → In (reply_line h) lines)
        → Only mtime_name (int_to_string t) lines
        → Only size_name (int_to_string size) lines
        → (md : FileDesc) × (find_mtime_and_size atoll (ok (lines, code)) ≡ ok md)
          × (up_to_date md t size ≡ true)
    unfolding find_mtime_and_size
    up_to_date-upload_headers do_compress mime t size mode code lines h k plain reads sent times
          sizes =
        let info = read_lines atoll lines initial in
        let (mtime_sent, size_sent) = sent_headers int_to_string do_compress mime t size mode in
        (
          after_reply atoll code info,
          refl,
          up_to_date-after_reply code t size info h k
              (read_lines_set mtime_name (λ (i : FileDesc). i.mtime) mtime_step lines initial t
                (int_to_string t) (reply_line (mtime_name, int_to_string t)) (plain t).0 (reads t)
                times (sent (mtime_name, int_to_string t) mtime_sent)
                (find_header-mtime (int_to_string t) (plain t)))
              (read_lines_set size_name (λ (i : FileDesc). i.raw_size) size_step lines initial size
                (int_to_string size) (reply_line (size_name, int_to_string size)) (plain size).0
                (reads size) sizes (sent (size_name, int_to_string size) size_sent)
                (find_header-size (int_to_string size) (plain size))),
        )
