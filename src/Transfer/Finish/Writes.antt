-- ===== src/Transfer/Finish/Writes.antt =====
-- When a downloaded file is put in its place.
use extreme_s.Prelude.{
  ℕ, zero, suc, ◌+◌, ◌≤◌, ◌≡◌, refl, ◌∙◌, ap, true, false, [], ◌∷◌, ◌++◌, arith, ◌==◌,
  if◌then◌else◌, ok,
}
use extreme_s.Transfer.Finish.{
  in_place, DownloadContent, Ending, decompressed, renamed, count_segment, finish_file,
  write_segment,
}

-- So many segments that are all written.
pub write_all : ℕ → DownloadContent → DownloadContent
write_all zero c = c
write_all (suc n) c = write_all n (write_segment (ok tt) in_place c).0

abbrev pub ending_of : DownloadContent → Ending
ending_of c = if c.compressed then decompressed else renamed

write_segment-early :
    (c : DownloadContent)
    → (c.segments_read + 1 == c.num_segments) ≡ false
    → (write_segment (ok tt) in_place c).0 ≡ count_segment c
unfolding write_segment
write_segment-early c e = rw e refl

write_segment-last :
    (c : DownloadContent)
    → (c.segments_read + 1 == c.num_segments) ≡ true
    → (write_segment (ok tt) in_place c).0 ≡ finish_file (count_segment c)
unfolding write_segment
write_segment-last c e = rw e refl

write_all-past :
    (n : ℕ) (c : DownloadContent)
    → c.num_segments ≤ c.segments_read
    → (write_all n c).endings ≡ c.endings
unfolding write_all
write_all-past zero c h = refl
write_all-past (suc n) c h =
    let over : (c.segments_read + 1 == c.num_segments) ≡ false = ground arith in
    ap (λ d. (write_all n d).endings) (write_segment-early c over)
    ∙ write_all-past n (count_segment c) (omega arith)

write_all-endings :
    (n : ℕ) (c : DownloadContent)
    → c.segments_read + suc n ≡ c.num_segments
    → (write_all (suc n) c).endings ≡ c.endings ++ (ending_of c ∷ [])
unfolding write_all
write_all-endings zero c h =
    let last : (c.segments_read + 1 == c.num_segments) ≡ true = ground arith in
    ap (λ d. d.endings) (write_segment-last c last)
write_all-endings (suc n) c h =
    let early : (c.segments_read + 1 == c.num_segments) ≡ false = ground arith in
    ap (λ d. (write_all (suc n) d).endings) (write_segment-early c early)
    ∙ write_all-endings n (count_segment c) (omega arith)

-- When all the segments of a download have been written once, the file has been put in its place
-- exactly once: by a decompressor when it was compressed, and by renaming otherwise. Before that
-- nothing was done with it.
pub write_all-once :
    (n : ℕ) (c : DownloadContent)
    → c.segments_read ≡ 0
    → c.endings ≡ []
    → suc n ≡ c.num_segments
    → (write_all (suc n) c).endings ≡ ending_of c ∷ []
write_all-once n c fresh none_yet count =
    write_all-endings n c (omega arith) ∙ ap (λ before. before ++ (ending_of c ∷ [])) none_yet
