-- ===== src/Transfer/Finish/Tests.antt =====
-- Transfers of two parts.
use extreme_s.Prelude.{
  sym, subst, ℕ, ◌<◌, ◌≡◌, refl, List, [], ◌∷◌, ◌++◌, Str, codes, length, set, get_elem?, In, All,
  some, ok, fail, es3_error, err_warn, arith,
}
use extreme_s.Transfer.Finish.{
  UploadContent, record_part, assemble, part_upload, Compression, enter, leave, begin, entering,
  leaving_lock, CompressReach, none_yet, then_step,
}
use extreme_s.Transfer.Finish.Parts.{upload_all, retried, upload_all-once, part_upload-lost}
use extreme_s.Transfer.Finish.Blocks.{entries, Holds, OwnNumbers, on_finish-called, on_finish-races}

abbrev two_parts : UploadContent
two_parts = record { num_parts = 2; num_completed = 0; etags = [] ∷ [] ∷ []; assembled = [] }

abbrev backwards : List (ℕ × Str)
backwards = (1, codes "b") ∷ (0, codes "a") ∷ []

upload_all-once_example :
    (etags : List Str) × ((upload_all backwards two_parts).assembled ≡ etags ∷ [])
    × ((i : ℕ) (e : Str) → In (i, e) backwards → get_elem? etags i ≡ some e)
upload_all-once_example =
    upload_all-once backwards two_parts (((λ e. omega arith), tt), (tt, tt))
      (omega arith, (omega arith, tt)) (omega arith) refl refl refl

abbrev one_left : UploadContent
one_left = record { num_parts = 2; num_completed = 1; etags = [] ∷ codes "b" ∷ []; assembled = [] }

part_upload-lost_example :
    (part_upload 0
        (record { upload = ok (codes "a"); complete = fail (es3_error err_warn) })
        one_left
      ≡ (assemble (record_part 0 (codes "a") one_left), fail (es3_error err_warn)))
    × ((part_upload 0
          (record { upload = ok (codes "c"); complete = ok tt })
          (assemble (record_part 0 (codes "a") one_left))).1
        ≡ ok tt)
    × ((retried 0 (codes "c" ∷ []) (assemble (record_part 0 (codes "a") one_left))).assembled
        ≡ one_left.assembled ++ (set one_left.etags 0 (codes "a") ∷ []))
part_upload-lost_example =
    part_upload-lost 0 (codes "a") (codes "c") [] (es3_error err_warn) one_left (omega arith) refl

abbrev one_block : Compression
one_block = begin 1 (([], 0) ∷ [])

abbrev entered_one : Compression
entered_one = enter (codes "t") 0 5 one_block

one_pending : 0 < one_block.num_pending
unfolding begin
one_pending = omega arith

one_leaving : 0 < entered_one.leaving
unfolding enter begin
one_leaving = omega arith

none_pending : (leave entered_one).num_pending ≡ 0
unfolding leave enter begin
none_pending = omega arith

none_leaving : (leave entered_one).leaving ≡ 0
unfolding leave enter begin
none_leaving = omega arith

one_entered : CompressReach one_block entered_one
one_entered =
    then_step one_block one_block entered_one (none_yet one_block)
      (entering (codes "t") 0 5 one_block one_pending)

one_left_lock : CompressReach one_block (leave entered_one)
one_left_lock =
    then_step one_block entered_one (leave entered_one) one_entered
      (leaving_lock entered_one one_leaving)

registered : entries one_left_lock ≡ (0, (codes "t", 5)) ∷ []
unfolding entries one_left_lock one_entered
registered = refl

on_finish-called_example :
    (length (entries one_left_lock) ≡ 1)
    × (0 < length (leave entered_one).finished)
    × All (λ given. Holds given (entries one_left_lock)) (leave entered_one).finished
on_finish-called_example =
    on_finish-called 1 (([], 0) ∷ []) (leave entered_one) one_left_lock (omega arith)
      (subst OwnNumbers (sym registered) (tt, tt))
      (subst (λ es. All (λ e. e.0 < 1) es) (sym registered) (omega arith, tt)) none_pending
      none_leaving

on_finish-races_example :
    (c : Compression) × CompressReach (begin 2 (([], 0) ∷ ([], 0) ∷ [])) c
    × (c.num_pending ≡ 0)
    × (c.leaving ≡ 0)
    × (length c.finished ≡ 2)
on_finish-races_example = on_finish-races 2 (([], 0) ∷ ([], 0) ∷ [])
