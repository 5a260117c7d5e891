-- ===== src/Requests/Buffers/Whole.antt =====
-- A download takes exactly the bytes of its buffer, and no byte is written behind it.
use extreme_s.Prelude.{
  ℕ, ◌≤◌, ◌<◌, ◌≡◌, refl, ◌≢◌, ap, ◌∙◌, ◌⊎◌, inl, inr, true, false, not, List, [], ◌++◌, Option,
  arith, Str, ◌==◌, if◌then◌else◌, length, drop, concat, drop-length, append-nil, Outcome, ok, fail,
  es3_error, err_warn, ◌>>=◌,
}
use extreme_s.Requests.{ErrorNodes, checked, check_for_errors}
use extreme_s.Requests.Laws.{check_for_errors-ok}
use extreme_s.Requests.Buffers.{WriteData, write_calls, download_data}
use extreme_s.Requests.Buffers.Writes.{
  state_at, write_calls-fits, write_calls-stops, write_calls-inside,
}

-- The last statements of `download_data`, for what the calls came to.
end_of : Str → ℕ → Option ErrorNodes → ℕ × WriteData → Outcome Str
end_of buffer code doc (curl_code, wd) = checked curl_code >>= λ u.
    check_for_errors 0 code doc >>= λ v.
    if not (wd.filled == length buffer) then fail (es3_error err_warn) else ok wd.target

end_of-stopped :
    (buffer : Str) (code : ℕ) (doc : Option ErrorNodes) (r : ℕ × WriteData)
    → r.0 ≡ 23
    → end_of buffer code doc r ≡ fail (es3_error err_warn)
unfolding end_of checked
end_of-stopped buffer code doc (curl_code, wd) e = rw e refl

end_of-filled :
    (buffer : Str) (code : ℕ) (doc : Option ErrorNodes) (wd : WriteData)
    → code < 400
    → end_of buffer code doc (0, wd)
      ≡ (if not (wd.filled == length buffer) then fail (es3_error err_warn) else ok wd.target)
unfolding end_of checked
end_of-filled buffer code doc wd h = rw ((check_for_errors-ok 0 code doc).1 (refl, h)) refl

download_data-end_of :
    (buffer : Str) (pieces : List Str) (code : ℕ) (doc : Option ErrorNodes)
    → download_data buffer pieces code doc
      ≡ end_of buffer code doc (write_calls pieces (state_at [] buffer))
unfolding download_data end_of
download_data-end_of buffer pieces code doc = refl

download_data-bytes :
    (buffer : Str) (pieces : List Str) (code : ℕ) (doc : Option ErrorNodes)
    → code < 400
    → ((length (concat pieces) ≡ length buffer)
        × (download_data buffer pieces code doc ≡ ok (concat pieces)))
      ⊎ ((length (concat pieces) ≢ length buffer)
          × (download_data buffer pieces code doc ≡ fail (es3_error err_warn)))
download_data-bytes buffer pieces code doc h =
    elim (three (length (concat pieces)) (length buffer)) [
      | inr over ↦ inr (
        omega arith,
        download_data-end_of buffer pieces code doc
            ∙ end_of-stopped buffer code doc _ (write_calls-stops pieces [] buffer over),
      )
      | inl (inl same) ↦
          let full : (length (concat pieces) == length buffer) ≡ true = ground arith in
          inl (
            same,
            arrived (omega arith)
                ∙ rw
                    (
                      full,
                      drop-length (length (concat pieces)) buffer (omega arith),
                      append-nil (concat pieces),
                    )
                    refl,
          )
      | inl (inr under) ↦
          let part : (length (concat pieces) == length buffer) ≡ false = ground arith in
          inr (omega arith, arrived (omega arith) ∙ rw part refl)
    ]
  where
    three : (a b : ℕ) → ((a ≡ b) ⊎ (a < b)) ⊎ (b < a)
    three a b = ground arith

    arrived :
        length (concat pieces) ≤ length buffer
        → download_data buffer pieces code doc ≡ (
            if not (length (concat pieces) == length buffer)
            then fail (es3_error err_warn)
            else ok (concat pieces ++ drop (length (concat pieces)) buffer))
    arrived fits =
        download_data-end_of buffer pieces code doc
        ∙ ap (λ r. end_of buffer code doc r) (write_calls-fits pieces [] buffer fits)
        ∙ end_of-filled buffer code doc
            (state_at (concat pieces) (drop (length (concat pieces)) buffer)) h

-- A download whose reply is no error gives the bytes that arrived, in any pieces, when they are as many
-- as the buffer holds. When they are fewer or more it fails, with a warning that makes the task try
-- again. In each case the calls leave a buffer of the same length, in which
-- they have filled no more than it holds.
pub download_data-whole :
    (buffer : Str) (pieces : List Str) (code : ℕ) (doc : Option ErrorNodes)
    → code < 400
    → (((length (concat pieces) ≡ length buffer)
          × (download_data buffer pieces code doc ≡ ok (concat pieces)))
        ⊎ ((length (concat pieces) ≢ length buffer)
            × (download_data buffer pieces code doc ≡ fail (es3_error err_warn))))
      × (length (write_calls pieces (state_at [] buffer)).1.target ≡ length buffer)
      × ((write_calls pieces (state_at [] buffer)).1.filled ≤ length buffer)
download_data-whole buffer pieces code doc h =
    let (same, within) = write_calls-inside pieces (state_at [] buffer) (omega arith) in
    (download_data-bytes buffer pieces code doc h, same, omega arith)
