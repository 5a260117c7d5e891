-- ===== src/Requests/Buffers/Tests.antt =====
-- A download of three bytes in two pieces, and an upload of three.
use extreme_s.Prelude.{
  ◌≡◌, ◌≤◌, ◌≢◌, ◌⊎◌, [], ◌∷◌, none, codes, length, concat, arith, ok, fail, es3_error, err_warn,
}
use extreme_s.Requests.Buffers.{download_data, write_calls}
use extreme_s.Requests.Buffers.Writes.{state_at}
use extreme_s.Requests.Buffers.Whole.{download_data-whole}

download_data-whole_example :
    (((length (concat (codes "ab" ∷ codes "c" ∷ [])) ≡ length (codes "..."))
        × (download_data (codes "...") (codes "ab" ∷ codes "c" ∷ []) 200 none
            ≡ ok (concat (codes "ab" ∷ codes "c" ∷ []))))
      ⊎ ((length (concat (codes "ab" ∷ codes "c" ∷ [])) ≢ length (codes "..."))
          × (download_data (codes "...") (codes "ab" ∷ codes "c" ∷ []) 200 none
              ≡ fail (es3_error err_warn))))
    × (length (write_calls (codes "ab" ∷ codes "c" ∷ []) (state_at [] (codes "..."))).1.target
        ≡ length (codes "..."))
    × ((write_calls (codes "ab" ∷ codes "c" ∷ []) (state_at [] (codes "..."))).1.filled
        ≤ length (codes "..."))
download_data-whole_example =
    download_data-whole (codes "...") (codes "ab" ∷ codes "c" ∷ []) 200 none (omega arith)
