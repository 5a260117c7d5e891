-- ===== src/Transfer/Pump/Reading.antt =====
-- A pump reads its own segments of the file, in order.
use extreme_s.Prelude.{
  concat, take-nil, drop-nil, take-sum, drop-sum, drop-append_left, drop-append_right, ℕ, zero, suc,
  ◌+◌, ◌-◌, ◌*◌, ◌<◌, ◌≤◌, ◌≡◌, refl, sym, ap, ◌∙◌, subst, min, inl, inr, List, [], ◌∷◌, ◌++◌,
  Option, none, some, Str, arith, ltb, ◌==◌, length, take, drop, is_empty, Bool-cases, append-nil,
  length-take, length-drop, length-append, ==_iff,
}
use extreme_s.Transfer.Plan.{FilePump}
use extreme_s.Transfer.Pump.{
  numbered, number_parts, Cursor, buf_size, and_then, skip_to, skip, read_loop, fill, read_segments,
  run_pump,
}
use extreme_s.Transfer.Pump.Filled.{
  first_length, ahead, Standing, Filled, within, used_up-Filled, same-Filled,
}

-- The segments of the bytes that are left, so many of them.
abbrev pub chunks : ℕ → ℕ → Str → List Str
chunks seg zero left = []
chunks seg (suc n) left = take seg left ∷ chunks seg n (drop seg left)

-- `read` gives some of the bytes that are asked for, where the file has that many.
abbrev pub Reads : (Str → ℕ → ℕ → Str) → Type 0
Reads read =
    (p : Str) (offset n : ℕ)
    → 0 < n
    → offset + n ≤ length p
    → (k : ℕ) × (0 < k) × (k ≤ n) × (read p offset n ≡ take k (drop offset p))

module _ (read : Str → ℕ → ℕ → Str) (reads : Reads read) where
  read_loop-take :
      (fuel : ℕ) (p : Str) (offset n : ℕ)
      → n ≤ fuel
      → offset + n ≤ length p
      → read_loop read fuel p offset n ≡ some (take n (drop offset p))
  unfolding read_loop
  read_loop-take fuel p offset zero h l = refl
  read_loop-take zero p offset (suc n) h l = absurd (omega arith)
  read_loop-take (suc fuel) p offset (suc n) h l =
      let (k, positive, most, got) =
        reads p offset (min (suc n) buf_size) (omega arith) (omega arith) in
      let size : length (take k (drop offset p)) ≡ k =
        omega (arith, length-take k (drop offset p), length-drop offset p) in
      let rest = read_loop-take fuel p (offset + k) (suc n - k) (omega arith) (omega arith) in
      let whole : k + (suc n - k) ≡ suc n = omega arith in
      rw (got, size, rest, drop-sum offset k p, ← take-sum k (suc n - k) (drop offset p), whole)
        refl

  fill-Filled :
      (seg : ℕ) (got : Str) (offset : ℕ) (pieces : List Str)
      → offset ≤ first_length pieces
      → length got ≤ seg
      → Filled
          (seg - length got)
          got
          (drop offset (concat pieces))
          (fill read seg got offset pieces)
  unfolding fill
  fill-Filled seg got offset [] h l =
      let none_left : drop {A = ℕ} offset [] ≡ [] = drop-nil offset in
      (
        rw (none_left, take-nil (seg - length got), append-nil got) refl,
        omega arith,
        rw (none_left, drop-nil (seg - length got)) refl,
      )
  fill-Filled seg got offset (p ∷ ps) h l = elim (Bool-cases (ltb (length got) seg)) [
    | inr full ↦
        let none_wanted : seg - length got ≡ 0 = ground arith in
        rw (full, none_wanted, append-nil got) (refl, h, refl)
    | inl more ↦
        let space : length got < seg = ground arith in
        let r = min (seg - length got) (length p - offset) in
        let size : length (take r (drop offset p)) ≡ r =
          omega (arith, length-take r (drop offset p), length-drop offset p) in
        rw
          (
            more,
            read_loop-take r p offset r (omega arith) (omega arith),
            drop-append_left offset p (concat ps) h,
            size,
          )
          (elim (Bool-cases (length p == (offset + r))) [
            | inl e ↦
                let ends : offset + r ≡ length p = sym ((==_iff _ _).0 e) in
                let left : seg - length (got ++ take r (drop offset p)) ≡ seg - length got - r =
                  omega (arith, length-append got (take r (drop offset p)), size) in
                rw e (
                  used_up-Filled ps p offset (seg - length got) r got
                    (fill read seg (got ++ take r (drop offset p)) 0 ps) ends (omega arith)
                    (subst
                      (λ w.
                        Filled w (got ++ take r (drop offset p)) (concat ps)
                          (fill read seg (got ++ take r (drop offset p)) 0 ps))
                      left
                      (fill-Filled seg (got ++ take r (drop offset p)) 0 ps (omega arith)
                        (omega (arith, length-append got (take r (drop offset p)), size)))))
            | inr e ↦
                let short : offset + r < length p = ground arith in
                let wanted : seg - length got ≡ r = omega arith in
                rw e (
                  same-Filled (is_empty ps) (seg - length got) got (drop offset p ++ concat ps)
                    (some (
                      got ++ take r (drop offset p),
                      record { offset_within = offset + r; pieces = p ∷ ps },
                    ))
                    (subst
                      (λ w. Filled w got (drop offset p ++ concat ps) (
                        some (
                          got ++ take r (drop offset p),
                          record { offset_within = offset + r; pieces = p ∷ ps },
                        )))
                      (sym wanted) (within ps p offset r got (omega arith))))
          ])
  ]

  sent :
      (seg n : ℕ) (left : Str) (o : Option (Str × Cursor)) (next : Cursor → Option (List Str))
      → ((at : Cursor) → Standing at → next at ≡ some (chunks seg n (ahead at)))
      → Filled seg [] left o
      → and_then o next ≡ some (chunks seg (suc n) left)
  sent seg n left none next more f = absurd f
  sent seg n left (some (bytes, at)) next more (content, standing, rest) =
      rw (content, more at standing, rest) refl

  -- A segment holds the next bytes, as many as it can.
  read_segments-chunks :
      (seg n : ℕ) (at : Cursor)
      → Standing at
      → read_segments read seg n at ≡ some (chunks seg n (ahead at))
  unfolding read_segments
  read_segments-chunks seg zero at h = refl
  read_segments-chunks seg (suc n) at h =
      let all : seg - 0 ≡ seg = omega arith in
      sent seg n (ahead at) (fill read seg [] at.offset_within at.pieces) (read_segments read seg n)
        (λ next s. read_segments-chunks seg n next s)
        (subst (λ want. Filled want [] (ahead at) (fill read seg [] at.offset_within at.pieces)) all
          (fill-Filled seg [] at.offset_within at.pieces h (omega arith)))

  skip_to-ahead :
      (start skipped : ℕ) (all ps : List Str)
      → skipped ≤ start
      → start < skipped + length (concat ps)
      → Standing (skip_to start skipped all ps)
        × (ahead (skip_to start skipped all ps) ≡ drop (start - skipped) (concat ps))
  unfolding skip_to
  skip_to-ahead start skipped all [] l h = absurd (omega arith)
  skip_to-ahead start skipped all (p ∷ ps) l h =
      elim (Bool-cases (ltb start (skipped + length p))) [
        | inl e ↦ let here : start < skipped + length p = ground arith in rw e (omega arith, refl)
        | inr e ↦
            let past : skipped + length p ≤ start = ground arith in
            let (standing, rest) =
              skip_to-ahead start (skipped + length p) all ps past
                (omega (arith, length-append p (concat ps))) in
            let less : start - skipped - length p ≡ start - (skipped + length p) = omega arith in
            rw e (
              standing,
              rw (drop-append_right (start - skipped) p (concat ps) (omega arith), less) rest,
            )
      ]

  -- A pump whose first segment begins within the file schedules exactly the segments that it was
  -- given of the file that the pieces make up, in order and with their numbers, whatever the sizes of
  -- the pieces and however few bytes each call of `read` gives.
  pub run_pump-chunks :
      (seg : ℕ) (pieces : List Str) (pump : FilePump)
      → seg * pump.cur_segment < length (concat pieces)
      → run_pump read seg pieces pump
        ≡ some (
            numbered pump.cur_segment
              (chunks seg pump.number_of_segments (drop (seg * pump.cur_segment) (concat pieces))))
  unfolding run_pump skip number_parts
  run_pump-chunks seg pieces pump h =
      let start = seg * pump.cur_segment in
      let (standing, at) = skip_to-ahead start 0 pieces pieces (omega arith) (omega arith) in
      let same : start - 0 ≡ start = omega arith in
      ap (λ r. number_parts pump.cur_segment r)
        (read_segments-chunks seg pump.number_of_segments (skip_to start 0 pieces pieces) standing
          ∙ ap (λ left. some (chunks seg pump.number_of_segments left))
              (at ∙ ap (λ n. drop n (concat pieces)) same))
