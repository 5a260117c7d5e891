-- ===== src/Requests/Buffers/Writes.antt =====
-- The calls of `simple_write`, for bytes that fit and for too many.
use extreme_s.Prelude.{
  Bool-cases, length-take, ℕ, ◌+◌, ◌-◌, ◌≤◌, ◌<◌, ◌≡◌, refl, ap, ◌∙◌, ◌⊎◌, inl, inr, true, false,
  List, [], ◌∷◌, ◌++◌, arith, Str, ◌==◌, min, length, take, drop, concat, length-append,
  length-drop, drop-sum, take-append_left, drop-append_left, take-length, drop-length, append_assoc,
  append-nil,
}
use extreme_s.Requests.Buffers.{WriteData, simple_write, after_write, write_calls}

abbrev pub state_at : Str → Str → WriteData
state_at before rest = record { target = before ++ rest; filled = length before }

take-before : (before rest : Str) → take (length before) (before ++ rest) ≡ before
take-before before rest =
    take-append_left (length before) before rest (omega arith)
    ∙ take-length (length before) before (omega arith)

drop-before : (before rest : Str) (n : ℕ) → drop (length before + n) (before ++ rest) ≡ drop n rest
drop-before before rest n =
    drop-sum (length before) n (before ++ rest)
    ∙ ap (λ r. drop n r)
        (drop-append_left (length before) before rest (omega arith)
          ∙ ap (λ r. r ++ rest) (drop-length (length before) before (omega arith)))

-- A call for bytes that fit puts them behind those that came before.
simple_write-fits :
    (bytes before rest : Str)
    → length bytes ≤ length rest
    → simple_write bytes (state_at before rest)
      ≡ (length bytes, state_at (before ++ bytes) (drop (length bytes) rest))
unfolding simple_write
simple_write-fits bytes before rest h =
    let n : min (length (before ++ rest) - length before) (length bytes) ≡ length bytes =
      omega (arith, length-append before rest) in
    rw
      (
        n,
        take-before before rest,
        drop-before before rest (length bytes),
        take-length (length bytes) bytes (omega arith),
        ← append_assoc before bytes (drop (length bytes) rest),
        ← length-append before bytes,
      )
      refl

simple_write-stops :
    (bytes before rest : Str)
    → length rest < length bytes
    → ((simple_write bytes (state_at before rest)).0 == length bytes) ≡ false
unfolding simple_write
simple_write-stops bytes before rest h =
    let n : min (length (before ++ rest) - length before) (length bytes) ≡ length rest =
      omega (arith, length-append before rest) in
    rw n (ground arith)

pub write_calls-fits :
    (pieces : List Str) (before rest : Str)
    → length (concat pieces) ≤ length rest
    → write_calls pieces (state_at before rest)
      ≡ (0, state_at (before ++ concat pieces) (drop (length (concat pieces)) rest))
unfolding write_calls after_write
write_calls-fits [] before rest h = rw (append-nil before) refl
write_calls-fits (bytes ∷ more) before rest h =
    let total = length-append bytes (concat more) in
    let exact : (length bytes == length bytes) ≡ true = ground arith in
    let next =
      write_calls-fits more (before ++ bytes) (drop (length bytes) rest)
        (omega (arith, length-drop (length bytes) rest)) in
    ap (λ r. after_write (length bytes) r (λ w. write_calls more w))
      (simple_write-fits bytes before rest (omega arith))
    ∙ rw
        (
          after_write,
          exact,
          next,
          append_assoc before bytes (concat more),
          total,
          drop-sum (length bytes) (length (concat more)) rest,
        )
        refl

after_write-stops :
    (given took : ℕ) (w : WriteData) (more : WriteData → ℕ × WriteData)
    → (took == given) ≡ false
    → (after_write given (took, w) more).0 ≡ 23
unfolding after_write
after_write-stops given took w more h = rw h refl

pub write_calls-stops :
    (pieces : List Str) (before rest : Str)
    → length rest < length (concat pieces)
    → (write_calls pieces (state_at before rest)).0 ≡ 23
unfolding write_calls after_write
write_calls-stops [] before rest h = absurd (omega arith)
write_calls-stops (bytes ∷ more) before rest h = elim (fits_or_not (length bytes) (length rest)) [
  | inr over ↦
      after_write-stops (length bytes) (simple_write bytes (state_at before rest)).0
        (simple_write bytes (state_at before rest)).1 (λ w. write_calls more w)
        (simple_write-stops bytes before rest over)
  | inl fits ↦
      let exact : (length bytes == length bytes) ≡ true = ground arith in
      ap (λ r. (after_write (length bytes) r (λ w. write_calls more w)).0)
        (simple_write-fits bytes before rest fits)
      ∙ rw (after_write, exact)
          (write_calls-stops more (before ++ bytes) (drop (length bytes) rest)
            (omega (arith, length-append bytes (concat more), length-drop (length bytes) rest)))
]
  where
    fits_or_not : (a b : ℕ) → (a ≤ b) ⊎ (b < a)
    fits_or_not a b = ground arith

simple_write-inside :
    (bytes : Str) (w : WriteData)
    → w.filled ≤ length w.target
    → (length (simple_write bytes w).1.target ≡ length w.target)
      × ((simple_write bytes w).1.filled ≤ length w.target)
unfolding simple_write
simple_write-inside bytes w h =
    let n = min (length w.target - w.filled) (length bytes) in
    let rest = drop (w.filled + n) w.target in
    (
      omega (
        arith,
        length-append (take w.filled w.target) (take n bytes ++ rest),
        length-append (take n bytes) rest,
        length-take w.filled w.target,
        length-take n bytes,
        length-drop (w.filled + n) w.target,
      ),
      omega arith,
    )

-- However the calls end, the buffer has its length, and no more of it is filled than there is.
pub write_calls-inside :
    (pieces : List Str) (w : WriteData)
    → w.filled ≤ length w.target
    → (length (write_calls pieces w).1.target ≡ length w.target)
      × ((write_calls pieces w).1.filled ≤ length w.target)
unfolding write_calls after_write
write_calls-inside [] w h = (refl, h)
write_calls-inside (bytes ∷ more) w h =
    let (same, within) = simple_write-inside bytes w h in
    let (later, full) = write_calls-inside more (simple_write bytes w).1 (omega arith) in
    elim (Bool-cases ((simple_write bytes w).0 == length bytes)) [
      | inl all ↦ rw all (later ∙ same, omega arith)
      | inr short ↦ rw short (same, within)
    ]
