-- ===== src/Transfer/Pump/Whole.antt =====
-- The pumps of an upload read the whole file.
use extreme_s.Prelude.{
  concat, take-sum, drop-sum, take-length, ℕ, zero, suc, ◌+◌, ◌-◌, ◌*◌, ◌/◌, ok, ◌<◌, ◌≤◌, ◌≡◌,
  refl, sym, ap, ap₂, ◌∙◌, subst, List, [], ◌∷◌, ◌++◌, Option, none, some, Str, arith, length, take,
  drop,
}
use extreme_s.Transfer.Plan.{FilePump, start_upload, number_of_segments}
use extreme_s.Transfer.Plan.Pumps.{
  MovesAll, MovesAll-le, start_upload-MovesAll, number_of_segments-bounds,
}
use extreme_s.Transfer.Pump.{numbered, run_pump}
use extreme_s.Transfer.Pump.Reading.{Reads, chunks, run_pump-chunks}

abbrev pub Parts : Type 0
Parts = List (ℕ × Str)

abbrev joined : Option Parts → Option Parts → Option Parts
joined none rest = none
joined (some sent) none = none
joined (some sent) (some rest) = some (sent ++ rest)

-- The parts that the pumps schedule, one pump after the other.
abbrev pub run_pumps : (Str → ℕ → ℕ → Str) → ℕ → List Str → List FilePump → Option Parts
run_pumps read seg pieces [] = some []
run_pumps read seg pieces (pump ∷ pumps) =
    joined (run_pump read seg pieces pump) (run_pumps read seg pieces pumps)

chunks-sum :
    (seg n m : ℕ) (left : Str)
    → chunks seg (n + m) left ≡ chunks seg n left ++ chunks seg m (drop (seg * n) left)
chunks-sum seg zero m left =
    let e : 0 + m ≡ m = omega arith in let z : seg * 0 ≡ 0 = omega arith in rw (e, z) refl
chunks-sum seg (suc n) m left =
    let e : suc n + m ≡ suc (n + m) = omega arith in
    let z : seg * suc n ≡ seg + seg * n = omega arith in
    rw (e, z, chunks-sum seg n m (drop seg left), drop-sum seg (seg * n) left) refl

concat-chunks : (seg n : ℕ) (left : Str) → concat (chunks seg n left) ≡ take (seg * n) left
concat-chunks seg zero left = let z : seg * 0 ≡ 0 = omega arith in rw z refl
concat-chunks seg (suc n) left =
    let z : seg * suc n ≡ seg + seg * n = omega arith in
    rw (z, concat-chunks seg n (drop seg left), take-sum seg (seg * n) left) refl

length-chunks : (seg n : ℕ) (left : Str) → length (chunks seg n left) ≡ n
length-chunks seg zero left = refl
length-chunks seg (suc n) left = ap suc (length-chunks seg n (drop seg left))

numbered-append :
    (f : ℕ) (xs ys : List Str)
    → numbered f (xs ++ ys) ≡ numbered f xs ++ numbered (f + length xs) ys
unfolding numbered
numbered-append f [] ys = let e : f + 0 ≡ f = omega arith in rw e refl
numbered-append f (x ∷ xs) ys =
    let e : f + suc (length xs) ≡ f + 1 + length xs = omega arith in
    rw (e, numbered-append (f + 1) xs ys) refl

run_pumps-chunks :
    (read : Str → ℕ → ℕ → Str) (seg : ℕ) (pieces : List Str) (most f n : ℕ) (pumps : List FilePump)
    → Reads read
    → MovesAll most f pumps (f + n)
    → seg * (f + n) < length (concat pieces) + seg
    → run_pumps read seg pieces pumps
      ≡ some (numbered f (chunks seg n (drop (seg * f) (concat pieces))))
unfolding numbered
run_pumps-chunks read seg pieces most f n [] reads m l =
    let none_left : n ≡ 0 = omega arith in rw none_left refl
run_pumps-chunks read seg pieces most f n (p ∷ ps) reads (at, some_left, few, m) l =
    let k = p.number_of_segments in
    let ends = MovesAll-le most (f + k) ps (f + n) m in
    let split : n ≡ k + (n - k) = omega arith in
    let target : f + n ≡ f + k + (n - k) = omega arith in
    let begin : seg * (f + k) ≡ seg * f + seg * k = omega arith in
    let start : seg * p.cur_segment < length (concat pieces) =
      rw at (within seg f n (length (concat pieces)) (omega arith) l) in
    let sent = run_pump-chunks read reads seg pieces p start in
    let rest =
      run_pumps-chunks read seg pieces most (f + k) (n - k) ps reads
        (subst (λ to. MovesAll most (f + k) ps to) target m)
        (subst (λ to. seg * to < length (concat pieces) + seg) target l) in
    let behind : chunks seg (n - k) (drop (seg * (f + k)) (concat pieces))
        ≡ chunks seg (n - k) (drop (seg * k) (drop (seg * f) (concat pieces))) =
      ap (λ left. chunks seg (n - k) left)
        (ap (λ d. drop d (concat pieces)) begin ∙ drop-sum (seg * f) (seg * k) (concat pieces)) in
    let here = chunks seg k (drop (seg * f) (concat pieces)) in
    let number : f + k ≡ f + length here =
      ap (λ j. f + j) (sym (length-chunks seg k (drop (seg * f) (concat pieces)))) in
    ap₂ joined sent rest
    ∙ ap some (
        ap₂ (λ xs ys. xs ++ ys)
          (ap (λ c. numbered c (chunks seg k (drop (seg * c) (concat pieces)))) at)
          (ap₂ numbered number behind)
        ∙ sym (
            numbered-append f here
              (chunks seg (n - k) (drop (seg * k) (drop (seg * f) (concat pieces)))))
        ∙ ap (λ cs. numbered f cs)
            (sym (chunks-sum seg k (n - k) (drop (seg * f) (concat pieces)))
              ∙ ap (λ c. chunks seg c (drop (seg * f) (concat pieces))) (sym split)))
  where
    within : (seg f n len : ℕ) → 0 < n → seg * (f + n) < len + seg → seg * f < len
    within seg f zero len h l = absurd (omega arith)
    within seg f (suc n) len h l = omega arith

-- For a file that is not empty and fits in 10000 parts, the pumps that an upload schedules send as
-- many segments as it has parts, as the parts with the numbers from 0 on in order, and these put
-- together are the file's pieces put together: no byte is lost, sent twice or out of order, however
-- few bytes each call of `read` gives, when at least two segments may be in flight.
pub start_upload-whole :
    (read : Str → ℕ → ℕ → Str) (fuel seg io_threads max_in_flight n : ℕ) (pieces : List Str)
    → Reads read
    → 0 < seg
    → 0 < io_threads
    → 2 ≤ max_in_flight
    → 0 < length (concat pieces)
    → number_of_segments (length (concat pieces)) seg ≡ ok n
    → n < fuel
    → (pumps : List FilePump) × (segments : List Str) × (start_upload fuel
          (length (concat pieces))
          seg
          io_threads
          max_in_flight
        ≡ ok (n, some pumps))
      × (run_pumps read seg pieces pumps ≡ some (numbered 0 segments))
      × (length segments ≡ n)
      × (concat segments ≡ concat pieces)
start_upload-whole read fuel seg io flight n pieces reads h i two some_byte count e =
    let size = length (concat pieces) in
    let (pumps, ran, moved) = start_upload-MovesAll fuel size seg io flight n i two count e in
    let (low, high) = number_of_segments-bounds size seg n h some_byte count in
    let target : n ≡ 0 + n = omega arith in
    let z : seg * (0 + n) < size + seg = omega arith in
    let first : drop (seg * 0) (concat pieces) ≡ concat pieces =
      let o : seg * 0 ≡ 0 = omega arith in rw o refl in
    let sent =
      run_pumps-chunks read seg pieces (flight / 2) 0 n pumps reads
        (subst (λ to. MovesAll (flight / 2) 0 pumps to) target moved) z in
    (
      pumps,
      chunks seg n (concat pieces),
      ran,
      rw (← first) sent,
      length-chunks seg n (concat pieces),
      concat-chunks seg n (concat pieces) ∙ take-length (seg * n) (concat pieces) high,
    )
