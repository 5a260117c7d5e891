-- ===== src/Transfer/Plan/Pumps.antt =====
-- The pumps that an upload schedules.
use extreme_s.Prelude.{
  ℕ, zero, suc, ◌+◌, ◌-◌, ◌*◌, ◌/◌, ◌<◌, ◌≤◌, ◌≡◌, max, min, refl, inl, inr, List, [], ◌∷◌, none,
  some, arith, ltb, if◌then◌else◌, ok, Bool-cases, ap, subst,
}
use extreme_s.Transfer.Plan.Cover.{parts_of-bounds}
use extreme_s.Transfer.Plan.{FilePump, num_per_pump, pumps_from, number_of_segments, start_upload}

-- The pumps move the segments from one number to another in order, each at least one of them and
-- none more than `most`.
abbrev pub MovesAll : ℕ → ℕ → List FilePump → ℕ → Type 0
MovesAll most from [] to = from ≡ to
MovesAll most from (p ∷ ps) to =
    (p.cur_segment ≡ from)
    × (0 < p.number_of_segments)
    × (p.number_of_segments ≤ most)
    × MovesAll most (from + p.number_of_segments) ps to

abbrev pump_at : ℕ → ℕ → FilePump
pump_at f n = record { cur_segment = f; number_of_segments = n }

pub MovesAll-le :
    (most from : ℕ) (ps : List FilePump) (to : ℕ) → MovesAll most from ps to → from ≤ to
MovesAll-le most from [] to m = omega arith
MovesAll-le most from (p ∷ ps) to (_, _, _, m) =
    omega (arith, MovesAll-le most (from + p.number_of_segments) ps to m)

-- The next pump begins where this one ends, also when this one is the last and the counter has gone
-- past the end.
next_pump :
    (per segments f : ℕ) (ps : List FilePump)
    → f < segments
    → MovesAll per (f + per) ps (max (f + per) segments)
    → MovesAll per (f + min per (segments - f)) ps (max f segments)
next_pump per segments f [] l m = omega arith
next_pump per segments f (p ∷ ps) l m =
    let (_, some_left, _, moved) = m in
    let ends = MovesAll-le per (f + per + p.number_of_segments) ps (max (f + per) segments) moved in
    let whole : f + per ≡ f + min per (segments - f) = omega arith in
    let target : max (f + per) segments ≡ max f segments = omega arith in
    subst (λ from. MovesAll per from (p ∷ ps) (max f segments)) whole
      (subst (λ to. MovesAll per (f + per) (p ∷ ps) to) target m)

pumps_from-MovesAll :
    (fuel per segments f : ℕ)
    → 0 < per
    → segments - f < fuel
    → (ps : List FilePump) × (pumps_from fuel per segments f ≡ some ps)
      × MovesAll per f ps (max f segments)
unfolding pumps_from
pumps_from-MovesAll zero per segments f h e = absurd (omega arith)
pumps_from-MovesAll (suc fuel) per segments f h e = elim (Bool-cases (ltb f segments)) [
  | inl t ↦
      let before : f < segments = ground arith in
      let (ps, ran, moved) = pumps_from-MovesAll fuel per segments (f + per) h (omega arith) in
      let cut : (if ltb per (segments - f) then per else segments - f) ≡ min per (segments - f) =
        ground arith in
      let pump : FilePump = pump_at f (min per (segments - f)) in
      (
        pump ∷ ps,
        rw (t, ran) (ap (λ c. some (pump_at f c ∷ ps)) cut),
        (refl, omega arith, omega arith, next_pump per segments f ps before moved),
      )
  | inr t ↦
      let past : segments ≤ f = ground arith in
      let at : f ≡ max f segments = omega arith in ([], rw t refl, at)
]

-- With nothing to move in a pump the loop never comes to its end.
pumps_from-none : (fuel segments f : ℕ) → f < segments → pumps_from fuel 0 segments f ≡ none
unfolding pumps_from
pumps_from-none zero segments f h = refl
pumps_from-none (suc fuel) segments f h = ground (arith, pumps_from-none fuel segments (f + 0))

MovesAll-mono :
    (least most from : ℕ) (ps : List FilePump) (to : ℕ)
    → least ≤ most
    → MovesAll least from ps to
    → MovesAll most from ps to
MovesAll-mono least most from [] to l m = m
MovesAll-mono least most from (p ∷ ps) to l (at, some_left, few, m) =
    (at, some_left, omega arith, MovesAll-mono least most (from + p.number_of_segments) ps to l m)

number_of_segments_positive :
    (size segment_size n : ℕ) → number_of_segments size segment_size ≡ ok n → 0 < n
unfolding number_of_segments
number_of_segments_positive size segment_size n h = ground arith

pub number_of_segments-bounds :
    (size seg n : ℕ)
    → 0 < seg
    → 0 < size
    → number_of_segments size seg ≡ ok n
    → (seg * n < size + seg) × (size ≤ seg * n)
unfolding number_of_segments
number_of_segments-bounds size seg n h t count =
    let (m, parts, low, high) = parts_of-bounds size seg h t in
    let same : n ≡ suc m = ground (arith, parts) in
    let product : seg * n ≡ seg * m + seg = rw same (omega arith) in (omega arith, omega arith)

num_per_pump-bounds :
    (segments io flight : ℕ)
    → 2 ≤ flight
    → (0 < num_per_pump segments io flight) × (num_per_pump segments io flight ≤ flight / 2)
unfolding num_per_pump
num_per_pump-bounds segments io flight h = ground arith

-- An upload that fits in 10000 parts is moved whole by its pumps, in order and with no overlap, none
-- of them moving more than half of the segments that may be in flight, when at least two may be. The
-- loop that schedules the pumps ends.
pub start_upload-MovesAll :
    (fuel size segment_size io_threads max_in_flight n : ℕ)
    → 0 < io_threads
    → 2 ≤ max_in_flight
    → number_of_segments size segment_size ≡ ok n
    → n < fuel
    → (ps : List FilePump) × (start_upload fuel size segment_size io_threads max_in_flight
        ≡ ok (n, some ps))
      × MovesAll (max_in_flight / 2) 0 ps n
unfolding start_upload
start_upload-MovesAll fuel size seg io flight n i h count e =
    let per = num_per_pump n io flight in
    let (positive, most) = num_per_pump-bounds n io flight h in
    let (ps, ran, moved) = pumps_from-MovesAll fuel per n 0 positive (omega arith) in
    let all : max 0 n ≡ n = omega arith in
    (
      ps,
      rw (count, ran) refl,
      MovesAll-mono per (flight / 2) 0 ps n most (subst (λ to. MovesAll per 0 ps to) all moved),
    )

-- With one segment in flight at the most the loop that schedules the pumps does not end, whatever the
-- fuel, for every file that may be uploaded.
pub start_upload-never_ends :
    (fuel size segment_size io_threads n : ℕ)
    → 0 < io_threads
    → number_of_segments size segment_size ≡ ok n
    → start_upload fuel size segment_size io_threads 1 ≡ ok (n, none)
unfolding start_upload num_per_pump
start_upload-never_ends fuel size seg io n i count =
    let none_in_a_pump : num_per_pump n io 1 ≡ 0 = ground arith in
    rw
      (
        count,
        none_in_a_pump,
        pumps_from-none fuel n 0 (number_of_segments_positive size seg n count),
      )
      refl
