-- ===== src/Transfer/Plan/Cover.antt =====
-- Parts cover a file with no gap and no overlap.
use extreme_s.Prelude.{
  ℕ, zero, suc, ◌+◌, ◌-◌, ◌*◌, ◌/◌, ◌%◌, ◌<◌, ◌≤◌, ◌≡◌, refl, ◌⊎◌, inl, inr, true, false, List, [],
  ◌∷◌, arith, ltb, ◌==◌, ok, fail, es3_error, err_fatal, Bool-cases, ==_iff, subst,
}
use extreme_s.Transfer.Plan.{
  max_segments, minimal_block, parts_of, Part, part_at, parts_from, download_parts, block_size,
  compress_blocks,
}

-- From one offset to another, each part beginning where the one before it ended, none of them empty
-- and none longer than a segment, numbered in order.
abbrev pub Covers : ℕ → ℕ → ℕ → List Part → ℕ → Type 0
Covers seg f from [] to = from ≡ to
Covers seg f from (p ∷ ps) to =
    (p.number ≡ f)
    × (p.offset ≡ from)
    × (0 < p.size)
    × (p.size ≤ seg)
    × Covers seg (f + 1) (from + p.size) ps to

parts_from-Covers :
    (total seg left f : ℕ)
    → 0 < seg
    → seg * f + seg * left < total
    → total ≤ seg * f + seg * (left + 1)
    → Covers seg f (seg * f) (parts_from total seg (suc left) f) total
unfolding parts_from part_at
parts_from-Covers total seg zero f h low high =
    let last : ltb seg (total - seg * f) ≡ false = ground arith in
    rw last (refl, refl, omega arith, omega arith, omega arith)
parts_from-Covers total seg (suc left) f h low high =
    let more : ltb seg (total - seg * f) ≡ true = ground arith in
    let at : seg * f + seg ≡ seg * (f + 1) = omega arith in
    rw more (
      refl,
      refl,
      omega arith,
      omega arith,
      rw at (parts_from-Covers total seg left (f + 1) h (omega arith) (omega arith)),
    )

-- The number of parts, from both sides.
pub parts_of-bounds :
    (total seg : ℕ)
    → 0 < seg
    → 0 < total
    → (n : ℕ) × (parts_of total seg ≡ suc n) × (seg * n < total) × (total ≤ seg * (n + 1))
unfolding parts_of
parts_of-bounds total seg h t = elim (Bool-cases (total % seg == 0)) [
  | inl e ↦
      let even : total % seg ≡ 0 = (==_iff _ _).0 e in
      let whole : seg * (total / seg) ≡ total = omega (arith, even) in
      let some_part : 0 < total / seg = positive (total / seg) whole in
      let n = total / seg - 1 in
      let one_more : total / seg ≡ n + 1 = omega arith in
      let split : seg * (n + 1) ≡ total = rw (← one_more) whole in
      (n, rw e (omega arith), omega arith, omega arith)
  | inr e ↦
      let rest : 0 < total % seg = ground arith in
      (total / seg, rw e (omega arith), omega arith, omega arith)
]
  where
    positive : (d : ℕ) → seg * d ≡ total → 0 < d
    positive zero e = absurd (omega arith)
    positive (suc d) e = omega arith

parts-Covers :
    (total seg : ℕ)
    → 0 < seg
    → 0 < total
    → Covers seg 0 0 (parts_from total seg (parts_of total seg) 0) total
parts-Covers total seg h t =
    let (n, count, low, high) = parts_of-bounds total seg h t in
    let first : seg * 0 ≡ 0 = omega arith in
    rw count (
      subst (λ from. Covers seg 0 from (parts_from total seg (suc n) 0) total) first
        (parts_from-Covers total seg n 0 h (omega arith) (omega arith)))

-- A download of a file that is not empty fetches parts that cover it, each of them no longer than a
-- segment, unless it would need more than 9999 of them; then it fails.
pub download_parts_lem :
    (total seg : ℕ)
    → 0 < seg
    → 0 < total
    → ((max_segments < parts_of total seg)
        × (download_parts total seg ≡ fail (es3_error err_fatal)))
      ⊎ ((parts : List Part) × (parts_of total seg ≤ max_segments)
          × (download_parts total seg ≡ ok parts)
          × Covers seg 0 0 parts total)
unfolding download_parts
download_parts_lem total seg h t = elim (Bool-cases (ltb max_segments (parts_of total seg))) [
  | inl e ↦ inl (ground arith, rw e)
  | inr e ↦
      let (n, count, _, _) = parts_of-bounds total seg h t in
      let some_part : (parts_of total seg == 0) ≡ false = ground (arith, count) in
      inr (
        parts_from total seg (parts_of total seg) 0,
        ground arith,
        rw (e, some_part),
        parts-Covers total seg h t,
      )
]

quotient_positive : (n k : ℕ) → 0 < k → k ≤ n → 0 < n / k
quotient_positive n k h le = by_value (n / k) (omega arith)
  where
    by_value : (d : ℕ) → (k * d + n % k ≡ n) × (n % k < k) → 0 < d
    by_value zero (e, l) = absurd (omega arith)
    by_value (suc d) e = omega arith

block_positive : (n c : ℕ) → minimal_block < n → 0 < c → 0 < block_size n c
unfolding block_size
block_positive n c l a =
    let some_block : 0 < n / minimal_block =
      quotient_positive n minimal_block (omega arith) (omega arith) in
    elim (Bool-cases (ltb c (n / minimal_block))) [
      | inl e ↦
          let fewer : c < n / minimal_block = ground arith in
          rw e (quotient_positive n c a (omega arith))
      | inr e ↦ rw e (quotient_positive n (n / minimal_block) some_block (omega arith))
    ]

-- The blocks of a file that is larger than the least block cover it, none of them empty and none
-- longer than the block size, whatever number of threads there is to compress them.
pub compress_blocks-Covers :
    (file_sz capability : ℕ)
    → minimal_block < file_sz
    → 0 < capability
    → Covers (block_size file_sz capability) 0 0 (compress_blocks file_sz capability) file_sz
unfolding compress_blocks
compress_blocks-Covers file_sz capability large able =
    parts-Covers file_sz (block_size file_sz capability)
      (block_positive file_sz capability large able) (omega arith)
