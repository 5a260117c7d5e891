-- ===== src/Common/Laws.antt =====
-- What `trim` and `tobinhex` promise.
use extreme_s.Prelude.{
  passes_under, passes_under→test, ==_iff, ℕ, zero, suc, ◌+◌, ◌-◌, ◌*◌, ◌/◌, ◌%◌, ◌<◌, ◌≡◌, refl,
  ap, ◌∙◌, inl, inr, Bool, true, false, [], ◌∷◌, ◌++◌, Str, ◌==◌, if◌then◌else◌, replicate, arith,
  Bool-cases, All, leb,
}
use extreme_s.Common.{is_white, trim_loop, trim, hex_digit, tobinhex}

trim_loop-replicate :
    (n k : ℕ) (t : Str) (b : Bool) → trim_loop (replicate n b' ' ++ t) b k ≡ trim_loop t b (k + n)
unfolding trim_loop is_white
trim_loop-replicate zero k t b = let e : k + 0 ≡ k = omega arith in rw e refl
trim_loop-replicate (suc n) k t b =
    let e : k + 1 + n ≡ k + suc n = omega arith in
    trim_loop-replicate n (k + 1) t b ∙ ap (λ m. trim_loop t b m) e

trim_loop-again :
    (str : Str) (ws : ℕ) → trim_loop (trim_loop str true ws) true 0 ≡ trim_loop str true ws
unfolding trim_loop
trim_loop-again [] ws = refl
trim_loop-again (c ∷ str) ws = elim (Bool-cases (is_white c)) [
  | inl e ↦ rw e (trim_loop-again str (ws + 1))
  | inr e ↦
      let k : 0 + ws ≡ ws = omega arith in
      rw e (
        trim_loop-replicate ws 0 (c ∷ trim_loop str true 0) true
        ∙ ap (λ m. trim_loop (c ∷ trim_loop str true 0) true m) k
        ∙ rw (e, trim_loop-again str 0) refl)
]

trim_loop-first :
    (str : Str) (ws : ℕ) → trim_loop (trim_loop str false ws) false 0 ≡ trim_loop str false ws
unfolding trim_loop
trim_loop-first [] ws = refl
trim_loop-first (c ∷ str) ws = elim (Bool-cases (is_white c)) [
  | inl e ↦ rw e (trim_loop-first str (ws + 1))
  | inr e ↦ rw e (rw (e, trim_loop-again str 0) refl)
]

-- Trimming a text that was trimmed changes nothing.
pub trim-trim : (str : Str) → trim (trim str) ≡ trim str
unfolding trim
trim-trim str = trim_loop-first str 0

-- The value of a digit.
digit_value : ℕ → ℕ
digit_value c = if leb c b'9' then c - b'0' else c - b'a' + 10

-- Reading the digits back, two for each byte.
pub from_hex : Str → Str
unfolding digit_value
from_hex [] = []
from_hex (h ∷ []) = []
from_hex (h ∷ l ∷ s) = (digit_value h * 16 + digit_value l) ∷ from_hex s

digit_table : passes_under (λ d. digit_value (hex_digit d) == d) 16 ≡ true
unfolding passes_under digit_value hex_digit
digit_table = refl

digit_value-hex_digit : (d : ℕ) → d < 16 → digit_value (hex_digit d) ≡ d
digit_value-hex_digit d h =
    (==_iff _ _).0 (passes_under→test (λ d. digit_value (hex_digit d) == d) 16 d h digit_table)

-- The digits of bytes can be read back, so that different bytes never have the same digits.
pub from_hex-tobinhex : (bytes : Str) → All (λ b. b < 256) bytes → from_hex (tobinhex bytes) ≡ bytes
unfolding from_hex tobinhex
from_hex-tobinhex [] h = refl
from_hex-tobinhex (b ∷ bytes) (small, rest) =
    let high = digit_value-hex_digit (b / 16) (omega arith) in
    let low = digit_value-hex_digit (b % 16) (omega arith) in
    let whole : b / 16 * 16 + b % 16 ≡ b = omega arith in
    rw (high, low, whole, from_hex-tobinhex bytes rest) refl

-- A text without white space, with a blank before it and the end of a line behind it, is left.
trim_loop-end :
    (v : Str) → All (λ c. is_white c ≡ false) v → trim_loop (v ++ (13 ∷ 10 ∷ [])) true 0 ≡ v
unfolding trim_loop is_white
trim_loop-end [] h = refl
trim_loop-end (c ∷ v) (plain, h) = rw (plain, trim_loop-end v h) refl

pub trim-line :
    (v : Str) → All (λ c. is_white c ≡ false) v → trim (b' ' ∷ (v ++ (13 ∷ 10 ∷ []))) ≡ v
unfolding trim trim_loop is_white
trim-line [] h = refl
trim-line (c ∷ v) (plain, h) = rw (plain, trim_loop-end v h) refl
