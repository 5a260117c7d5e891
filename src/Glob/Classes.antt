-- ===== src/Glob/Classes.antt =====
-- Ranges in a character class.
use extreme_s.Prelude.{ℕ, ◌≡◌, ◌≢◌, ◌&&◌, [], ◌∷◌, arith, Str, ltb, leb, if◌then◌else◌}
use extreme_s.Glob.{ok, fail, out_of_range, pattern_match}

abbrev pub range_pattern : ℕ → ℕ → Str
range_pattern lo hi = b'[' ∷ lo ∷ b'-' ∷ hi ∷ b']' ∷ []

-- A class `[lo-hi]` accepts exactly the bytes from `lo` up to, and without, `hi`; a class whose
-- ends stand the wrong way round throws `out_of_range`. The ends are no bracket and `lo` no caret.
pub pattern_match-range :
    (lo hi x : ℕ)
    → lo ≢ b'^'
    → lo ≢ b']'
    → hi ≢ b']'
    → pattern_match (range_pattern lo hi) (x ∷ [])
      ≡ (if leb lo hi then ok (leb lo x && ltb x hi) else fail out_of_range)
unfolding pattern_match
pattern_match-range lo hi x a b c = ground arith
