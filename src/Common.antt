-- ===== src/Common.antt =====
-- Helpers on texts: `trim` and `tobinhex` of es3/common.cpp.
pub mod Laws
use extreme_s.Prelude.{
  ℕ, zero, suc, ◌+◌, ◌/◌, ◌%◌, Bool, true, false, ◌||◌, List, [], ◌∷◌, ◌++◌, Str, codes, ◌==◌,
  if◌then◌else◌, get_elem?, Option, none, some, replicate,
}

-- The four bytes that count as white space.
unfoldable pub is_white : ℕ → Bool
is_white c = (c == b' ') || (c == 10) || (c == 13) || (c == 9)

-- The spaces that stand for a span of white space, once a byte of another kind was met.
abbrev span : Bool → ℕ → Str
span hit_non_ws ws_span = if hit_non_ws then replicate ws_span b' ' else []

-- The loop over the text: what it still appends to the result.
unfoldable pub trim_loop : Str → Bool → ℕ → Str
unfolding is_white
trim_loop [] hit_non_ws ws_span = []
trim_loop (c ∷ str) hit_non_ws ws_span =
    let white = trim_loop str hit_non_ws (ws_span + 1) in
    let other = trim_loop str true 0 in
    if is_white c then white else span hit_non_ws ws_span ++ (c ∷ other)

unfoldable pub trim : Str → Str
unfolding trim_loop
trim str = trim_loop str false 0

-- `alphabet[i]`
hex_digit : ℕ → ℕ
hex_digit i = elim (get_elem? (codes "0123456789abcdef") i) [ none ↦ 0 | some c ↦ c ]

pub tobinhex : Str → Str
unfolding hex_digit
tobinhex [] = []
tobinhex (b ∷ data_left) = hex_digit (b / 16) ∷ hex_digit (b % 16) ∷ tobinhex data_left
