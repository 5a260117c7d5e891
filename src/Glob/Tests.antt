-- ===== src/Glob/Tests.antt =====
-- Patterns and texts.
use extreme_s.Prelude.{
  ◌≡◌, refl, ◌≢◌, ◌==◌, ◌||◌, ◌&&◌, List, [], ◌∷◌, codes, leb, ltb, if◌then◌else◌, arith,
}
use extreme_s.Glob.{pattern_match, one_byte, ok, fail, out_of_range, out_of_fuel}
use extreme_s.Glob.Meaning.{Item, star, one, items, items_of, Matches, Decides}
use extreme_s.Glob.Correct.{pattern_match-Decides}
use extreme_s.Glob.Fuel.{pattern_match_total}
use extreme_s.Glob.Classes.{range_pattern, pattern_match-range}

abbrev star_items : List Item
star_items =
    one (λ x. (b'a' == b'?') || (b'a' == x)) ∷ star ∷ one (λ x. (b'?' == b'?') || (b'?' == x)) ∷ []

items_star : items (codes "a*?") ≡ ok star_items
unfolding items items_of one_byte
items_star = refl

pattern_match-Decides_example :
    Decides (Matches star_items (codes "abc")) (pattern_match (codes "a*?") (codes "abc"))
pattern_match-Decides_example =
    pattern_match-Decides (codes "a*?") (codes "abc") star_items items_star

pattern_match_total_example : pattern_match (codes "*[a") (codes "xy") ≢ fail out_of_fuel
pattern_match_total_example = pattern_match_total (codes "*[a") (codes "xy")

pattern_match-range_example :
    pattern_match (range_pattern b'0' b'9') (b'9' ∷ [])
    ≡ (if leb b'0' b'9' then ok (leb b'0' b'9' && ltb b'9' b'9') else fail out_of_range)
pattern_match-range_example =
    pattern_match-range b'0' b'9' b'9' (omega arith) (omega arith) (omega arith)
