-- ===== src/Glob.antt =====
-- es3/pattern_match.hpp: `make_char_class`, `pattern_match_impl`, `pattern_match`.
-- Patterns and texts are byte lists; a `bitset<256>` is its membership test.
pub mod Meaning
pub mod Correct
pub mod Fuel
pub mod Classes
mod Tests
use extreme_s.Prelude.{
  ℕ, zero, suc, Bool, true, false, not, ◌&&◌, ◌||◌, List, [], ◌∷◌, Str, ltb, leb, ◌==◌,
  if◌then◌else◌, length,
}

-- The exceptions: `runtime_error` with its two messages and the `out_of_range` of `bitset::set`.
-- `out_of_fuel` belongs to the model only.
pub data Error : Type 0 where
  class_not_end escape_not_end out_of_range out_of_fuel : Error

pub data Result {ℓ} (A : Type ℓ) : Type ℓ where
  ok : A → Result A
  fail : Error → Result A

infixl 5 ◌>>=◌
abbrev pub ◌>>=◌ {ℓ κ} : {A : Type ℓ} {B : Type κ} → Result A → (A → Result B) → Result B
ok a >>= f = f a
fail e >>= f = fail e

abbrev pub CharClass : Type 0
CharClass = ℕ → Bool

-- `res.set(c)`
abbrev set_byte : ℕ → CharClass → CharClass
set_byte c m x = (x == c) || m x

-- `for (i = start; i != last; ++i) res.set(i)`: past 255 `set` throws, so it ends only if
-- `start` is not above `last`.
abbrev set_range : ℕ → ℕ → CharClass → Result CharClass
set_range start last m =
    if leb start last then ok (λ x. (leb start x && ltb x last) || m x) else fail out_of_range

class_loop : Str → CharClass → Result CharClass
class_loop [] m = ok m
class_loop (c1 ∷ []) m = ok (set_byte c1 m)
class_loop (c1 ∷ d ∷ []) m =
    if d == b'-' then fail class_not_end else ok (set_byte d (set_byte c1 m))
class_loop (c1 ∷ d ∷ last ∷ rest) m =
    let ranged = set_range c1 last m >>= class_loop rest in
    let single = class_loop (d ∷ last ∷ rest) (set_byte c1 m) in
    if d == b'-' then ranged else single

-- `make_char_class` on what stands between the brackets.
make_char_class : Str → Result CharClass
unfolding class_loop
make_char_class [] = class_loop [] (λ x. false)
make_char_class (c ∷ body) =
    if c == b'^'
    then (class_loop body (λ x. false) >>= λ m. ok (λ x. not (m x)))
    else class_loop (c ∷ body) (λ x. false)

-- `std::find(next, ptn_end, ']')`: what stands before the bracket, and behind it.
find_bracket : Str → Result (Str × Str)
find_bracket [] = fail class_not_end
find_bracket (c ∷ p) =
    let found = find_bracket p >>= λ (body, rest). ok (c ∷ body, rest) in
    if c == b']' then ok ([], p) else found

-- A closing bracket directly behind the opening one belongs to the class.
class_body : Str → Result (Str × Str)
unfolding find_bracket
class_body [] = fail class_not_end
class_body (c ∷ p) =
    if c == b']'
    then (find_bracket p >>= λ (body, rest). ok (c ∷ body, rest))
    else find_bracket (c ∷ p)

-- The branches for one byte of the text: the test that it must pass, and the pattern that is left.
pub one_byte : ℕ → Str → Result (CharClass × Str)
unfolding class_body make_char_class
one_byte ptn p =
    if ptn == b'['
    then (class_body p >>= λ (body, rest). make_char_class body >>= λ m. ok (m, rest))
    else if ptn == b'\\'
    then elim p [ [] ↦ fail escape_not_end | c ∷ rest ↦ ok ((λ x. c == x), rest) ]
    else ok ((λ x. (ptn == b'?') || (ptn == x)), p)

-- The `while (next != str_beg)` loop over the ends of the text, the shortest first. The last round
-- stands for the code behind the loop, which goes on at `str_beg`.
star_loop : Str → (Str → Result Bool) → Result Bool
star_loop [] continue = continue []
star_loop (x ∷ s) continue =
    star_loop s continue >>= λ found. if found then ok true else continue (x ∷ s)

-- `pattern_match_impl`, with fuel for the pattern's length.
pattern_match_impl : ℕ → Str → Str → Result Bool
unfolding star_loop one_byte
pattern_match_impl zero ptn str = fail out_of_fuel
pattern_match_impl (suc fuel) [] [] = ok true
pattern_match_impl (suc fuel) [] (x ∷ str) = ok false
pattern_match_impl (suc fuel) (ptn ∷ p) [] =
    let starred = star_loop [] (pattern_match_impl fuel p) in
    if ptn == b'*' then starred else ok false
pattern_match_impl (suc fuel) (ptn ∷ p) (x ∷ str) =
    let starred = star_loop (x ∷ str) (pattern_match_impl fuel p) in
    let stepped = one_byte ptn p >>= λ (test, rest).
    (let next = pattern_match_impl fuel rest str in if test x then next else ok false) in
    if ptn == b'*' then starred else stepped

-- `pattern_match::operator()`
pub pattern_match : Str → Str → Result Bool
unfolding pattern_match_impl
pattern_match ptn str = pattern_match_impl (suc (length ptn)) ptn str
