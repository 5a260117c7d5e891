-- ===== src/Glob/Fuel.antt =====
-- The fuel of the matcher: the pattern grows shorter with each byte of it that is read.
use extreme_s.Prelude.{
  ℕ, zero, suc, ◌≤◌, ◌<◌, ◌≢◌, inl, inr, Bool, true, false, ◌||◌, [], ◌∷◌, arith, Str, ◌==◌,
  if◌then◌else◌, length, Bool-cases,
}
use extreme_s.Glob.{
  Error, Result, ok, fail, class_not_end, escape_not_end, out_of_range, out_of_fuel, ◌>>=◌,
  CharClass, class_loop, make_char_class, find_bracket, class_body, one_byte, star_loop,
  pattern_match_impl, pattern_match,
}

abbrev IsReal : Error → Type 0
IsReal out_of_fuel = ⊥
IsReal class_not_end = Unit
IsReal escape_not_end = Unit
IsReal out_of_range = Unit

-- No fuel ran out, and a value has the property.
abbrev Ends {ℓ} : {A : Type ℓ} → (A → Type 0) → Result A → Type 0
Ends P (ok a) = P a
Ends P (fail e) = IsReal e

abbrev Shorter {ℓ} : {A : Type ℓ} → ℕ → A × Str → Type 0
Shorter n r = length (r.1) ≤ n

abbrev Any {ℓ} : {A : Type ℓ} → A → Type 0
Any a = Unit

Ends-bind {ℓ κ} :
    {A : Type ℓ} {B : Type κ} (P : A → Type 0) (Q : B → Type 0) (m : Result A) (f : A → Result B)
    → Ends P m
    → ((a : A) → P a → Ends Q (f a))
    → Ends Q (m >>= f)
Ends-bind P Q (ok a) f h k = k a h
Ends-bind P Q (fail e) f h k = h

-- A byte put in front of the body that was found.
prepend-Shorter :
    (n c : ℕ) (m : Result (Str × Str))
    → Ends (Shorter n) m
    → Ends (Shorter (suc n)) (m >>= λ (body, rest). ok (c ∷ body, rest))
prepend-Shorter n c m h = Ends-bind (Shorter n) (Shorter (suc n)) m _ h (λ r k. omega arith)

find_bracket-Shorter : (p : Str) → Ends (Shorter (length p)) (find_bracket p)
unfolding find_bracket
find_bracket-Shorter [] = tt
find_bracket-Shorter (c ∷ p) = elim (Bool-cases (c == b']')) [
  | inl e ↦ rw e (omega arith)
  | inr e ↦ rw e (prepend-Shorter (length p) c (find_bracket p) (find_bracket-Shorter p))
]

class_body-Shorter : (p : Str) → Ends (Shorter (length p)) (class_body p)
unfolding class_body
class_body-Shorter [] = tt
class_body-Shorter (c ∷ p) = elim (Bool-cases (c == b']')) [
  | inl e ↦ rw e (prepend-Shorter (length p) c (find_bracket p) (find_bracket-Shorter p))
  | inr e ↦ rw e (prepend-Shorter (length p) c (find_bracket p) (find_bracket-Shorter p))
]

class_loop-Ends : (body : Str) (m : CharClass) → Ends Any (class_loop body m)
unfolding class_loop
class_loop-Ends [] m = tt
class_loop-Ends (c ∷ []) m = tt
class_loop-Ends (c ∷ d ∷ []) m = elim (Bool-cases (d == b'-')) [ inl e ↦ rw e tt | inr e ↦ rw e tt ]
class_loop-Ends (c ∷ d ∷ last ∷ rest) m = elim (Bool-cases (d == b'-')) [
  | inl e ↦
      rw e (Ends-bind Any Any _ (class_loop rest) (ground arith) (λ a h. class_loop-Ends rest a))
  | inr e ↦ rw e (class_loop-Ends (d ∷ last ∷ rest) _)
]

make_char_class-Ends : (body : Str) → Ends Any (make_char_class body)
unfolding make_char_class
make_char_class-Ends [] = class_loop-Ends [] (λ x. false)
make_char_class-Ends (c ∷ body) = elim (Bool-cases (c == b'^')) [
  | inl e ↦ rw e (
      Ends-bind Any Any (class_loop body (λ x. false)) _ (class_loop-Ends body (λ x. false))
        (λ a h. tt))
  | inr e ↦ rw e (class_loop-Ends (c ∷ body) (λ x. false))
]

one_byte-Shorter : (c : ℕ) (p : Str) → Ends (Shorter (length p)) (one_byte c p)
unfolding one_byte
one_byte-Shorter c p = elim (Bool-cases (c == b'[')) [
  | inl e ↦ rw e (
      Ends-bind (Shorter (length p)) (Shorter (length p)) (class_body p) _ (class_body-Shorter p)
        (λ r h.
          Ends-bind Any (Shorter (length p)) (make_char_class r.0) _ (make_char_class-Ends r.0)
            (λ m _. h)))
  | inr e ↦ rw e (other p)
]
  where
    other :
        (q : Str)
        → Ends (Shorter {A = CharClass} (length q)) (
            if c == b'\\'
            then elim q [ [] ↦ fail escape_not_end | d ∷ rest ↦ ok ((λ (x : ℕ). d == x), rest) ]
            else ok ((λ (x : ℕ). (c == b'?') || (c == x)), q))
    other [] = elim (Bool-cases (c == b'\\')) [ inl e ↦ rw e tt | inr e ↦ rw e (omega arith) ]
    other (d ∷ q) = elim (Bool-cases (c == b'\\')) [
      | inl e ↦ rw e (omega arith)
      | inr e ↦ rw e (omega arith)
    ]

star_loop-Ends :
    (s : Str) (continue : Str → Result Bool)
    → ((t : Str) → Ends Any (continue t))
    → Ends Any (star_loop s continue)
unfolding star_loop
star_loop-Ends [] continue h = h []
star_loop-Ends (x ∷ s) continue h =
    Ends-bind Any Any (star_loop s continue) _ (star_loop-Ends s continue h) (λ found _. pick found)
  where
    pick : (found : Bool) → Ends Any (if found then ok true else continue (x ∷ s))
    pick true = tt
    pick false = h (x ∷ s)

pattern_match_impl-Ends : (f : ℕ) (p s : Str) → length p < f → Ends Any (pattern_match_impl f p s)
unfolding pattern_match_impl
pattern_match_impl-Ends zero p s h = absurd (omega arith)
pattern_match_impl-Ends (suc f) [] [] h = tt
pattern_match_impl-Ends (suc f) [] (x ∷ s) h = tt
pattern_match_impl-Ends (suc f) (c ∷ p) [] h = elim (Bool-cases (c == b'*')) [
  | inl e ↦ rw e (pattern_match_impl-Ends f p [] (omega arith))
  | inr e ↦ rw e tt
]
pattern_match_impl-Ends (suc f) (c ∷ p) (x ∷ s) h = elim (Bool-cases (c == b'*')) [
  | inl e ↦ rw e (
      star_loop-Ends (x ∷ s) (pattern_match_impl f p)
        (λ t. pattern_match_impl-Ends f p t (omega arith)))
  | inr e ↦ rw e (
      Ends-bind (Shorter (length p)) Any (one_byte c p) _ (one_byte-Shorter c p) (λ r k.
        pick (r.0 x) (pattern_match_impl f r.1 s) (pattern_match_impl-Ends f r.1 s (omega arith))))
]
  where
    pick : (b : Bool) (next : Result Bool) → Ends Any next → Ends Any (if b then next else ok false)
    pick true next k = k
    pick false next k = tt

Ends-ne {ℓ} : {A : Type ℓ} (P : A → Type 0) (r : Result A) → Ends P r → r ≢ fail out_of_fuel
Ends-ne P (ok a) h = λ e. cc
Ends-ne P (fail class_not_end) h = λ e. cc
Ends-ne P (fail escape_not_end) h = λ e. cc
Ends-ne P (fail out_of_range) h = λ e. cc
Ends-ne P (fail out_of_fuel) h = λ e. h

-- On every pattern and text, well formed or not, the fuel that the matcher starts with is enough:
-- it answers, or it throws one of the exceptions of the source.
pub pattern_match_total : (p s : Str) → pattern_match p s ≢ fail out_of_fuel
unfolding pattern_match
pattern_match_total p s = Ends-ne Any _ (pattern_match_impl-Ends (suc (length p)) p s (omega arith))
