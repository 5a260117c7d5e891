-- ===== src/Glob/Correct.antt =====
-- The matcher against the meaning of its pattern.
use extreme_s.Prelude.{
  ℕ, zero, suc, ◌≡◌, refl, subst, inl, inr, Bool, true, false, List, [], ◌∷◌, Str, ◌==◌,
  if◌then◌else◌, length, Bool-cases,
}
use extreme_s.Glob.{
  Result, ok, fail, ◌>>=◌, CharClass, one_byte, star_loop, pattern_match_impl, pattern_match,
}
use extreme_s.Glob.Meaning.{
  Item, star, one, items_of, items, Matches, end, byte, leave, take, byte_inv, star_inv, star_end,
  Decides, Decides-iff,
}

pub >>=-eq-ok {ℓ κ} :
    {A : Type ℓ} {B : Type κ} (first : Result A) (next : A → Result B) {b : B}
    → (first >>= next) ≡ ok b
    → (a : A) × (first ≡ ok a) × (next a ≡ ok b)
>>=-eq-ok (ok a) next e = (a, refl, e)
>>=-eq-ok (fail x) next e = cc

-- One more round of the loop over the ends of the text.
star_round :
    (is : List Item) (x : ℕ) (s : Str) (later now : Result Bool)
    → Decides (Matches (star ∷ is) s) later
    → Decides (Matches is (x ∷ s)) now
    → Decides (Matches (star ∷ is) (x ∷ s)) (later >>= λ found. if found then ok true else now)
star_round is x s (ok true) now d e = take d
star_round is x s (ok false) (ok true) d e = leave e
star_round is x s (ok false) (ok false) d e = λ m. elim (star_inv m) [ inl a ↦ e a | inr b ↦ d b ]
star_round is x s (ok false) (fail z) d e = e
star_round is x s (fail z) now d e = d

star_loop-Decides :
    (is : List Item) (continue : Str → Result Bool)
    → ((s : Str) → Decides (Matches is s) (continue s))
    → (s : Str) → Decides (Matches (star ∷ is) s) (star_loop s continue)
unfolding star_loop
star_loop-Decides is continue h [] = Decides-iff (continue []) (leave, star_end) (h [])
star_loop-Decides is continue h (x ∷ s) =
    star_round is x s (star_loop s continue) (continue (x ∷ s)) (star_loop-Decides is continue h s)
      (h (x ∷ s))

-- One byte against one test.
byte_round :
    (is : List Item) (t : CharClass) (x : ℕ) (s : Str) (next : Result Bool)
    → Decides (Matches is s) next
    → Decides (Matches (one t ∷ is) (x ∷ s)) (if t x then next else ok false)
byte_round is t x s next d = elim (Bool-cases (t x)) [
  | inl e ↦ rw e (Decides-iff next ((λ m. byte e m), λ m. (byte_inv m).1) d)
  | inr e ↦ rw e (λ m. false_true e (byte_inv m).0)
]
  where
    false_true : {b : Bool} → b ≡ false → b ≡ true → ⊥
    false_true p q = cc

Decides-items :
    {is js : List Item} (s : Str) (r : Result Bool)
    → ◌≡◌ {A = Result (List Item)} (ok js) (ok is)
    → Decides (Matches js s) r
    → Decides (Matches is s) r
Decides-items {is} {js} s r e d =
    let same : js ≡ is = cc in subst (λ ks. Decides (Matches ks s) r) same d

pattern_match_impl-Decides :
    (f : ℕ) (p s : Str) (is : List Item)
    → items_of f p ≡ ok is
    → Decides (Matches is s) (pattern_match_impl f p s)
unfolding pattern_match_impl items_of
pattern_match_impl-Decides zero p s is e = cc
pattern_match_impl-Decides (suc f) [] [] is e = Decides-items [] (ok true) e end
pattern_match_impl-Decides (suc f) [] (x ∷ s) is e =
    Decides-items (x ∷ s) (ok false) e (λ m. elim m [ ])
pattern_match_impl-Decides (suc f) (c ∷ p) [] is e = elim (Bool-cases (c == b'*')) [
  | inl starred ↦
      let (js, cut, same) = >>=-eq-ok (items_of f p) _ (rw starred at e) in
      rw starred (
        Decides-items [] (pattern_match_impl f p []) same (
          Decides-iff (pattern_match_impl f p []) (leave, star_end)
            (pattern_match_impl-Decides f p [] js cut)))
  | inr other ↦
      let (tested, _, cut) = >>=-eq-ok (one_byte c p) _ (rw other at e) in
      let (js, _, same) = >>=-eq-ok (items_of f tested.1) _ cut in
      rw other (Decides-items [] (ok false) same (λ m. elim m [ ]))
]
pattern_match_impl-Decides (suc f) (c ∷ p) (x ∷ s) is e = elim (Bool-cases (c == b'*')) [
  | inl starred ↦
      let (js, cut, same) = >>=-eq-ok (items_of f p) _ (rw starred at e) in
      rw starred (
        Decides-items (x ∷ s) (star_loop (x ∷ s) (pattern_match_impl f p)) same (
          star_loop-Decides js (pattern_match_impl f p)
            (λ t. pattern_match_impl-Decides f p t js cut) (x ∷ s)))
  | inr other ↦
      let (tested, here, cut) = >>=-eq-ok (one_byte c p) _ (rw other at e) in
      let (js, more, same) = >>=-eq-ok (items_of f tested.1) _ cut in
      rw (other, here)
        (Decides-items (x ∷ s) (if tested.0 x then pattern_match_impl f tested.1 s else ok false)
          same
          (byte_round js tested.0 x s (pattern_match_impl f tested.1 s)
            (pattern_match_impl-Decides f tested.1 s js more)))
]

-- On a pattern that is well formed the matcher throws nothing, ends, and answers whether the items
-- of the pattern match the whole text.
pub pattern_match-Decides :
    (p s : Str) (is : List Item) → items p ≡ ok is → Decides (Matches is s) (pattern_match p s)
unfolding pattern_match items
pattern_match-Decides p s is e = pattern_match_impl-Decides (suc (length p)) p s is e
