-- ===== src/Glob/Meaning.antt =====
-- What a pattern means, with no search in it: the items it stands for, and the texts they match.
use extreme_s.Prelude.{
  ℕ, zero, suc, ◌≡◌, ◌↔◌, ◌⊎◌, inl, inr, Bool, true, false, List, [], ◌∷◌, Str, ◌==◌, if◌then◌else◌,
  length,
}
use extreme_s.Glob.{Result, ok, fail, out_of_fuel, ◌>>=◌, CharClass, one_byte}

pub data Item : Type 0 where
  star : Item
  one : CharClass → Item

-- The pattern cut into items.
unfoldable pub items_of : ℕ → Str → Result (List Item)
items_of zero p = fail out_of_fuel
items_of (suc fuel) [] = ok []
items_of (suc fuel) (ptn ∷ p) =
    let starred = items_of fuel p >>= λ is. ok (star ∷ is) in
    let single =
      one_byte ptn p >>= λ (test, rest). items_of fuel rest >>= λ is. ok (one test ∷ is) in
    if ptn == b'*' then starred else single

unfoldable pub items : Str → Result (List Item)
unfolding items_of
items p = items_of (suc (length p)) p

pub data Matches : List Item → Str → Type 0 where
  end : Matches [] []
  byte :
      {t : CharClass} {is : List Item} {c : ℕ} {s : Str}
      → t c ≡ true
      → Matches is s
      → Matches (one t ∷ is) (c ∷ s)
  leave : {is : List Item} {s : Str} → Matches is s → Matches (star ∷ is) s
  take : {is : List Item} {c : ℕ} {s : Str} → Matches (star ∷ is) s → Matches (star ∷ is) (c ∷ s)

pub byte_inv :
    {t : CharClass} {is : List Item} {c : ℕ} {s : Str}
    → Matches (one t ∷ is) (c ∷ s)
    → (t c ≡ true) × Matches is s
byte_inv (byte h m) = (h, m)

pub star_inv :
    {is : List Item} {c : ℕ} {s : Str}
    → Matches (star ∷ is) (c ∷ s)
    → Matches is (c ∷ s) ⊎ Matches (star ∷ is) s
star_inv (leave m) = inl m
star_inv (take m) = inr m

pub star_end : {is : List Item} → Matches (star ∷ is) [] → Matches is []
star_end (leave m) = m

-- An answer was given, and it is the right one about `P`.
abbrev pub Decides : Type 0 → Result Bool → Type 0
Decides P (ok true) = P
Decides P (ok false) = ¬ P
Decides P (fail e) = ⊥

pub Decides-iff : {P Q : Type 0} (r : Result Bool) → P ↔ Q → Decides P r → Decides Q r
Decides-iff (ok true) e d = e.0 d
Decides-iff (ok false) e d = λ q. d (e.1 q)
Decides-iff (fail x) e d = d
