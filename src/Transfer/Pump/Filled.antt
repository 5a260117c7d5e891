-- ===== src/Transfer/Pump/Filled.antt =====
-- What a pump has after one segment: the bytes that were next, and the place behind them.
use extreme_s.Prelude.{
  concat, drop-sum, take-append_left, drop-append_left, drop-length, take-length, take-append_right,
  drop-append_right, ℕ, ◌+◌, ◌-◌, ◌≤◌, ◌≡◌, refl, sym, ap, ◌∙◌, subst, Bool, true, false, List, [],
  ◌∷◌, ◌++◌, Option, none, some, Str, arith, length, take, drop, if◌then◌else◌, is_empty,
  append_assoc, append-nil, length-drop,
}
use extreme_s.Transfer.Pump.{Cursor}

abbrev pub first_length : List Str → ℕ
first_length [] = 0
first_length (p ∷ ps) = length p

-- What lies ahead of a cursor.
abbrev pub ahead : Cursor → Str
ahead at = drop at.offset_within (concat at.pieces)

abbrev pub Standing : Cursor → Type 0
Standing at = at.offset_within ≤ first_length at.pieces

abbrev pub Filled : ℕ → Str → Str → Option (Str × Cursor) → Type 0
Filled want got left none = ⊥
Filled want got left (some (bytes, next)) =
    (bytes ≡ got ++ take want left) × Standing next × (ahead next ≡ drop want left)

-- The piece has all that the segment wants.
pub within :
    (ps : List Str) (p : Str) (offset want : ℕ) (got : Str)
    → offset + want ≤ length p
    → Filled want got (drop offset p ++ concat ps) (
        some (
          got ++ take want (drop offset p),
          record { offset_within = offset + want; pieces = p ∷ ps },
        ))
within ps p offset want got l =
    let enough : want ≤ length (drop offset p) = omega (arith, length-drop offset p) in
    rw
      (
        take-append_left want (drop offset p) (concat ps) enough,
        drop-append_left want (drop offset p) (concat ps) enough,
        drop-append_left (offset + want) p (concat ps) l,
        drop-sum offset want p,
      )
      (refl, l, refl)

-- The last piece ends before the segment does.
last_piece :
    (p : Str) (offset want r : ℕ) (got : Str)
    → offset + r ≡ length p
    → r ≤ want
    → Filled want got (drop offset p ++ concat []) (
        some
          (got ++ take r (drop offset p), record { offset_within = offset + r; pieces = p ∷ [] }))
last_piece p offset want r got e l =
    let size = length-drop offset p in
    rw
      (
        append-nil (drop offset p),
        append-nil p,
        take-length r (drop offset p) (omega arith),
        take-length want (drop offset p) (omega arith),
        drop-length want (drop offset p) (omega arith),
        drop-length (offset + r) p (omega arith),
      )
      (refl, omega arith, refl)

-- The piece is used up, and the next one goes on.
onwards :
    (got xs ys : Str) (want : ℕ) (after : Option (Str × Cursor))
    → length xs ≤ want
    → Filled (want - length xs) (got ++ xs) ys after
    → Filled want got (xs ++ ys) after
onwards got xs ys want none l f = f
onwards got xs ys want (some (bytes, next)) l (content, standing, rest) = (
  content ∙ append_assoc got xs _ ∙ ap (λ r. got ++ r) (sym (take-append_right want xs ys l)),
  standing,
  rest ∙ sym (drop-append_right want xs ys l),
)

abbrev used_up : List Str → Option (Str × Cursor) → Option (Str × Cursor) → Option (Str × Cursor)
used_up ps stay after = if is_empty ps then stay else after

pub used_up-Filled :
    (ps : List Str) (p : Str) (offset want r : ℕ) (got : Str) (after : Option (Str × Cursor))
    → offset + r ≡ length p
    → r ≤ want
    → Filled (want - r) (got ++ take r (drop offset p)) (concat ps) after
    → Filled want got (drop offset p ++ concat ps) (
        used_up ps
          (some
            (got ++ take r (drop offset p), record { offset_within = offset + r; pieces = p ∷ ps }))
          after)
used_up-Filled [] p offset want r got after e l f = last_piece p offset want r got e l
used_up-Filled (q ∷ qs) p offset want r got after e l f =
    let size : length (drop offset p) ≡ r = omega (arith, length-drop offset p) in
    let all : take r (drop offset p) ≡ drop offset p =
      take-length r (drop offset p) (omega arith) in
    onwards got (drop offset p) (concat (q ∷ qs)) want after (omega arith)
      (rw size (subst (λ xs. Filled (want - r) (got ++ xs) (concat (q ∷ qs)) after) all f))

pub same-Filled :
    (b : Bool) (want : ℕ) (got left : Str) (x : Option (Str × Cursor))
    → Filled want got left x
    → Filled want got left (if b then x else x)
same-Filled true want got left x f = f
same-Filled false want got left x f = f
