-- ===== src/Prelude/Dict.antt =====
-- `std::map` with string keys: an association list in key order.
use mathlib.Core.Path.{◌≡◌, refl}
use mathlib.Core.Logic.{inl, inr}
use mathlib.Core.Bool.{Bool, true, false, ◌||◌}
use mathlib.Core.List.{List, [], ◌∷◌}
use mathlib.Core.Option.{Option, none, some}
use native.Mathlib.Omega.{arith}
use extreme_s.Prelude.Tests.{if◌then◌else◌, Bool-cases}
use extreme_s.Prelude.Text.{Str, str_eq, str_lt, str_eq_iff}

abbrev pub Dict {ℓ} : Type ℓ → Type ℓ
Dict V = List (Str × V)

module _ {ℓ} {V : Type ℓ} where
  unfoldable pub lookup : Str → Dict V → Option V
  lookup k [] = none
  lookup k ((j, v) ∷ m) = if str_eq j k then some v else lookup k m

  -- `m.count(k) != 0`.
  unfoldable pub has : Str → Dict V → Bool
  has k [] = false
  has k ((j, v) ∷ m) = if str_eq j k then true else has k m

  -- A new key goes to its place in the order.
  unfoldable pub place : Str → V → Dict V → Dict V
  place k v [] = (k, v) ∷ []
  place k v ((j, w) ∷ m) = if str_lt k j then (k, v) ∷ (j, w) ∷ m else (j, w) ∷ place k v m

  pub replace : Str → V → Dict V → Dict V
  replace k v [] = []
  replace k v ((j, w) ∷ m) = if str_eq j k then (j, v) ∷ m else (j, w) ∷ replace k v m

  -- `m[k] = v`.
  unfoldable pub insert : Str → V → Dict V → Dict V
  unfolding has place replace
  insert k v m = if has k m then replace k v m else place k v m

  pub erase : Str → Dict V → Dict V
  erase k [] = []
  erase k ((j, w) ∷ m) = let rest = erase k m in if str_eq j k then rest else (j, w) ∷ rest

  lookup-place :
      (k j : Str) (v : V) (m : Dict V)
      → has k m ≡ false
      → lookup j (place k v m) ≡ (if str_eq k j then some v else lookup j m)
  unfolding lookup place has
  lookup-place k j v [] h = refl
  lookup-place k j v ((i, w) ∷ m) h =
      ground (arith, str_eq_iff k j, str_eq_iff i k, str_eq_iff i j, lookup-place k j v m)

  lookup-replace :
      (k j : Str) (v : V) (m : Dict V)
      → has k m ≡ true
      → lookup j (replace k v m) ≡ (if str_eq k j then some v else lookup j m)
  unfolding lookup replace has
  lookup-replace k j v [] h = cc
  lookup-replace k j v ((i, w) ∷ m) h =
      ground (arith, str_eq_iff k j, str_eq_iff i k, str_eq_iff i j, lookup-replace k j v m)

  pub lookup-insert :
      (k j : Str) (v : V) (m : Dict V)
      → lookup j (insert k v m) ≡ (if str_eq k j then some v else lookup j m)
  unfolding insert
  lookup-insert k j v m = elim (Bool-cases (has k m)) [
    | inl e ↦ rw e (lookup-replace k j v m e)
    | inr e ↦ rw e (lookup-place k j v m e)
  ]

  pub lookup-erase :
      (k j : Str) (m : Dict V) → lookup j (erase k m) ≡ (if str_eq k j then none else lookup j m)
  unfolding lookup erase
  lookup-erase k j [] = ground arith
  lookup-erase k j ((i, w) ∷ m) =
      ground (arith, str_eq_iff k j, str_eq_iff i k, str_eq_iff i j, lookup-erase k j m)

  has-place : (k j : Str) (v : V) (m : Dict V) → has j (place k v m) ≡ str_eq k j || has j m
  unfolding has place
  has-place k j v [] = ground arith
  has-place k j v ((i, w) ∷ m) = ground (arith, has-place k j v m)

  has-replace :
      (k j : Str) (v : V) (m : Dict V)
      → has k m ≡ true
      → has j (replace k v m) ≡ str_eq k j || has j m
  unfolding has replace
  has-replace k j v [] h = cc
  has-replace k j v ((i, w) ∷ m) h =
      ground (arith, str_eq_iff k j, str_eq_iff i k, str_eq_iff i j, has-replace k j v m)

  pub has-insert : (k j : Str) (v : V) (m : Dict V) → has j (insert k v m) ≡ str_eq k j || has j m
  unfolding insert
  has-insert k j v m = elim (Bool-cases (has k m)) [
    | inl e ↦ rw e (has-replace k j v m e)
    | inr e ↦ rw e (has-place k j v m)
  ]
