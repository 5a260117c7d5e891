-- ===== src/Prelude/Failures.antt =====
-- Exceptions as values: `err(level) << ...`, `libc_die` and the standard exceptions (errors.h).
use mathlib.Core.Path.{◌≡◌, refl}
use mathlib.Core.Bool.{Bool, true, false}
use mathlib.Core.List.{List, ◌++◌}
use extreme_s.Prelude.Lists.{All, All-append}
use extreme_s.Prelude.Tests.{if◌then◌else◌}

-- `code_e` of es3/errors.h.
pub data Code : Type 0 where
  err_fatal err_warn err_none : Code

-- An `es3_exception` with its level, another `std::exception`, or what the language leaves undefined:
-- a null pointer that is followed.
pub data Failure : Type 0 where
  es3_error : Code → Failure
  std_error : Failure
  null_pointer : Failure

pub data Outcome {ℓ} (A : Type ℓ) : Type ℓ where
  ok : A → Outcome A
  fail : Failure → Outcome A

infixl 5 ◌>>=◌
abbrev pub ◌>>=◌ {ℓ κ} : {A : Type ℓ} {B : Type κ} → Outcome A → (A → Outcome B) → Outcome B
ok a >>= f = f a
fail e >>= f = fail e

-- Two lists produced one after the other.
abbrev pub both {ℓ} : {A : Type ℓ} → Outcome (List A) → Outcome (List A) → Outcome (List A)
both m k = m >>= λ xs. k >>= λ ys. ok (xs ++ ys)

-- Inversion of a bind that succeeds.
pub >>=-eq-ok {ℓ κ} :
    {A : Type ℓ} {B : Type κ} (first : Outcome A) (next : A → Outcome B) {b : B}
    → (first >>= next) ≡ ok b
    → (a : A) × (first ≡ ok a) × (next a ≡ ok b)
>>=-eq-ok (ok a) next e = (a, refl, e)
>>=-eq-ok (fail x) next e = cc

-- Whatever succeeds has the property.
abbrev pub Ensures {ℓ κ} : {A : Type ℓ} → (A → Type κ) → Outcome A → Type κ
Ensures P (ok a) = P a
Ensures P (fail e) = Unit

pub Ensures-bind {ℓ κ λ₁ μ} :
    {A : Type ℓ} {B : Type κ} (P : A → Type λ₁) (Q : B → Type μ) (m : Outcome A) (f : A → Outcome B)
    → Ensures P m
    → ((a : A) → P a → Ensures Q (f a))
    → Ensures Q (m >>= f)
Ensures-bind P Q (ok a) f h k = k a h
Ensures-bind P Q (fail e) f h k = tt

pub Ensures-both {ℓ κ} :
    {A : Type ℓ} (P : A → Type κ) (m k : Outcome (List A))
    → Ensures (All P) m
    → Ensures (All P) k
    → Ensures (All P) (both m k)
Ensures-both P (ok xs) (ok ys) h g = All-append P xs ys h g
Ensures-both P (ok xs) (fail e) h g = tt
Ensures-both P (fail e) k h g = tt

-- The parts of a successful pair of runs.
pub both-eq-ok {ℓ} :
    {A : Type ℓ} (m k : Outcome (List A)) {zs : List A}
    → both m k ≡ ok zs
    → (xs : List A) × (ys : List A) × (m ≡ ok xs) × (k ≡ ok ys) × (xs ++ ys ≡ zs)
both-eq-ok (ok xs) (ok ys) e = (xs, ys, refl, refl, cc)
both-eq-ok (ok xs) (fail x) e = cc
both-eq-ok (fail x) k e = cc

pub Ensures-if {ℓ κ} :
    {A : Type ℓ} (P : A → Type κ) (b : Bool) (x y : Outcome A)
    → (b ≡ true → Ensures P x)
    → (b ≡ false → Ensures P y)
    → Ensures P (if b then x else y)
Ensures-if P true x y h g = h refl
Ensures-if P false x y h g = g refl

-- A bind keeps the equation of its first part.
pub Ensures-bind_eq {ℓ κ μ} :
    {A : Type ℓ} {B : Type κ} (Q : B → Type μ) (m : Outcome A) (f : A → Outcome B)
    → ((a : A) → m ≡ ok a → Ensures Q (f a))
    → Ensures Q (m >>= f)
Ensures-bind_eq Q (ok a) f k = k a refl
Ensures-bind_eq Q (fail e) f k = tt

pub Ensures-mono {ℓ κ μ} :
    {A : Type ℓ} (P : A → Type κ) (Q : A → Type μ) (m : Outcome A)
    → ((a : A) → P a → Q a)
    → Ensures P m
    → Ensures Q m
Ensures-mono P Q (ok a) h p = h a p
Ensures-mono P Q (fail e) h p = tt

-- Equal results have equal parts.
pub ok-pair {ℓ κ} :
    {A : Type ℓ} {B : Type κ} {a c : A} {b d : B}
    → (p q : Outcome (A × B)) → p ≡ ok (a, b)
    → q ≡ ok (c, d)
    → p ≡ q
    → (a ≡ c) × (b ≡ d)
ok-pair p q e g h = (cc, cc)
