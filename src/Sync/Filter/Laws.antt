-- ===== src/Sync/Filter/Laws.antt =====
-- Which names a synchronization takes in.
use extreme_s.Prelude.{
  ◌≡◌, refl, ◌⊎◌, inl, inr, ◌↔◌, Bool, true, false, List, [], ◌∷◌, arith, Str, codes, contains,
  if◌then◌else◌, All, Bool-cases,
}
use extreme_s.Glob.{Result, ok, fail, ◌>>=◌, pattern_match}
use extreme_s.Sync.Filter.{any_match, included_by, check_included}

-- Some pattern matches the name, and those before it were answered with no.
pub data Hit (name : Str) : List Str → Type 0 where
  here : {p : Str} {ps : List Str} → pattern_match p name ≡ ok true → Hit name (p ∷ ps)
  there :
      {p : Str} {ps : List Str} → pattern_match p name ≡ ok false → Hit name ps → Hit name (p ∷ ps)

abbrev pub NoHit : Str → List Str → Type 0
NoHit name = All (λ p. pattern_match p name ≡ ok false)

-- One round of the loop.
if_hit : (r rest : Result Bool) → Result Bool
if_hit r rest = r >>= λ hit. if hit then ok true else rest

if_hit-false :
    (r rest : Result Bool) → (if_hit r rest ≡ ok false) ↔ ((r ≡ ok false) × (rest ≡ ok false))
unfolding if_hit
if_hit-false (ok true) rest = ((λ e. cc), λ h. cc (h.0))
if_hit-false (ok false) rest = ((λ e. (refl, e)), λ h. h.1)
if_hit-false (fail x) rest = ((λ e. cc), λ h. cc (h.0))

if_hit-true :
    (r rest : Result Bool)
    → (if_hit r rest ≡ ok true)
    → (r ≡ ok true) ⊎ ((r ≡ ok false) × (rest ≡ ok true))
unfolding if_hit
if_hit-true (ok true) rest e = inl refl
if_hit-true (ok false) rest e = inr (refl, e)
if_hit-true (fail x) rest e = cc

any_match-false : (ps : List Str) (name : Str) → (any_match ps name ≡ ok false) ↔ NoHit name ps
unfolding any_match if_hit
any_match-false [] name = ((λ e. tt), λ h. refl)
any_match-false (p ∷ ps) name =
    let step = if_hit-false (pattern_match p name) (any_match ps name) in
    let rest = any_match-false ps name in
    ((λ e. ((step.0 e).0, rest.0 (step.0 e).1)), λ h. step.1 (h.0, rest.1 h.1))

any_match-Hit : (ps : List Str) (name : Str) → any_match ps name ≡ ok true → Hit name ps
unfolding any_match if_hit
any_match-Hit [] name e = cc
any_match-Hit (p ∷ ps) name e = elim (if_hit-true (pattern_match p name) (any_match ps name) e) [
  | inl h ↦ here h
  | inr (h, k) ↦ there h (any_match-Hit ps name k)
]

Hit-any_match : {name : Str} {ps : List Str} → Hit name ps → any_match ps name ≡ ok true
unfolding any_match
Hit-any_match (here h) = rw h
Hit-any_match (there h k) = rw h (Hit-any_match k)

included_by-true :
    (ps : List Str) (name : Str) → (included_by ps name ≡ ok true) ↔ ((ps ≡ []) ⊎ Hit name ps)
unfolding included_by
included_by-true [] name = ((λ e. inl refl), λ h. refl)
included_by-true (p ∷ ps) name = (
  (λ e. inr (any_match-Hit (p ∷ ps) name e)),
  λ h. elim h [ inl e ↦ cc | inr k ↦ Hit-any_match k ],
)

-- The exclude rules, and then the rest.
unless_hit :
    (r rest : Result Bool)
    → ((r >>= λ hit. if hit then ok false else rest) ≡ ok true)
      ↔ ((r ≡ ok false) × (rest ≡ ok true))
unless_hit (ok true) rest = ((λ e. cc), λ h. cc (h.0))
unless_hit (ok false) rest = ((λ e. (refl, e)), λ h. h.1)
unless_hit (fail x) rest = ((λ e. cc), λ h. cc (h.0))

-- A name is taken in exactly when it has no space, no exclude rule matches it, and an include rule
-- matches it or there is none. An exclude rule so wins over an include rule.
pub check_included_iff :
    (included excluded : List Str) (name : Str)
    → (check_included included excluded name ≡ ok true) ↔ (
        (contains name (codes " ") ≡ false)
        × NoHit name excluded
        × ((included ≡ []) ⊎ Hit name included))
unfolding check_included
check_included_iff included excluded name = elim (Bool-cases (contains name (codes " "))) [
  | inl space ↦ ((λ e. absurd (none_taken space e)), λ h. absurd (both space h.0))
  | inr plain ↦
      let rules = unless_hit (any_match excluded name) (included_by included name) in
      let out = any_match-false excluded name in
      let into = included_by-true included name in
      rw plain (
        (λ e. (refl, out.0 (rules.0 e).0, into.0 (rules.0 e).1)),
        λ h. rules.1 (out.1 h.1, into.1 h.2),
      )
]
  where
    both : {b : Bool} → b ≡ true → b ≡ false → ⊥
    both p q = cc

    none_taken :
        contains name (codes " ") ≡ true → check_included included excluded name ≡ ok true → ⊥
    none_taken p e = ground arith
