-- ===== src/Pool.antt =====
-- The pool of curl handles: `conn_context` of es3/context.h and es3/context.cpp. A handle is a number;
-- each operation holds the mutex from its beginning to its end.
pub mod Laws
mod Tests
use extreme_s.Prelude.{
  ℕ, ◌+◌, Bool, true, false, List, [], ◌∷◌, ◌++◌, Option, none, some, Str, codes, ◌==◌,
  if◌then◌else◌, Outcome, ok, fail, es3_error, std_error, err_fatal, ◌>>=◌,
}
use extreme_s.Prelude.Dict.{Dict, lookup, insert}

-- `curls_` and `borrowed_curls_`; the error buffers are left out.
pub record Pool : Type 0 where
  pub curls : Dict (List ℕ)
  pub borrowed_curls : List (ℕ × Str)

abbrev pub key_of : Str → Str → Str
key_of zone bucket = zone ++ (codes "/" ++ bucket)

-- `curls_[key]`
abbrev or_empty : Option (List ℕ) → List ℕ
or_empty none = []
or_empty (some cur) = cur

abbrev pub idle : Str → Pool → List ℕ
idle key pool = or_empty (lookup key pool.curls)

-- `back()` and `pop_back()` of a vector.
pop : List ℕ → Option (List ℕ × ℕ)
pop [] = none
pop (h ∷ hs) = elim (pop hs) [ none ↦ some ([], h) | some (rest, last) ↦ some (h ∷ rest, last) ]

-- `borrowed_curls_[res]=key`. The source asserts that the handle is not borrowed, so the entry is a new
-- one, and never one that is overwritten.
lend : Str → List ℕ → ℕ → Pool → ℕ × Pool
lend key rest res pool = (
  res,
  record { curls = insert key rest pool.curls; borrowed_curls = (res, key) ∷ pool.borrowed_curls },
)

-- A handle that is idle, or a new one.
or_new : Str → Option ℕ → Pool → Option (List ℕ × ℕ) → Outcome (ℕ × Pool)
unfolding lend
or_new key init pool (some (rest, res)) = ok (lend key rest res pool)
or_new key (some res) pool none = ok (lend key [] res pool)
or_new key none pool none = fail (es3_error err_fatal)

-- `get_curl`, for what `curl_easy_init` would give.
pub get_curl : Option ℕ → Str → Str → Pool → Outcome (ℕ × Pool)
unfolding pop or_new
get_curl init zone bucket pool =
    or_new (key_of zone bucket) init pool (pop (idle (key_of zone bucket) pool))

-- `borrowed_curls_.at(curl)`
borrower : ℕ → List (ℕ × Str) → Option Str
borrower curl [] = none
borrower curl ((h, key) ∷ rest) = if h == curl then some key else borrower curl rest

-- `borrowed_curls_.erase(curl)`
give_back : ℕ → List (ℕ × Str) → List (ℕ × Str)
give_back curl [] = []
give_back curl ((h, key) ∷ rest) = if h == curl then rest else (h, key) ∷ give_back curl rest

put_back : ℕ → Pool → Option Str → Outcome Pool
unfolding give_back
put_back curl pool none = fail std_error
put_back curl pool (some key) = ok (record {
  curls = insert key (idle key pool ++ (curl ∷ [])) pool.curls;
  borrowed_curls = give_back curl pool.borrowed_curls;
})

-- `release_curl`
pub release_curl : ℕ → Pool → Outcome Pool
unfolding borrower put_back
release_curl curl pool = put_back curl pool (borrower curl pool.borrowed_curls)
