-- ===== src/Sync/Filter.antt =====
-- `check_included` of es3/sync.cpp.
pub mod Laws
mod Tests
use extreme_s.Prelude.{Bool, true, false, List, [], ◌∷◌, Str, codes, contains, if◌then◌else◌}
use extreme_s.Glob.{Result, ok, fail, ◌>>=◌, pattern_match}

-- The loop `for (f in patterns) if (pattern_match(*f)(name)) return ...`.
any_match : List Str → Str → Result Bool
any_match [] name = ok false
any_match (p ∷ ps) name =
    let rest = any_match ps name in pattern_match p name >>= λ hit. if hit then ok true else rest

-- The include rules; no rule at all includes everything.
included_by : List Str → Str → Result Bool
unfolding any_match
included_by [] name = ok true
included_by (p ∷ ps) name = any_match (p ∷ ps) name

pub check_included : List Str → List Str → Str → Result Bool
unfolding any_match included_by
check_included included excluded name =
    if contains name (codes " ")
    then ok false
    else (any_match excluded name >>= λ hit. if hit then ok false else included_by included name)
