-- ===== src/Sync/Filter/Tests.antt =====
-- Include and exclude rules.
use extreme_s.Prelude.{◌≡◌, ◌↔◌, ◌⊎◌, [], ◌∷◌, codes, true, false, contains}
use extreme_s.Glob.{ok}
use extreme_s.Sync.Filter.{check_included}
use extreme_s.Sync.Filter.Laws.{NoHit, Hit, check_included_iff}

check_included_iff_example :
    (check_included (codes "*.txt" ∷ []) (codes "*~" ∷ []) (codes "a.txt") ≡ ok true) ↔ (
      (contains (codes "a.txt") (codes " ") ≡ false)
      × NoHit (codes "a.txt") (codes "*~" ∷ [])
      × ((codes "*.txt" ∷ [] ≡ []) ⊎ Hit (codes "a.txt") (codes "*.txt" ∷ [])))
check_included_iff_example =
    check_included_iff (codes "*.txt" ∷ []) (codes "*~" ∷ []) (codes "a.txt")
