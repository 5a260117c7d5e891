-- ===== src/Pool/Tests.antt =====
-- A handle that is borrowed, given back and borrowed again.
use extreme_s.Prelude.{◌≡◌, refl, ◌∷◌, [], codes, some, none, ok}
use extreme_s.Prelude.Dict.{lookup, insert, has, place}
use extreme_s.Pool.{Pool, get_curl, release_curl, pop, or_new, lend}
use extreme_s.Pool.Laws.{release_curl-get_curl}

abbrev empty_pool : Pool
empty_pool = record { curls = []; borrowed_curls = [] }

abbrev lent : Pool
lent = record { curls = (codes "s3/logs", []) ∷ []; borrowed_curls = (5, codes "s3/logs") ∷ [] }

get_first : get_curl (some 5) (codes "s3") (codes "logs") empty_pool ≡ ok (5, lent)
unfolding get_curl pop or_new lend lookup insert has place
get_first = refl

release_curl-get_curl_example :
    (back : Pool) × (later : Pool) × (release_curl 5 lent ≡ ok back)
    × (back.borrowed_curls ≡ empty_pool.borrowed_curls)
    × (get_curl none (codes "s3") (codes "logs") back ≡ ok (5, later))
    × (later.borrowed_curls ≡ lent.borrowed_curls)
release_curl-get_curl_example =
    release_curl-get_curl (some 5) none (codes "s3") (codes "logs") empty_pool lent 5 get_first
