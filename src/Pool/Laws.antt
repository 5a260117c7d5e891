-- ===== src/Pool/Laws.antt =====
-- Handles that are given back are used again.
use extreme_s.Prelude.{
  ℕ, ◌≡◌, refl, ap, subst, ◌∙◌, true, List, [], ◌∷◌, ◌++◌, Option, none, some, Str, ◌==◌,
  if◌then◌else◌, ok, arith, str_eq_refl,
}
use extreme_s.Prelude.Dict.{Dict, lookup, insert, lookup-insert}
use extreme_s.Pool.{
  Pool, key_of, or_empty, idle, pop, lend, or_new, get_curl, borrower, give_back, put_back,
  release_curl,
}

pop-append : (hs : List ℕ) (h : ℕ) → pop (hs ++ (h ∷ [])) ≡ some (hs, h)
unfolding pop
pop-append [] h = refl
pop-append (x ∷ hs) h = rw (pop-append hs h) refl

idle-insert :
    (key : Str) (hs : List ℕ) (m : Dict (List ℕ)) (b : List (ℕ × Str))
    → idle key (record { curls = insert key hs m; borrowed_curls = b }) ≡ hs
idle-insert key hs m b =
    let held : lookup key (insert key hs m) ≡ some hs =
      lookup-insert key key hs m
      ∙ ap (λ t. if t then some hs else lookup key m) (str_eq_refl key) in
    ap or_empty held

-- A request that succeeds has lent a handle.
or_new-lend :
    (key : Str) (init : Option ℕ) (pool lent : Pool) (popped : Option (List ℕ × ℕ)) (h : ℕ)
    → or_new key init pool popped ≡ ok (h, lent)
    → (rest : List ℕ) × ((lend key rest h pool).1 ≡ lent)
unfolding or_new lend
or_new-lend key init pool lent (some (rest, res)) h e = (rest, cc)
or_new-lend key (some res) pool lent none h e = ([], cc)
or_new-lend key none pool lent none h e = cc

abbrev Reused : Option ℕ → Str → Str → Pool → ℕ → Pool → Type 0
Reused again zone bucket pool h lent =
    (back : Pool) × (later : Pool) × (release_curl h lent ≡ ok back)
    × (back.borrowed_curls ≡ pool.borrowed_curls)
    × (get_curl again zone bucket back ≡ ok (h, later))
    × (later.borrowed_curls ≡ lent.borrowed_curls)

lend-Reused :
    (again : Option ℕ) (zone bucket : Str) (pool : Pool) (h : ℕ) (rest : List ℕ)
    → Reused again zone bucket pool h (lend (key_of zone bucket) rest h pool).1
unfolding release_curl get_curl borrower give_back put_back lend or_new
lend-Reused again zone bucket pool h rest =
    let key = key_of zone bucket in
    let lent = (lend key rest h pool).1 in
    let same : (h == h) ≡ true = ground arith in
    let back : Pool = record {
      curls = insert key (idle key lent ++ (h ∷ [])) lent.curls;
      borrowed_curls = give_back h lent.borrowed_curls;
    } in
    let given : give_back h lent.borrowed_curls ≡ pool.borrowed_curls = rw same refl in
    let found : borrower h lent.borrowed_curls ≡ some key = rw same refl in
    (
      back,
      (lend key (idle key lent) h back).1,
      ap (put_back h lent) found,
      given,
      ap (or_new key again back) (
          ap pop (
            idle-insert key (idle key lent ++ (h ∷ [])) lent.curls
              (give_back h lent.borrowed_curls))
          ∙ pop-append (idle key lent) h),
      ap (λ b. (h, key) ∷ b) given,
    )

-- A handle that was borrowed for a zone and a bucket and is given back is the one that the next
-- request for them gets, with no new one made, and the other borrowers keep theirs.
pub release_curl-get_curl :
    (init again : Option ℕ) (zone bucket : Str) (pool lent : Pool) (h : ℕ)
    → get_curl init zone bucket pool ≡ ok (h, lent)
    → (back : Pool) × (later : Pool) × (release_curl h lent ≡ ok back)
      × (back.borrowed_curls ≡ pool.borrowed_curls)
      × (get_curl again zone bucket back ≡ ok (h, later))
      × (later.borrowed_curls ≡ lent.borrowed_curls)
unfolding get_curl
release_curl-get_curl init again zone bucket pool lent h e =
    let (rest, lends) =
      or_new-lend (key_of zone bucket) init pool lent (pop (idle (key_of zone bucket) pool)) h e in
    subst (λ l. Reused again zone bucket pool h l) lends (lend-Reused again zone bucket pool h rest)
