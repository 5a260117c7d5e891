-- ===== src/Transfer/Finish/Blocks.antt =====
-- When a compressed file is handed on.
use extreme_s.Prelude.{
  ◌≢◌, ◌∙◌, sym, set, get_elem?, some, length-set, ℕ, zero, suc, ◌+◌, ◌<◌, ◌≡◌, refl, ap, subst,
  inl, inr, true, List, [], ◌∷◌, arith, ◌==◌, length, length-append, All, All-append, Bool-cases,
  Str, ==_iff,
}
use extreme_s.Transfer.Finish.Parts.{get_elem?-set_same, get_elem?-set_other}
use extreme_s.Transfer.Finish.{
  Compression, enter, leave, begin, entering, leaving_lock, CompressReach, none_yet, then_step,
}

-- `on_finish_` was called with all the results in place, and once the counter is at zero a call was
-- made or is still to come.
abbrev Handing : Compression → Type 0
Handing c =
    (c.num_pending ≡ 0 → 0 < c.leaving + length c.finished)
    × All (λ results. results ≡ c.results) c.finished
    × (0 < length c.finished → c.num_pending ≡ 0)

begin-Handing : (n : ℕ) (results : List (Str × ℕ)) → 0 < n → Handing (begin n results)
unfolding begin
begin-Handing n results h = ((λ z. absurd (omega arith)), tt, λ z. absurd (omega arith))

enter-Handing :
    (name : Str) (num size : ℕ) (c : Compression)
    → 0 < c.num_pending
    → Handing c
    → Handing (enter name num size c)
unfolding enter
enter-Handing name num size c some_left (made, same, over) =
    let none_made : c.finished ≡ [] = no_call c.finished over in
    rw none_made ((λ z. omega arith), tt, λ z. absurd (omega arith))
  where
    no_call :
        (finished : List (List (Str × ℕ)))
        → (0 < length finished → c.num_pending ≡ 0)
        → finished ≡ []
    no_call [] h = refl
    no_call (x ∷ xs) h = let z = h (omega arith) in absurd (omega arith)

leave-Handing : (c : Compression) → 0 < c.leaving → Handing c → Handing (leave c)
unfolding leave
leave-Handing c some_left (made, same, over) = elim (Bool-cases (c.num_pending == 0)) [
  | inl e ↦
      let zero_left : c.num_pending ≡ 0 = (==_iff _ _).0 e in
      let counted = length-append c.finished (c.results ∷ []) in
      rw e (
        (λ z. omega arith),
        All-append (λ r. r ≡ c.results) c.finished (c.results ∷ []) same (refl, tt),
        λ z. zero_left,
      )
  | inr e ↦
      let some_pending : 0 < c.num_pending = ground arith in
      rw e ((λ z. absurd (omega arith)), same, over)
]

reach-Handing : (a c : Compression) → CompressReach a c → Handing a → Handing c
reach-Handing a c (none_yet _) h = h
reach-Handing a _ (then_step _ b _ r (entering name num size _ l)) h =
    enter-Handing name num size b l (reach-Handing a b r h)
reach-Handing a _ (then_step _ b _ r (leaving_lock _ l)) h =
    leave-Handing b l (reach-Handing a b r h)

-- The blocks that were registered, the last one first, each with its number and its result.
unfoldable pub entries : {a c : Compression} → CompressReach a c → List (ℕ × (Str × ℕ))
entries (none_yet _) = []
entries (then_step _ _ _ r (entering name num size _ l)) = (num, (name, size)) ∷ entries r
entries (then_step _ _ _ r (leaving_lock _ l)) = entries r

abbrev pub OwnNumbers : List (ℕ × (Str × ℕ)) → Type 0
OwnNumbers [] = Unit
OwnNumbers (e ∷ es) = All (λ d. d.0 ≢ e.0) es × OwnNumbers es

-- The result of each block stands at its number.
abbrev pub Holds : List (Str × ℕ) → List (ℕ × (Str × ℕ)) → Type 0
Holds results es = All (λ e. get_elem? results e.0 ≡ some e.1) es

Holds-set :
    (results : List (Str × ℕ)) (num : ℕ) (v : Str × ℕ) (es : List (ℕ × (Str × ℕ)))
    → All (λ d. d.0 ≢ num) es
    → Holds results es
    → Holds (set results num v) es
Holds-set results num v [] other h = tt
Holds-set results num v (e ∷ es) (here, later) (h, hs) =
    (get_elem?-set_other results num e.0 v here ∙ h, Holds-set results num v es later hs)

reach-Holds :
    (a c : Compression) (r : CompressReach a c)
    → OwnNumbers (entries r)
    → All (λ e. e.0 < length a.results) (entries r)
    → (length c.results ≡ length a.results)
      × (c.num_pending + length (entries r) ≡ a.num_pending)
      × Holds c.results (entries r)
unfolding entries enter leave
reach-Holds a c (none_yet _) own inside = (refl, omega arith, tt)
reach-Holds a _ (then_step _ b _ r (entering name num size _ l)) (other, own) (here, inside) =
    let (long, count, held) = reach-Holds a b r own inside in
    (
      length-set b.results num (name, size) ∙ long,
      omega arith,
      (
        get_elem?-set_same b.results num (name, size) (omega arith),
        Holds-set b.results num (name, size) (entries r) other held,
      ),
    )
reach-Holds a _ (then_step _ b _ r (leaving_lock _ l)) own inside = reach-Holds a b r own inside

Holds-calls :
    (calls : List (List (Str × ℕ))) (results : List (Str × ℕ)) (es : List (ℕ × (Str × ℕ)))
    → Holds results es
    → All (λ given. given ≡ results) calls
    → All (λ given. Holds given es) calls
Holds-calls [] results es h same = tt
Holds-calls (given ∷ calls) results es h (here, later) =
    (subst (λ g. Holds g es) (sym here) h, Holds-calls calls results es h later)

-- When the blocks of a compressed file, each with a number of its own within the bounds, have all been
-- registered and every thread has left `on_complete`, in whatever order they took their turns, there
-- were as many as the file has blocks, `on_finish_` was called, and each call was given the result of
-- every block at its number.
pub on_finish-called :
    (n : ℕ) (results : List (Str × ℕ)) (c : Compression) (r : CompressReach (begin n results) c)
    → 0 < n
    → OwnNumbers (entries r)
    → All (λ e. e.0 < length results) (entries r)
    → c.num_pending ≡ 0
    → c.leaving ≡ 0
    → (length (entries r) ≡ n)
      × (0 < length c.finished)
      × All (λ given. Holds given (entries r)) c.finished
unfolding begin
on_finish-called n results c r h own inside none_pending none_leaving =
    let (made, same, over) = reach-Handing (begin n results) c r (begin-Handing n results h) in
    let (long, count, held) = reach-Holds (begin n results) c r own inside in
    let made_one = made none_pending in
    (omega arith, omega arith, Holds-calls c.finished c.results (entries r) held same)

-- Threads enter one after the other and none leaves.
entered :
    (k m : ℕ) (results : List (Str × ℕ))
    → (c : Compression) × CompressReach (begin (k + m) results) c
      × (c.num_pending ≡ m)
      × (c.leaving ≡ k)
      × (c.finished ≡ [])
unfolding begin enter
entered zero m results =
    let all : 0 + m ≡ m = omega arith in (begin (0 + m) results, none_yet _, all, refl, refl)
entered (suc k) m results =
    let (c, r, pending, leaving, finished) = entered k (m + 1) results in
    let start : k + (m + 1) ≡ suc k + m = omega arith in
    (
      enter [] k 0 c,
      then_step _ c _ (subst (λ n. CompressReach (begin n results) c) start r)
          (entering [] k 0 c (omega arith)),
      omega arith,
      omega arith,
      finished,
    )

-- And then all of them leave.
left_all :
    (k : ℕ) (a c : Compression)
    → CompressReach a c
    → c.num_pending ≡ 0
    → c.leaving ≡ k
    → (d : Compression) × CompressReach a d
      × (d.num_pending ≡ 0)
      × (d.leaving ≡ 0)
      × (length d.finished ≡ length c.finished + k)
unfolding leave
left_all zero a c r none_pending leaving = (c, r, none_pending, leaving, omega arith)
left_all (suc k) a c r none_pending leaving =
    let (d, reached, pending, left, calls) =
      left_all k a (leave c) (then_step a c _ r (leaving_lock c (omega arith))) none_pending
        (omega arith) in
    let zero_left : (c.num_pending == 0) ≡ true = ground arith in
    let one_more : length (leave c).finished ≡ length c.finished + 1 =
      rw zero_left (length-append c.finished (c.results ∷ [])) in
    (d, reached, pending, left, omega arith)

-- The counter is read again outside the lock: for any number of blocks there is an order of the
-- threads' turns in which `on_finish_` is called once for each block and not once for the file.
pub on_finish-races :
    (n : ℕ) (results : List (Str × ℕ))
    → (c : Compression) × CompressReach (begin n results) c
      × (c.num_pending ≡ 0)
      × (c.leaving ≡ 0)
      × (length c.finished ≡ n)
on_finish-races n results =
    let (c, r, pending, leaving, none_made) = entered n 0 results in
    let all : n + 0 ≡ n = omega arith in
    let (d, reached, over, left, calls) =
      left_all n (begin n results) c (subst (λ k. CompressReach (begin k results) c) all r) pending
        leaving in
    let zero_made : length c.finished ≡ 0 = ap (λ xs. length xs) none_made in
    (d, reached, over, left, omega arith)
