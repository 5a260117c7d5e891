-- ===== src/Agenda/Progress.antt =====
-- When a thread that asks for work does not wait.
use extreme_s.Prelude.{
  ℕ, ◌-◌, ◌<◌, ◌≤◌, ◌≡◌, ◌≢◌, refl, inl, inr, ◌⊎◌, List, [], ◌∷◌, ◌++◌, Option, none, some, arith,
  ◌==◌, if◌then◌else◌, subst, All, ◌∙◌,
}
use extreme_s.Agenda.{
  Agenda, at_class, taken, try_class, or_else, finished, waits, claimed, Claim, claim_from,
  claim_task,
}
use extreme_s.Agenda.Waiting.{
  Class, unbound, cpu_bound, io_bound, Job, Bucket, Queue, of_class, jobs_of, last_segments, pick,
}
use extreme_s.Agenda.Waiting.Laws.{pick-nil}

try_class-some :
    (c : Class) (n k : ℕ) (a : Agenda) (j : Job) (js : List Job)
    → pick (a.max_segments_in_flight - a.segments_in_flight) a.tasks ≡ some n
    → jobs_of n c a.tasks ≡ j ∷ js
    → at_class a.classes c ≡ some k
    → k < at_class a.class_limits c
    → try_class c a ≡ some (j, taken c n a)
unfolding try_class taken
try_class-some c n k a j js p w e l = simp (e, p, w) (ground arith)

or_else-some : (x y : Option (Job × Agenda)) → (x ≢ none) ⊎ (y ≢ none) → or_else x y ≢ none
unfolding or_else
or_else-some none y (inl h) = absurd (h refl)
or_else-some none y (inr h) = h
or_else-some (some r) y h = λ e. cc

abbrev IsClaimed : Claim → Type 0
IsClaimed r = (j : Job) × (a : Agenda) × (r ≡ claimed j a)

claim_from-IsClaimed : (o : Option (Job × Agenda)) → o ≢ none → IsClaimed (claim_from o)
unfolding claim_from
claim_from-IsClaimed none h = absurd (h refl)
claim_from-IsClaimed (some (j, a)) h = (j, a, refl)

claim_task-picked :
    (c : Class) (n k : ℕ) (a : Agenda) (j : Job) (js : List Job)
    → pick (a.max_segments_in_flight - a.segments_in_flight) a.tasks ≡ some n
    → jobs_of n c a.tasks ≡ j ∷ js
    → at_class a.classes c ≡ some k
    → k < at_class a.class_limits c
    → IsClaimed (claim_task a)
unfolding claim_task
claim_task-picked c n k a j js p w e l = by_queue a.tasks refl
  where
    found : try_class c a ≢ none
    found = λ g. cc (try_class-some c n k a j js p w e l)

    any_class :
        (d : Class)
        → try_class d a ≢ none
        → or_else (try_class unbound a) (or_else (try_class cpu_bound a) (try_class io_bound a))
          ≢ none
    any_class unbound h = or_else-some _ _ (inl h)
    any_class cpu_bound h = or_else-some _ _ (inr (or_else-some _ _ (inl h)))
    any_class io_bound h = or_else-some _ _ (inr (or_else-some _ _ (inr h)))

    by_queue :
        (q : Queue)
        → a.tasks ≡ q
        → IsClaimed (elim q [
          | [] ↦ if a.num_working == 0 then finished else waits
          | b ∷ bs ↦ claim_from (
              or_else
                (try_class unbound a)
                (or_else (try_class cpu_bound a) (try_class io_bound a)))
        ])
    by_queue [] g = absurd (
        pick-nil _
          (subst (λ r. pick (a.max_segments_in_flight - a.segments_in_flight) r ≡ some n) g p))
    by_queue (b ∷ bs) g = claim_from-IsClaimed _ (any_class c found)

-- The job is the first of its class in the bucket with the greatest need, which fits.
pub record AtGreatest (free : ℕ) (c : Class) (j : Job) (q : Queue) : Type 0 where
  pub before : List Bucket
  pub greatest : Bucket
  pub others : List Job
  pub queue : q ≡ before ++ (greatest ∷ [])
  pub least_need : All (λ (b : Bucket). b.segments < greatest.segments) before
  pub fits : greatest.segments ≤ free
  pub waiting : of_class greatest c ≡ j ∷ others

-- The job is the first of its class in the bucket with the least need, which fits, and the greatest
-- one does not.
pub record AtLeast (free : ℕ) (c : Class) (j : Job) (q : Queue) : Type 0 where
  pub least : Bucket
  pub between : List Bucket
  pub greatest : Bucket
  pub others : List Job
  pub queue : q ≡ least ∷ (between ++ (greatest ∷ []))
  pub too_large : free < greatest.segments
  pub fits : least.segments ≤ free
  pub waiting : of_class least c ≡ j ∷ others

last_segments-last :
    (n : ℕ) (bs : List Bucket) (g : Bucket) → last_segments n (bs ++ (g ∷ [])) ≡ g.segments
unfolding last_segments
last_segments-last n [] g = refl
last_segments-last n (b ∷ bs) g = last_segments-last b.segments bs g

pick-greatest :
    (free : ℕ) (bs : List Bucket) (g : Bucket)
    → g.segments ≤ free
    → pick free (bs ++ (g ∷ [])) ≡ some g.segments
unfolding pick last_segments
pick-greatest free [] g h = ground arith
pick-greatest free (b ∷ bs) g h = ground (arith, last_segments-last b.segments bs g)

pick-least :
    (free : ℕ) (b : Bucket) (bs : List Bucket) (g : Bucket)
    → free < g.segments
    → b.segments ≤ free
    → pick free (b ∷ (bs ++ (g ∷ []))) ≡ some b.segments
unfolding pick
pick-least free b bs g h l = ground (arith, last_segments-last b.segments bs g)

jobs_of-greatest :
    (c : Class) (bs : List Bucket) (g : Bucket)
    → All (λ (b : Bucket). b.segments < g.segments) bs
    → jobs_of g.segments c (bs ++ (g ∷ [])) ≡ of_class g c
unfolding jobs_of
jobs_of-greatest c [] g h = ground arith
jobs_of-greatest c (b ∷ bs) g (here, later) = ground (arith, jobs_of-greatest c bs g later)

jobs_of-first : (c : Class) (b : Bucket) (q : Queue) → jobs_of b.segments c (b ∷ q) ≡ of_class b c
unfolding jobs_of
jobs_of-first c b q = ground arith

-- A thread that asks for work gets a task whenever one of a class below its limit waits where the
-- code looks: among those with the greatest need of segments if that fits into the free ones, else
-- among those with the least need if that fits.
pub claim_task-IsClaimed :
    (c : Class) (k : ℕ) (a : Agenda) (j : Job)
    → AtGreatest (a.max_segments_in_flight - a.segments_in_flight) c j a.tasks
      ⊎ AtLeast (a.max_segments_in_flight - a.segments_in_flight) c j a.tasks
    → at_class a.classes c ≡ some k
    → k < at_class a.class_limits c
    → (i : Job) × (a' : Agenda) × (claim_task a ≡ claimed i a')
claim_task-IsClaimed c k a j (inl w) e l =
    claim_task-picked c w.greatest.segments k a j w.others
      (rw w.queue (pick-greatest _ w.before w.greatest w.fits))
      (rw w.queue (jobs_of-greatest c w.before w.greatest w.least_need ∙ w.waiting)) e l
claim_task-IsClaimed c k a j (inr w) e l =
    claim_task-picked c w.least.segments k a j w.others
      (rw w.queue (pick-least _ w.least w.between w.greatest w.too_large w.fits))
      (rw w.queue (jobs_of-first c w.least (w.between ++ (w.greatest ∷ [])) ∙ w.waiting)) e l
