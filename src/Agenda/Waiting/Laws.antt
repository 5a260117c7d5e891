-- ===== src/Agenda/Waiting/Laws.antt =====
-- What putting in and taking out does to the queue: its size, and where jobs stand.
use extreme_s.Prelude.{
  ℕ, ◌+◌, ◌≤◌, ◌≡◌, some, refl, subst, ap, inl, inr, Bool, true, false, List, [], ◌∷◌, ◌++◌, arith,
  ltb, ◌==◌, ==_iff, if◌then◌else◌, length, All, length-append, All-append, Bool-cases,
}
use extreme_s.Agenda.Waiting.{
  Class, unbound, cpu_bound, io_bound, Job, Bucket, Queue, of_class, with_class, empty_bucket,
  add_job, enqueue, jobs_of, tail, no_jobs, pick, dequeue, bucket_size, queue_size, Placed,
  IsPlaced, AllPlaced,
}

add_job-size : (j : Job) (b : Bucket) → bucket_size (add_job j b) ≡ bucket_size b + 1
add_job-size j b = by_class j.get_class
  where
    by_class :
        (c : Class) → bucket_size (with_class c (of_class b c ++ (j ∷ [])) b) ≡ bucket_size b + 1
    by_class unbound = omega (arith, length-append b.unbound_jobs (j ∷ []))
    by_class cpu_bound = omega (arith, length-append b.cpu_jobs (j ∷ []))
    by_class io_bound = omega (arith, length-append b.io_jobs (j ∷ []))

pub queue_size-enqueue : (j : Job) (q : Queue) → queue_size (enqueue j q) ≡ queue_size q + 1
unfolding queue_size enqueue
queue_size-enqueue j [] = omega (arith, add_job-size j (empty_bucket j.needs_segments))
queue_size-enqueue j (b ∷ q) = ground (
  arith,
  add_job-size j b,
  add_job-size j (empty_bucket j.needs_segments),
  queue_size-enqueue j q,
)

add_job-IsPlaced :
    (j : Job) (b : Bucket) → b.segments ≡ j.needs_segments → IsPlaced b → IsPlaced (add_job j b)
add_job-IsPlaced j b e h = by_class j.get_class refl
  where
    by_class : (c : Class) → j.get_class ≡ c → IsPlaced (with_class c (of_class b c ++ (j ∷ [])) b)
    by_class unbound k = record {
      unbound_placed = All-append _ b.unbound_jobs (j ∷ []) h.unbound_placed ((k, omega arith), tt);
      cpu_placed = h.cpu_placed;
      io_placed = h.io_placed;
    }
    by_class cpu_bound k = record {
      unbound_placed = h.unbound_placed;
      cpu_placed = All-append _ b.cpu_jobs (j ∷ []) h.cpu_placed ((k, omega arith), tt);
      io_placed = h.io_placed;
    }
    by_class io_bound k = record {
      unbound_placed = h.unbound_placed;
      cpu_placed = h.cpu_placed;
      io_placed = All-append _ b.io_jobs (j ∷ []) h.io_placed ((k, omega arith), tt);
    }

empty-IsPlaced : (n : ℕ) → IsPlaced (empty_bucket n)
empty-IsPlaced n = record { unbound_placed = tt; cpu_placed = tt; io_placed = tt }

pub enqueue-AllPlaced : (j : Job) (q : Queue) → AllPlaced q → AllPlaced (enqueue j q)
unfolding enqueue
enqueue-AllPlaced j [] h =
    (add_job-IsPlaced j (empty_bucket j.needs_segments) refl (empty-IsPlaced j.needs_segments), tt)
enqueue-AllPlaced j (b ∷ q) (here, later) = elim (Bool-cases (b.segments == j.needs_segments)) [
  | inl e ↦ rw e ((add_job-IsPlaced j b ((==_iff _ _).0 e) here, later))
  | inr e ↦ rw e (elim (Bool-cases (ltb j.needs_segments b.segments)) [
    | inl g ↦ rw g (
      add_job-IsPlaced j (empty_bucket j.needs_segments) refl (empty-IsPlaced j.needs_segments),
      (here, later),
    )
    | inr g ↦ rw g ((here, enqueue-AllPlaced j q later))
  ])
]

All-tail : (P : Job → Type 0) (js : List Job) → All P js → All P (tail js)
All-tail P [] h = tt
All-tail P (j ∷ js) h = h.1

tail-IsPlaced :
    (c : Class) (b : Bucket) → IsPlaced b → IsPlaced (with_class c (tail (of_class b c)) b)
tail-IsPlaced unbound b h = record {
  unbound_placed = All-tail _ b.unbound_jobs h.unbound_placed;
  cpu_placed = h.cpu_placed;
  io_placed = h.io_placed;
}
tail-IsPlaced cpu_bound b h = record {
  unbound_placed = h.unbound_placed;
  cpu_placed = All-tail _ b.cpu_jobs h.cpu_placed;
  io_placed = h.io_placed;
}
tail-IsPlaced io_bound b h = record {
  unbound_placed = h.unbound_placed;
  cpu_placed = h.cpu_placed;
  io_placed = All-tail _ b.io_jobs h.io_placed;
}

pub dequeue-AllPlaced : (n : ℕ) (c : Class) (q : Queue) → AllPlaced q → AllPlaced (dequeue n c q)
unfolding dequeue
dequeue-AllPlaced n c [] h = tt
dequeue-AllPlaced n c (b ∷ q) (here, later) = elim (Bool-cases (b.segments == n)) [
  | inl e ↦ rw e (kept (no_jobs (with_class c (tail (of_class b c)) b)))
  | inr e ↦ rw e ((here, dequeue-AllPlaced n c q later))
]
  where
    kept : (gone : Bool) → AllPlaced (if gone then q else with_class c (tail (of_class b c)) b ∷ q)
    kept true = later
    kept false = (tail-IsPlaced c b here, later)

-- A job that waits under a class and a need has that class and that need.
first-Placed :
    (c : Class) (b : Bucket) {j : Job} {js : List Job}
    → IsPlaced b
    → of_class b c ≡ j ∷ js
    → Placed b.segments c j
first-Placed unbound b h e = (subst (All (Placed b.segments unbound)) e h.unbound_placed).0
first-Placed cpu_bound b h e = (subst (All (Placed b.segments cpu_bound)) e h.cpu_placed).0
first-Placed io_bound b h e = (subst (All (Placed b.segments io_bound)) e h.io_placed).0

pub jobs_of-Placed :
    (n : ℕ) (c : Class) (q : Queue) {j : Job} {js : List Job}
    → AllPlaced q
    → jobs_of n c q ≡ j ∷ js
    → Placed n c j
unfolding jobs_of
jobs_of-Placed n c [] h e = cc
jobs_of-Placed n c (b ∷ q) {j} (here, later) e = elim (Bool-cases (b.segments == n)) [
  | inl g ↦ subst (λ k. Placed k c j) ((==_iff _ _).0 g) (first-Placed c b here (rw g at e))
  | inr g ↦ jobs_of-Placed n c q later (rw g at e)
]

empty_size : (b : Bucket) → no_jobs b ≡ true → bucket_size b ≡ 0
empty_size b h = ground arith

tail_size :
    (c : Class) (b : Bucket) {j : Job} {js : List Job}
    → of_class b c ≡ j ∷ js
    → bucket_size (with_class c (tail (of_class b c)) b) + 1 ≡ bucket_size b
tail_size unbound b e = rw e (omega (arith, ap length e))
tail_size cpu_bound b e = rw e (omega (arith, ap length e))
tail_size io_bound b e = rw e (omega (arith, ap length e))

pub queue_size-dequeue :
    (n : ℕ) (c : Class) (q : Queue) {j : Job} {js : List Job}
    → jobs_of n c q ≡ j ∷ js
    → queue_size (dequeue n c q) + 1 ≡ queue_size q
unfolding queue_size dequeue jobs_of
queue_size-dequeue n c [] e = cc
queue_size-dequeue n c (b ∷ q) e = elim (Bool-cases (b.segments == n)) [
  | inl g ↦
      rw g (kept (no_jobs (with_class c (tail (of_class b c)) b)) refl (tail_size c b (rw g at e)))
  | inr g ↦ rw g (omega (arith, queue_size-dequeue n c q (rw g at e)))
]
  where
    kept :
        (gone : Bool)
        → no_jobs (with_class c (tail (of_class b c)) b) ≡ gone
        → bucket_size (with_class c (tail (of_class b c)) b) + 1 ≡ bucket_size b
        → queue_size (if gone then q else with_class c (tail (of_class b c)) b ∷ q) + 1
          ≡ bucket_size b + queue_size q
    kept true z t = omega (arith, empty_size (with_class c (tail (of_class b c)) b) z)
    kept false z t = omega arith

-- A bucket is picked only if its need fits.
pub pick-le : (avail : ℕ) (q : Queue) {n : ℕ} → pick avail q ≡ some n → n ≤ avail
unfolding pick
pick-le avail [] e = cc
pick-le avail (b ∷ q) e = ground arith

pub queue_size-nil : queue_size [] ≡ 0
unfolding queue_size
queue_size-nil = refl

pub pick-nil : (avail : ℕ) {n : ℕ} → pick avail [] ≡ some n → ⊥
unfolding pick
pick-nil avail e = cc
