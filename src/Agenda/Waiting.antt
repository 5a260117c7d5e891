-- ===== src/Agenda/Waiting.antt =====
-- `tasks_` of es3/agenda.h: by the segments that a task needs, then by class, then in the order of
-- scheduling. (No task of the program overrides `ordinal`, so all keys of the innermost multimap
-- are equal.) A class without an entry is one with an empty list.
pub mod Laws
use extreme_s.Prelude.{
  ℕ, ◌+◌, ◌-◌, ◌≤◌, ◌<◌, ◌≡◌, refl, ◌≢◌, inl, inr, ◌⊎◌, Bool, true, false, ◌&&◌, List, [], ◌∷◌,
  ◌++◌, Option, none, some, arith, leb, ltb, ◌==◌, if◌then◌else◌, length, All, is_empty,
  length-append, suc, All-append,
}

-- `task_type_e`
pub data Class : Type 0 where
  unbound cpu_bound io_bound : Class

-- What the agenda knows of a task: `get_class()` and `needs_segments()`, and which task it is.
pub record Job : Type 0 where
  pub task : ℕ
  pub get_class : Class
  pub needs_segments : ℕ

-- The tasks that need one number of segments.
pub record Bucket : Type 0 where
  pub segments : ℕ
  pub unbound_jobs : List Job
  pub cpu_jobs : List Job
  pub io_jobs : List Job

abbrev pub Queue : Type 0
Queue = List Bucket

abbrev pub of_class : Bucket → Class → List Job
of_class b unbound = b.unbound_jobs
of_class b cpu_bound = b.cpu_jobs
of_class b io_bound = b.io_jobs

abbrev pub with_class : Class → List Job → Bucket → Bucket
with_class unbound js b = record b { unbound_jobs = js }
with_class cpu_bound js b = record b { cpu_jobs = js }
with_class io_bound js b = record b { io_jobs = js }

abbrev empty_bucket : ℕ → Bucket
empty_bucket n = record { segments = n; unbound_jobs = []; cpu_jobs = []; io_jobs = [] }

abbrev add_job : Job → Bucket → Bucket
add_job j b = with_class j.get_class (of_class b j.get_class ++ (j ∷ [])) b

-- `tasks_[needs][class].insert(...)`
unfoldable pub enqueue : Job → Queue → Queue
enqueue j [] = add_job j (empty_bucket j.needs_segments) ∷ []
enqueue j (b ∷ q) =
    if b.segments == j.needs_segments
    then add_job j b ∷ q
    else if ltb j.needs_segments b.segments
    then add_job j (empty_bucket j.needs_segments) ∷ b ∷ q
    else b ∷ enqueue j q

-- The jobs of a class in the bucket for `n` segments.
unfoldable pub jobs_of : ℕ → Class → Queue → List Job
jobs_of n c [] = []
jobs_of n c (b ∷ q) = if b.segments == n then of_class b c else jobs_of n c q

abbrev pub tail : List Job → List Job
tail [] = []
tail (j ∷ js) = js

abbrev pub no_jobs : Bucket → Bool
no_jobs b = is_empty b.unbound_jobs && is_empty b.cpu_jobs && is_empty b.io_jobs

-- `task_map.erase(begin)`, and of the maps that are empty then.
pub dequeue : ℕ → Class → Queue → Queue
dequeue n c [] = []
dequeue n c (b ∷ q) =
    let b' = with_class c (tail (of_class b c)) b in
    if b.segments == n then (if no_jobs b' then q else b' ∷ q) else b ∷ dequeue n c q

unfoldable pub last_segments : ℕ → Queue → ℕ
last_segments n [] = n
last_segments n (b ∷ q) = last_segments b.segments q

-- The bucket with the greatest need if that fits, else the one with the least if that fits.
unfoldable pub pick : ℕ → Queue → Option ℕ
unfolding last_segments
pick avail [] = none
pick avail (b ∷ q) =
    if leb (last_segments b.segments q) avail
    then some (last_segments b.segments q)
    else if leb b.segments avail
    then some b.segments
    else none

-- How many jobs wait.
abbrev pub bucket_size : Bucket → ℕ
bucket_size b = length b.unbound_jobs + length b.cpu_jobs + length b.io_jobs

pub queue_size : Queue → ℕ
queue_size [] = 0
queue_size (b ∷ q) = bucket_size b + queue_size q

-- Every waiting job stands under its class and its need.
abbrev pub Placed : ℕ → Class → Job → Type 0
Placed n c j = (j.get_class ≡ c) × (j.needs_segments ≡ n)

pub record IsPlaced (b : Bucket) : Type 0 where
  pub unbound_placed : All (Placed b.segments unbound) b.unbound_jobs
  pub cpu_placed : All (Placed b.segments cpu_bound) b.cpu_jobs
  pub io_placed : All (Placed b.segments io_bound) b.io_jobs

abbrev pub AllPlaced : Queue → Type 0
AllPlaced = All IsPlaced
