-- ===== src/Agenda.antt =====
-- es3/agenda.h and es3/agenda.cpp: the queue of tasks, and what its threads do under its lock.
-- A block that holds the mutex `m_` is one function on the state; waiting is a result of its own.
pub mod Waiting
pub mod System
pub mod Progress
pub mod Retry
mod Tests
use extreme_s.Prelude.{
  ℕ, ◌+◌, ◌-◌, ◌≡◌, Bool, true, false, List, [], ◌∷◌, Option, none, some, leb, ltb, ◌==◌,
  if◌then◌else◌,
}
use Waiting.{
  Class, unbound, cpu_bound, io_bound, Job, Bucket, Queue, jobs_of, enqueue, dequeue, pick,
}

-- One number for each class. In `classes_` a class has an entry once a task of it was scheduled.
pub record ByClass {ℓ} (A : Type ℓ) : Type ℓ where
  pub unbound_of : A
  pub cpu_of : A
  pub io_of : A

abbrev pub at_class {ℓ} : {A : Type ℓ} → ByClass A → Class → A
at_class m unbound = m.unbound_of
at_class m cpu_bound = m.cpu_of
at_class m io_bound = m.io_of

abbrev pub set_class {ℓ} : {A : Type ℓ} → Class → A → ByClass A → ByClass A
set_class unbound a m = record m { unbound_of = a }
set_class cpu_bound a m = record m { cpu_of = a }
set_class io_bound a m = record m { io_of = a }

-- The members of `agenda` that its threads read and write.
pub record Agenda : Type 0 where
  pub class_limits : ByClass ℕ
  pub max_segments_in_flight : ℕ
  pub segment_size : ℕ
  pub tasks : Queue
  pub classes : ByClass (Option ℕ)
  pub num_working : ℕ
  pub segments_in_flight : ℕ
  pub num_submitted : ℕ
  pub num_done : ℕ
  pub num_failed : ℕ

abbrev pub count_or_zero : Option ℕ → ℕ
count_or_zero none = 0
count_or_zero (some n) = n

-- `classes_[c]`
abbrev pub working_in : Agenda → Class → ℕ
working_in a c = count_or_zero (at_class a.classes c)

-- The constructor; the clock and the quiet flags are left out.
unfoldable pub create : ℕ → ℕ → ℕ → ℕ → ℕ → Agenda
create num_unbound num_cpu_bound num_io_bound segment_size max_segments = record {
  class_limits = record { unbound_of = num_unbound; cpu_of = num_cpu_bound; io_of = num_io_bound };
  max_segments_in_flight = max_segments;
  segment_size = segment_size;
  tasks = [];
  classes = record { unbound_of = none; cpu_of = none; io_of = none };
  num_working = 0;
  segments_in_flight = 0;
  num_submitted = 0;
  num_done = 0;
  num_failed = 0;
}

-- `agenda::schedule`
pub schedule : Job → Agenda → Agenda
schedule j a = record a {
  classes = set_class j.get_class (some (working_in a j.get_class)) a.classes;
  tasks = enqueue j a.tasks;
  num_submitted = a.num_submitted + 1;
}

-- `agenda::get_segments`
get_segments : ℕ → Agenda → Agenda
get_segments num a = record a { segments_in_flight = a.segments_in_flight + num }

-- The state once a job of the class was taken from the bucket.
pub taken : Class → ℕ → Agenda → Agenda
unfolding get_segments
taken c needed a = get_segments needed (record a {
  tasks = dequeue needed c a.tasks;
  num_working = a.num_working + 1;
  classes = set_class c (some (working_in a c + 1)) a.classes;
})

-- The end of a round of the loop over classes: the first job of the class in the bucket, if any.
take_job : Class → ℕ → List Job → Agenda → Option (Job × Agenda)
take_job c needed [] a = none
take_job c needed (j ∷ js) a = some (j, taken c needed a)

from_bucket : Class → Option ℕ → Agenda → Option (Job × Agenda)
unfolding take_job
from_bucket c none a = none
from_bucket c (some needed) a = take_job c needed (jobs_of needed c a.tasks) a

-- One round of the loop over `classes_`.
try_class : Class → Agenda → Option (Job × Agenda)
unfolding from_bucket
try_class c a = elim (at_class a.classes c) [
  | none ↦ none
  | some cur_num ↦
      if leb (at_class a.class_limits c) cur_num
      then none
      else from_bucket c (pick (a.max_segments_in_flight - a.segments_in_flight) a.tasks) a
]

or_else : Option (Job × Agenda) → Option (Job × Agenda) → Option (Job × Agenda)
or_else none later = later
or_else (some r) later = some r

-- What `claim_task` comes to while it holds the lock: no more work, a wait, or a claimed job.
pub data Claim : Type 0 where
  finished : Claim
  waits : Claim
  claimed : Job → Agenda → Claim

claim_from : Option (Job × Agenda) → Claim
claim_from none = waits
claim_from (some (j, a)) = claimed j a

pub claim_task : Agenda → Claim
unfolding try_class or_else claim_from
claim_task a = elim a.tasks [
  | [] ↦ if a.num_working == 0 then finished else waits
  | b ∷ bs ↦
      claim_from
        (or_else (try_class unbound a) (or_else (try_class cpu_bound a) (try_class io_bound a)))
]

-- `task_executor::cleanup`
pub cleanup : Job → Bool → Agenda → Agenda
cleanup j failed a = record a {
  num_working = a.num_working - 1;
  classes = set_class j.get_class (some (working_in a j.get_class - 1)) a.classes;
  num_done = a.num_done + 1;
  num_failed = if failed then a.num_failed + 1 else a.num_failed;
}

-- `segment_deleter::operator()`
pub release_segment : Agenda → Agenda
release_segment a = record a { segments_in_flight = a.segments_in_flight - 1 }
