-- ===== src/Agenda/System.antt =====
-- The agenda with the jobs that its threads run, as a system of interleaved steps.
pub mod Claims
pub mod Facts
pub mod Counted
pub mod Keeps
pub mod Invariant
use extreme_s.Prelude.{ℕ, ◌+◌, ◌<◌, ◌≡◌, Bool, List, [], ◌∷◌, ◌++◌, if◌then◌else◌, true, false}
use extreme_s.Agenda.{Agenda, create, schedule, claim_task, claimed, cleanup, release_segment}
use extreme_s.Agenda.Waiting.{Class, unbound, cpu_bound, io_bound, Job}

pub record System : Type 0 where
  pub agenda : Agenda
  pub running : List Job

-- Any thread may schedule a task at any time, claim one, or be done with one; a segment is given
-- back when its last holder lets it go.
pub data Step (s : System) : System → Type 0 where
  scheduled : (j : Job) → Step s (record s { agenda = schedule j s.agenda })
  claims :
      (j : Job) (a : Agenda)
      → claim_task s.agenda ≡ claimed j a
      → Step s (record { agenda = a; running = j ∷ s.running })
  cleaned :
      (xs ys : List Job) (j : Job) (failed : Bool)
      → s.running ≡ xs ++ (j ∷ ys)
      → Step s (record { agenda = cleanup j failed s.agenda; running = xs ++ ys })
  released :
      0 < s.agenda.segments_in_flight → Step s (record s { agenda = release_segment s.agenda })

pub data Reach (s : System) : System → Type 0 where
  here : Reach s s
  next : {t u : System} → Reach s t → Step t u → Reach s u

-- How many running jobs are of a class.
abbrev pub same_class : Class → Class → Bool
same_class unbound unbound = true
same_class cpu_bound cpu_bound = true
same_class io_bound io_bound = true
same_class _ _ = false

pub running_in : Class → List Job → ℕ
running_in c [] = 0
running_in c (j ∷ js) = (if same_class c j.get_class then 1 else 0) + running_in c js

unfoldable pub start : Agenda → System
start a = record { agenda = a; running = [] }
