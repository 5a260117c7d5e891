-- ===== src/Agenda/System/Facts.antt =====
-- The facts that the invariant of the agenda consists of.
use extreme_s.Prelude.{
  ℕ, ◌+◌, ◌≤◌, ◌≡◌, refl, Bool, List, [], ◌∷◌, ◌++◌, Option, arith, if◌then◌else◌, length,
}
use extreme_s.Agenda.{Agenda, ByClass, count_or_zero, working_in}
use extreme_s.Agenda.Waiting.{Class, unbound, cpu_bound, io_bound, Job, queue_size, AllPlaced}
use extreme_s.Agenda.System.{System, same_class, running_in}

-- The facts that every reachable state has.
pub record Inv (s : System) : Type 0 where
  pub working : s.agenda.num_working ≡ length s.running
  pub unbound_running : working_in s.agenda unbound ≡ running_in unbound s.running
  pub cpu_running : working_in s.agenda cpu_bound ≡ running_in cpu_bound s.running
  pub io_running : working_in s.agenda io_bound ≡ running_in io_bound s.running
  pub unbound_limit : working_in s.agenda unbound ≤ s.agenda.class_limits.unbound_of
  pub cpu_limit : working_in s.agenda cpu_bound ≤ s.agenda.class_limits.cpu_of
  pub io_limit : working_in s.agenda io_bound ≤ s.agenda.class_limits.io_of
  pub segments : s.agenda.segments_in_flight ≤ s.agenda.max_segments_in_flight
  pub placed : AllPlaced s.agenda.tasks
  pub conserved :
      s.agenda.num_submitted ≡ s.agenda.num_done + s.agenda.num_working + queue_size s.agenda.tasks
  pub failures : s.agenda.num_failed ≤ s.agenda.num_done

abbrev pub one_if : Bool → ℕ
one_if b = if b then 1 else 0

pub running_in-middle :
    (d : Class) (xs ys : List Job) (j : Job)
    → running_in d (xs ++ (j ∷ ys)) ≡ one_if (same_class d j.get_class) + running_in d (xs ++ ys)
unfolding running_in
running_in-middle d [] ys j = refl
running_in-middle d (x ∷ xs) ys j = omega (arith, running_in-middle d xs ys j)

pub length-middle : (xs ys : List Job) (j : Job) → length (xs ++ (j ∷ ys)) ≡ length (xs ++ ys) + 1
length-middle [] ys j = omega arith
length-middle (x ∷ xs) ys j = omega (arith, length-middle xs ys j)

-- How a class entry of the new map counts.
abbrev pub Counts : ByClass (Option ℕ) → List Job → Type 0
Counts m js =
    (count_or_zero m.unbound_of ≡ running_in unbound js)
    × (count_or_zero m.cpu_of ≡ running_in cpu_bound js)
    × (count_or_zero m.io_of ≡ running_in io_bound js)

abbrev pub Limited : ByClass (Option ℕ) → Agenda → Type 0
Limited m a =
    (count_or_zero m.unbound_of ≤ a.class_limits.unbound_of)
    × (count_or_zero m.cpu_of ≤ a.class_limits.cpu_of)
    × (count_or_zero m.io_of ≤ a.class_limits.io_of)
