-- ===== src/Agenda/System/Keeps.antt =====
-- Each step keeps the facts.
use extreme_s.Prelude.{
  ℕ, ◌+◌, ◌≤◌, ◌<◌, ◌≡◌, refl, subst, sym, ap, Bool, true, false, List, ◌∷◌, ◌++◌, arith,
  if◌then◌else◌, length,
}
use extreme_s.Agenda.{
  Agenda, at_class, working_in, schedule, get_segments, taken, cleanup, release_segment,
}
use extreme_s.Agenda.Waiting.{Class, Job, queue_size, dequeue}
use extreme_s.Agenda.Waiting.Laws.{
  enqueue-AllPlaced, dequeue-AllPlaced, jobs_of-Placed, queue_size-enqueue, queue_size-dequeue,
}
use extreme_s.Agenda.System.Claims.{Took, took}
use extreme_s.Agenda.System.{System, running_in}
use extreme_s.Agenda.System.Facts.{Inv, running_in-middle, length-middle, Counts, Limited}
use extreme_s.Agenda.System.Counted.{
  OneMore, rewritten-Counts, rewritten-Limited, counted-Counts, counted-Limited, discounted-Counts,
  discounted-Limited,
}

front-OneMore : (j : Job) (js : List Job) → OneMore j.get_class (j ∷ js) js
unfolding running_in
front-OneMore j js d = refl

middle-OneMore :
    (xs ys : List Job) (j : Job) {js : List Job}
    → js ≡ xs ++ (j ∷ ys)
    → OneMore j.get_class js (xs ++ ys)
middle-OneMore xs ys j e d = rw e (running_in-middle d xs ys j)

failed_or_not :
    (b : Bool) {num_failed num_done : ℕ}
    → num_failed ≤ num_done
    → (if b then num_failed + 1 else num_failed) ≤ num_done + 1
failed_or_not true h = omega arith
failed_or_not false h = omega arith

module _ (s : System) (v : Inv s) where
  counts : Counts s.agenda.classes s.running
  counts = (v.unbound_running, v.cpu_running, v.io_running)

  limited : Limited s.agenda.classes s.agenda
  limited = (v.unbound_limit, v.cpu_limit, v.io_limit)

  pub schedule-Inv : (j : Job) → Inv (record s { agenda = schedule j s.agenda })
  unfolding schedule
  schedule-Inv j =
      let c = rewritten-Counts j.get_class s.agenda s.running counts in
      let l = rewritten-Limited j.get_class s.agenda limited in
      record {
        working = v.working;
        unbound_running = c.0;
        cpu_running = c.1;
        io_running = c.2;
        unbound_limit = l.0;
        cpu_limit = l.1;
        io_limit = l.2;
        segments = v.segments;
        placed = enqueue-AllPlaced j s.agenda.tasks v.placed;
        conserved = omega (arith, v.conserved, queue_size-enqueue j s.agenda.tasks);
        failures = v.failures;
      }

  -- What the choice of the job has established.
  taken-Inv :
      (c : Class) (n : ℕ) (j : Job)
      → j.get_class ≡ c
      → working_in s.agenda c < at_class s.agenda.class_limits c
      → s.agenda.segments_in_flight + n ≤ s.agenda.max_segments_in_flight
      → queue_size (dequeue n c s.agenda.tasks) + 1 ≡ queue_size s.agenda.tasks
      → Inv (record { agenda = taken c n s.agenda; running = j ∷ s.running })
  unfolding taken get_segments
  taken-Inv d n j of free fits less =
      let one : OneMore d (j ∷ s.running) s.running =
        subst (λ k. OneMore k (j ∷ s.running) s.running) of (front-OneMore j s.running) in
      let c = counted-Counts d s.agenda (j ∷ s.running) s.running one counts in
      let l = counted-Limited d s.agenda free limited in
      record {
        working = omega (arith, v.working);
        unbound_running = c.0;
        cpu_running = c.1;
        io_running = c.2;
        unbound_limit = l.0;
        cpu_limit = l.1;
        io_limit = l.2;
        segments = omega (arith, v.segments);
        placed = dequeue-AllPlaced n d s.agenda.tasks v.placed;
        conserved = omega (arith, v.conserved);
        failures = v.failures;
      }

  pub claim-Inv :
      (j : Job) (a : Agenda)
      → Took s.agenda j a
      → Inv (record { agenda = a; running = j ∷ s.running })
  claim-Inv j a (took c n js free fits there e) =
      subst (λ b. Inv (record { agenda = b; running = j ∷ s.running })) (sym e)
        (taken-Inv c n j (jobs_of-Placed n c s.agenda.tasks v.placed there).0 free (omega arith)
          (queue_size-dequeue n c s.agenda.tasks there))

  pub cleanup-Inv :
      (xs ys : List Job) (j : Job) (failed : Bool)
      → s.running ≡ xs ++ (j ∷ ys)
      → Inv (record { agenda = cleanup j failed s.agenda; running = xs ++ ys })
  unfolding cleanup
  cleanup-Inv xs ys j failed e =
      let c =
        discounted-Counts j.get_class s.agenda s.running (xs ++ ys) (middle-OneMore xs ys j e)
          counts in
      let l = discounted-Limited j.get_class s.agenda limited in
      record {
        working = omega (arith, v.working, ap length e, length-middle xs ys j);
        unbound_running = c.0;
        cpu_running = c.1;
        io_running = c.2;
        unbound_limit = l.0;
        cpu_limit = l.1;
        io_limit = l.2;
        segments = v.segments;
        placed = v.placed;
        conserved = omega (arith, v.conserved, v.working, ap length e, length-middle xs ys j);
        failures = failed_or_not failed v.failures;
      }

  pub release-Inv : Inv (record s { agenda = release_segment s.agenda })
  unfolding release_segment
  release-Inv = record {
    working = v.working;
    unbound_running = v.unbound_running;
    cpu_running = v.cpu_running;
    io_running = v.io_running;
    unbound_limit = v.unbound_limit;
    cpu_limit = v.cpu_limit;
    io_limit = v.io_limit;
    segments = omega (arith, v.segments);
    placed = v.placed;
    conserved = v.conserved;
    failures = v.failures;
  }
