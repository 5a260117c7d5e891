-- ===== src/Agenda/System/Invariant.antt =====
-- What holds of the agenda after every sequence of steps.
use extreme_s.Prelude.{ℕ, ◌+◌, ◌<◌, ◌≡◌, refl, subst, sym, ap, List, ◌∷◌, ◌++◌, arith}
use extreme_s.Agenda.{working_in, create}
use extreme_s.Agenda.Waiting.{Class, unbound, cpu_bound, io_bound, Job}
use extreme_s.Agenda.Waiting.Laws.{queue_size-nil}
use extreme_s.Agenda.System.Claims.{claim_task-Took}
use extreme_s.Agenda.System.{
  System, Step, scheduled, claims, cleaned, released, Reach, here, next, same_class, running_in,
  start,
}
use extreme_s.Agenda.System.Facts.{Inv, one_if, running_in-middle}
use extreme_s.Agenda.System.Keeps.{schedule-Inv, claim-Inv, cleanup-Inv, release-Inv}

Step-Inv : {s t : System} → Inv s → Step s t → Inv t
Step-Inv {s} v (scheduled j) = schedule-Inv s v j
Step-Inv {s} v (claims j a e) = claim-Inv s v j a (claim_task-Took s.agenda e)
Step-Inv {s} v (cleaned xs ys j failed e) = cleanup-Inv s v xs ys j failed e
Step-Inv {s} v (released h) = release-Inv s v

create-Inv : (u c i size most : ℕ) → Inv (start (create u c i size most))
unfolding start create running_in
create-Inv u c i size most = record {
  working = refl;
  unbound_running = refl;
  cpu_running = refl;
  io_running = refl;
  unbound_limit = omega arith;
  cpu_limit = omega arith;
  io_limit = omega arith;
  segments = omega arith;
  placed = tt;
  conserved = omega (arith, queue_size-nil);
  failures = omega arith;
}

Reach-Inv : {s t : System} → Inv s → Reach s t → Inv t
Reach-Inv v here = v
Reach-Inv v (next r st) = Step-Inv (Reach-Inv v r) st

-- However the threads interleave, no class has more tasks running than its limit, the counters
-- agree with what runs, no more segments are out than allowed, the tasks that were
-- submitted are as many as those that are done, run or wait, and no more have failed than are done.
pub Reach-create-Inv :
    (u c i size most : ℕ) {t : System} → Reach (start (create u c i size most)) t → Inv t
Reach-create-Inv u c i size most r = Reach-Inv (create-Inv u c i size most) r

-- The assertion of `cleanup` holds: the class of a task that a thread is done with is not at zero.
pub cleanup_assert :
    (u c i size most : ℕ) {t : System} (xs ys : List Job) (j : Job)
    → Reach (start (create u c i size most)) t
    → t.running ≡ xs ++ (j ∷ ys)
    → 0 < working_in t.agenda j.get_class
cleanup_assert u c i size most {t} xs ys j r e = lower j.get_class refl
  where
    v : Inv t
    v = Reach-create-Inv u c i size most r

    before :
        (k : Class)
        → running_in k t.running ≡ one_if (same_class k j.get_class) + running_in k (xs ++ ys)
    before k = rw e (running_in-middle k xs ys j)

    same :
        (k : Class) → j.get_class ≡ k → one_if (same_class k j.get_class) ≡ one_if (same_class k k)
    same k g = ap (λ c. one_if (same_class k c)) g

    by_class : (k : Class) → j.get_class ≡ k → 0 < working_in t.agenda k
    by_class unbound g = omega (arith, v.unbound_running, before unbound, same unbound g)
    by_class cpu_bound g = omega (arith, v.cpu_running, before cpu_bound, same cpu_bound g)
    by_class io_bound g = omega (arith, v.io_running, before io_bound, same io_bound g)

    lower : (k : Class) → j.get_class ≡ k → 0 < working_in t.agenda j.get_class
    lower k g = subst (λ c. 0 < working_in t.agenda c) (sym g) (by_class k g)
