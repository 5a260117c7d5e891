-- ===== src/Agenda/System/Counted.antt =====
-- The entries of the map of working tasks, when one of them is written.
use extreme_s.Prelude.{◌+◌, ◌-◌, ◌<◌, ◌≡◌, List, some, arith}
use extreme_s.Agenda.{Agenda, at_class, set_class, working_in}
use extreme_s.Agenda.Waiting.{Class, unbound, cpu_bound, io_bound, Job}
use extreme_s.Agenda.System.{same_class, running_in}
use extreme_s.Agenda.System.Facts.{one_if, Counts, Limited}

-- The first jobs are the second ones and one of the class.
abbrev pub OneMore : Class → List Job → List Job → Type 0
OneMore c more js = (d : Class) → running_in d more ≡ one_if (same_class d c) + running_in d js

pub rewritten-Counts :
    (c : Class) (a : Agenda) (js : List Job)
    → Counts a.classes js
    → Counts (set_class c (some (working_in a c)) a.classes) js
rewritten-Counts unbound a js counts = counts
rewritten-Counts cpu_bound a js counts = counts
rewritten-Counts io_bound a js counts = counts

pub rewritten-Limited :
    (c : Class) (a : Agenda)
    → Limited a.classes a
    → Limited (set_class c (some (working_in a c)) a.classes) a
rewritten-Limited unbound a limited = limited
rewritten-Limited cpu_bound a limited = limited
rewritten-Limited io_bound a limited = limited

pub counted-Counts :
    (c : Class) (a : Agenda) (more js : List Job)
    → OneMore c more js
    → Counts a.classes js
    → Counts (set_class c (some (working_in a c + 1)) a.classes) more
counted-Counts unbound a more js one (u, p, i) =
    (omega (arith, one unbound), omega (arith, one cpu_bound), omega (arith, one io_bound))
counted-Counts cpu_bound a more js one (u, p, i) =
    (omega (arith, one unbound), omega (arith, one cpu_bound), omega (arith, one io_bound))
counted-Counts io_bound a more js one (u, p, i) =
    (omega (arith, one unbound), omega (arith, one cpu_bound), omega (arith, one io_bound))

pub counted-Limited :
    (c : Class) (a : Agenda)
    → working_in a c < at_class a.class_limits c
    → Limited a.classes a
    → Limited (set_class c (some (working_in a c + 1)) a.classes) a
counted-Limited unbound a free (u, p, i) = (omega arith, p, i)
counted-Limited cpu_bound a free (u, p, i) = (u, omega arith, i)
counted-Limited io_bound a free (u, p, i) = (u, p, omega arith)

pub discounted-Counts :
    (c : Class) (a : Agenda) (more js : List Job)
    → OneMore c more js
    → Counts a.classes more
    → Counts (set_class c (some (working_in a c - 1)) a.classes) js
discounted-Counts unbound a more js one (u, p, i) =
    (omega (arith, one unbound), omega (arith, one cpu_bound), omega (arith, one io_bound))
discounted-Counts cpu_bound a more js one (u, p, i) =
    (omega (arith, one unbound), omega (arith, one cpu_bound), omega (arith, one io_bound))
discounted-Counts io_bound a more js one (u, p, i) =
    (omega (arith, one unbound), omega (arith, one cpu_bound), omega (arith, one io_bound))

pub discounted-Limited :
    (c : Class) (a : Agenda)
    → Limited a.classes a
    → Limited (set_class c (some (working_in a c - 1)) a.classes) a
discounted-Limited unbound a (u, p, i) = (omega arith, p, i)
discounted-Limited cpu_bound a (u, p, i) = (u, omega arith, i)
discounted-Limited io_bound a (u, p, i) = (u, p, omega arith)
