-- ===== src/Agenda/System/Claims.antt =====
-- What a successful claim has done.
use extreme_s.Prelude.{
  ℕ, ◌-◌, ◌≤◌, ◌<◌, ◌≡◌, refl, subst, sym, ap, ◌∙◌, ◌⊎◌, ◌==◌, inl, inr, Bool, true, false, List,
  [], ◌∷◌, Option, none, some, arith, leb, if◌then◌else◌,
}
use mathlib.Core.Option.{some-injective}
use extreme_s.Agenda.{
  Agenda, at_class, count_or_zero, working_in, taken, take_job, from_bucket, try_class, or_else,
  finished, waits, claimed, claim_from, claim_task,
}
use extreme_s.Agenda.Waiting.{Class, unbound, cpu_bound, io_bound, Job, Queue, jobs_of, pick}
use extreme_s.Agenda.Waiting.Laws.{pick-le}

-- What a claim has done.
pub data Took (a : Agenda) (j : Job) (a' : Agenda) : Type 0 where
  took :
      (c : Class) (n : ℕ) (js : List Job)
      → working_in a c < at_class a.class_limits c
      → n ≤ a.max_segments_in_flight - a.segments_in_flight
      → jobs_of n c a.tasks ≡ j ∷ js
      → a' ≡ taken c n a
      → Took a j a'

take_job-Took :
    (c : Class) (n : ℕ) (js : List Job) (a : Agenda) {j : Job} {a' : Agenda}
    → working_in a c < at_class a.class_limits c
    → n ≤ a.max_segments_in_flight - a.segments_in_flight
    → jobs_of n c a.tasks ≡ js
    → take_job c n js a ≡ some (j, a')
    → Took a j a'
unfolding take_job
take_job-Took c n [] a l f w e = cc
take_job-Took c n (i ∷ js) a {j} {a'} l f w e =
    let pair : (i, taken c n a) ≡ (j, a') = some-injective _ _ e in
    let same_job : i ≡ j = ap (λ (p : Job × Agenda). p.0) pair in
    took c n js l f (subst (λ k. jobs_of n c a.tasks ≡ k ∷ js) same_job w)
      (sym (ap (λ (p : Job × Agenda). p.1) pair))

try_class-Took :
    (c : Class) (a : Agenda) {j : Job} {a' : Agenda} → try_class c a ≡ some (j, a') → Took a j a'
unfolding try_class
try_class-Took c a {j} {a'} e = by_entry (at_class a.classes c) refl e
  where
    avail : ℕ
    avail = a.max_segments_in_flight - a.segments_in_flight

    by_pick :
        (o : Option ℕ)
        → working_in a c < at_class a.class_limits c
        → pick avail a.tasks ≡ o
        → from_bucket c o a ≡ some (j, a')
        → Took a j a'
    by_pick none l p g = cc
    by_pick (some n) l p g =
        take_job-Took c n (jobs_of n c a.tasks) a l (pick-le avail a.tasks p) refl g

    by_limit :
        (b : Bool) (cur : ℕ)
        → at_class a.classes c ≡ some cur
        → leb (at_class a.class_limits c) cur ≡ b
        → (if b then none else from_bucket c (pick avail a.tasks) a) ≡ some (j, a')
        → Took a j a'
    by_limit true cur k l g = cc
    by_limit false cur k l g =
        let counted : working_in a c ≡ cur = ap count_or_zero k in
        by_pick (pick avail a.tasks) (ground arith) refl g

    by_entry :
        (o : Option ℕ)
        → at_class a.classes c ≡ o
        → (elim o [
          | none ↦ none
          | some cur_num ↦
              if leb (at_class a.class_limits c) cur_num
              then none
              else from_bucket c (pick avail a.tasks) a
        ])
          ≡ some (j, a')
        → Took a j a'
    by_entry none k g = cc
    by_entry (some cur) k g = by_limit (leb (at_class a.class_limits c) cur) cur k refl g

or_else-cases :
    (x y : Option (Job × Agenda)) {r : Job × Agenda}
    → or_else x y ≡ some r
    → (x ≡ some r) ⊎ (y ≡ some r)
unfolding or_else
or_else-cases none y e = inr e
or_else-cases (some x) y e = inl e

claim_from-claimed :
    (o : Option (Job × Agenda)) {j : Job} {a' : Agenda}
    → claim_from o ≡ claimed j a'
    → o ≡ some (j, a')
unfolding claim_from
claim_from-claimed none e = cc
claim_from-claimed (some (i, b)) e = cc

pub claim_task-Took :
    (a : Agenda) {j : Job} {a' : Agenda} → claim_task a ≡ claimed j a' → Took a j a'
unfolding claim_task
claim_task-Took a {j} {a'} e = by_queue a.tasks e
  where
    any_class :
        (o : Option (Job × Agenda))
        → o ≡ or_else (try_class unbound a) (or_else (try_class cpu_bound a) (try_class io_bound a))
        → o ≡ some (j, a')
        → Took a j a'
    any_class o k g = elim (or_else-cases (try_class unbound a) _ (sym k ∙ g)) [
      | inl u ↦ try_class-Took unbound a u
      | inr v ↦ elim (or_else-cases (try_class cpu_bound a) (try_class io_bound a) v) [
        | inl u ↦ try_class-Took cpu_bound a u
        | inr u ↦ try_class-Took io_bound a u
      ]
    ]

    by_idle : (b : Bool) → (if b then finished else waits) ≡ claimed j a' → Took a j a'
    by_idle true g = cc
    by_idle false g = cc

    by_queue :
        (q : Queue)
        → (elim q [
          | [] ↦ if a.num_working == 0 then finished else waits
          | b ∷ bs ↦ claim_from (
              or_else
                (try_class unbound a)
                (or_else (try_class cpu_bound a) (try_class io_bound a)))
        ])
          ≡ claimed j a'
        → Took a j a'
    by_queue [] g = by_idle (a.num_working == 0) g
    by_queue (b ∷ bs) g = any_class _ refl (claim_from-claimed _ g)
