-- ===== src/Agenda/Tests.antt =====
-- One task that needs a segment, and threads that claim and end it.
use extreme_s.Prelude.{
  inl, ℕ, ◌<◌, ◌≡◌, refl, ◌↔◌, [], ◌∷◌, ◌-◌, ◌==◌, false, some, if◌then◌else◌, arith, Outcome, ok,
  fail, es3_error, err_warn,
}
use extreme_s.Agenda.{
  Agenda, create, schedule, taken, take_job, from_bucket, try_class, or_else, claim_from,
  claim_task, claimed, working_in, at_class,
}
use extreme_s.Agenda.Waiting.{Bucket, unbound, Job, enqueue, jobs_of, pick, last_segments}
use extreme_s.Agenda.System.{System, scheduled, claims, Reach, here, next, start}
use extreme_s.Agenda.System.Invariant.{Reach-create-Inv, cleanup_assert}
use extreme_s.Agenda.System.Facts.{Inv}
use extreme_s.Agenda.Progress.{AtGreatest, claim_task-IsClaimed}
use extreme_s.Agenda.Retry.{run_task, IsMild, run_task-false}

abbrev job : Job
job = record { task = 7; get_class = unbound; needs_segments = 2 }

abbrev fresh : Agenda
fresh = create 1 1 1 100 3

abbrev loaded : Agenda
loaded = schedule job fresh

claim_loaded : claim_task loaded ≡ claimed job (taken unbound 2 loaded)
unfolding claim_task try_class from_bucket take_job or_else claim_from schedule create enqueue pick
    last_segments jobs_of
claim_loaded = refl

abbrev one_running : System
one_running = record { agenda = taken unbound 2 loaded; running = job ∷ [] }

running_reached : Reach (start fresh) one_running
unfolding start
running_reached =
    next (next here (scheduled job)) (claims job (taken unbound 2 loaded) claim_loaded)

Reach-create-Inv_example : Inv one_running
Reach-create-Inv_example = Reach-create-Inv 1 1 1 100 3 running_reached

cleanup_assert_example : 0 < working_in (taken unbound 2 loaded) unbound
cleanup_assert_example = cleanup_assert 1 1 1 100 3 [] [] job running_reached refl

abbrev job_bucket : Bucket
job_bucket = record { segments = 2; unbound_jobs = job ∷ []; cpu_jobs = []; io_jobs = [] }

one_bucket : loaded.tasks ≡ job_bucket ∷ []
unfolding schedule create enqueue
one_bucket = refl

three_free : loaded.max_segments_in_flight - loaded.segments_in_flight ≡ 3
unfolding schedule create
three_free = refl

job_waits :
    AtGreatest (loaded.max_segments_in_flight - loaded.segments_in_flight) unbound job loaded.tasks
job_waits = record {
  before = [];
  greatest = job_bucket;
  others = [];
  queue = one_bucket;
  least_need = tt;
  fits = omega (arith, three_free);
  waiting = refl;
}

none_running : at_class loaded.classes unbound ≡ some 0
unfolding schedule create
none_running = refl

free : 0 < at_class loaded.class_limits unbound
unfolding schedule create
free = omega arith

claim_task-IsClaimed_example : (i : Job) × (a : Agenda) × (claim_task loaded ≡ claimed i a)
claim_task-IsClaimed_example =
    claim_task-IsClaimed unbound 0 loaded job (inl job_waits) none_running free

-- A task that fails twice with a warning and then succeeds.
abbrev third_time : ℕ → Outcome (Unit {0})
third_time n = if n == 2 then ok tt else fail (es3_error err_warn)

run_task-false_example :
    (run_task third_time ≡ false)
    ↔ ((i : ℕ) × (i < 10) × (third_time i ≡ ok tt) × ((j : ℕ) → j < i → IsMild (third_time j)))
run_task-false_example = run_task-false third_time
