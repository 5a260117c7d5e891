-- ===== src/Agenda/Retry.antt =====
-- The loop around a task in `task_executor::operator()` of es3/agenda.cpp.
use extreme_s.Prelude.{
  ℕ, zero, suc, ◌+◌, ◌<◌, ◌≡◌, ◌⊎◌, inl, inr, refl, subst, ◌↔◌, Bool, true, false, arith, Outcome,
  ok, fail, es3_error, std_error, null_pointer, err_fatal, err_warn, err_none,
}

-- Warnings and notes are tried again; any other exception ends the attempts.
pub data Verdict : Type 0 where
  done again give_up : Verdict

unfoldable pub verdict : Outcome (Unit {0}) → Verdict
verdict (ok u) = done
verdict (fail (es3_error err_none)) = again
verdict (fail (es3_error err_warn)) = again
verdict (fail (es3_error err_fatal)) = give_up
verdict (fail std_error) = give_up
verdict (fail null_pointer) = give_up

-- The rounds that are left, from round `f`; the result is `fail`.
attempts : ℕ → ℕ → (ℕ → Outcome (Unit {0})) → Bool
attempts zero f call = true
attempts (suc left) f call = elim (verdict (call f)) [
  | done ↦ false
  | again ↦ attempts left (f + 1) call
  | give_up ↦ true
]

-- `for (f = 0; f < 10; ++f)`; the pauses of five seconds are left out.
pub run_task : (ℕ → Outcome (Unit {0})) → Bool
unfolding attempts
run_task call = attempts 10 0 call

-- The first call that is not to be tried again comes within the rounds, and it succeeds.
abbrev pub SucceedsIn : ℕ → ℕ → (ℕ → Outcome (Unit {0})) → Type 0
SucceedsIn left f call =
    (i : ℕ) × (i < left)
    × (verdict (call (f + i)) ≡ done)
    × ((j : ℕ) → j < i → verdict (call (f + j)) ≡ again)

attempts-false :
    (left f : ℕ) (call : ℕ → Outcome (Unit {0}))
    → attempts left f call ≡ false
    → SucceedsIn left f call
unfolding attempts
attempts-false zero f call e = cc
attempts-false (suc left) f call e =
    by_verdict (verdict (call f)) refl (attempts-false left (f + 1) call) e
  where
    later :
        (later : SucceedsIn left (f + 1) call)
        → verdict (call f) ≡ again
        → SucceedsIn (suc left) f call
    later (i, h, g, before) now = (suc i, omega arith, shift i g, λ j l. earlier j l)
      where
        shift :
            (k : ℕ) {w : Verdict} → verdict (call (f + 1 + k)) ≡ w → verdict (call (f + suc k)) ≡ w
        shift k {w} d =
            let e : f + 1 + k ≡ f + suc k = omega arith in subst (λ n. verdict (call n) ≡ w) e d

        earlier : (j : ℕ) → j < suc i → verdict (call (f + j)) ≡ again
        earlier zero l =
            let e : f ≡ f + 0 = omega arith in subst (λ n. verdict (call n) ≡ again) e now
        earlier (suc j) l = shift j (before j (omega arith))

    by_verdict :
        (v : Verdict)
        → verdict (call f) ≡ v
        → (attempts left (f + 1) call ≡ false → SucceedsIn left (f + 1) call)
        → (elim v [ done ↦ false | again ↦ attempts left (f + 1) call | give_up ↦ true ]) ≡ false
        → SucceedsIn (suc left) f call
    by_verdict done h ih g = (
      0,
      omega arith,
      subst (λ n. verdict (call n) ≡ done) (omega arith) h,
      λ j l. absurd (omega arith),
    )
    by_verdict again h ih g = later (ih g) h
    by_verdict give_up h ih g = cc

attempts-succeeds :
    (left f i : ℕ) (call : ℕ → Outcome (Unit {0}))
    → i < left
    → verdict (call (f + i)) ≡ done
    → ((j : ℕ) → j < i → verdict (call (f + j)) ≡ again)
    → attempts left f call ≡ false
unfolding attempts
attempts-succeeds zero f i call l d before = absurd (omega arith)
attempts-succeeds (suc left) f zero call l d before =
    let now : verdict (call f) ≡ done = subst (λ n. verdict (call n) ≡ done) (omega arith) d in
    rw (now, attempts)
attempts-succeeds (suc left) f (suc i) call l d before =
    let now : verdict (call f) ≡ again =
      subst (λ n. verdict (call n) ≡ again) (omega arith) (before 0 (omega arith)) in
    rw (now, attempts)
      (attempts-succeeds left (f + 1) i call (omega arith)
        (subst (λ n. verdict (call n) ≡ done) (omega arith) d)
        (λ j h. subst (λ n. verdict (call n) ≡ again) (omega arith) (before (suc j) (omega arith))))

verdict-done : (m : Outcome (Unit {0})) → (verdict m ≡ done) ↔ (m ≡ ok tt)
unfolding verdict
verdict-done (ok u) = (λ e. refl, λ e. refl)
verdict-done (fail (es3_error err_none)) = (λ e. cc, λ e. cc)
verdict-done (fail (es3_error err_warn)) = (λ e. cc, λ e. cc)
verdict-done (fail (es3_error err_fatal)) = (λ e. cc, λ e. cc)
verdict-done (fail std_error) = (λ e. cc, λ e. cc)
verdict-done (fail null_pointer) = (λ e. cc, λ e. cc)

-- The outcome is a warning or a note.
abbrev pub IsMild : Outcome (Unit {0}) → Type 0
IsMild m = (m ≡ fail (es3_error err_warn)) ⊎ (m ≡ fail (es3_error err_none))

done-ne-again : done ≡ again → ⊥
done-ne-again e = cc

give_up-ne-again : give_up ≡ again → ⊥
give_up-ne-again e = cc

verdict-again : (m : Outcome (Unit {0})) → (verdict m ≡ again) ↔ IsMild m
unfolding verdict
verdict-again (ok u) = (λ e. absurd (done-ne-again e), λ e. elim e [ inl g ↦ cc | inr g ↦ cc ])
verdict-again (fail (es3_error err_none)) = (λ e. inr refl, λ e. refl)
verdict-again (fail (es3_error err_warn)) = (λ e. inl refl, λ e. refl)
verdict-again (fail (es3_error err_fatal)) =
    (λ e. absurd (give_up-ne-again e), λ e. elim e [ inl g ↦ cc | inr g ↦ cc ])
verdict-again (fail std_error) =
    (λ e. absurd (give_up-ne-again e), λ e. elim e [ inl g ↦ cc | inr g ↦ cc ])
verdict-again (fail null_pointer) =
    (λ e. absurd (give_up-ne-again e), λ e. elim e [ inl g ↦ cc | inr g ↦ cc ])

-- A task counts as done without failure exactly when one of its ten calls succeeds and every call
-- before that one ended in a warning or a note.
pub run_task-false :
    (call : ℕ → Outcome (Unit {0}))
    → (run_task call ≡ false)
      ↔ ((i : ℕ) × (i < 10) × (call i ≡ ok tt) × ((j : ℕ) → j < i → IsMild (call j)))
unfolding run_task
run_task-false call = (
  λ e.
      let (i, l, good, mild) = attempts-false 10 0 call e in
      (
        i,
        l,
        (verdict-done (call i)).0 (at_start i good),
        λ j h. (verdict-again (call j)).0 (at_start j (mild j h)),
      ),
  λ (i, l, good, mild).
      attempts-succeeds 10 0 i call l (from_start i ((verdict-done (call i)).1 good))
        (λ j h. from_start j ((verdict-again (call j)).1 (mild j h))),
)
  where
    at_start : (k : ℕ) {v : Verdict} → verdict (call (0 + k)) ≡ v → verdict (call k) ≡ v
    at_start k {v} e = subst (λ n. verdict (call n) ≡ v) (omega arith) e

    from_start : (k : ℕ) {v : Verdict} → verdict (call k) ≡ v → verdict (call (0 + k)) ≡ v
    from_start k {v} e = subst (λ n. verdict (call n) ≡ v) (omega arith) e
