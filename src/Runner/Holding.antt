-- ===== src/Runner/Holding.antt =====
-- The steps of a runner keep its concurrency limit.
use gritz.Prelude.{
  ℕ, zero, suc, ◌+◌, ◌-◌, ◌^◌, ◌≤◌, ◌<◌, ◌≡◌, refl, sym, ap, ◌∙◌, subst, Bool, true, false, Option,
  none, some, List, [], ◌∷◌, length, ◌⊎◌, inl, inr, arith, leb, if◌then◌else◌, Bool-cases,
}
use gritz.Prelude.Int.{ℤ, pos, negsuc, add_i64, sub_i64}
use gritz.Task.{
  Task, RunnerEvent, running, is_status, TaskCommand, no_command, stop, failure, stopped,
}
use gritz.Task
use gritz.Semaphore.{at, try_acquire, release}
use gritz.Runner.{
  Runner, Result, ok, err, Outside, Record, Supervision, read, kill, report, is_running, error_text,
}
use gritz.Runner.Starts.{start}
use gritz.Runner.Polls.{
  task_event, already_launched, after_kill, handle_stop, after_start, with_slot, start_in_slot,
  restart_after, handle_restart, start_unless, handle_start, handle_command, handle_task, poll_each,
  poll,
}
use gritz.Runner.Loop.{
  Step, polls, exits, prunes, taken, without, WaitAnswer, wait_cancelled, exit_code, exit_report,
  supervise, exit_of, live_step, step, run, prune,
}
use gritz.Runner.Launching.{Outcome, start-Outcome}
use gritz.Runner.Quiet.{
  Quiet, Quiet-trans, read-Quiet, report-Quiet, kill-Quiet, is_running-Quiet, prune-Quiet,
}

module _ {E : Type 0} where
  -- Every supervised sandbox has a slot, and there are at most so many.
  pub record Holds (capacity bound : ℕ) (r : Runner E) : Type 0 where
    pub count : ℕ
    pub sem_at : r.sem ≡ at capacity count
    pub small : count < 2 ^ 62
    pub slots : length r.supervised ≤ count
    pub within : length r.supervised ≤ bound

acquire-cases :
    (capacity k : ℕ)
    → capacity < 2 ^ 62
    → k < 2 ^ 62
    → ((try_acquire (pos 1) (at capacity k) ≡ (at capacity (k + 1), true)) × (k + 1 ≤ capacity))
      ⊎ (try_acquire (pos 1) (at capacity k) ≡ (at capacity k, false))
unfolding try_acquire add_i64
acquire-cases capacity k c b = elim (Bool-cases (leb (k + 1) capacity)) [
  | inl h ↦ inl (ground arith, ground arith)
  | inr h ↦ inr (ground arith)
]

release-at : (capacity k : ℕ) → k < 2 ^ 62 → release (pos 1) (at capacity k) ≡ at capacity (k - 1)
unfolding release sub_i64
release-at capacity k b = ground arith

without-length :
    (ss : List Supervision) (n : ℕ) (s : Supervision)
    → taken ss n ≡ some s
    → suc (length (without ss n)) ≡ length ss
without-length [] n s e = ground arith
without-length (x ∷ ss) zero s e = refl
without-length (x ∷ ss) (suc n) s e = ap suc (without-length ss n s e)

module _ {E : Type 0} (o : Outside E) (capacity bound : ℕ) (c : capacity < 2 ^ 62)
    (cb : capacity ≤ bound) where
  calm : (r s : Runner E) → Quiet r s → Holds capacity bound r → Holds capacity bound s
  calm r s (a, b) h = record {
    count = h.count;
    sem_at = a ∙ h.sem_at;
    small = h.small;
    slots = subst (λ l. length l ≤ h.count) (sym b) h.slots;
    within = subst (λ l. length l ≤ bound) (sym b) h.within;
  }

  after_start-Holds :
      (task : Task) (r : Runner E) (k : ℕ) (p : Result (Unit {0}) × Runner E)
      → k + 1 ≤ capacity
      → length r.supervised ≤ k
      → length r.supervised ≤ bound
      → Outcome o task (record r { sem = at capacity (k + 1) }) p
      → Holds capacity bound (after_start o task p)
  after_start-Holds task r k (ok _, s) room fits low (inl (kept, found)) = record {
    count = k + 1;
    sem_at = ap (λ v. v.sem) kept;
    small = omega arith;
    slots = subst (λ l. length l ≤ k + 1) (sym (ap (λ v. v.supervised) kept)) (omega arith);
    within = subst (λ l. length l ≤ bound) (sym (ap (λ v. v.supervised) kept)) low;
  }
  after_start-Holds task r k (ok _, s) room fits low (inr l) = record {
    count = k + 1;
    sem_at = ap (λ v. v.sem) l.only;
    small = omega arith;
    slots = subst (λ l. length l ≤ k + 1) (sym (ap (λ v. v.supervised) l.only)) (omega arith);
    within = subst (λ l. length l ≤ bound) (sym (ap (λ v. v.supervised) l.only)) (omega arith);
  }
  after_start-Holds task r k (err e, s) room fits low f =
      let freed = record s { sem = release (pos 1) s.sem } in
      calm freed (report o (task_event task failure (error_text e)) freed) (report-Quiet o _ freed)
        (record {
          count = k;
          sem_at =
              ap (release (pos 1)) (ap (λ v. v.sem) f.only)
              ∙ release-at capacity (k + 1) (omega arith)
              ∙ ap (at capacity) (omega arith);
          small = omega arith;
          slots = subst (λ l. length l ≤ k) (sym (ap (λ v. v.supervised) f.only)) fits;
          within = subst (λ l. length l ≤ bound) (sym (ap (λ v. v.supervised) f.only)) low;
        })

  with_slot-Holds :
      (task : Task) (r : Runner E) (h : Holds capacity bound r)
      → Holds capacity bound (with_slot o task r (try_acquire (pos 1) (at capacity h.count)))
  with_slot-Holds task r h = elim (acquire-cases capacity h.count c h.small) [
    | inl (e, room) ↦
        subst (λ p. Holds capacity bound (with_slot o task r p)) (sym e)
          (after_start-Holds task r h.count
            (start o task (record r { sem = at capacity (h.count + 1) })) room h.slots h.within
            (start-Outcome o task (record r { sem = at capacity (h.count + 1) })))
    | inr e ↦ subst (λ p. Holds capacity bound (with_slot o task r p)) (sym e) h
  ]

  start_in_slot-Holds :
      (task : Task) (r : Runner E)
      → Holds capacity bound r
      → Holds capacity bound (start_in_slot o task r)
  unfolding start_in_slot
  start_in_slot-Holds task r h =
      subst (λ s. Holds capacity bound (with_slot o task r (try_acquire (pos 1) s))) (sym h.sem_at)
        (with_slot-Holds task r h)

  handle_stop-Quiet : (task : Task) (r : Runner E) → Quiet r (handle_stop o task r)
  unfolding handle_stop
  handle_stop-Quiet task r = by_kill (kill o task.id r) (kill-Quiet o task.id r)
    where
      by_kill : (p : Result Bool × Runner E) → Quiet r p.1 → Quiet r (after_kill o task p)
      by_kill (err x, s) q = q
      by_kill (ok true, s) q = q
      by_kill (ok false, s) q =
          Quiet-trans r s (report o (task_event task stopped []) s) q
            (report-Quiet o (task_event task stopped []) s)

  restart_if-Holds :
      (test : Bool) (task : Task) (r : Runner E)
      → Holds capacity bound r
      → Holds capacity bound (if test then r else start_in_slot o task (kill o task.id r).1)
  restart_if-Holds true task r h = h
  restart_if-Holds false task r h =
      start_in_slot-Holds task (kill o task.id r).1
        (calm r (kill o task.id r).1 (kill-Quiet o task.id r) h)

  handle_restart-Holds :
      (task : Task) (r : Runner E)
      → Holds capacity bound r
      → Holds capacity bound (handle_restart o task r)
  unfolding handle_restart
  handle_restart-Holds task r h = by_read (read o task.id r) (read-Quiet o task.id r)
    where
      by_read :
          (p : Result (Option Record) × Runner E)
          → Quiet r p.1
          → Holds capacity bound (restart_after o task p)
      by_read (err x, s) q = calm r s q h
      by_read (ok found, s) q = restart_if-Holds (already_launched task found) task s (calm r s q h)

  start_unless-Holds :
      (task : Task) (r : Runner E)
      → Holds capacity bound r
      → Holds capacity bound (start_unless o task (is_running o task.id r))
  start_unless-Holds task r h = by_answer (is_running o task.id r) (is_running-Quiet o task.id r)
    where
      by_answer :
          (p : Result Bool × Runner E) → Quiet r p.1 → Holds capacity bound (start_unless o task p)
      by_answer (err x, s) q = calm r s q h
      by_answer (ok true, s) q = calm r s q h
      by_answer (ok false, s) q = start_in_slot-Holds task s (calm r s q h)

  Holds-if :
      (test : Bool) (r s : Runner E)
      → Holds capacity bound r
      → Holds capacity bound s
      → Holds capacity bound (if test then r else s)
  Holds-if true r s h k = h
  Holds-if false r s h k = k

  handle_start-Holds :
      (task : Task) (r : Runner E)
      → Holds capacity bound r
      → Holds capacity bound (handle_start o task r)
  unfolding handle_start
  handle_start-Holds task r h =
      Holds-if (is_status task.status running) r (start_unless o task (is_running o task.id r)) h
        (start_unless-Holds task r h)

  handle_command-Holds :
      (task : Task) (command : TaskCommand) (r : Runner E)
      → Holds capacity bound r
      → Holds capacity bound (handle_command o task command r)
  handle_command-Holds task no_command r h = h
  handle_command-Holds task stop r h = calm r (handle_stop o task r) (handle_stop-Quiet task r) h
  handle_command-Holds task Task.restart r h = handle_restart-Holds task r h
  handle_command-Holds task Task.start r h = handle_start-Holds task r h

  handle_task-Holds :
      (task : Task) (r : Runner E)
      → Holds capacity bound r
      → Holds capacity bound (handle_task o task r)
  unfolding handle_task
  handle_task-Holds task r h = handle_command-Holds task task.command r h

  poll_each-Holds :
      (tasks : List Task) (r : Runner E)
      → Holds capacity bound r
      → Holds capacity bound (poll_each o tasks r)
  unfolding poll_each
  poll_each-Holds [] r h = h
  poll_each-Holds (task ∷ tasks) r h =
      poll_each-Holds tasks (handle_task o task r) (handle_task-Holds task r h)

  poll-Holds :
      (tasks : Option (List Task)) (r : Runner E)
      → Holds capacity bound r
      → Holds capacity bound (poll o tasks r)
  unfolding poll
  poll-Holds none r h = h
  poll-Holds (some tasks) r h = poll_each-Holds tasks r h

  exit_report-Quiet : (s : Supervision) (code : ℤ) (r : Runner E) → Quiet r (exit_report o s code r)
  exit_report-Quiet s (pos zero) r = (refl, refl)
  exit_report-Quiet s (pos (suc n)) r = report-Quiet o _ r
  exit_report-Quiet s (negsuc n) r = report-Quiet o _ r

  exit_of-Holds :
      (r : Runner E) (n : ℕ) (w : WaitAnswer) (found : Option Supervision)
      → taken r.supervised n ≡ found
      → Holds capacity bound r
      → Holds capacity bound (exit_of o found n w r)
  unfolding supervise
  exit_of-Holds r n w none e h = h
  exit_of-Holds r n wait_cancelled (some s) e h =
      let fewer = without-length r.supervised n s e in
      record {
        count = h.count;
        sem_at = h.sem_at;
        small = h.small;
        slots = omega (arith, h.slots);
        within = omega (arith, h.within);
      }
  exit_of-Holds r n (exit_code code) (some s) e h =
      let fewer = without-length r.supervised n s e in
      let freed = record r {
        supervised = without r.supervised n;
        sem = release (pos 1) r.sem;
        awake = true;
      } in
      calm freed (exit_report o s code freed) (exit_report-Quiet s code freed) (record {
        count = h.count - 1;
        sem_at = ap (release (pos 1)) h.sem_at ∙ release-at capacity h.count h.small;
        small = omega (arith, h.small);
        slots = omega (arith, h.slots);
        within = omega (arith, h.within);
      })

  live_step-Holds :
      (s : Step) (r : Runner E) → Holds capacity bound r → Holds capacity bound (live_step o s r)
  live_step-Holds (polls tasks) r h =
      poll-Holds tasks (record r { awake = false })
        (calm r (record r { awake = false }) (refl, refl) h)
  live_step-Holds (exits n w) r h = exit_of-Holds r n w (taken r.supervised n) refl h
  live_step-Holds prunes r h = calm r (prune o r) (prune-Quiet o r) h

  pub steps-Holds :
      (steps : List Step) (r : Runner E)
      → Holds capacity bound r
      → Holds capacity bound (run o steps r)
  unfolding run step
  steps-Holds [] r h = h
  steps-Holds (s ∷ steps) r h =
      steps-Holds steps (step o s r) (Holds-if r.died r (live_step o s r) h (live_step-Holds s r h))
