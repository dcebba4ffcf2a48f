-- ===== src/Runner/Reports.antt =====
-- What the runner reports, and what a repeated poll does.
use gritz.Prelude.{
  ◌^◌, ◌<◌, ◌≡◌, ◌≢◌, refl, sym, ap, ◌∙◌, true, false, Bytes, Option, none, some, List, [], ◌∷◌,
  ◌++◌, All, ◌⊎◌, arith, zero, suc, if◌then◌else◌, codes,
}
use gritz.Prelude.Int.{ℤ, pos, negsuc}
use mathlib.Core.List.{append-nil}
use gritz.Task.{Task, RunnerEvent, failure, apply_runner_event, restart_task}
use gritz.Task.Versions.{stale_after_restart}
use gritz.Semaphore.{try_acquire, release}
use gritz.Runner.{
  Runner, Result, ok, err, next, kill, Outside, Record, Supervision, find_record, ask, moved, read,
  report,
}
use gritz.Runner.Polls.{task_event, already_launched, restart_after, handle_restart, start_in_slot}
use gritz.Runner.Loop.{WaitAnswer, wait_cancelled, exit_code, supervise, failed_event, format_code}
use gritz.Runner.Rules.{report-Post}
use gritz.Runner.Launching.{Kept, FoundRunning, NotStarted, Launched, Others}

module _ {E : Type 0} where
  -- What taking a slot and starting leads to.
  pub data Fate (o : Outside E) (task : Task) (r : Runner E) : Runner E → Type 0 where
    no_slot : (try_acquire (pos 1) r.sem).1 ≡ false → Fate o task r r
    still_running :
        {s : Runner E}
        → Kept (record r { sem = (try_acquire (pos 1) r.sem).0 }) s
        → FoundRunning o task r
        → Fate o task r s
    launched :
        {s : Runner E}
        → Launched o task (record r { sem = (try_acquire (pos 1) r.sem).0 }) s
        → Fate o task r s
    not_started :
        {s : Runner E}
        → (reason : Bytes) → NotStarted o task r.options.workspaces
        → s.supervised ≡ r.supervised
        → s.sem ≡ release (pos 1) (try_acquire (pos 1) r.sem).0
        → (s.queue ≡ r.queue ++ task_event task failure reason ∷ []) ⊎ (s.died ≡ true)
        → Others task.id r.records s.records
        → Fate o task r s

module _ {E : Type 0} (o : Outside E) where
  match-skips :
      (task : Task) (found : Option Record) (rec : Record)
      → found ≡ some rec
      → rec.version ≡ task.version
      → already_launched task found ≡ true
  match-skips task none rec f v = ground arith
  match-skips task (some x) rec f v = ground arith

  -- A restart whose run was launched already, as the version of its record says, changes nothing
  -- of the runner and asks nothing of the backend and the server: all that it does is one read of
  -- the disk.
  handle_restart-launched :
      (task : Task) (r : Runner E) (rec : Record)
      → find_record task.id r.records ≡ some rec
      → rec.version ≡ task.version
      → handle_restart o task r ≡ record r { outside = (o.accepts r.outside).1 }
  unfolding handle_restart read ask
  handle_restart-launched task r rec f v = by_read (o.accepts r.outside)
    where
      by_read :
          (p : Result (Unit {0}) × E)
          → restart_after o task (next (moved r p) (λ _ r. (ok (find_record task.id r.records), r)))
            ≡ record r { outside = p.1 }
      by_read (ok _, e) =
          ap
            (λ b.
              if b
              then record r { outside = e }
              else start_in_slot o task (kill o task.id (record r { outside = e })).1)
            (match-skips task (find_record task.id r.records) rec f v)
      by_read (err x, e) = refl

  -- What a supervision reports is scoped to its run.
  record Reported (s : Supervision) (r r' : Runner E) : Type 0 where
    events : List RunnerEvent
    queued : r'.queue ≡ r.queue ++ events
    scoped : All (λ e. e.version ≡ s.version) events

  report-Reported :
      (s : Supervision) (reason : Bytes) (r : Runner E)
      → Reported s r (report o (failed_event s.task_id s.version reason) r)
  report-Reported s reason r =
      report-Post o (Reported s r) (failed_event s.task_id s.version reason) r
        (λ e. record {
          events = failed_event s.task_id s.version reason ∷ [];
          queued = refl;
          scoped = (refl, tt);
        })
        (λ e. record { events = []; queued = sym (append-nil r.queue); scoped = tt })

  failed-Reported :
      (s : Supervision) (code : ℤ) (r : Runner E)
      → Reported s r (
          report o
            (failed_event s.task_id s.version
              (codes "sandbox exited with status code " ++ format_code code))
            (record r { sem = release (pos 1) r.sem; awake = true }))
  failed-Reported s code r =
      let q =
        report-Reported s (codes "sandbox exited with status code " ++ format_code code)
          (record r { sem = release (pos 1) r.sem; awake = true }) in
      record { events = q.events; queued = q.queued; scoped = q.scoped }

  supervise-Reported :
      (s : Supervision) (w : WaitAnswer) (r : Runner E) → Reported s r (supervise o s w r)
  unfolding supervise
  supervise-Reported s wait_cancelled r = record {
    events = [];
    queued = sym (append-nil r.queue);
    scoped = tt;
  }
  supervise-Reported s (exit_code (pos zero)) r = record {
    events = [];
    queued = sym (append-nil r.queue);
    scoped = tt;
  }
  supervise-Reported s (exit_code (pos (suc n))) r = failed-Reported s (pos (suc n)) r
  supervise-Reported s (exit_code (negsuc n)) r = failed-Reported s (negsuc n) r

  stale-All :
      (t : Task) (s : Supervision) (events : List RunnerEvent)
      → t.version < 2 ^ 64
      → (restart_task t).1 ≡ true
      → s.version ≡ t.version
      → t.version ≢ 0
      → All (λ e. e.version ≡ s.version) events
      → All (λ e. apply_runner_event (restart_task t).0 e ≡ ((restart_task t).0, false)) events
  stale-All t s [] b h v nz a = tt
  stale-All t s (e ∷ es) b h v nz (a, more) =
      (stale_after_restart t e b h (a ∙ v) nz, stale-All t s es b h v nz more)

  -- Whatever the end of a sandbox, what the runner then queues does not change the task that the
  -- server has since restarted: the run that ended, of the version that the task had before the
  -- restart and that is not the 0 of a legacy record, is over.
  pub supervise-restarted :
      (t : Task) (s : Supervision) (w : WaitAnswer) (r : Runner E)
      → t.version < 2 ^ 64
      → (restart_task t).1 ≡ true
      → s.version ≡ t.version
      → t.version ≢ 0
      → (events : List RunnerEvent) × ((supervise o s w r).queue ≡ r.queue ++ events)
        × All (λ e. apply_runner_event (restart_task t).0 e ≡ ((restart_task t).0, false)) events
  supervise-restarted t s w r b h v nz =
      let q = supervise-Reported s w r in
      (q.events, q.queued, stale-All t s q.events b h v nz q.scoped)
