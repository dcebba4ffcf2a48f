-- ===== src/Runner/Polls.antt =====
-- `Poll` of internal/runner/runner.go: what each pending command does. The goroutines of one poll are
-- taken in the order of the list.
use gritz.Prelude.{Bool, true, false, Option, none, some, List, [], ◌∷◌, Bytes, ◌==◌, if◌then◌else◌}
use gritz.Prelude.Int.{pos}
use gritz.Task.{
  Task, TaskCommand, RunnerEvent, RunnerEventType, stopped, failure, running, is_status, no_command,
  stop,
}
use gritz.Task
use gritz.Semaphore.{Semaphore, try_acquire, release}
use gritz.Runner.{
  Runner, error_text, Result, ok, err, Outside, Record, read, kill, is_running, report,
}
use gritz.Runner.Starts.{start}

abbrev pub task_event : Task → RunnerEventType → Bytes → RunnerEvent
task_event task event reason = record {
  task_id = task.id;
  event = event;
  version = task.version;
  reconcile = false;
  reason = reason;
}

abbrev pub already_launched : Task → Option Record → Bool
already_launched task none = false
already_launched task (some rec) = rec.version == task.version

module _ {E : Type 0} (o : Outside E) where
  abbrev pub after_kill : Task → Result Bool × Runner E → Runner E
  after_kill task (err e, r) = r
  after_kill task (ok true, r) = r
  after_kill task (ok false, r) = report o (task_event task stopped []) r

  unfoldable pub handle_stop : Task → Runner E → Runner E
  handle_stop task r = after_kill task (kill o task.id r)

  abbrev pub after_start : Task → Result (Unit {0}) × Runner E → Runner E
  after_start task (ok _, r) = r
  after_start task (err e, r) =
      report o (task_event task failure (error_text e)) (record r { sem = release (pos 1) r.sem })

  abbrev pub with_slot : Task → Runner E → Semaphore × Bool → Runner E
  with_slot task r (sem, true) = after_start task (start o task (record r { sem = sem }))
  with_slot task r (sem, false) = r

  -- A slot, the start, and what a failed start leads to.
  unfoldable pub start_in_slot : Task → Runner E → Runner E
  start_in_slot task r = with_slot task r (try_acquire (pos 1) r.sem)

  abbrev pub restart_after : Task → Result (Option Record) × Runner E → Runner E
  restart_after task (err e, r) = r
  restart_after task (ok found, r) =
      if already_launched task found then r else start_in_slot task (kill o task.id r).1

  unfoldable pub handle_restart : Task → Runner E → Runner E
  handle_restart task r = restart_after task (read o task.id r)

  abbrev pub start_unless : Task → Result Bool × Runner E → Runner E
  start_unless task (err e, r) = r
  start_unless task (ok true, r) = r
  start_unless task (ok false, r) = start_in_slot task r

  unfoldable pub handle_start : Task → Runner E → Runner E
  handle_start task r =
      if is_status task.status running then r else start_unless task (is_running o task.id r)

  abbrev pub handle_command : Task → TaskCommand → Runner E → Runner E
  handle_command task no_command r = r
  handle_command task stop r = handle_stop task r
  handle_command task Task.restart r = handle_restart task r
  handle_command task Task.start r = handle_start task r

  unfoldable pub handle_task : Task → Runner E → Runner E
  handle_task task r = handle_command task task.command r

  unfoldable pub poll_each : List Task → Runner E → Runner E
  poll_each [] r = r
  poll_each (task ∷ tasks) r = poll_each tasks (handle_task task r)

  -- The answer of `ListRunnerTasks`, if there is one.
  unfoldable pub poll : Option (List Task) → Runner E → Runner E
  poll none r = r
  poll (some tasks) r = poll_each tasks r
