-- ===== src/Task/Versions.antt =====
-- The version of a task is its run counter.
use gritz.Prelude.{ℕ, ◌^◌, ◌<◌, ◌≡◌, ◌≢◌, ◌⊎◌, true, false, arith}
use gritz.Task.{
  Task, RunnerEvent, stopped, pending, restarting, running, restart, start, next_version,
  apply_runner_event, restart_task, start_task,
}
use gritz.Task.Runs.{Action, act}

-- Every action leaves the version alone, or counts it up by one (modulo 2 ^ 64), and the latter
-- exactly when it provisions a run: the task is then pending or restarting with a start or restart
-- command.
act-version :
    (t : Task) (a : Action)
    → ((act t a).0.version ≡ t.version)
      ⊎ (((act t a).0.version ≡ next_version t.version)
          × (((act t a).0.status ≡ pending) ⊎ ((act t a).0.status ≡ restarting))
          × (((act t a).0.command ≡ start) ⊎ ((act t a).0.command ≡ restart)))
unfolding act
act-version t a = ground arith

next_version-ne : (v : ℕ) → v < 2 ^ 64 → next_version v ≢ v
next_version-ne v h e = omega arith

-- Once a restart has provisioned the next run, no event that is scoped to the run before it
-- changes the task.
pub stale_after_restart :
    (t : Task) (e : RunnerEvent)
    → t.version < 2 ^ 64
    → (restart_task t).1 ≡ true
    → e.version ≡ t.version
    → t.version ≢ 0
    → apply_runner_event (restart_task t).0 e ≡ ((restart_task t).0, false)
unfolding restart_task apply_runner_event
stale_after_restart t e b h v nz = ground (arith, next_version-ne t.version b)

-- A start of a running task is only queued: the run goes on under its version, and its exit
-- provisions the next run, with the start command still pending for it.
queued_start :
    (t : Task) (e : RunnerEvent)
    → t.status ≡ running
    → t.archived ≡ false
    → e.reconcile ≡ false
    → e.version ≡ t.version
    → e.event ≡ stopped
    → let u = (start_task t).0 in
      (u.version ≡ t.version)
      × (u.status ≡ running)
      × ((apply_runner_event u e).0
          ≡ record t { status = pending; command = start; version = next_version t.version })
unfolding start_task apply_runner_event
queued_start t e r a n v s = ground arith
