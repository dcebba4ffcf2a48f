-- ===== src/Examples/Sandboxes.antt =====
-- A runner with one sandbox outside, which is running or not.
use gritz.Prelude.{
  ◌≡◌, refl, Bool, true, false, some, List, [], ◌∷◌, ◌++◌, length, codes, All, max, arith,
  if◌then◌else◌,
}
use gritz.Prelude.Int.{pos, add_i64}
use gritz.Task
use gritz.Task.{Task, RunnerEvent, can_restart, running, apply_runner_event, restart_task}
use gritz.Semaphore.{new_semaphore, try_acquire}
use gritz.Runner.{
  Runner, Result, ok, err, text_error, Handle, Record, SandboxState, state_running, state_exited,
  Supervision, Workspace, Outside, task_found, Options, find_record,
}
use gritz.Runner.Starts.{start}
use gritz.Runner.Polls.{handle_restart, start_in_slot}
use gritz.Runner.Loop.{Step, polls, exits, prunes, exit_code, load, run, supervise}
use gritz.Runner.Launching.{Outcome, start-Outcome}
use gritz.Runner.Holding.{Holds}
use gritz.Runner.Slots.{run-Holds}
use gritz.Runner.Reports.{supervise-restarted}
use gritz.Examples.Tasks.{new_task, running_task}

abbrev handle : Handle
handle = record { type = codes "docker"; id = codes "c1"; content = [] }

abbrev one_sandbox : Outside Bool
one_sandbox = record {
  accepts = λ e. (ok _, e);
  probe = λ h e. (ok (if e then state_running else state_exited), e);
  signal = λ h e. (ok e, false);
  destroy = λ h e. (ok _, false);
  launch = λ s reuse e. (ok handle, true);
  validate_workspace = λ ws e. (ok _, e);
  create_task_token = λ id cs e. (ok (codes "jwt"), e);
  config_data = λ ws args e. (ok (codes "{}"), e);
  get_task = λ id e. (task_found (record { is_running = true; archived = false }), e);
}

-- A sandbox that cannot be signalled.
abbrev deaf : Outside Bool
deaf = record one_sandbox { signal = λ h e. (err (text_error (codes "timeout")), e) }

abbrev job : Task
job = record new_task { workspace = codes "go"; command = Task.start }

abbrev old_record : Record
old_record = record { task_id = 7; version = 1; handle = handle }

abbrev boot : List Record → Bool → Runner Bool
boot records on = record {
  options = record {
    server_url = codes "http://s";
    workspaces = (codes "go", record { capabilities = []; secrets = [] }) ∷ [];
  };
  records = records;
  sem = new_semaphore (pos 1);
  supervised = [];
  queue = [];
  awake = false;
  died = false;
  outside = on;
}

abbrev steps : List Step
steps = polls (some (job ∷ [])) ∷ exits 0 (exit_code (pos 137)) ∷ prunes ∷ []

start-Outcome_example :
    Outcome one_sandbox job (boot [] false) (start one_sandbox job (boot [] false))
start-Outcome_example = start-Outcome one_sandbox job (boot [] false)

run-Holds_example :
    Holds 1
      (max 1 (length (load one_sandbox (boot (old_record ∷ []) true)).1.supervised))
      (run one_sandbox steps (load one_sandbox (boot (old_record ∷ []) true)).1)
run-Holds_example =
    run-Holds one_sandbox 1 steps (boot (old_record ∷ []) true) (omega arith) (omega arith) refl
      refl

abbrev watched : Supervision
watched = record { task_id = 7; version = 1; handle = handle }

-- After a restart of version 2 the handling of a sandbox that cannot be signalled takes a slot, and
-- neither launches anything nor gives the slot back.
slot_kept :
    ((handle_restart deaf (record job { version = 2 }) (boot (old_record ∷ []) true)).sem.count
      ≡ pos 1)
    × ((handle_restart deaf (record job { version = 2 }) (boot (old_record ∷ []) true)).supervised
        ≡ [])
unfolding handle_restart gritz.Runner.read gritz.Runner.ask find_record start_in_slot try_acquire
    add_i64 gritz.Runner.kill gritz.Runner.tracked start
slot_kept = (refl, refl)

supervise-restarted_example :
    (events : List RunnerEvent) × ((supervise one_sandbox watched
        (exit_code (pos 137))
        (boot [] false)).queue
      ≡ [] ++ events)
    × All
        (λ e.
          apply_runner_event (restart_task running_task).0 e
          ≡ ((restart_task running_task).0, false))
        events
unfolding restart_task can_restart
supervise-restarted_example =
    supervise-restarted one_sandbox running_task watched (exit_code (pos 137)) (boot [] false)
      (omega arith) refl refl (λ e. omega arith)
