-- ===== src/Task/Runs.antt =====
-- The life of a task: any sequence of the user's actions and of the runner's events, from a task
-- as it is created.
use gritz.Prelude.{◌≡◌, refl, ◌∙◌, ◌≢◌, ◌⊎◌, All, Bool, true, false, List, [], ◌∷◌, arith}
use gritz.Task.{
  TaskStatus, TaskCommand, Task, RunnerEvent, unspecified, pending, running, restarting, cancelling,
  completed, failed, cancelled, draft, no_command, restart, stop, start, apply_runner_event,
  archive, unarchive, cancel, restart_task, start_task,
}

pub data Action : Type 0 where
  reports : RunnerEvent → Action
  cancels restarts starts archives unarchives : Action

-- One action on the task, with the result that the method returns.
unfoldable pub act : Task → Action → Task × Bool
unfolding apply_runner_event cancel restart_task start_task archive unarchive
act t (reports e) = apply_runner_event t e
act t cancels = cancel t
act t restarts = restart_task t
act t starts = start_task t
act t archives = archive t
act t unarchives = unarchive t

unfoldable pub run : Task → List Action → Task
run t [] = t
run t (a ∷ rest) = run (act t a).0 rest

-- A task as `CreateTask`, the scheduler and the router make it: a first run that is provisioned,
-- or a draft that never ran.
abbrev pub IsNew : Task → Type 0
IsNew t =
    (t.archived ≡ false)
    × (((t.status ≡ pending) × (t.command ≡ start) × (t.version ≡ 1))
        ⊎ ((t.status ≡ draft) × (t.command ≡ no_command) × (t.version ≡ 0)))

-- Which command may be pending in which status.
abbrev pub Fits : TaskStatus → TaskCommand → Type 0
Fits unspecified c = ⊥
Fits pending c = (c ≡ start) ⊎ (c ≡ restart)
Fits running c = (c ≡ no_command) ⊎ (c ≡ start)
Fits restarting c = c ≡ restart
Fits cancelling c = c ≡ stop
Fits completed c = c ≡ no_command
Fits failed c = c ≡ no_command
Fits cancelled c = c ≡ no_command
Fits draft c = c ≡ no_command

-- The statuses in which an archived task can be.
abbrev pub Parked : TaskStatus → Type 0
Parked pending = ⊥
Parked running = ⊥
Parked restarting = ⊥
Parked unspecified = ⊥
Parked _ = Unit {0}

pub record Coherent (t : Task) : Type 0 where
  pub fits : Fits t.status t.command
  pub parked : t.archived ≡ true → Parked t.status

pub act-Coherent : (t : Task) (a : Action) → Coherent t → Coherent (act t a).0
unfolding act
act-Coherent t a h = ground arith

IsNew-Coherent : (t : Task) → IsNew t → Coherent t
IsNew-Coherent t h = ground arith

run-keeps : (t : Task) (actions : List Action) → Coherent t → Coherent (run t actions)
unfolding run
run-keeps t [] h = h
run-keeps t (a ∷ rest) h = run-keeps (act t a).0 rest (act-Coherent t a h)

-- From a task as it is created, whatever users do and the runner reports, in any order: the pending
-- command always fits the status (so a terminal or draft task asks nothing of the runner, and a
-- running task never holds the stop command), and an archived task is terminal, a draft, or being
-- cancelled.
pub run-Coherent : (t : Task) (actions : List Action) → IsNew t → Coherent (run t actions)
run-Coherent t actions h = run-keeps t actions (IsNew-Coherent t h)

-- An action whose method returns false leaves the task as it was, for every action and every task.
act_refused : (t : Task) (a : Action) → (act t a).1 ≡ false → (act t a).0 ≡ t
unfolding act
act_refused t a h = ground arith

act-archived :
    (t : Task) (a : Action)
    → Coherent t
    → t.archived ≡ true
    → a ≢ unarchives
    → ((act t a).0.archived ≡ true) × ((act t a).0.version ≡ t.version)
unfolding act
act-archived t a c h n = ground arith

-- An archived task, however it is acted on while nobody unarchives it, stays archived, is never
-- provisioned for another run (its version stays), and is terminal, a draft, or being cancelled.
pub run-archived :
    (t : Task) (actions : List Action)
    → Coherent t
    → t.archived ≡ true
    → All (λ a. a ≢ unarchives) actions
    → ((run t actions).archived ≡ true)
      × ((run t actions).version ≡ t.version)
      × Parked (run t actions).status
unfolding run
run-archived t [] c h n = (h, refl, c.parked h)
run-archived t (a ∷ rest) c h n =
    let (still, version) = act-archived t a c h n.0 in
    let (archived', version', parked) =
      run-archived (act t a).0 rest (act-Coherent t a c) still n.1 in
    (archived', version' ∙ version, parked)
