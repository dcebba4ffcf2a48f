-- ===== src/Runner/Starts.antt =====
-- `Start` of internal/runner/runner.go.
use gritz.Prelude.{ℕ, true, Option, none, some, ◌∷◌, codes}
use gritz.Task.{Task}
use gritz.Runner.{
  Runner, gone_error, text_error, Run, Result, ok, err, ◌>>=◌, pure, ask, Outside, Handle, Record,
  SandboxState, state_unknown, state_running, state_exited, state_gone, Supervision, tracked, write,
  remove_record,
}
use gritz.Runner.Specs.{spec, wrap}

abbrev pub record_of : Task → Handle → Record
record_of task h = record { task_id = task.id; version = task.version; handle = h }

abbrev pub supervision_of : Task → Handle → Supervision
supervision_of task h = record { task_id = task.id; version = task.version; handle = h }

module _ {E : Type 0} where
  abbrev pub gone_after : Result (Unit {0}) × Runner E → Result (Unit {0}) × Runner E
  gone_after (_, r) = (err gone_error, r)

  abbrev pub recorded : Task → Handle → Result (Unit {0}) × Runner E → Result (Unit {0}) × Runner E
  recorded task h (ok _, r) = (ok _, record r { supervised = supervision_of task h ∷ r.supervised })
  recorded task h (err e, r) =
      (err (wrap (codes "failed to record task handle") e), record r { died = true })

module _ {E : Type 0} (o : Outside E) where
  unfoldable pub gone : ℕ → Run E (Unit {0})
  gone id r = gone_after (remove_record o id r)

  abbrev pub launched : Task → Result Handle × Runner E → Result (Unit {0}) × Runner E
  launched task (ok h, r) = recorded task h (write o (record_of task h) r)
  launched task (err gone_error, r) = gone task.id r
  launched task (err (text_error t), r) = (err (text_error t), r)

  unfoldable pub launch_with : Task → Option Handle → Run E (Unit {0})
  launch_with task reuse = do s ← spec o task; λ r. launched task (ask (o.launch s reuse) r)

  abbrev pub start_by_state : Task → Handle → SandboxState → Run E (Unit {0})
  start_by_state task h state_running = pure _
  start_by_state task h state_gone = gone task.id
  start_by_state task h state_exited = launch_with task (some h)
  start_by_state task h state_unknown = launch_with task (some h)

  abbrev pub start_from : Task → Option Handle → Run E (Unit {0})
  start_from task none = launch_with task none
  start_from task (some h) = do state ← ask (o.probe h); start_by_state task h state

  unfoldable pub start : Task → Run E (Unit {0})
  start task = do found ← tracked o task.id; start_from task found
