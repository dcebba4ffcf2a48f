-- ===== src/Server/Reports.antt =====
-- The handler of runner events (internal/server/apiserver/runner.go): one transaction for each
-- event of the batch, up to the first that fails.
use gritz.Prelude.{Bool, true, not, Option, none, some, List, [], ◌∷◌, Bytes, codes, if◌then◌else◌}
use gritz.Task.{
  Task, TaskStatus, RunnerEvent, unspecified, completed, failed, cancelled, apply_runner_event,
  pending_runner,
}
use gritz.Event.{Event, lifecycle_event}
use gritz.Store.{
  Code, Tx, World, Notification, permission_denied, coded, ◌>>=◌, ◌>>◌, pure, check,
  get_task_for_update, update_task, create_events, commit, with_tx,
}
use gritz.Scope.{allow, op_task_write, scope_attr}
use gritz.Server.{UserInfo, respond, gated, notification, resources_of, about_task}

-- The two fields that the `switch` on the status sets.
abbrev pub outcome_status : TaskStatus → TaskStatus
outcome_status completed = completed
outcome_status failed = failed
outcome_status cancelled = cancelled
outcome_status _ = unspecified

abbrev pub outcome_message : TaskStatus → Task → Bytes
outcome_message completed t = about_task t (codes " completed.")
outcome_message failed t = about_task t (codes " failed.")
outcome_message cancelled t = about_task t (codes " cancelled.")
outcome_message _ t = []

abbrev pub report_notification : UserInfo → RunnerEvent → Notification
report_notification caller e = record (notification caller) {
  resources = resources_of (codes "updated") e.task_id;
}

abbrev pub applied_notification : UserInfo → RunnerEvent → Task → Notification
applied_notification caller e t = record (report_notification caller e) {
  runner = pending_runner t;
  task_status = outcome_status t.status;
  channel_message = outcome_message t.status t;
}

-- The event of `if ev, ok := …; ok { … }`.
abbrev pub if_some : Option Event → List Event
if_some none = []
if_some (some e) = e ∷ []

-- From where the event has been folded into the row.
abbrev pub report_applied : UserInfo → RunnerEvent → Task → Task → Tx Notification
report_applied caller e original t = do
  update_task t
  create_events (if_some (lifecycle_event e t original.status))
  commit
  pure (applied_notification caller e t)

abbrev pub report_if_applied : UserInfo → RunnerEvent → Task → Task → Bool → Tx Notification
report_if_applied caller e original t applied =
    if not applied
    then pure (record (report_notification caller e) { ignore = true })
    else report_applied caller e original t

abbrev pub report_row : UserInfo → RunnerEvent → Task → Tx Notification
report_row caller e t = do
  check (allow caller.scopes op_task_write (scope_attr t)) (coded permission_denied)
  report_if_applied caller e t (apply_runner_event t e).0 (apply_runner_event t e).1

unfoldable pub report_tx : UserInfo → RunnerEvent → Tx Notification
report_tx caller e = do t ← get_task_for_update e.task_id caller.org_id; report_row caller e t

-- The loop goes on after a transaction without an error.
abbrev pub continue_with : (World → Option Code × World) → Option Code × World → Option Code × World
continue_with rest (none, w) = rest w
continue_with rest (some c, w) = (some c, w)

unfoldable pub submit_each : UserInfo → List RunnerEvent → World → Option Code × World
submit_each caller [] w = (none, w)
submit_each caller (e ∷ events) w =
    continue_with (submit_each caller events) (respond (with_tx (report_tx caller e) w))

unfoldable pub submit_runner_events : UserInfo → List RunnerEvent → World → Option Code × World
unfolding submit_each
submit_runner_events caller events w = gated caller op_task_write w (submit_each caller events w)
