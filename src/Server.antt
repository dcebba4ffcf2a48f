-- ===== src/Server.antt =====
-- The task handlers of the API server (internal/server/apiserver/task.go, runner.go) over the
-- database of Store.antt, with the callers of internal/auth/apiauth. A handler returns `none` for a
-- response and the code of connect for an error. The notification that a transaction's closure
-- fills in is the value of the transaction; times and log lines are left out. The four handlers
-- that apply one method of the task share their text, which `change_task` and `respond` hold once.
pub mod Requests
pub mod Effects
pub mod Replies
pub mod Access
pub mod Reports
pub mod Folding
pub mod Creation
pub mod Births
pub mod Reading
pub mod Links
use gritz.Prelude.{
  ℕ, Bool, true, false, not, ◌&&◌, Option, none, some, List, [], ◌∷◌, ◌++◌, Bytes, codes, bytes_eq,
  length, ◌==◌, if◌then◌else◌,
}
use gritz.Prelude.Decimal.{format_int}
use gritz.Task
use gritz.Task.{
  Task, TaskStatus, RunnerEvent, unspecified, completed, failed, cancelled, label, is_status,
  apply_runner_event, archive, unarchive, cancel, can_start, restart_task, start_task,
  pending_runner,
}
use gritz.Event.{
  Event, LifecycleKind, EventPayload, lifecycle, instruction, user_actor, or_text, lifecycle_event,
  updated, task_archived, unarchived, task_cancelled, restarted,
}
use gritz.Store.{
  Code, Failure, Result, Tx, World, Notification, NotificationResource, permission_denied,
  not_found, internal, coded, no_rows, driver, refused, ok, err, ◌>>=◌, ◌>>◌, pure, check,
  get_task_for_update, update_task, create_event, create_events, commit, with_tx, publish,
}
use gritz.Scope.{Scopes, allow, allow_op, op_task_read, op_task_write, scope_attr}

pub record UserInfo : Type 0 where
  pub id : Bytes
  pub email : Bytes
  pub name : Bytes
  pub org_id : ℕ
  pub type : Bytes
  pub client_id : Bytes
  pub scopes : Scopes

unfoldable pub display_name : UserInfo → Bytes
display_name u = or_text u.name (or_text u.email u.id)

unfoldable pub audit_name : UserInfo → Bytes
unfolding display_name
audit_name u =
    if bytes_eq u.type (codes "key") then display_name u ++ codes " (API key)" else display_name u

-- `connect.CodeOf`, `errors.Is(err, sql.ErrNoRows)` and the rest.
abbrev pub code_of : Failure → Code
code_of (coded c) = c
code_of no_rows = not_found
code_of driver = internal
code_of refused = internal

-- The tail of a handler, after its transaction.
abbrev pub respond : Result Notification × World → Option Code × World
respond (ok n, w) = (none, publish n w)
respond (err e, w) = (some (code_of e), w)

abbrev pub notification : UserInfo → Notification
notification caller = record {
  type = codes "change";
  resources = [];
  org_id = caller.org_id;
  user_id = caller.id;
  client_id = caller.client_id;
  runner = [];
  task_status = unspecified;
  channel_message = [];
  ignore = false;
}

abbrev pub resources_of : Bytes → ℕ → List NotificationResource
resources_of action id =
    record { action = action; type = codes "task"; id = id }
    ∷ record { action = codes "appended"; type = codes "task_events"; id = id }
    ∷ []

-- "Task %d" and what follows it.
abbrev pub about_task : Task → Bytes → Bytes
about_task t rest = codes "Task " ++ format_int t.id ++ rest

-- The lifecycle event that a user's change of `from` into `t` leaves.
abbrev pub user_event : UserInfo → LifecycleKind → List Bytes → Task → Task → Event
user_event caller kind fields from t = record {
  task_id = t.id;
  org_id = t.org_id;
  wake = false;
  payload = lifecycle (record {
    kind = kind;
    actor = user_actor (audit_name caller);
    from_status = label from.status;
    to_status = label t.status;
    message = [];
    fields = fields;
  });
}

abbrev pub task_notification : UserInfo → Bytes → Task → Bytes → Notification
task_notification caller action t message = record (notification caller) {
  runner = pending_runner t;
  resources = resources_of action t.id;
  channel_message = message;
}

-- A handler of a method of the task: the method, the kind of its event, the action and the message
-- of its notification.
pub record Method : Type 0 where
  pub apply : Task → Task × Bool
  pub kind : LifecycleKind
  pub action : Bytes
  pub message : Task → Bytes

-- The closure that the four handlers run, from where the row is loaded, and all of it.
abbrev pub change_row : UserInfo → Method → Task → Tx Notification
change_row caller m t = do
  check (allow caller.scopes op_task_write (scope_attr t)) (coded permission_denied)
  check (m.apply t).1 refused
  update_task (m.apply t).0
  create_event (user_event caller m.kind [] t (m.apply t).0)
  commit
  pure (task_notification caller m.action (m.apply t).0 (m.message (m.apply t).0))

unfoldable pub change_task : UserInfo → ℕ → Method → Tx Notification
change_task caller id m = do t ← get_task_for_update id caller.org_id; change_row caller m t

unfoldable pub archiving : Method
unfolding archive
archiving = record {
  apply = archive;
  kind = task_archived;
  action = codes "archived";
  message = λ t. about_task t (codes " archived.");
}

unfoldable pub unarchiving : Method
unfolding unarchive
unarchiving = record {
  apply = unarchive;
  kind = unarchived;
  action = codes "unarchived";
  message = λ t. [];
}

-- Only a task that is cancelled at once has a message.
unfoldable pub cancelling : Method
unfolding cancel
cancelling = record {
  apply = cancel;
  kind = task_cancelled;
  action = codes "cancelled";
  message = λ t. if is_status t.status cancelled then about_task t (codes " cancelled.") else [];
}

unfoldable pub restarting : Method
unfolding restart_task
restarting = record {
  apply = restart_task;
  kind = restarted;
  action = codes "restarted";
  message = λ t. about_task t (codes " restart requested.");
}

-- The gate before the transaction, which ignores predicates.
abbrev pub gated : UserInfo → List Bytes → World → Option Code × World → Option Code × World
gated caller op w r = if not (allow_op caller.scopes op) then (some permission_denied, w) else r

unfoldable pub archive_task : UserInfo → ℕ → World → Option Code × World
archive_task caller id w =
    gated caller op_task_write w (respond (with_tx (change_task caller id archiving) w))

unfoldable pub unarchive_task : UserInfo → ℕ → World → Option Code × World
unarchive_task caller id w =
    gated caller op_task_write w (respond (with_tx (change_task caller id unarchiving) w))

unfoldable pub cancel_task : UserInfo → ℕ → World → Option Code × World
cancel_task caller id w =
    gated caller op_task_write w (respond (with_tx (change_task caller id cancelling) w))

unfoldable pub restart_task_by_id : UserInfo → ℕ → World → Option Code × World
restart_task_by_id caller id w =
    gated caller op_task_write w (respond (with_tx (change_task caller id restarting) w))
