-- ===== src/Task.antt =====
-- The task state machine (internal/model/task.go). A method that mutates `*Task` returns the new
-- record beside its result. `Version` and `AutoArchive` are int64 and `time.Duration`: the record
-- holds their 64-bit patterns, which `Version++` increments modulo 2 ^ 64.
pub mod Versions
pub mod Runs
pub mod Progress
use gritz.Prelude.{
  ℕ, ◌+◌, ◌%◌, ◌^◌, Bool, true, false, not, ◌&&◌, ◌||◌, Option, none, some, Bytes, codes, ◌==◌,
  if◌then◌else◌, [],
}

pub data TaskStatus : Type 0 where
  unspecified pending running restarting cancelling completed failed cancelled draft : TaskStatus

pub data TaskCommand : Type 0 where
  no_command restart stop start : TaskCommand

-- The equality tests of the two enumerations.
abbrev pub is_status : TaskStatus → TaskStatus → Bool
is_status unspecified unspecified = true
is_status pending pending = true
is_status running running = true
is_status restarting restarting = true
is_status cancelling cancelling = true
is_status completed completed = true
is_status failed failed = true
is_status cancelled cancelled = true
is_status draft draft = true
is_status _ _ = false

abbrev pub is_command : TaskCommand → TaskCommand → Bool
is_command no_command no_command = true
is_command restart restart = true
is_command stop stop = true
is_command start start = true
is_command _ _ = false

pub record Task : Type 0 where
  pub id : ℕ
  pub name : Bytes
  pub runner : Bytes
  pub workspace : Bytes
  pub status : TaskStatus
  pub command : TaskCommand
  pub version : ℕ
  pub org_id : ℕ
  pub archived : Bool
  pub namespace : Bytes
  pub auto_archive : ℕ
  pub shell_session : Bytes

-- `t.Version++`
abbrev pub next_version : ℕ → ℕ
next_version v = (v + 1) % 2 ^ 64

-- The names that `stringer` gives the statuses, with the empty text for the zero one.
unfoldable pub label : TaskStatus → Bytes
label unspecified = []
label pending = codes "Pending"
label running = codes "Running"
label restarting = codes "Restarting"
label cancelling = codes "Cancelling"
label completed = codes "Completed"
label failed = codes "Failed"
label cancelled = codes "Cancelled"
label draft = codes "Draft"

unfoldable pub is_terminal : TaskStatus → Bool
is_terminal s = is_status s completed || is_status s failed || is_status s cancelled

pub data RunnerEventType : Type 0 where
  started stopped failure : RunnerEventType
  other : Bytes → RunnerEventType

pub record RunnerEvent : Type 0 where
  pub task_id : ℕ
  pub event : RunnerEventType
  pub version : ℕ
  pub reconcile : Bool
  pub reason : Bytes

started_by_status : TaskStatus → Task → Task × Bool
started_by_status pending t =
    if is_command t.command restart || is_command t.command start
    then (record t { status = running; command = no_command }, true)
    else (t, false)
started_by_status restarting t =
    if is_command t.command restart || is_command t.command start
    then (record t { status = running; command = no_command }, true)
    else (t, false)
started_by_status running t =
    if is_command t.command restart || is_command t.command start
    then (record t { status = running; command = no_command }, true)
    else (t, false)
started_by_status cancelled t = (record t { status = cancelling; command = stop }, true)
started_by_status _ t = (t, false)

unfoldable pub apply_runner_event_started : Task → Task × Bool
unfolding started_by_status
apply_runner_event_started t =
    if t.archived
    then (record t { status = cancelling; command = stop }, true)
    else started_by_status t.status t

stopped_by_status : TaskStatus → Task → Task × Bool
stopped_by_status running t =
    if is_command t.command stop
    then (record t { status = cancelled; command = no_command }, true)
    else if is_command t.command start
    then (record t { status = pending; version = next_version t.version }, true)
    else if is_command t.command no_command
    then (record t { status = completed }, true)
    else (t, false)
stopped_by_status cancelling t =
    if is_command t.command stop
    then (record t { status = cancelled; command = no_command }, true)
    else (t, false)
stopped_by_status _ t = (t, false)

unfoldable pub apply_runner_event_stopped : Task → Task × Bool
unfolding stopped_by_status
apply_runner_event_stopped t = stopped_by_status t.status t

failed_by_status : TaskStatus → Task → Task × Bool
failed_by_status pending t = (record t { status = failed; command = no_command }, true)
failed_by_status restarting t = (record t { status = failed; command = no_command }, true)
failed_by_status running t = (record t { status = failed; command = no_command }, true)
failed_by_status cancelling t = (record t { status = failed; command = no_command }, true)
failed_by_status _ t = (t, false)

unfoldable pub apply_runner_event_failed : Task → Task × Bool
unfolding failed_by_status
apply_runner_event_failed t = failed_by_status t.status t

-- The `switch` of `ApplyRunnerEvent`.
apply_kind : RunnerEventType → Task → Task × Bool
unfolding apply_runner_event_started apply_runner_event_stopped apply_runner_event_failed
apply_kind started t = apply_runner_event_started t
apply_kind stopped t = apply_runner_event_stopped t
apply_kind failure t = apply_runner_event_failed t
apply_kind (other _) t = (t, false)

unfoldable pub apply_runner_event : Task → RunnerEvent → Task × Bool
unfolding apply_kind
apply_runner_event t e =
    if e.reconcile
    then (t, false)
    else if not (e.version == 0) && not (e.version == t.version)
    then (t, false)
    else apply_kind e.event t

unfoldable pub is_done : Task → Bool
unfolding is_terminal
is_done t = is_terminal t.status

unfoldable pub can_archive : Task → Bool
unfolding is_done
can_archive t =
    if t.archived || not (is_command t.command no_command)
    then false
    else is_done t || is_status t.status draft

unfoldable pub archive : Task → Task × Bool
unfolding can_archive
archive t = if not (can_archive t) then (t, false) else (record t { archived = true }, true)

unfoldable pub can_unarchive : Task → Bool
can_unarchive t = t.archived

unfoldable pub unarchive : Task → Task × Bool
unfolding can_unarchive
unarchive t =
    if not (can_unarchive t)
    then (t, false)
    else (record t { archived = false; auto_archive = 0 }, true)

abbrev cancel_status : TaskStatus → Bool
cancel_status running = true
cancel_status restarting = true
cancel_status pending = true
cancel_status _ = false

unfoldable pub can_cancel : Task → Bool
can_cancel t = if t.archived then false else cancel_status t.status

cancel_by_status : TaskStatus → Task → Task
cancel_by_status running t = record t { status = cancelling; command = stop }
cancel_by_status restarting t = record t { status = cancelling; command = stop }
cancel_by_status pending t = record t { status = cancelled; command = no_command }
cancel_by_status _ t = t

unfoldable pub cancel : Task → Task × Bool
unfolding can_cancel cancel_by_status
cancel t = if not (can_cancel t) then (t, false) else (cancel_by_status t.status t, true)

abbrev restart_status : TaskStatus → Bool
restart_status running = true
restart_status completed = true
restart_status failed = true
restart_status cancelled = true
restart_status _ = false

unfoldable pub can_restart : Task → Bool
can_restart t = if t.archived then false else restart_status t.status

-- `Restart` of the source; the name of the command is taken.
unfoldable pub restart_task : Task → Task × Bool
unfolding can_restart
restart_task t = if not (can_restart t) then (t, false) else (
  record t {
    status = if is_status t.status running then restarting else pending;
    command = restart;
    version = next_version t.version;
  },
  true,
)

abbrev start_status : TaskStatus → Bool
start_status running = true
start_status completed = true
start_status failed = true
start_status cancelled = true
start_status draft = true
start_status _ = false

unfoldable pub can_start : Task → Bool
can_start t = if t.archived then false else start_status t.status

-- `Start` of the source.
unfoldable pub start_task : Task → Task × Bool
unfolding can_start
start_task t =
    if not (can_start t)
    then (t, false)
    else if not (is_status t.status running)
    then (record t { status = pending; version = next_version t.version; command = start }, true)
    else (record t { command = start }, true)

unfoldable pub pending_runner : Task → Bytes
pending_runner t = if is_command t.command no_command || t.archived then [] else t.runner
