-- ===== src/Scheduler.antt =====
-- The scheduler (internal/server/scheduler/scheduler.go, with internal/store/schedule.go and its
-- statements): a tick fires each schedule that is due, in one transaction. The clock of the database
-- at the claim, the rows that other transactions hold locked, the clock at each fire, the cron
-- library (`next_run`, nothing where it refuses the cron expression or the timezone; for a schedule
-- that never occurs it answers the zero time, an instant in the past) and the serial ids of new tasks
-- are arguments.
pub mod Firing
pub mod Handlers
pub mod Armed
pub mod Kept
pub mod Calls
pub mod Manual
use gritz.Prelude.{
  ℕ, Bool, true, false, not, ◌&&◌, Option, none, some, List, [], ◌∷◌, ◌++◌, codes, Bytes, ◌==◌, leb,
  take, ◌⊎◌, inl, inr, if◌then◌else◌,
}
use gritz.Prelude.Decimal.{format_int}
use gritz.Task.{Task, unspecified, pending_runner}
use gritz.Schedule.{Schedule, schedule_task, schedule_events}
use gritz.Store.{
  Failure, Result, Tx, World, Notification, ok, err, ◌>>=◌, ◌>>◌, pure, call, create_events, commit,
  with_tx, whole_microseconds,
}
use gritz.Server.{resources_of}
use gritz.Server.Creation.{insert_task}

abbrev pub has_schedule_key : ℕ → ℕ → Schedule → Bool
has_schedule_key id org s = (s.id == id) && (s.org_id == org)

abbrev pub reached : ℕ → Option ℕ → Bool
reached now none = false
reached now (some at) = leb at now

-- WHERE enabled = TRUE AND next_run_at IS NOT NULL AND next_run_at <= NOW()
abbrev pub is_due : ℕ → Schedule → Bool
is_due now s = s.enabled && reached now s.next_run_at

abbrev pub next_at : Option ℕ → ℕ
next_at none = 0
next_at (some at) = at

unfoldable pub insert_due : Schedule → List Schedule → List Schedule
insert_due s [] = s ∷ []
insert_due s (x ∷ xs) =
    let rest = insert_due s xs in
    if leb (next_at s.next_run_at) (next_at x.next_run_at) then s ∷ x ∷ xs else x ∷ rest

-- The rows that are due and not locked, in the order of their instants.
unfoldable pub due_rows : ℕ → (Schedule → Bool) → List Schedule → List Schedule
due_rows now locked [] = []
due_rows now locked (s ∷ rows) =
    let rest = due_rows now locked rows in
    if is_due now s && not (locked s) then insert_due s rest else rest

-- `ClaimDueSchedules`
unfoldable pub claim_due_schedules : ℕ → (Schedule → Bool) → ℕ → Tx (List Schedule)
claim_due_schedules now locked limit = do
  call
  λ c. (ok (take limit (due_rows now locked c.view.schedules)), c)

-- The columns that `UpdateSchedule` sets.
abbrev pub set_schedule : Schedule → Schedule → Schedule
set_schedule s row = record s {
  id = row.id;
  org_id = row.org_id;
  created_by = row.created_by;
  auto_archive = whole_microseconds s.auto_archive;
}

-- The columns that `AdvanceSchedule` sets.
abbrev pub set_advance : ℕ → ℕ → ℕ → Schedule → Schedule
set_advance next last task row = record row {
  next_run_at = some next;
  last_run_at = some last;
  last_task_id = some task;
}

unfoldable pub change_schedules : ℕ → ℕ → (Schedule → Schedule) → List Schedule → List Schedule
change_schedules id org f [] = []
change_schedules id org f (s ∷ rows) =
    (if has_schedule_key id org s then f s else s) ∷ change_schedules id org f rows

unfoldable pub store_schedules : ℕ → ℕ → (Schedule → Schedule) → Tx (Unit {0})
store_schedules id org f = do
  call
  λ c. (
    ok _,
    record c { view = record c.view { schedules = change_schedules id org f c.view.schedules } },
  )

abbrev pub update_schedule : Schedule → Tx (Unit {0})
update_schedule s = store_schedules s.id s.org_id (set_schedule s)

abbrev pub advance_schedule : ℕ → ℕ → ℕ → ℕ → ℕ → Tx (Unit {0})
advance_schedule id org next last task = store_schedules id org (set_advance next last task)

abbrev pub fire_notification : Task → Notification
fire_notification t = record {
  type = codes "change";
  resources = resources_of (codes "created") t.id;
  org_id = t.org_id;
  user_id = [];
  client_id = [];
  runner = pending_runner t;
  task_status = unspecified;
  channel_message =
      codes "Task "
      ++ format_int t.id
      ++ codes " created on "
      ++ t.runner
      ++ codes "/"
      ++ t.workspace
      ++ codes ".";
  ignore = false;
}

-- The schedule as it is disabled when `Next` answers with an error.
abbrev pub disabled : Schedule → ℕ → ℕ → Schedule
disabled s now task = record s {
  enabled = false;
  next_run_at = none;
  last_run_at = some now;
  last_task_id = some task;
}

abbrev pub moved_on : Schedule → ℕ → ℕ → Option ℕ → Tx (Unit {0})
moved_on s now task none = update_schedule (disabled s now task)
moved_on s now task (some next) = advance_schedule s.id s.org_id next now task

module _ (clock : Schedule → ℕ) (next_run : Schedule → ℕ → Option ℕ) (new_id : List Task → ℕ) where
  abbrev pub fire_as : Schedule → Task → Tx Notification
  fire_as s t = do
    create_events (schedule_events s t)
    moved_on s (clock s) t.id (next_run s (clock s))
    pure (fire_notification t)

  -- `Fire` and the rest of `fire`.
  unfoldable pub fire : Schedule → Tx Notification
  fire s = do t ← λ c. insert_task (new_id c.view.tasks) (schedule_task s) c; fire_as s t

  unfoldable pub fire_each : List Schedule → Tx (List Notification)
  fire_each [] = pure []
  fire_each (s ∷ due) = do n ← fire s; rest ← fire_each due; pure (n ∷ rest)

  unfoldable pub tick_tx : ℕ → (Schedule → Bool) → ℕ → Tx (List Notification)
  tick_tx now locked limit = do
    due ← claim_due_schedules now locked limit
    notifications ← fire_each due
    commit
    pure notifications

  abbrev pub published_all : Result (List Notification) × World → (Failure ⊎ Unit {0}) × World
  published_all (ok notes, w) = (inr _, record w { published = w.published ++ notes })
  published_all (err e, w) = (inl e, w)

  unfoldable pub tick : ℕ → (Schedule → Bool) → ℕ → World → (Failure ⊎ Unit {0}) × World
  tick now locked limit w = published_all (with_tx (tick_tx now locked limit) w)
