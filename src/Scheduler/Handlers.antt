-- ===== src/Scheduler/Handlers.antt =====
-- The handlers of internal/server/apiserver/schedule.go that change something. Whether a schedule is
-- valid (`Validate`) and its next occurrence from the handler's clock on (`Next`) come from the cron
-- library, and are arguments as they are for the scheduler; so are the workspaces that runners
-- registered and the serial ids.
use gritz.Prelude.{
  ℕ, Bool, true, false, not, Option, none, some, List, [], ◌∷◌, ◌++◌, Bytes, codes, ◌⊎◌, inl, inr,
  if◌then◌else◌,
}
use gritz.Task.{Task}
use gritz.Event.{or_text}
use gritz.Schedule.{Schedule, schedule_task, schedule_events}
use gritz.Store.{
  Code, Result, Tx, World, Conn, Notification, ok, err, ◌>>=◌, ◌>>◌, pure, fail, call, check, coded,
  create_events, commit, with_tx, publish, read_only, no_rows, permission_denied, not_found,
  invalid_argument, internal, whole_microseconds,
}
use gritz.Scope.{allow, allow_op, op_task_create, op_task_write, with_task_archived, Attr}
use gritz.Server.{UserInfo, notification, code_of}
use gritz.Server.Creation.{
  Workspace, has_workspace, insert_task, with_task_workspace, with_task_runner,
}
use gritz.Scheduler.{has_schedule_key, update_schedule, fire_notification}

-- WHERE id = $1 AND org_id = $2
unfoldable pub find_schedule : ℕ → ℕ → List Schedule → Option Schedule
find_schedule id org [] = none
find_schedule id org (s ∷ rows) =
    if has_schedule_key id org s then some s else find_schedule id org rows

abbrev pub one_schedule : Option Schedule → Tx Schedule
one_schedule none c = (err no_rows, c)
one_schedule (some s) c = (ok s, c)

-- `GetSchedule`, and `GetScheduleForUpdate`, which locks the row too.
unfoldable pub get_schedule : ℕ → ℕ → Tx Schedule
get_schedule id org = do call; λ c. one_schedule (find_schedule id org c.view.schedules) c

unfoldable pub delete_rows : ℕ → ℕ → List Schedule → List Schedule
delete_rows id org [] = []
delete_rows id org (s ∷ rows) =
    let rest = delete_rows id org rows in if has_schedule_key id org s then rest else s ∷ rest

unfoldable pub delete_schedule : ℕ → ℕ → Tx (Unit {0})
delete_schedule id org = do
  call
  λ c. (ok _, record c { view = record c.view { schedules = delete_rows id org c.view.schedules } })

-- `CreateSchedule`: the row gets its id.
unfoldable pub insert_schedule : (List Schedule → ℕ) → Schedule → Tx Schedule
insert_schedule new_id s = do
  call
  λ c.
      let s' = record s { id = new_id c.view.schedules } in
      let row = record s' { auto_archive = whole_microseconds s.auto_archive } in
      (ok s', record c { view = record c.view { schedules = c.view.schedules ++ row ∷ [] } })

module _ {ℓ} {A : Type ℓ} where
  abbrev pub kept : World → Result A × Conn → Result A × World
  kept w (ok a, c) = (ok a, record w { tables = c.view; answers = c.answers })
  kept w (err e, c) = (err e, record w { answers = c.answers })

  -- One statement without a transaction of its own.
  unfoldable pub execute : Tx A → World → Result A × World
  execute statement w =
      kept w (statement (record { view = w.tables; stored = none; answers = w.answers }))

  -- The tail of a handler: the notification that a result is announced by.
  abbrev pub announce : (A → Notification) → Result A × World → (Code ⊎ A) × World
  announce note (ok a, w) = (inr a, publish (note a) w)
  announce note (err e, w) = (inl (code_of e), w)

abbrev pub schedule_note : UserInfo → Bytes → ℕ → Notification
schedule_note caller action id = record (notification caller) {
  resources = record { action = action; type = codes "schedule"; id = id } ∷ [];
}

-- The template that a request to create or update carries; `id` and `enabled` are each read by one of
-- the two.
pub record ScheduleRequest : Type 0 where
  pub id : ℕ
  pub name : Bytes
  pub workspace : Bytes
  pub runner : Bytes
  pub namespace : Bytes
  pub instructions : List (Bytes × Bytes)
  pub cron_expr : Bytes
  pub timezone : Bytes
  pub enabled : Bool
  pub auto_archive : Option ℕ

abbrev pub duration_or_zero : Option ℕ → ℕ
duration_or_zero none = 0
duration_or_zero (some d) = d

-- The scope of a create on the target of a schedule.
abbrev pub target_attrs : Bytes → Bytes → List Attr
target_attrs workspace runner =
    with_task_workspace workspace ∷ with_task_runner runner ∷ with_task_archived false ∷ []

abbrev pub new_schedule : UserInfo → ScheduleRequest → Schedule
new_schedule caller req = record {
  id = 0;
  org_id = caller.org_id;
  created_by = caller.id;
  name = req.name;
  workspace = req.workspace;
  runner = req.runner;
  namespace = req.namespace;
  instructions = req.instructions;
  auto_archive = duration_or_zero req.auto_archive;
  cron_expr = req.cron_expr;
  timezone = or_text req.timezone (codes "UTC");
  enabled = req.enabled;
  next_run_at = none;
  last_run_at = none;
  last_task_id = none;
}

abbrev pub edited_schedule : ScheduleRequest → Schedule → Schedule
edited_schedule req s = record s {
  name = req.name;
  workspace = req.workspace;
  runner = req.runner;
  namespace = req.namespace;
  instructions = req.instructions;
  cron_expr = req.cron_expr;
  timezone = or_text req.timezone (codes "UTC");
  auto_archive = duration_or_zero req.auto_archive;
}

module _ (is_valid : Schedule → Bool) (next_run : Schedule → ℕ → Option ℕ) (now : ℕ) where
  abbrev pub aligned_at : Schedule → Option ℕ → Tx Schedule
  aligned_at s none = fail (coded invalid_argument)
  aligned_at s (some n) = pure (record s { next_run_at = some n })

  -- An enabled schedule is aligned to its next occurrence.
  abbrev pub aligned : Bool → Schedule → Tx Schedule
  aligned true s = aligned_at s (next_run s now)
  aligned false s = pure s

  unfoldable pub update_tx : UserInfo → ScheduleRequest → Tx Schedule
  update_tx caller req = do
    s ← get_schedule req.id caller.org_id
    check (is_valid (edited_schedule req s)) (coded invalid_argument)
    s' ← aligned s.enabled (edited_schedule req s)
    update_schedule s'
    commit
    pure s'

  abbrev pub toggled : Bool → Schedule → Schedule
  toggled true s = record s { enabled = true }
  toggled false s = record s { enabled = false; next_run_at = none }

  unfoldable pub enable_tx : UserInfo → ℕ → Bool → Tx Schedule
  enable_tx caller id enabled = do
    s ← get_schedule id caller.org_id
    s' ← aligned enabled (toggled enabled s)
    update_schedule s'
    commit
    pure s'

  -- After the look for the workspace.
  abbrev pub if_workspace :
      Bool
      → Result (Unit {0}) × World
      → (World → (Code ⊎ Schedule) × World)
      → (Code ⊎ Schedule) × World
  if_workspace found (err e, w) k = (inl internal, w)
  if_workspace found (ok _, w) k = if not found then (inl not_found, w) else k w

  -- The gate on the target, and the look.
  abbrev pub on_target :
      UserInfo
      → List Workspace
      → ScheduleRequest
      → (World → (Code ⊎ Schedule) × World)
      → World
      → (Code ⊎ Schedule) × World
  on_target caller workspaces req k w =
      if not (allow caller.scopes op_task_create (target_attrs req.workspace req.runner))
      then (inl permission_denied, w)
      else if_workspace (has_workspace workspaces req.runner req.workspace caller.org_id)
          (read_only call w) k

  unfoldable pub update_schedule_by :
      UserInfo → List Workspace → ScheduleRequest → World → (Code ⊎ Schedule) × World
  update_schedule_by caller workspaces req w =
      on_target caller workspaces req
        (λ w'.
          announce (λ (s : Schedule). schedule_note caller (codes "updated") s.id)
            (with_tx (update_tx caller req) w'))
        w

  unfoldable pub set_schedule_enabled : UserInfo → ℕ → Bool → World → (Code ⊎ Schedule) × World
  set_schedule_enabled caller id enabled w =
      if not (allow caller.scopes op_task_write [])
      then (inl permission_denied, w)
      else announce (λ (s : Schedule). schedule_note caller (codes "updated") s.id)
          (with_tx (enable_tx caller id enabled) w)

  -- `CreateSchedule`, after the look: the checks come before the one statement.
  abbrev pub create_valid : (List Schedule → ℕ) → UserInfo → ScheduleRequest → Tx Schedule
  create_valid new_id caller req = do
    check (is_valid (new_schedule caller req)) (coded invalid_argument)
    s ← aligned req.enabled (new_schedule caller req)
    insert_schedule new_id s

  unfoldable pub create_schedule_by :
      (List Schedule → ℕ)
      → UserInfo
      → List Workspace
      → ScheduleRequest
      → World
      → (Code ⊎ Schedule) × World
  create_schedule_by new_id caller workspaces req w =
      on_target caller workspaces req
        (λ w'.
          announce (λ (s : Schedule). schedule_note caller (codes "created") s.id)
            (execute (create_valid new_id caller req) w'))
        w

unfoldable pub delete_schedule_by : UserInfo → ℕ → World → (Code ⊎ Unit {0}) × World
delete_schedule_by caller id w =
    if not (allow caller.scopes op_task_write [])
    then (inl permission_denied, w)
    else announce (λ (u : Unit {0}). schedule_note caller (codes "deleted") id)
        (execute (delete_schedule id caller.org_id) w)

-- `RunSchedule`: the schedule's task and its events, as `Fire` makes them.
unfoldable pub run_tx : (List Task → ℕ) → UserInfo → ℕ → Tx Task
run_tx new_id caller id = do
  s ← get_schedule id caller.org_id
  check (allow caller.scopes op_task_create (target_attrs s.workspace s.runner))
      (coded permission_denied)
  t ← λ c. insert_task (new_id c.view.tasks) (schedule_task s) c
  create_events (schedule_events s t)
  commit
  pure t

unfoldable pub run_schedule : (List Task → ℕ) → UserInfo → ℕ → World → (Code ⊎ Task) × World
run_schedule new_id caller id w =
    if not (allow_op caller.scopes op_task_create)
    then (inl permission_denied, w)
    else announce
        (λ (t : Task). record (fire_notification t) {
          user_id = caller.id;
          client_id = caller.client_id;
        })
        (with_tx (run_tx new_id caller id) w)
