-- ===== src/Server/Requests.antt =====
-- The handlers of task.go that read a task and that update its fields, and the five handlers that
-- write tasks as one operation on requests.
use gritz.Prelude.{
  ℕ, Bool, true, false, not, ◌&&◌, Option, none, some, List, [], ◌∷◌, ◌++◌, map, Bytes, codes,
  length, ◌==◌, ◌⊎◌, inl, inr, if◌then◌else◌,
}
use gritz.Task.{Task, can_start, start_task}
use gritz.Event.{Event, instruction, updated}
use gritz.Store.{
  Code, Result, Tx, World, Notification, permission_denied, coded, ok, err, ◌>>=◌, ◌>>◌, pure,
  check, get_task, get_task_for_update, update_task, create_event, create_events, commit, with_tx,
}
use gritz.Scope.{allow, allow_op, op_task_read, op_task_write, scope_attr}
use gritz.Server.{
  UserInfo, code_of, respond, gated, user_event, about_task, task_notification, archive_task,
  unarchive_task, cancel_task, restart_task_by_id,
}

-- The check of the row that was read.
abbrev pub shown : UserInfo → Result Task × World → (Code ⊎ Task) × World
shown caller (err e, w) = (inl (code_of e), w)
shown caller (ok t, w) =
    if not (allow caller.scopes op_task_read (scope_attr t))
    then (inl permission_denied, w)
    else (inr t, w)

unfoldable pub get_task_by_id : UserInfo → ℕ → World → (Code ⊎ Task) × World
unfolding get_task
get_task_by_id caller id w =
    if not (allow_op caller.scopes op_task_read)
    then (inl permission_denied, w)
    else shown caller (get_task id caller.org_id w)

pub record UpdateTaskRequest : Type 0 where
  pub id : ℕ
  pub name : Bytes
  pub add_instructions : List (Bytes × Bytes)
  pub start : Bool
  pub auto_archive : Option ℕ

-- `req.Name` where it is not empty.
abbrev pub renamed : UpdateTaskRequest → Task → Task
renamed req t = if length req.name == 0 then t else record t { name = req.name }

-- One event for an added instruction; it wakes only if this update starts the task.
abbrev pub instruction_event : UpdateTaskRequest → Task → Bytes × Bytes → Event
instruction_event req t (text, url) = record {
  task_id = t.id;
  org_id = t.org_id;
  wake = req.start && can_start t;
  payload = instruction text url;
}

abbrev pub with_start : Bool → Task → Task
with_start true t = (start_task t).0
with_start false t = t

abbrev pub with_auto_archive : Option ℕ → Task → Task
with_auto_archive none t = t
with_auto_archive (some d) t = record t { auto_archive = d }

abbrev pub edited : UpdateTaskRequest → Task → Task
edited req t = with_auto_archive req.auto_archive (with_start req.start (renamed req t))

abbrev pub auto_archive_field : Option ℕ → List Bytes
auto_archive_field none = []
auto_archive_field (some d) = codes "auto_archive" ∷ []

-- The names that `changed` collects, in its order.
abbrev pub changed : UpdateTaskRequest → List Bytes
changed req =
    (if length req.name == 0 then [] else codes "name" ∷ [])
    ++ map (λ inst. codes "instructions") req.add_instructions
    ++ (if req.start then codes "status" ∷ [] else [])
    ++ auto_archive_field req.auto_archive

-- `strings.Join(names, ", ")`
abbrev pub join : List Bytes → Bytes
join [] = []
join (s ∷ []) = s
join (s ∷ more ∷ names) = s ++ codes ", " ++ join (more ∷ names)

abbrev pub update_message : UpdateTaskRequest → Task → Bytes
update_message req t =
    if req.start then about_task t (codes " queued: " ++ join (changed req) ++ codes ".") else []

abbrev pub instruction_events : UpdateTaskRequest → Task → List Event
instruction_events req t = map (instruction_event req (renamed req t)) req.add_instructions

-- The closure of `UpdateTask`, from where the row is loaded, and all of it.
abbrev pub update_row : UserInfo → UpdateTaskRequest → Task → Tx Notification
update_row caller req t = do
  check (allow caller.scopes op_task_write (scope_attr t)) (coded permission_denied)
  create_events (instruction_events req t)
  update_task (edited req t)
  create_event (user_event caller updated (changed req) t (edited req t))
  commit
  pure (
      task_notification caller (codes "updated") (edited req t) (update_message req (edited req t)))

unfoldable pub update_task_tx : UserInfo → UpdateTaskRequest → Tx Notification
update_task_tx caller req = do t ← get_task_for_update req.id caller.org_id; update_row caller req t

unfoldable pub update_task_by_id : UserInfo → UpdateTaskRequest → World → Option Code × World
update_task_by_id caller req w =
    gated caller op_task_write w (respond (with_tx (update_task_tx caller req) w))

pub data WriteRequest : Type 0 where
  archives unarchives cancels restarts : ℕ → WriteRequest
  updates : UpdateTaskRequest → WriteRequest

unfoldable pub serve : UserInfo → WriteRequest → World → Option Code × World
unfolding archive_task unarchive_task cancel_task restart_task_by_id update_task_by_id
serve caller (archives id) w = archive_task caller id w
serve caller (unarchives id) w = unarchive_task caller id w
serve caller (cancels id) w = cancel_task caller id w
serve caller (restarts id) w = restart_task_by_id caller id w
serve caller (updates req) w = update_task_by_id caller req w
