-- ===== src/Server/Creation.antt =====
-- CreateTask of internal/server/apiserver/task.go. The workspaces that runners registered, and the
-- serial id that the database gives the new row, are arguments.
use gritz.Prelude.{
  ℕ, Bool, true, false, not, ◌&&◌, ◌||◌, Option, none, List, [], ◌∷◌, ◌++◌, map, Bytes, codes,
  bytes_eq, ◌==◌, ◌⊎◌, inl, inr, if◌then◌else◌,
}
use gritz.Task.{Task, unspecified, pending, draft, start, no_command, pending_runner}
use gritz.Event.{Event, instruction, created}
use gritz.Store.{
  Code, Result, Tx, World, Notification, permission_denied, not_found, internal, ok, err, ◌>>=◌,
  ◌>>◌, pure, call, create_event, create_events, commit, with_tx, publish, whole_microseconds, Conn,
}
use gritz.Scope.{Attr, allow, op_task_create, with_task_archived}
use gritz.Server.{UserInfo, user_event, notification, resources_of, about_task}
use gritz.Server.Requests.{with_auto_archive}

abbrev pub with_task_workspace : Bytes → Attr
with_task_workspace workspace = record { name = codes "task.workspace"; value = workspace }

abbrev pub with_task_runner : Bytes → Attr
with_task_runner runner = record { name = codes "task.runner"; value = runner }

pub record CreateTaskRequest : Type 0 where
  pub name : Bytes
  pub runner : Bytes
  pub workspace : Bytes
  pub namespace : Bytes
  pub instructions : List (Bytes × Bytes)
  pub is_draft : Bool
  pub auto_archive : Option ℕ

pub record Workspace : Type 0 where
  pub runner_id : Bytes
  pub name : Bytes
  pub org_id : ℕ

unfoldable pub has_workspace : List Workspace → Bytes → Bytes → ℕ → Bool
has_workspace [] runner name org = false
has_workspace (x ∷ xs) runner name org =
    (bytes_eq x.runner_id runner && bytes_eq x.name name && (x.org_id == org))
    || has_workspace xs runner name org

abbrev pub first_task : UserInfo → CreateTaskRequest → Task
first_task caller req = record {
  id = 0;
  name = req.name;
  runner = req.runner;
  workspace = req.workspace;
  status = if req.is_draft then draft else pending;
  command = if req.is_draft then no_command else start;
  version = if req.is_draft then 0 else 1;
  org_id = caller.org_id;
  archived = false;
  namespace = req.namespace;
  auto_archive = 0;
  shell_session = [];
}

-- The task before it is stored; its `AutoArchive` is the request's where there is one.
abbrev pub new_task : UserInfo → CreateTaskRequest → Task
new_task caller req = with_auto_archive req.auto_archive (first_task caller req)

-- The row that is inserted.
abbrev pub inserted : ℕ → Task → Task
inserted id t = record t { id = id; auto_archive = whole_microseconds t.auto_archive }

-- `Store.CreateTask`: the task gets its id.
unfoldable pub insert_task : ℕ → Task → Tx Task
insert_task id t = do
  call
  λ c. (
    ok (record t { id = id }),
    record c { view = record c.view { tasks = c.view.tasks ++ inserted id t ∷ [] } },
  )

abbrev pub created_event : UserInfo → Task → Event
created_event caller t = user_event caller created [] (record t { status = unspecified }) t

abbrev pub seed_event : Task → Bytes × Bytes → Event
seed_event t (text, url) = record {
  task_id = t.id;
  org_id = t.org_id;
  wake = true;
  payload = instruction text url;
}

abbrev pub seed_events : CreateTaskRequest → Task → List Event
seed_events req t = map (seed_event t) req.instructions

unfoldable pub create_task_tx : UserInfo → ℕ → CreateTaskRequest → Tx Task
create_task_tx caller id req = do
  t ← insert_task id (new_task caller req)
  create_event (created_event caller t)
  create_events (seed_events req t)
  commit
  pure t

abbrev pub created_notification : UserInfo → Task → Notification
created_notification caller t = record (notification caller) {
  runner = pending_runner t;
  resources = resources_of (codes "created") t.id;
  channel_message =
      about_task t (codes " created on " ++ t.runner ++ codes "/" ++ t.workspace ++ codes ".");
}

abbrev pub finished : UserInfo → Result Task × World → (Code ⊎ Task) × World
finished caller (err e, w) = (inl internal, w)
finished caller (ok t, w) = (inr t, publish (created_notification caller t) w)

-- After the look for the workspace.
abbrev pub looked :
    UserInfo
    → ℕ
    → CreateTaskRequest
    → Bool
    → World
    → Result (Unit {0}) × Conn
    → (Code ⊎ Task) × World
looked caller id req found w (err e, c) = (inl internal, record w { answers = c.answers })
looked caller id req found w (ok _, c) =
    if not found
    then (inl not_found, record w { answers = c.answers })
    else finished caller (with_tx (create_task_tx caller id req) (record w { answers = c.answers }))

unfoldable pub create_task :
    UserInfo → List Workspace → ℕ → CreateTaskRequest → World → (Code ⊎ Task) × World
create_task caller workspaces id req w =
    if not (
      allow caller.scopes op_task_create (
        with_task_workspace req.workspace
        ∷ with_task_runner req.runner
        ∷ with_task_archived false
        ∷ []))
    then (inl permission_denied, w)
    else looked caller id req (has_workspace workspaces req.runner req.workspace caller.org_id) w
        (call (record { view = w.tables; stored = none; answers = w.answers }))
