-- ===== src/Store.antt =====
-- The database behind the server (internal/store/store.go, task.go, event.go with the statements of
-- internal/store/sql/queries). A world holds the committed tables, what was handed to the publisher,
-- and the answers that the next database calls get: `false` refuses the call, and past the end of
-- the list every call is accepted. A refused call, a refused `Commit` included, changes nothing.
pub mod Rows
pub mod Triples
use gritz.Prelude.{
  ℕ, ◌+◌, ◌-◌, ◌*◌, ◌/◌, ◌%◌, ◌^◌, Bool, true, false, not, ◌&&◌, Option, none, some, List, [], ◌∷◌,
  ◌++◌, Bytes, ◌==◌, ltb, if◌then◌else◌,
}
use gritz.Task
use gritz.Task.{Task, TaskStatus}
use gritz.Event.{Event}
use gritz.Schedule.{Schedule}
use gritz.Link.{Link}

-- The codes of connect that the handlers answer with, and the errors inside a transaction.
pub data Code : Type 0 where
  permission_denied not_found invalid_argument internal : Code

pub data Failure : Type 0 where
  coded : Code → Failure
  no_rows driver refused : Failure

pub data Result {ℓ} (A : Type ℓ) : Type ℓ where
  ok : A → Result A
  err : Failure → Result A

pub record Tables : Type 0 where
  pub tasks : List Task
  pub events : List Event
  pub schedules : List Schedule
  pub links : List Link

-- A transaction: what it sees, what a `Commit` stored, and the answers ahead.
pub record Conn : Type 0 where
  pub view : Tables
  pub stored : Option Tables
  pub answers : List Bool

abbrev pub Tx {ℓ} : Type ℓ → Type ℓ
Tx A = Conn → Result A × Conn

module _ {ℓ κ} {A : Type ℓ} {B : Type κ} where
  abbrev pub next : Result A × Conn → (A → Tx B) → Result B × Conn
  next (ok a, c) f = f a c
  next (err e, c) f = (err e, c)

  infixl 10 ◌>>=◌ ◌>>◌
  abbrev pub ◌>>=◌ : Tx A → (A → Tx B) → Tx B
  m >>= f = λ c. next (m c) f

  abbrev pub ◌>>◌ : Tx A → Tx B → Tx B
  m >> n = λ c. next (m c) (λ _. n)

module _ {ℓ} {A : Type ℓ} where
  abbrev pub pure : A → Tx A
  pure a c = (ok a, c)

  abbrev pub fail : Failure → Tx A
  fail e c = (err e, c)

-- `if !test { return e }`
abbrev pub check : Bool → Failure → Tx (Unit {0})
check test e c = if test then (ok _, c) else (err e, c)

-- One call of the driver.
unfoldable pub call : Tx (Unit {0})
call c = elim c.answers [
  | [] ↦ (ok _, c)
  | true ∷ rest ↦ (ok _, record c { answers = rest })
  | false ∷ rest ↦ (err driver, record c { answers = rest })
]

abbrev pub has_key : ℕ → ℕ → Task → Bool
has_key id org t = (t.id == id) && (t.org_id == org)

-- WHERE id = $1 AND org_id = $2
unfoldable pub find_row : ℕ → ℕ → List Task → Option Task
find_row id org [] = none
find_row id org (r ∷ rows) = if has_key id org r then some r else find_row id org rows

-- `AutoArchive` is stored in microseconds: int64 division and multiplication, on the bit pattern.
abbrev pub whole_microseconds : ℕ → ℕ
whole_microseconds w =
    if ltb w (2 ^ 63) then w / 1000 * 1000 else (2 ^ 64 - (2 ^ 64 - w) / 1000 * 1000) % 2 ^ 64

-- The columns that `UpdateTask` sets.
abbrev pub set_columns : Task → Task → Task
set_columns t r = record r {
  name = t.name;
  runner = t.runner;
  workspace = t.workspace;
  status = t.status;
  command = t.command;
  version = t.version;
  archived = t.archived;
  auto_archive = whole_microseconds t.auto_archive;
  shell_session = t.shell_session;
}

unfoldable pub update_rows : Task → List Task → List Task
update_rows t [] = []
update_rows t (r ∷ rows) =
    let rest = update_rows t rows in
    if has_key t.id t.org_id r then set_columns t r ∷ rest else r ∷ rest

-- `:one`, with `sql.ErrNoRows` where no row matches.
abbrev pub one : Option Task → Tx Task
one none c = (err no_rows, c)
one (some t) c = (ok t, c)

unfoldable pub get_task_for_update : ℕ → ℕ → Tx Task
get_task_for_update id org = do call; λ c. one (find_row id org c.view.tasks) c

unfoldable pub update_task : Task → Tx (Unit {0})
update_task t = do
  call
  λ c. (ok _, record c { view = record c.view { tasks = update_rows t c.view.tasks } })

unfoldable pub create_event : Event → Tx (Unit {0})
create_event e = do
  call
  λ c. (ok _, record c { view = record c.view { events = c.view.events ++ e ∷ [] } })

-- `CreateLink`: the link gets its id, which the database gives from the rows there.
unfoldable pub create_link : (List Link → ℕ) → Link → Tx Link
create_link new_id l = do
  call
  λ c.
      let l' = record l { id = new_id c.view.links } in
      (ok l', record c { view = record c.view { links = c.view.links ++ l' ∷ [] } })

-- A loop of `CreateEvent`.
unfoldable pub create_events : List Event → Tx (Unit {0})
create_events [] = pure _
create_events (e ∷ es) = do create_event e; create_events es

unfoldable pub commit : Tx (Unit {0})
commit = do call; λ c. (ok _, record c { stored = some c.view })

pub record NotificationResource : Type 0 where
  pub action : Bytes
  pub type : Bytes
  pub id : ℕ

pub record Notification : Type 0 where
  pub type : Bytes
  pub resources : List NotificationResource
  pub org_id : ℕ
  pub user_id : Bytes
  pub client_id : Bytes
  pub runner : Bytes
  pub task_status : TaskStatus
  pub channel_message : Bytes
  pub ignore : Bool

pub record World : Type 0 where
  pub tables : Tables
  pub published : List Notification
  pub answers : List Bool

abbrev pub or_old : Option Tables → Tables → Tables
or_old none old = old
or_old (some new) old = new

module _ {ℓ} {A : Type ℓ} where
  -- The body ran, and the deferred `Rollback` drops what no `Commit` stored.
  abbrev pub rolled_back : World → Result A × Conn → Result A × World
  rolled_back w (r, c) = (r, record w { tables = or_old c.stored w.tables; answers = c.answers })

  abbrev pub begun : Tx A → World → Result (Unit {0}) × Conn → Result A × World
  begun body w (ok _, c) = rolled_back w (body c)
  begun body w (err e, c) = (err e, record w { answers = c.answers })

  unfoldable pub with_tx : Tx A → World → Result A × World
  unfolding call
  with_tx body w =
      begun body w (call (record { view = w.tables; stored = none; answers = w.answers }))

-- `Server.publish` of internal/server/apiserver/apiserver.go. What the publisher answers is only
-- logged.
unfoldable pub publish : Notification → World → World
publish n w = if n.ignore then w else record w { published = w.published ++ n ∷ [] }

-- A statement outside a transaction that only reads.
unfoldable pub read_only {ℓ} : {A : Type ℓ} → Tx A → World → Result A × World
read_only statement w =
    let (r, c) = statement (record { view = w.tables; stored = none; answers = w.answers }) in
    (r, record w { answers = c.answers })

-- `GetTask`: the same statement without the lock.
unfoldable pub get_task : ℕ → ℕ → World → Result Task × World
unfolding get_task_for_update read_only
get_task id org w = read_only (get_task_for_update id org) w
