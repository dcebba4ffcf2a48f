-- ===== src/Runner.antt =====
-- The runner (internal/runner/runner.go, with internal/runner/taskstate/taskstate.go): it starts and
-- stops sandboxes as the server's tasks ask, keeps a record of each, and reports those that end.
-- The backend, the server and the disk are outside: each call hands over the state of what is
-- outside and takes its answer with the state that is left. A call of the disk is accepted or not.
-- The directory of records is a list in the order of its file names.
pub mod Specs
pub mod Starts
pub mod Polls
pub mod Loop
pub mod Rules
pub mod Quiet
pub mod Holding
pub mod Slots
pub mod Reports
pub mod Launching
use gritz.Prelude.{
  ℕ, Bool, true, false, Option, none, some, List, [], ◌∷◌, ◌++◌, Bytes, codes, ◌==◌, ltb,
  if◌then◌else◌,
}
use gritz.Prelude.Decimal.{format_int}
use gritz.Task.{RunnerEvent}
use gritz.Semaphore.{Semaphore}

-- An error: the one of a sandbox that is gone, or another with its text.
pub data Error : Type 0 where
  gone_error : Error
  text_error : Bytes → Error

-- `err.Error()`
abbrev pub error_text : Error → Bytes
error_text gone_error = codes "backend: sandbox is gone"
error_text (text_error t) = t

pub data Result {ℓ} (A : Type ℓ) : Type ℓ where
  ok : A → Result A
  err : Error → Result A

pub record Handle : Type 0 where
  pub type : Bytes
  pub id : Bytes
  pub content : Bytes

pub data SandboxState : Type 0 where
  state_unknown state_running state_exited state_gone : SandboxState

pub record Record : Type 0 where
  pub task_id : ℕ
  pub version : ℕ
  pub handle : Handle

pub record Workspace : Type 0 where
  pub capabilities : List Bytes
  pub secrets : List (Bytes × Bytes)

pub record File : Type 0 where
  pub path : Bytes
  pub content : Bytes
  pub mode : ℕ
  pub dir : Bool

pub record Spec : Type 0 where
  pub task_id : ℕ
  pub workspace : Workspace
  pub cmd : List Bytes
  pub env : List Bytes
  pub files : List File

-- What the runner sees of a task of the server.
pub record TaskView : Type 0 where
  pub is_running : Bool
  pub archived : Bool

-- The answer of `GetTask`.
pub data TaskAnswer : Type 0 where
  task_found : TaskView → TaskAnswer
  task_not_found task_error : TaskAnswer

-- What is outside. `accepts` is a call of the disk; `config_data` is the agent's configuration of a
-- workspace as JSON, with the arguments of the gritz MCP server in it.
pub record Outside (E : Type 0) : Type 0 where
  pub accepts : E → Result (Unit {0}) × E
  pub probe : Handle → E → Result SandboxState × E
  pub signal : Handle → E → Result Bool × E
  pub destroy : Handle → E → Result (Unit {0}) × E
  pub launch : Spec → Option Handle → E → Result Handle × E
  pub validate_workspace : Workspace → E → Result (Unit {0}) × E
  pub create_task_token : ℕ → List Bytes → E → Result Bytes × E
  pub config_data : Workspace → List Bytes → E → Result Bytes × E
  pub get_task : ℕ → E → TaskAnswer × E

-- A goroutine that blocks in `Wait` of its sandbox.
pub record Supervision : Type 0 where
  pub task_id : ℕ
  pub version : ℕ
  pub handle : Handle

-- What `Options` fixes. `awake` of the runner is the channel of internal/x/wakeup, `died` says that
-- `die` has cancelled the root context.
pub record Options : Type 0 where
  pub server_url : Bytes
  pub workspaces : List (Bytes × Workspace)

pub record Runner (E : Type 0) : Type 0 where
  pub options : Options
  pub records : List Record
  pub sem : Semaphore
  pub supervised : List Supervision
  pub queue : List RunnerEvent
  pub awake : Bool
  pub died : Bool
  pub outside : E

abbrev pub Run {ℓ} : Type 0 → Type ℓ → Type ℓ
Run E A = Runner E → Result A × Runner E

module _ {E : Type 0} where
  module _ {ℓ κ} {A : Type ℓ} {B : Type κ} where
    abbrev pub next : Result A × Runner E → (A → Run E B) → Result B × Runner E
    next (ok a, r) f = f a r
    next (err e, r) f = (err e, r)

    infixl 10 ◌>>=◌ ◌>>◌
    abbrev pub ◌>>=◌ : Run E A → (A → Run E B) → Run E B
    m >>= f = λ r. next (m r) f

    abbrev pub ◌>>◌ : Run E A → Run E B → Run E B
    m >> n = λ r. next (m r) (λ _. n)

  abbrev pub or_die : Result (Unit {0}) × Runner E → Runner E
  or_die (ok _, r) = r
  or_die (err e, r) = record r { died = true }

  module _ {ℓ} {A : Type ℓ} where
    abbrev pub pure : A → Run E A
    pure a r = (ok a, r)

    abbrev pub fail : Error → Run E A
    fail e r = (err e, r)

    abbrev pub moved : Runner E → A × E → A × Runner E
    moved r (a, e) = (a, record r { outside = e })

    -- One call of what is outside.
    unfoldable pub ask : (E → A × E) → Runner E → A × Runner E
    ask f r = moved r (f r.outside)

-- The order of the file names.
abbrev pub bytes_before : Bytes → Bytes → Bool
bytes_before [] [] = false
bytes_before [] (c ∷ cs) = true
bytes_before (b ∷ bs) [] = false
bytes_before (b ∷ bs) (c ∷ cs) = if b == c then bytes_before bs cs else ltb b c

abbrev pub name_before : ℕ → ℕ → Bool
name_before a b = bytes_before (format_int a ++ codes ".json") (format_int b ++ codes ".json")

unfoldable pub find_record : ℕ → List Record → Option Record
find_record id [] = none
find_record id (x ∷ xs) = if x.task_id == id then some x else find_record id xs

unfoldable pub put_record : Record → List Record → List Record
put_record rec [] = rec ∷ []
put_record rec (x ∷ xs) =
    let rest = put_record rec xs in
    if x.task_id == rec.task_id
    then rec ∷ xs
    else if name_before rec.task_id x.task_id
    then rec ∷ x ∷ xs
    else x ∷ rest

unfoldable pub drop_record : ℕ → List Record → List Record
drop_record id [] = []
drop_record id (x ∷ xs) = let rest = drop_record id xs in if x.task_id == id then rest else x ∷ rest

abbrev pub handle_of : Option Record → Option Handle
handle_of none = none
handle_of (some rec) = some rec.handle

abbrev pub running_state : SandboxState → Bool
running_state state_running = true
running_state _ = false

module _ {E : Type 0} (o : Outside E) where
  -- `Store.Read`, `Write`, `Remove` and `List`.
  unfoldable pub read : ℕ → Run E (Option Record)
  read id = do ask o.accepts; λ r. (ok (find_record id r.records), r)

  unfoldable pub write : Record → Run E (Unit {0})
  write rec = do ask o.accepts; λ r. (ok _, record r { records = put_record rec r.records })

  unfoldable pub remove_record : ℕ → Run E (Unit {0})
  remove_record id = do ask o.accepts; λ r. (ok _, record r { records = drop_record id r.records })

  unfoldable pub list_records : Run E (List Record)
  list_records = do ask o.accepts; λ r. (ok r.records, r)

  -- `Enqueue` of the outbox.
  unfoldable pub enqueue : RunnerEvent → Run E (Unit {0})
  enqueue event = do ask o.accepts; λ r. (ok _, record r { queue = r.queue ++ event ∷ [] })

  -- An `Enqueue` whose failure terminates the runner.
  unfoldable pub report : RunnerEvent → Runner E → Runner E
  report event r = or_die (enqueue event r)

  -- The method `handle`.
  unfoldable pub tracked : ℕ → Run E (Option Handle)
  tracked id = do found ← read id; pure (handle_of found)

  abbrev pub running_of : Option Handle → Run E Bool
  running_of none = pure false
  running_of (some h) = do state ← ask (o.probe h); pure (running_state state)

  -- `Running`
  unfoldable pub is_running : ℕ → Run E Bool
  is_running id = do found ← tracked id; running_of found

  abbrev pub kill_of : Option Handle → Run E Bool
  kill_of none = pure false
  kill_of (some h) = ask (o.signal h)

  unfoldable pub kill : ℕ → Run E Bool
  kill id = do found ← tracked id; kill_of found

  abbrev pub remove_of : ℕ → Option Handle → Run E (Unit {0})
  remove_of id none = pure _
  remove_of id (some h) = do ask (o.destroy h); remove_record id

  unfoldable pub remove : ℕ → Run E (Unit {0})
  remove id = do found ← tracked id; remove_of id found
