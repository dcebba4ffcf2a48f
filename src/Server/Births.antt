-- ===== src/Server/Births.antt =====
-- What CreateTask stores.
use gritz.Prelude.{
  ℕ, ◌≡◌, refl, ap, Bool, true, false, not, none, List, [], ◌∷◌, ◌++◌, ◌⊎◌, inl, inr, arith,
}
use mathlib.Core.List.{append_assoc}
use gritz.Task.{Task}
use gritz.Task.Runs.{IsNew}
use gritz.Store.{
  Code, World, Tables, Tx, Result, Conn, ok, err, call, next, publish, with_tx, permission_denied,
}
use gritz.Store.Triples.{
  open_at, Ends, Settled, Saves, with_tx-Settled, event-Ends, events-Ends, commit-Ends,
}
use gritz.Scope.{allow, op_task_create, with_task_archived}
use gritz.Server.{UserInfo}
use gritz.Server.Effects.{either}
use gritz.Server.Creation.{
  CreateTaskRequest, Workspace, with_task_workspace, with_task_runner, has_workspace, new_task,
  inserted, insert_task, created_event, seed_events, create_task_tx, created_notification, finished,
  looked, create_task,
}

-- The task with its id.
abbrev pub task_of : UserInfo → ℕ → CreateTaskRequest → Task
task_of caller id req = record (new_task caller req) { id = id }

-- The row and the events of a new task were stored.
pub record Created (caller : UserInfo) (id : ℕ) (req : CreateTaskRequest) (w : World) (t : Task)
    (w' : World) : Type 0 where
  pub task : t ≡ task_of caller id req
  pub is_new : IsNew t
  pub stores : w'.tables ≡ record w.tables {
    tasks = w.tables.tasks ++ inserted id (new_task caller req) ∷ [];
    events = w.tables.events ++ (created_event caller t ∷ seed_events req t);
  }

task_of-IsNew :
    (caller : UserInfo) (id : ℕ) (req : CreateTaskRequest) → IsNew (task_of caller id req)
task_of-IsNew caller id req = ground arith

pub insert-Ends {ℓ} :
    {B : Type ℓ} (Q : B → Conn → Type 0) (id : ℕ) (t : Task) (f : Task → Tx B) (v : Tables)
    (a : List Bool)
    → ((b : List Bool)
        → Ends Q (
            f
              (record t { id = id })
              (open_at (record v { tasks = v.tasks ++ inserted id t ∷ [] }) b)))
    → Ends Q (next (insert_task id t (open_at v a)) f)
unfolding insert_task call
insert-Ends Q id t f v [] k = k []
insert-Ends Q id t f v (true ∷ a) k = k a
insert-Ends Q id t f v (false ∷ a) k = refl

-- Stored, and nothing published yet.
abbrev Stored : UserInfo → ℕ → CreateTaskRequest → World → Task → World → Type 0
Stored caller id req w t w' = Created caller id req w t w' × (w'.published ≡ w.published)

module _ (caller : UserInfo) (id : ℕ) (req : CreateTaskRequest) where
  create_task_tx-Settled :
      (w : World) → Settled (Stored caller id req w) w (with_tx (create_task_tx caller id req) w)
  unfolding create_task_tx
  create_task_tx-Settled w =
      let P = Stored caller id req w in
      let Q = Saves P w in
      let t = task_of caller id req in
      with_tx-Settled P w (create_task_tx caller id req) λ a.
        insert-Ends Q id (new_task caller req) _ w.tables a λ b.
          event-Ends Q (created_event caller t) _ _ b λ b'.
            events-Ends Q (seed_events req t) _ _ b' λ b''. commit-Ends Q t _ b'' λ c. (
              record {
                task = refl;
                is_new = task_of-IsNew caller id req;
                stores =
                    ap
                      (λ l. record w.tables {
                        tasks = w.tables.tasks ++ inserted id (new_task caller req) ∷ [];
                        events = l;
                      })
                      (append_assoc w.tables.events (created_event caller t ∷ [])
                        (seed_events req t));
              },
              refl,
            )

-- What the answer tells of the world it leaves.
abbrev pub Birth : UserInfo → ℕ → CreateTaskRequest → World → (Code ⊎ Task) × World → Type 0
Birth caller id req w (inr t, w') =
    Created caller id req w t w'
    × (w'.published ≡ w.published ++ created_notification caller t ∷ [])
Birth caller id req w (inl c, w') = (w'.tables ≡ w.tables) × (w'.published ≡ w.published)

finished-Birth :
    (caller : UserInfo) (id : ℕ) (req : CreateTaskRequest) (w : World) (a : List Bool)
    (r : Result Task × World)
    → Settled (Stored caller id req (record w { answers = a })) (record w { answers = a }) r
    → Birth caller id req w (finished caller r)
unfolding publish
finished-Birth caller id req w a (err e, w') s = s
finished-Birth caller id req w a (ok t, w') (made, quiet) = (
  record { task = made.task; is_new = made.is_new; stores = made.stores },
  ap (λ l. l ++ created_notification caller t ∷ []) quiet,
)

looked-Birth :
    (caller : UserInfo) (id : ℕ) (req : CreateTaskRequest) (found : Bool) (w : World)
    (r : Result (Unit {0}) × Conn)
    → Birth caller id req w (looked caller id req found w r)
looked-Birth caller id req found w (err e, c) = (refl, refl)
looked-Birth caller id req found w (ok _, c) =
    either (Birth caller id req w) (not found) _ _ (refl, refl)
      (finished-Birth caller id req w c.answers _
        (create_task_tx-Settled caller id req (record w { answers = c.answers })))

-- A task is created wholly or not at all, whatever calls the database refuses. A response carries
-- the task with its id, a task as it is new: pending its first run or a draft, not archived. Then
-- exactly its row, its created event before one event for each instruction, and one notification
-- have been stored and published. An error leaves the tables and the publications as they were.
pub create_task-Birth :
    (caller : UserInfo) (workspaces : List Workspace) (id : ℕ) (req : CreateTaskRequest) (w : World)
    → Birth caller id req w (create_task caller workspaces id req w)
unfolding create_task
create_task-Birth caller workspaces id req w =
    let attrs =
      with_task_workspace req.workspace
      ∷ with_task_runner req.runner
      ∷ with_task_archived false
      ∷ [] in
    let found = has_workspace workspaces req.runner req.workspace caller.org_id in
    let looking = call (record { view = w.tables; stored = none; answers = w.answers }) in
    either (Birth caller id req w) (not (allow caller.scopes op_task_create attrs))
      (inl permission_denied, w) (looked caller id req found w looking) (refl, refl)
      (looked-Birth caller id req found w looking)
