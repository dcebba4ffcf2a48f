-- ===== src/Server/Effects.antt =====
-- What a write of a task does, without transactions: the abstract view of the five handlers, and
-- that each of them does it wholly or not at all.
use gritz.Prelude.{
  ℕ, ◌≡◌, refl, ap, Bool, true, false, not, ◌∙◌, Option, none, some, List, [], ◌∷◌, ◌++◌, codes,
  if◌then◌else◌,
}
use mathlib.Core.List.{append_assoc}
use gritz.Task.{Task}
use gritz.Event.{Event, updated}
use gritz.Store.{
  Code, Tables, World, Notification, Result, ok, err, permission_denied, find_row, update_rows,
  publish, with_tx,
}
use gritz.Store.Triples.{
  Settled, Saves, with_tx-Settled, get-Ends, check-Ends, update-Ends, event-Ends, events-Ends,
  commit-Ends,
}
use gritz.Scope.{allow, allow_op, op_task_write, scope_attr}
use gritz.Server.{
  UserInfo, Method, respond, gated, user_event, task_notification, change_task, archiving,
  unarchiving, cancelling, restarting, archive_task, unarchive_task, cancel_task,
  restart_task_by_id,
}
use gritz.Server.Requests.{
  UpdateTaskRequest, WriteRequest, archives, unarchives, cancels, restarts, updates, edited,
  changed, instruction_events, update_message, update_task_tx, update_task_by_id, serve,
}

-- The row that replaces the one a request names, the events it adds, and its notification.
abbrev pub Edit : Type 0
Edit = Task × List Event × Notification

abbrev pub method_result : UserInfo → Method → Task → Edit
method_result caller m t =
    let t' = (m.apply t).0 in
    (t', user_event caller m.kind [] t t' ∷ [], task_notification caller m.action t' (m.message t'))

abbrev pub method_edit : UserInfo → Method → Task → Option Edit
method_edit caller m t = if (m.apply t).1 then some (method_result caller m t) else none

abbrev pub update_result : UserInfo → UpdateTaskRequest → Task → Edit
update_result caller req t =
    let t' = edited req t in
    (
      t',
      instruction_events req t ++ user_event caller updated (changed req) t t' ∷ [],
      task_notification caller (codes "updated") t' (update_message req t'),
    )

abbrev pub id_of : WriteRequest → ℕ
id_of (archives id) = id
id_of (unarchives id) = id
id_of (cancels id) = id
id_of (restarts id) = id
id_of (updates req) = req.id

-- What a request makes of the row it names, `none` where the task refuses it.
abbrev pub edit : UserInfo → WriteRequest → Task → Option Edit
edit caller (archives id) t = method_edit caller archiving t
edit caller (unarchives id) t = method_edit caller unarchiving t
edit caller (cancels id) t = method_edit caller cancelling t
edit caller (restarts id) t = method_edit caller restarting t
edit caller (updates req) t = some (update_result caller req t)

-- The tables after an edit.
abbrev pub edit_tables : Edit → Tables → Tables
edit_tables (t, added, n) v = record v { tasks = update_rows t v.tasks; events = v.events ++ added }

-- A transaction that found the row and stored its edit.
pub record Stored (caller : UserInfo) (id : ℕ) (e : Task → Option Edit) (w : World)
    (n : Notification) (w' : World) : Type 0 where
  pub row : Task
  pub edit_of_row : Edit
  pub found : find_row id caller.org_id w.tables.tasks ≡ some row
  pub permitted : allow caller.scopes op_task_write (scope_attr row) ≡ true
  pub edits : e row ≡ some edit_of_row
  pub stores : w'.tables ≡ edit_tables edit_of_row w.tables
  pub notes : n ≡ edit_of_row.2
  pub quiet : w'.published ≡ w.published
  pub heard : n.ignore ≡ false

if_true {ℓ} : {A : Type ℓ} (test : Bool) (x y : A) → test ≡ true → (if test then x else y) ≡ x
if_true true x y h = refl
if_true false x y h = cc

if_false {ℓ} : {A : Type ℓ} (test : Bool) (x y : A) → test ≡ false → (if test then x else y) ≡ y
if_false false x y h = refl
if_false true x y h = cc

pub either {ℓ} :
    {A : Type ℓ} (P : A → Type 0) (test : Bool) (x y : A) → P x → P y → P (if test then x else y)
either P true x y p q = p
either P false x y p q = q

change_task-Settled :
    (caller : UserInfo) (id : ℕ) (m : Method) (w : World)
    → Settled (Stored caller id (method_edit caller m) w) w (with_tx (change_task caller id m) w)
unfolding change_task
change_task-Settled caller id m w =
    let P = Stored caller id (method_edit caller m) w in
    let Q = Saves P w in
    with_tx-Settled P w (change_task caller id m) λ a.
      get-Ends Q id caller.org_id _ w.tables a λ t b found.
        check-Ends Q _ _ _ w.tables b λ permitted. check-Ends Q (m.apply t).1 _ _ w.tables b λ done.
          update-Ends Q (m.apply t).0 _ w.tables b λ b'. event-Ends Q _ _ _ b' λ b''.
            commit-Ends Q _ _ b'' λ b'''. record {
              row = t;
              edit_of_row = method_result caller m t;
              found = found;
              permitted = permitted;
              edits = if_true (m.apply t).1 (some (method_result caller m t)) none done;
              stores = refl;
              notes = refl;
              quiet = refl;
              heard = refl;
            }

update_task_tx-Settled :
    (caller : UserInfo) (req : UpdateTaskRequest) (w : World)
    → Settled
        (Stored caller req.id (λ t. some (update_result caller req t)) w)
        w
        (with_tx (update_task_tx caller req) w)
unfolding update_task_tx
update_task_tx-Settled caller req w =
    let P = Stored caller req.id (λ t. some (update_result caller req t)) w in
    let Q = Saves P w in
    with_tx-Settled P w (update_task_tx caller req) λ a.
      get-Ends Q req.id caller.org_id _ w.tables a λ t b found.
        check-Ends Q _ _ _ w.tables b λ permitted.
          events-Ends Q (instruction_events req t) _ w.tables b λ b'.
            update-Ends Q (edited req t) _ _ b' λ b''.
              event-Ends Q (user_event caller updated (changed req) t (edited req t)) _ _ b'' λ c.
                commit-Ends Q _ _ c λ c'. record {
                  row = t;
                  edit_of_row = update_result caller req t;
                  found = found;
                  permitted = permitted;
                  edits = refl;
                  stores =
                      ap
                        (λ l. record w.tables {
                          tasks = update_rows (edited req t) w.tables.tasks;
                          events = l;
                        })
                        (append_assoc w.tables.events (instruction_events req t)
                          (user_event caller updated (changed req) t (edited req t) ∷ []));
                  notes = refl;
                  quiet = refl;
                  heard = refl;
                }

-- A world in which the edit of the request's row was stored and published.
pub record Served (caller : UserInfo) (id : ℕ) (e : Task → Option Edit) (w w' : World)
    : Type 0 where
  pub row : Task
  pub edit_of_row : Edit
  pub found : find_row id caller.org_id w.tables.tasks ≡ some row
  pub permitted : allow caller.scopes op_task_write (scope_attr row) ≡ true
  pub edits : e row ≡ some edit_of_row
  pub stores : w'.tables ≡ edit_tables edit_of_row w.tables
  pub publishes : w'.published ≡ w.published ++ edit_of_row.2 ∷ []

-- What a handler's answer tells of the world it leaves.
abbrev pub Effect : UserInfo → ℕ → (Task → Option Edit) → World → Option Code × World → Type 0
Effect caller id e w (none, w') = Served caller id e w w'
Effect caller id e w (some c, w') = (w'.tables ≡ w.tables) × (w'.published ≡ w.published)

publish-Served :
    (caller : UserInfo) (id : ℕ) (e : Task → Option Edit) (w : World) (n : Notification)
    (w' : World)
    → Stored caller id e w n w'
    → Served caller id e w (publish n w')
unfolding publish
publish-Served caller id e w n w' s =
    let aloud = if_false n.ignore w' (record w' { published = w'.published ++ n ∷ [] }) s.heard in
    record {
      row = s.row;
      edit_of_row = s.edit_of_row;
      found = s.found;
      permitted = s.permitted;
      edits = s.edits;
      stores = ap (λ u. u.tables) aloud ∙ s.stores;
      publishes =
          ap (λ u. u.published) aloud
          ∙ ap (λ l. l ++ n ∷ []) s.quiet
          ∙ ap (λ m. w.published ++ m ∷ []) s.notes;
    }

respond-Effect :
    (caller : UserInfo) (id : ℕ) (e : Task → Option Edit) (w : World)
    (r : Result Notification × World)
    → Settled (Stored caller id e w) w r
    → Effect caller id e w (respond r)
respond-Effect caller id e w (ok n, w') s = publish-Served caller id e w n w' s
respond-Effect caller id e w (err f, w') s = s

gated-Effect :
    (caller : UserInfo) (id : ℕ) (e : Task → Option Edit) (w : World) (r : Option Code × World)
    → Effect caller id e w r
    → Effect caller id e w (gated caller op_task_write w r)
gated-Effect caller id e w r h =
    either (Effect caller id e w) (not (allow_op caller.scopes op_task_write))
      (some permission_denied, w) r (refl, refl) h

verb-Effect :
    (caller : UserInfo) (id : ℕ) (m : Method) (w : World)
    → Effect caller id
        (method_edit caller m)
        w
        (gated caller op_task_write w (respond (with_tx (change_task caller id m) w)))
verb-Effect caller id m w =
    gated-Effect caller id _ w _
      (respond-Effect caller id _ w _ (change_task-Settled caller id m w))

-- Each of the five handlers does its edit of the row it names, wholly or not at all, whatever calls
-- the database refuses: a response means that the row was found in the caller's organisation, that
-- the caller's scopes permit writing that row, that the task accepted the change, and that exactly
-- the edited row, its events and one notification were stored and published; an error means that
-- the tables and the publications are as they were.
pub serve-Effect :
    (caller : UserInfo) (req : WriteRequest) (w : World)
    → Effect caller (id_of req) (edit caller req) w (serve caller req w)
unfolding serve archive_task unarchive_task cancel_task restart_task_by_id update_task_by_id
serve-Effect caller (archives id) w = verb-Effect caller id archiving w
serve-Effect caller (unarchives id) w = verb-Effect caller id unarchiving w
serve-Effect caller (cancels id) w = verb-Effect caller id cancelling w
serve-Effect caller (restarts id) w = verb-Effect caller id restarting w
serve-Effect caller (updates req) w =
    gated-Effect caller req.id _ w _
      (respond-Effect caller req.id _ w _ (update_task_tx-Settled caller req w))
