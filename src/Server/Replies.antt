-- ===== src/Server/Replies.antt =====
-- What the handlers answer when the database refuses no call.
use gritz.Prelude.{
  ◌≡◌, refl, Bool, true, false, not, Option, none, some, List, [], ◌∷◌, ◌++◌, arith, if◌then◌else◌,
}
use gritz.Task.{Task}
use gritz.Event.{Event}
use gritz.Store.{
  Code, Tables, World, Notification, call, permission_denied, not_found, internal, find_row,
  publish, get_task_for_update, update_task, create_event, create_events, commit, with_tx,
  rolled_back, next, Tx, ◌>>◌, check, coded, one,
}
use gritz.Store.Triples.{open_at}
use gritz.Scope.{allow, allow_op, op_task_write, scope_attr}
use gritz.Server.{
  archiving, unarchiving, cancelling, restarting, gated, UserInfo, Method, change_row, change_task,
  respond, archive_task, unarchive_task, cancel_task, restart_task_by_id,
}
use gritz.Server.Requests.{
  instruction_events, WriteRequest, archives, unarchives, cancels, restarts, updates,
  UpdateTaskRequest, update_row, update_task_tx, update_task_by_id, serve,
}
use gritz.Server.Effects.{Edit, edit, id_of, method_edit, update_result}

-- The answer to a request, from the gate, the row and the task's own refusal.
abbrev pub row_answer : UserInfo → (Task → Option Edit) → Option Task → Option Code
row_answer caller e none = some not_found
row_answer caller e (some t) =
    if not (allow caller.scopes op_task_write (scope_attr t))
    then some permission_denied
    else elim (e t) [ none ↦ some internal | some x ↦ none ]

abbrev pub answer : UserInfo → WriteRequest → Tables → Option Code
answer caller req v =
    if not (allow_op caller.scopes op_task_write)
    then some permission_denied
    else row_answer caller (edit caller req) (find_row (id_of req) caller.org_id v.tasks)

change_row-answer :
    (caller : UserInfo) (m : Method) (found : Option Task) (w : World)
    → (respond (rolled_back w (next (one found (open_at w.tables [])) (change_row caller m)))).0
      ≡ row_answer caller (λ t. method_edit caller m t) found
unfolding update_task create_event commit call publish
change_row-answer caller m none w = refl
change_row-answer caller m (some t) w = ground arith

-- The answer that a transaction's body leads to from given tables.
abbrev reply_from : World → Tables → Tx Notification → Option Code
reply_from w v body = (respond (rolled_back w (body (open_at v [])))).0

create_events-reply :
    (es : List Event) (body : Tx Notification) (w : World) (v : Tables)
    → ((v' : Tables) → reply_from w v' body ≡ none)
    → reply_from w v (create_events es >> body) ≡ none
unfolding create_events create_event call
create_events-reply [] body w v h = h v
create_events-reply (e ∷ es) body w v h =
    create_events-reply es body w (record v { events = v.events ++ e ∷ [] }) h

check-reply :
    (test : Bool) (body : Tx Notification) (w : World) (v : Tables)
    → reply_from w v body ≡ none
    → reply_from w v (check test (coded permission_denied) >> body)
      ≡ (if not test then some permission_denied else none)
check-reply true body w v h = h
check-reply false body w v h = refl

update_row-answer :
    (caller : UserInfo) (req : UpdateTaskRequest) (found : Option Task) (w : World)
    → (respond (rolled_back w (next (one found (open_at w.tables [])) (update_row caller req)))).0
      ≡ row_answer caller (λ t. some (update_result caller req t)) found
unfolding update_task create_event commit call publish
update_row-answer caller req none w = refl
update_row-answer caller req (some t) w =
    check-reply (allow caller.scopes op_task_write (scope_attr t)) _ w w.tables
      (create_events-reply (instruction_events req t) _ w w.tables λ v'. refl)

gated-answer :
    (caller : UserInfo) (w : World) (r : Option Code × World) (c : Option Code)
    → r.0 ≡ c
    → (gated caller op_task_write w r).0
      ≡ (if not (allow_op caller.scopes op_task_write) then some permission_denied else c)
gated-answer caller w r c h = ground arith

-- A world whose database refuses no call.
abbrev pub undisturbed : Tables → List Notification → World
undisturbed v p = record { tables = v; published = p; answers = [] }

-- While the database refuses no call, each handler answers exactly so: permission denied without
-- the write operation, not found where the caller's organisation has no such row, permission denied
-- where the scopes do not cover the row, internal where the task refuses the change, and a response
-- in every other case.
pub serve-answer :
    (caller : UserInfo) (req : WriteRequest) (v : Tables) (p : List Notification)
    → (serve caller req (undisturbed v p)).0 ≡ answer caller req v
unfolding serve archive_task unarchive_task cancel_task restart_task_by_id update_task_by_id with_tx
    change_task update_task_tx get_task_for_update call
serve-answer caller (archives id) v p =
    gated-answer caller _ _ _
      (change_row-answer caller archiving (find_row id caller.org_id v.tasks) (undisturbed v p))
serve-answer caller (unarchives id) v p =
    gated-answer caller _ _ _
      (change_row-answer caller unarchiving (find_row id caller.org_id v.tasks) (undisturbed v p))
serve-answer caller (cancels id) v p =
    gated-answer caller _ _ _
      (change_row-answer caller cancelling (find_row id caller.org_id v.tasks) (undisturbed v p))
serve-answer caller (restarts id) v p =
    gated-answer caller _ _ _
      (change_row-answer caller restarting (find_row id caller.org_id v.tasks) (undisturbed v p))
serve-answer caller (updates req) v p =
    gated-answer caller _ _ _
      (update_row-answer caller req (find_row req.id caller.org_id v.tasks) (undisturbed v p))
