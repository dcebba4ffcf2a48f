-- ===== src/Examples/Requests.antt =====
-- Requests to the server at concrete worlds.
use gritz.Prelude.{
  List, ◌≡◌, refl, ◌∙◌, inl, true, false, some, none, [], ◌∷◌, bytes_eq, codes, arith,
}
use gritz.Task.{Task}
use gritz.Store.{World, Tables, find_row}
use gritz.Scope.{
  admin, allow, allow_op, scope_allow, scope_allow_op, preds_hold, attr_value, token_scopes,
}
use gritz.Server.{UserInfo, cancelling}
use gritz.Prelude.Decimal.{format_int}
use gritz.Server.Requests.{archives, cancels, serve}
use gritz.Server.Creation.{CreateTaskRequest, Workspace, create_task}
use gritz.Server.Births.{Birth, create_task-Birth}
use gritz.Server.Reading.{Visible, get_task_by_id-Visible}
use gritz.Server.Requests.{get_task_by_id}
use gritz.Server.Reports.{submit_runner_events}
use gritz.Server.Effects.{Effect, id_of, edit, serve-Effect}
use gritz.Server.Replies.{answer, undisturbed, serve-answer}
use gritz.Server.Access.{serve-other_rows, serve-token}
use gritz.Server.Folding.{Submitted, submit_runner_events-Submitted}
use gritz.Examples.Tasks.{new_task, done_task, started_event, stopped_event}

abbrev pub user : UserInfo
user = record {
  id = codes "u1";
  email = codes "u@example.com";
  name = [];
  org_id = 3;
  type = codes "key";
  client_id = [];
  scopes = admin;
}

abbrev agent : UserInfo
agent = record user { scopes = token_scopes 7 [] }

abbrev pub tables : Tables
tables = record {
  tasks = new_task ∷ record done_task { id = 8 } ∷ [];
  events = [];
  schedules = [];
  links = [];
}

-- The second call of the database fails.
abbrev world : World
world = record { tables = tables; published = []; answers = true ∷ false ∷ [] }

serve-Effect_example : Effect user 8 (edit user (archives 8)) world (serve user (archives 8) world)
serve-Effect_example = serve-Effect user (archives 8) world

serve-answer_example :
    (serve user (archives 8) (undisturbed tables [])).0 ≡ answer user (archives 8) tables
serve-answer_example = serve-answer user (archives 8) tables []

serve-other_rows_example :
    find_row 7 3 (serve user (archives 8) (undisturbed tables [])).1.tables.tasks ≡ some new_task
unfolding find_row
serve-other_rows_example =
    serve-other_rows user (archives 8) (undisturbed tables []) 7 3 (inl (λ e. omega arith))

agent_answered : (serve agent (cancels 7) (undisturbed tables [])).0 ≡ none
unfolding allow allow_op find_row token_scopes scope_allow_op bytes_eq scope_allow preds_hold
    attr_value format_int cancelling
agent_answered = serve-answer agent (cancels 7) tables [] ∙ refl

serve-token_example :
    (id_of (cancels 7) ≡ 7) × ((t : Task) → find_row 7 3 tables.tasks ≡ some t → t.archived ≡ false)
serve-token_example = serve-token agent 7 [] (cancels 7) (undisturbed tables []) refl agent_answered

submit_runner_events-Submitted_example :
    Submitted user
      (started_event ∷ stopped_event ∷ [])
      (undisturbed tables [])
      (submit_runner_events user (started_event ∷ stopped_event ∷ []) (undisturbed tables []))
submit_runner_events-Submitted_example =
    submit_runner_events-Submitted user (started_event ∷ stopped_event ∷ []) (undisturbed tables [])

abbrev create_request : CreateTaskRequest
create_request = record {
  name = codes "build";
  runner = codes "r1";
  workspace = codes "go";
  namespace = [];
  instructions = (codes "fix it", []) ∷ [];
  is_draft = false;
  auto_archive = none;
}

abbrev workspaces : List Workspace
workspaces = record { runner_id = codes "r1"; name = codes "go"; org_id = 3 } ∷ []

create_task-Birth_example :
    Birth user 9 create_request
      (undisturbed tables [])
      (create_task user workspaces 9 create_request (undisturbed tables []))
create_task-Birth_example =
    create_task-Birth user workspaces 9 create_request (undisturbed tables [])

get_task_by_id-Visible_example :
    Visible agent 8 (undisturbed tables []) (get_task_by_id agent 8 (undisturbed tables []))
get_task_by_id-Visible_example = get_task_by_id-Visible agent 8 (undisturbed tables [])
