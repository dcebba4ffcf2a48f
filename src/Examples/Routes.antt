-- ===== src/Examples/Routes.antt =====
-- An event that creates a task and is delivered a second time, and a link that a user adds.
use gritz.Prelude.{ℕ, ◌+◌, ◌≡◌, refl, true, false, some, [], ◌∷◌, bytes_eq, codes, length, All}
use gritz.Task.{Task, start_task}
use gritz.Link.{Link}
use gritz.Store.{
  World, Result, ok, with_tx, call, commit, create_event, create_link, get_task_for_update,
  find_row, update_task, publish, read_only,
}
use gritz.Server.Creation.{insert_task}
use gritz.Server.Links.{
  LinkEnv, CreateLinkRequest, Answered, create_link_by, create_link_by-Answered,
}
use gritz.Router.{RoutingRule, CreateTaskAction, InputEvent, OrgRules, RouteMatch}
use gritz.Router.Writing.{
  rule_task, Serials, subscribed_rows, is_subscribed, joined, insert_each, insert_newest,
  in_namespace, has_id, find_subscribed_links,
}
use gritz.Router.Applying.{
  apply, create, create_tx, apply_each, apply_links, wake_each, attach, attach_tx, route,
  woken_outcome,
}
use gritz.Router.Reach.{Reached, Reaches, apply-Affects}
use gritz.Router.Redelivery.{FoundTask, create-apply}
use gritz.Router.Routes.{Routed, route-Routed}
use gritz.Examples.Requests.{user, tables}

abbrev serials : Serials
serials = record {
  routing_key = λ url. url;
  task_id = λ rows. length rows + 1;
  event_id = λ rows. length rows + 1;
  link_id = λ rows. length rows + 1;
  clock = λ rows. length rows;
}

abbrev action : CreateTaskAction
action = record { workspace = codes "go"; runner = codes "r1"; prompt = []; auto_archive = 0 }

abbrev rule : RoutingRule
rule = record {
  source = codes "github";
  type = [];
  conditions = [];
  create = some action;
  wakeup = true;
  public = true;
  namespace = [];
}

abbrev event : InputEvent
event = record {
  source = codes "github";
  type = codes "issue";
  description = codes "Opened";
  data_text = codes "hi";
  url = codes "u";
  user_id = [];
  orgs = 3 ∷ [];
  attrs = [];
  details = [];
}

abbrev org : OrgRules
org = record { org_id = 3; is_member = false; rules = rule ∷ [] }

abbrev a_match : RouteMatch
a_match = record { org_id = 3; rule = rule; rule_index = 0 }

abbrev world : World
world = record {
  tables = record { tasks = []; events = []; schedules = []; links = [] };
  published = [];
  answers = [];
}

route-Routed_example : Routed serials event (org ∷ []) world (route serials event (org ∷ []) world)
route-Routed_example = route-Routed serials event (org ∷ []) world

abbrev first_task : Task
first_task = record (rule_task 3 rule action) { id = 1 }

abbrev first : Result (Task × ℕ) × World
first = create serials event 3 rule action world

-- The task is woken by the second delivery, whose events follow the four of the first.
second_wakes :
    (apply serials event (a_match ∷ []) first.1).0
    ≡ ok (woken_outcome event a_match ((1, 5) ∷ []) ∷ [])
unfolding create create_tx with_tx call insert_task create_event create_link commit apply read_only
    find_subscribed_links subscribed_rows joined is_subscribed has_id insert_each insert_newest
    in_namespace apply_each apply_links wake_each attach attach_tx get_task_for_update find_row
    update_task start_task bytes_eq publish
second_wakes = refl

first_creates : first.0 ≡ ok (first_task, 1)
unfolding create create_tx with_tx call insert_task create_event create_link commit
first_creates = refl

create-apply_example :
    let os = woken_outcome event a_match ((1, 5) ∷ []) ∷ [] in
    All (FoundTask a_match) os
    × (length (apply serials event (a_match ∷ []) first.1).1.tables.tasks
        ≡ length first.1.tables.tasks)
    × All (λ o. All (Reached (codes "u") first.1.tables o) o.task_ids) os
create-apply_example =
    create-apply serials event event rule action a_match refl refl world (first_task, 1)
      (woken_outcome event a_match ((1, 5) ∷ []) ∷ []) first_creates second_wakes

apply-Affects_example :
    Reaches serials event first.1
      (woken_outcome event a_match ((1, 5) ∷ []) ∷ [])
      (apply serials event (a_match ∷ []) first.1).1
apply-Affects_example =
    apply-Affects serials event (a_match ∷ []) first.1
      (woken_outcome event a_match ((1, 5) ∷ []) ∷ []) second_wakes

abbrev a_link : Link
a_link = record {
  id = 1;
  task_id = 7;
  relevance = [];
  url = codes "u";
  routing_key = codes "u";
  title = [];
  subscribe = true;
  created_at = 0;
}

abbrev link_env : LinkEnv
link_env = record { routing_key = λ url. url; link_id = λ rows. length rows + 1; now = 5 }

abbrev link_request : CreateLinkRequest
link_request = record {
  task_id = 7;
  relevance = codes "pr";
  url = codes "u";
  title = [];
  subscribe = true;
}

create_link_by-Answered_example :
    Answered link_env user link_request
      (record world { tables = tables })
      (create_link_by link_env user link_request (record world { tables = tables }))
create_link_by-Answered_example =
    create_link_by-Answered link_env user link_request (record world { tables = tables })
