-- ===== src/Router/Writing.antt =====
-- The write half of routing (internal/server/eventrouter/eventrouter.go): `Apply` wakes the tasks
-- that are subscribed to an event's url or creates a task, and `Route` does so for each organisation
-- whose rules match. The links are those of internal/store/link.go. The serial ids that the database
-- gives, the clock and `RoutingKey` come from outside. The router has a publisher; what it answers,
-- and the log lines, are left out.
use gritz.Prelude.{
  ℕ, Bool, true, false, not, ◌&&◌, ◌||◌, Option, none, List, [], ◌∷◌, ◌++◌, Bytes, codes, bytes_eq,
  ◌==◌, ltb, if◌then◌else◌,
}
use gritz.Prelude.Decimal.{format_int}
use gritz.Task.{Task, unspecified, pending, start, label, is_done, start_task, pending_runner}
use gritz.Event.{Event, EventPayload, lifecycle, instruction, external, link, created, router_actor}
use gritz.Link.{Link, event_payload}
use gritz.Store.{Tx, Notification, NotificationResource, ok, ◌>>◌, call}
use gritz.Router.{CreateTaskAction, RoutingRule, InputEvent, RouteMatch, is_empty}

-- What the router has from outside.
pub record Serials : Type 0 where
  pub routing_key : Bytes → Bytes
  pub task_id : List Task → ℕ
  pub event_id : List Event → ℕ
  pub link_id : List Link → ℕ
  pub clock : List Link → ℕ

pub record RouteOutcome : Type 0 where
  pub input : Option InputEvent
  pub org_id : ℕ
  pub rule : Option RoutingRule
  pub task_ids : List ℕ
  pub event_ids : List ℕ
  pub created : Bool

-- The zero value; its `Input` has no text in it, and is `none` here.
abbrev pub zero_outcome : RouteOutcome
zero_outcome = record {
  input = none;
  org_id = 0;
  rule = none;
  task_ids = [];
  event_ids = [];
  created = false;
}

-- A row of `FindSubscribedLinksForOrgs`: the link with its task's organisation and namespace.
pub record LinkRow : Type 0 where
  pub org_id : ℕ
  pub namespace : Bytes
  pub link : Link

unfoldable pub has_id : List ℕ → ℕ → Bool
has_id [] x = false
has_id (y ∷ ys) x = (y == x) || has_id ys x

-- The condition of the query, on a link and the task it is joined with.
unfoldable pub is_subscribed : Bytes → List ℕ → Link → Task → Bool
is_subscribed key orgs l t =
    (l.task_id == t.id)
    && (bytes_eq l.routing_key key && (l.subscribe && (not t.archived && has_id orgs t.org_id)))

unfoldable pub joined : Bytes → List ℕ → Link → List Task → List LinkRow
joined key orgs l [] = []
joined key orgs l (t ∷ tasks) =
    let rest = joined key orgs l tasks in
    if is_subscribed key orgs l t
    then record { org_id = t.org_id; namespace = t.namespace; link = l } ∷ rest
    else rest

-- ORDER BY l.created_at DESC. The organisations need no order: the result is a map by them.
unfoldable pub insert_newest : LinkRow → List LinkRow → List LinkRow
insert_newest r [] = r ∷ []
insert_newest r (s ∷ rows) =
    let rest = insert_newest r rows in
    if ltb r.link.created_at s.link.created_at then s ∷ rest else r ∷ s ∷ rows

unfoldable pub insert_each : List LinkRow → List LinkRow → List LinkRow
insert_each [] rows = rows
insert_each (r ∷ rs) rows = insert_newest r (insert_each rs rows)

unfoldable pub subscribed_rows : Bytes → List ℕ → List Task → List Link → List LinkRow
subscribed_rows key orgs tasks [] = []
subscribed_rows key orgs tasks (l ∷ links) =
    insert_each (joined key orgs l tasks) (subscribed_rows key orgs tasks links)

unfoldable pub find_subscribed_links : Bytes → List ℕ → Tx (List LinkRow)
find_subscribed_links key orgs = do
  call
  λ c. (ok (subscribed_rows key orgs c.view.tasks c.view.links), c)

-- The links of the match's organisation whose task is in the namespace of its rule.
unfoldable pub in_namespace : RouteMatch → List LinkRow → List LinkRow
in_namespace m [] = []
in_namespace m (r ∷ rows) =
    let rest = in_namespace m rows in
    if (r.org_id == m.org_id) && bytes_eq r.namespace m.rule.namespace then r ∷ rest else rest

abbrev pub external_payload : InputEvent → EventPayload
external_payload input = external (record {
  description = input.description;
  url = input.url;
  data_text = input.data_text;
  details = input.details;
  source = input.source;
  event_type = input.type;
})

abbrev pub external_event : InputEvent → ℕ → ℕ → Bool → Event
external_event input org task wake = record {
  task_id = task;
  org_id = org;
  wake = wake;
  payload = external_payload input;
}

abbrev pub route_notification : ℕ → Notification
route_notification org = record {
  type = codes "change";
  resources = [];
  org_id = org;
  user_id = [];
  client_id = [];
  runner = [];
  task_status = unspecified;
  channel_message = [];
  ignore = false;
}

abbrev pub attached_resources : ℕ → ℕ → List NotificationResource
attached_resources task event =
    record { action = codes "updated"; type = codes "task"; id = task }
    ∷ record { action = codes "updated"; type = codes "event"; id = event }
    ∷ record { action = codes "appended"; type = codes "task_events"; id = task }
    ∷ []

-- ": %s (%s)"
abbrev pub cause : InputEvent → Bytes
cause input = codes ": " ++ input.description ++ codes " (" ++ input.url ++ codes ")"

abbrev pub attached_note : InputEvent → ℕ → ℕ → ℕ → Notification
attached_note input org task event = record (route_notification org) {
  resources = attached_resources task event;
  channel_message = codes "Task " ++ format_int task ++ cause input;
}

abbrev pub woken_message : InputEvent → Task → ℕ → Bytes
woken_message input t event =
    if is_done t
    then codes "Task "
      ++ format_int t.id
      ++ codes " woken by event "
      ++ format_int event
      ++ cause input
    else []

-- `t` is the task before it was started.
abbrev pub woken_note : InputEvent → ℕ → Task → ℕ → Notification
woken_note input org t event = record (route_notification org) {
  resources = attached_resources t.id event;
  runner = pending_runner (start_task t).0;
  channel_message = woken_message input t event;
}

abbrev pub default_prompt : InputEvent → Bytes
default_prompt input =
    codes "You were created by a routing rule in response to a "
    ++ input.source
    ++ codes " "
    ++ input.type
    ++ codes " event."

abbrev pub prompt_of : InputEvent → CreateTaskAction → Bytes
prompt_of input action = if is_empty action.prompt then default_prompt input else action.prompt

abbrev pub rule_task : ℕ → RoutingRule → CreateTaskAction → Task
rule_task org rule action = record {
  id = 0;
  name = [];
  runner = action.runner;
  workspace = action.workspace;
  status = pending;
  command = start;
  version = 1;
  org_id = org;
  archived = false;
  namespace = rule.namespace;
  auto_archive = action.auto_archive;
  shell_session = [];
}

abbrev pub rule_created : Task → Event
rule_created t = record {
  task_id = t.id;
  org_id = t.org_id;
  wake = false;
  payload = lifecycle (record {
    kind = created;
    actor = router_actor;
    from_status = [];
    to_status = label t.status;
    message = [];
    fields = [];
  });
}

abbrev pub link_event : ℕ → Link → Event
link_event org l = record {
  task_id = l.task_id;
  org_id = org;
  wake = false;
  payload = link (event_payload l);
}

abbrev pub prompt_event : InputEvent → CreateTaskAction → Task → Event
prompt_event input action t = record {
  task_id = t.id;
  org_id = t.org_id;
  wake = true;
  payload = instruction (prompt_of input action) [];
}

abbrev pub created_note : InputEvent → Task → Notification
created_note input t = record (route_notification t.org_id) {
  resources =
      record { action = codes "created"; type = codes "task"; id = t.id }
      ∷ record { action = codes "appended"; type = codes "task_events"; id = t.id }
      ∷ [];
  runner = pending_runner t;
  channel_message =
      codes "Task " ++ format_int t.id ++ codes " created by routing rule for event" ++ cause input;
}
