-- ===== src/Router/Applying.antt =====
-- `attach`, `create`, `Apply` and `Route` of internal/server/eventrouter/eventrouter.go, over the rows
-- and messages of Router/Writing.antt.
use gritz.Prelude.{
  ℕ, ◌+◌, Bool, true, false, Option, none, some, List, [], ◌∷◌, map, codes, length, if◌then◌else◌,
}
use gritz.Task.{Task, start_task}
use gritz.Event.{Event}
use gritz.Link.{Link}
use gritz.Store.{
  create_link, Result, Tx, World, Notification, ok, err, ◌>>=◌, ◌>>◌, pure, call,
  get_task_for_update, update_task, create_event, commit, with_tx, publish, read_only,
}
use gritz.Server.Creation.{insert_task}
use gritz.Router.{CreateTaskAction, RoutingRule, InputEvent, OrgRules, RouteMatch, is_empty, plan}
use gritz.Router.Writing.{
  Serials, RouteOutcome, zero_outcome, LinkRow, has_id, find_subscribed_links, in_namespace,
  external_event, attached_note, woken_note, rule_task, rule_created, link_event, prompt_event,
  created_note,
}

-- What a transaction leaves to be published after it.
abbrev pub announced {ℓ} : {A : Type ℓ} → Result (A × Notification) × World → Result A × World
announced (ok (x, n), w) = (ok x, publish n w)
announced (err e, w) = (err e, w)

abbrev pub matched_outcome : InputEvent → RouteMatch → RouteOutcome
matched_outcome input m = record {
  input = some input;
  org_id = m.org_id;
  rule = some m.rule;
  task_ids = [];
  event_ids = [];
  created = false;
}

-- The outcome of tasks woken, each with its event.
abbrev pub woken_outcome : InputEvent → RouteMatch → List (ℕ × ℕ) → RouteOutcome
woken_outcome input m woken = record (matched_outcome input m) {
  task_ids = map (λ p. p.0) woken;
  event_ids = map (λ p. p.1) woken;
}

-- A failed create leaves the zero value in its place.
abbrev pub created_outcome :
    InputEvent → RouteMatch → Result (Task × ℕ) × World → RouteOutcome × World
created_outcome input m (ok (t, event), w) = (
  record (matched_outcome input m) { task_ids = t.id ∷ []; event_ids = event ∷ []; created = true },
  w,
)
created_outcome input m (err e, w) = (zero_outcome, w)

-- A failed attach is only logged.
abbrev pub if_attached : ℕ → Result ℕ → List (ℕ × ℕ) → List (ℕ × ℕ)
if_attached task (ok event) rest = (task, event) ∷ rest
if_attached task (err e) rest = rest

-- The input to the callback, and how many tasks the outcomes name.
abbrev pub affected : List RouteOutcome → ℕ
affected [] = 0
affected (o ∷ outcomes) = length o.task_ids + affected outcomes

module _ (env : Serials) where
  -- `CreateEvent`: the event gets its id.
  abbrev pub insert_event : Event → Tx ℕ
  insert_event e c = (do create_event e; pure (env.event_id c.view.events)) c

  -- The closure of `attach` from where the event is stored; the flag says whether to wake.
  abbrev pub attach_rest : InputEvent → ℕ → ℕ → Bool → ℕ → Tx (ℕ × Notification)
  attach_rest input org task false event = do
    commit
    pure (event, attached_note input org task event)
  attach_rest input org task true event = do
    t ← get_task_for_update task org
    update_task (start_task t).0
    commit
    pure (event, woken_note input org t event)

  unfoldable pub attach_tx : InputEvent → ℕ → ℕ → Bool → Tx (ℕ × Notification)
  attach_tx input org task wake = do
    event ← insert_event (external_event input org task wake)
    attach_rest input org task wake event

  unfoldable pub attach : InputEvent → ℕ → ℕ → Bool → World → Result ℕ × World
  attach input org task wake w = announced (with_tx (attach_tx input org task wake) w)

  -- The link of a new task, before it has its id.
  abbrev pub trigger_link : InputEvent → ℕ → List Link → Link
  trigger_link input task links = record {
    id = 0;
    task_id = task;
    relevance = codes "trigger";
    url = input.url;
    routing_key = env.routing_key input.url;
    title = [];
    subscribe = true;
    created_at = env.clock links;
  }

  abbrev pub create_rest : InputEvent → CreateTaskAction → Task → Tx ((Task × ℕ) × Notification)
  create_rest input action t = do
    event ← insert_event (external_event input t.org_id t.id false)
    create_event (rule_created t)
    l ← λ c. create_link env.link_id (trigger_link input t.id c.view.links) c
    create_event (link_event t.org_id l)
    create_event (prompt_event input action t)
    commit
    pure ((t, event), created_note input t)

  unfoldable pub create_tx :
      InputEvent → ℕ → RoutingRule → CreateTaskAction → Tx ((Task × ℕ) × Notification)
  create_tx input org rule action = do
    t ← λ c. insert_task (env.task_id c.view.tasks) (rule_task org rule action) c
    create_rest input action t

  unfoldable pub create :
      InputEvent → ℕ → RoutingRule → CreateTaskAction → World → Result (Task × ℕ) × World
  create input org rule action w = announced (with_tx (create_tx input org rule action) w)

  -- The loop over the subscribed links; `seen` holds the tasks met so far.
  unfoldable pub wake_each :
      InputEvent → RouteMatch → List ℕ → List LinkRow → World → List (ℕ × ℕ) × World
  wake_each input m seen [] w = ([], w)
  wake_each input m seen (r ∷ rows) w =
      let task = r.link.task_id in
      let skipped = wake_each input m seen rows w in
      let (answer, w1) = attach input m.org_id task m.rule.wakeup w in
      let (rest, w2) = wake_each input m (task ∷ seen) rows w1 in
      if has_id seen task then skipped else (if_attached task answer rest, w2)

  -- The branch without a subscribed link, on the rule's action.
  unfoldable pub create_if :
      InputEvent → RouteMatch → Option CreateTaskAction → World → RouteOutcome × World
  create_if input m none w = (matched_outcome input m, w)
  create_if input m (some action) w =
      created_outcome input m (create input m.org_id m.rule action w)

  unfoldable pub apply_links : InputEvent → RouteMatch → List LinkRow → World → RouteOutcome × World
  apply_links input m [] w = create_if input m m.rule.create w
  apply_links input m (r ∷ rows) w =
      let (woken, w') = wake_each input m [] (r ∷ rows) w in (woken_outcome input m woken, w')

  unfoldable pub apply_each :
      InputEvent → List LinkRow → List RouteMatch → World → List RouteOutcome × World
  apply_each input rows [] w = ([], w)
  apply_each input rows (m ∷ ms) w =
      let (o, w1) = apply_links input m (in_namespace m rows) w in
      let (rest, w2) = apply_each input rows ms w1 in (o ∷ rest, w2)

  abbrev pub applied :
      InputEvent
      → List RouteMatch
      → Result (List LinkRow) × World
      → Result (List RouteOutcome) × World
  applied input ms (err e, w) = (err e, w)
  applied input ms (ok rows, w) =
      let (outcomes, w') = apply_each input rows ms w in (ok outcomes, w')

  unfoldable pub apply : InputEvent → List RouteMatch → World → Result (List RouteOutcome) × World
  apply input [] w = (ok [], w)
  apply input (m ∷ ms) w =
      let orgs = map (λ (x : RouteMatch). x.org_id) (m ∷ ms) in
      applied input (m ∷ ms) (read_only (find_subscribed_links (env.routing_key input.url) orgs) w)

  -- The number of tasks woken or created, and the outcomes that the callback is called with.
  abbrev pub routed : Result (List RouteOutcome) × World → Result (ℕ × List RouteOutcome) × World
  routed (ok outcomes, w) = (ok (affected outcomes, outcomes), w)
  routed (err e, w) = (err e, w)

  abbrev pub planned :
      InputEvent
      → List OrgRules
      → Result (Unit {0}) × World
      → Result (ℕ × List RouteOutcome) × World
  planned input orgs (ok _, w) = routed (apply input (plan orgs input) w)
  planned input orgs (err e, w) = (err e, w)

  -- The rules that `ListRoutingRulesForEvent` answers with are an argument.
  unfoldable pub route : InputEvent → List OrgRules → World → Result (ℕ × List RouteOutcome) × World
  route input orgs w =
      if is_empty input.url then (ok (0, []), w) else planned input orgs (read_only call w)
