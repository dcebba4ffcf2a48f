-- ===== src/Router/Reach.antt =====
-- Whom an event reaches.
use gritz.Prelude.{
  IsIn, ℕ, ◌≡◌, ◌↔◌, ◌⊎◌, ◌∙◌, inl, inr, refl, sym, ap, subst, arith, true, false, List, [], ◌∷◌,
  Bytes, bytes_eq_iff, map, none, some, All, Option, Bool, false, ◌++◌,
}
use mathlib.Core.List.{append_assoc, append-nil}
use gritz.Event.{Event}
use gritz.Task.{Task}
use gritz.Link.{Link}
use gritz.Store.{Tables, World, Result, ok, err}
use gritz.Router.{InputEvent, RouteMatch, RoutingRule}
use gritz.Router.Writing.{
  Serials, LinkRow, RouteOutcome, zero_outcome, external_payload, external_event, rule_created,
  link_event, prompt_event, subscribed_rows, in_namespace,
}
use gritz.Router.Applying.{apply, woken_outcome}
use gritz.Router.Creating.{new_task, new_link}
use gritz.Router.Outcomes.{IsLinked, Distinct, ids_of, woken_event}
use gritz.Router.Steps.{
  Step, Steps, woke, made, failed, idle, done, then_match, Applies, apply-Applies,
}
use gritz.Router.Subscriptions.{subscribed_rows_iff}

pub in_namespace_iff :
    (m : RouteMatch) (rows : List LinkRow) (r : LinkRow)
    → IsIn r (in_namespace m rows)
      ↔ (IsIn r rows × (r.org_id ≡ m.org_id) × (r.namespace ≡ m.rule.namespace))
unfolding in_namespace
in_namespace_iff m [] r = ground arith
in_namespace_iff m (x ∷ rows) r =
    ground (arith, bytes_eq_iff x.namespace m.rule.namespace, in_namespace_iff m rows r)

-- The task is subscribed to the event, by some link, in the organisation of the outcome and in the
-- namespace of its rule.
pub record Reached (key : Bytes) (v : Tables) (o : RouteOutcome) (id : ℕ) : Type 0 where
  pub rule : RoutingRule
  pub task : Task
  pub link : Link
  pub a_task : IsIn task v.tasks
  pub a_link : IsIn link v.links
  pub identified : task.id ≡ id
  pub keyed : (link.task_id ≡ id) × (link.routing_key ≡ key) × (link.subscribe ≡ true)
  pub live : task.archived ≡ false
  pub in_org : task.org_id ≡ o.org_id
  pub by_rule : o.rule ≡ some rule
  pub in_namespace : task.namespace ≡ rule.namespace

-- The tasks of an outcome: one that was created, or distinct ones that were reached.
abbrev pub Affects : Bytes → Tables → RouteOutcome → Type 0
Affects key v o = (o.created ≡ true) ⊎ (Distinct [] o.task_ids × All (Reached key v o) o.task_ids)

IsLinked-row :
    (rows : List LinkRow) (x : ℕ)
    → IsLinked rows x
    → (r : LinkRow) × IsIn r rows × (r.link.task_id ≡ x)
IsLinked-row [] x h = absurd h
IsLinked-row (r ∷ rows) x (inl e) = (r, inl refl, e)
IsLinked-row (r ∷ rows) x (inr later) =
    let (s, there, e) = IsLinked-row rows x later in (s, inr there, e)

module _ (key : Bytes) (orgs : List ℕ) (v : Tables) (m : RouteMatch) (o : RouteOutcome)
    (of_org : o.org_id ≡ m.org_id) (of_rule : o.rule ≡ some m.rule) where
  row-Reached :
      (r : LinkRow)
      → IsIn r (in_namespace m (subscribed_rows key orgs v.tasks v.links))
      → Reached key v o r.link.task_id
  row-Reached r h =
      let (there, org, space) =
        (in_namespace_iff m (subscribed_rows key orgs v.tasks v.links) r).0 h in
      let s = (subscribed_rows_iff key orgs v.tasks v.links r).0 there in
      record {
        rule = m.rule;
        task = s.task;
        link = r.link;
        a_task = s.a_task;
        a_link = s.a_link;
        identified = sym s.selects.0;
        keyed = (refl, s.selects.1, s.selects.2);
        live = s.selects.3;
        in_org = sym (ap (λ (x : LinkRow). x.org_id) s.row) ∙ org ∙ sym of_org;
        by_rule = of_rule;
        in_namespace = sym (ap (λ (x : LinkRow). x.namespace) s.row) ∙ space;
      }

  linked-Reached :
      (xs : List ℕ)
      → All (IsLinked (in_namespace m (subscribed_rows key orgs v.tasks v.links))) xs
      → All (Reached key v o) xs
  linked-Reached [] h = tt
  linked-Reached (x ∷ xs) (h, hs) =
      let (r, there, e) =
        IsLinked-row (in_namespace m (subscribed_rows key orgs v.tasks v.links)) x h in
      (subst (Reached key v o) e (row-Reached r there), linked-Reached xs hs)

module _ (env : Serials) (input : InputEvent) (orgs : List ℕ) (v : Tables) where
  abbrev rows : List LinkRow
  rows = subscribed_rows (env.routing_key input.url) orgs v.tasks v.links

  Step-Affects :
      (m : RouteMatch) (w : World) (o : RouteOutcome) (w' : World)
      → Step env input rows m w o w'
      → Affects (env.routing_key input.url) v o
  Step-Affects m w o w' (woke r linked woken _ e k each) = inr (
    k.distinct,
    linked-Reached (env.routing_key input.url) orgs v m o refl refl (ids_of woken)
        (subst (λ l. All (IsLinked l) (ids_of woken)) (sym e) k.linked),
  )
  Step-Affects m w o w' (made action t event n _ e acts p q) = inl refl
  Step-Affects m w o w' (failed action _ e acts refused p q) = inr (tt, tt)
  Step-Affects m w o w' (idle e acts) = inr (tt, tt)

  pub Steps-Affects :
      (ms : List RouteMatch) (w : World) (os : List RouteOutcome) (w' : World)
      → Steps env input rows ms w os w'
      → All (Affects (env.routing_key input.url) v) os
  Steps-Affects ms w os w' (done _) = tt
  Steps-Affects ms w os w' (then_match m rest _ w1 _ o others s k) =
      (Step-Affects m w o w1 s, Steps-Affects rest w1 others w' k)

abbrev pub wakeup_of : Option RoutingRule → Bool
wakeup_of none = false
wakeup_of (some rule) = rule.wakeup

module _ (input : InputEvent) where
  -- What a task that was woken gets, in the organisation of the outcome and by its rule.
  abbrev pub received : RouteOutcome → ℕ → Event
  received o id = record {
    task_id = id;
    org_id = o.org_id;
    wake = wakeup_of o.rule;
    payload = external_payload input;
  }

  -- The events that were written: one for each task of an outcome that created none, in order, and
  -- those of the tasks that were created.
  pub data Received : List RouteOutcome → List Event → Type 0 where
    no_outcome : Received [] []
    by_woken :
        (o : RouteOutcome) (os : List RouteOutcome) (events : List Event)
        → o.created ≡ false
        → Received os events
        → Received (o ∷ os) (map (received o) o.task_ids ++ events)
    by_created :
        (o : RouteOutcome) (os : List RouteOutcome) (first events : List Event)
        → o.created ≡ true
        → All (λ e. IsIn e.task_id o.task_ids) first
        → Received os events
        → Received (o ∷ os) (first ++ events)

  abbrev pub Adds : List RouteOutcome → World → World → Type 0
  Adds os w w' =
      (events : List Event) × (w'.tables.events ≡ w.tables.events ++ events) × Received os events

module _ (env : Serials) (input : InputEvent) (rows : List LinkRow) where
  same_events :
      (m : RouteMatch) (all woken : List (ℕ × ℕ))
      → map (woken_event env input m) woken
        ≡ map (received input (woken_outcome input m all)) (ids_of woken)
  same_events m all [] = refl
  same_events m all (p ∷ woken) = ap (λ l. woken_event env input m p ∷ l) (same_events m all woken)

  none_before :
      (w : World) (o : RouteOutcome) (os : List RouteOutcome) (w1 w' : World)
      → w1.tables.events ≡ w.tables.events
      → o.created ≡ false
      → o.task_ids ≡ []
      → Adds input os w1 w'
      → Adds input (o ∷ os) w w'
  none_before w o os w1 w' e c n (events, more, k) = (
    events,
    more ∙ ap (λ l. l ++ events) e,
    subst (λ l. Received input (o ∷ os) (map (received input o) l ++ events)) n
        (by_woken o os events c k),
  )

  Step-Adds :
      (m : RouteMatch) (w : World) (o : RouteOutcome) (w1 : World) (os : List RouteOutcome)
      (w' : World)
      → Step env input rows m w o w1
      → Adds input os w1 w'
      → Adds input (o ∷ os) w w'
  Step-Adds m w o w1 os w' (woke r linked woken _ e k each) (events, more, rest) = (
    map (received input o) o.task_ids ++ events,
    more
        ∙ ap (λ l. l ++ events)
            (k.events ∙ ap (λ l. w.tables.events ++ l) (same_events m woken woken))
        ∙ append_assoc w.tables.events (map (received input o) (ids_of woken)) events,
    by_woken o os events refl rest,
  )
  Step-Adds m w o w1 os w' (made action t event n _ e acts p q) (events, more, rest) =
      let new = new_task env input m.org_id m.rule action w.tables in
      let first =
        external_event input m.org_id new.id false
        ∷ rule_created new
        ∷ link_event m.org_id (new_link env input m.org_id m.rule action w.tables)
        ∷ prompt_event input action new
        ∷ [] in
      let own : t.id ≡ new.id = ap (λ (x : Task). x.id) p.0 in
      (
        first ++ events,
        more
            ∙ ap (λ (v : Tables). v.events ++ events) p.4
            ∙ append_assoc w.tables.events first events,
        by_created o os first events refl (inl own, (inl own, (inl own, (inl own, tt)))) rest,
      )
  Step-Adds m w o w1 os w' (failed action _ e acts refused p q) k =
      none_before w zero_outcome os w1 w' (ap (λ (v : Tables). v.events) p) refl refl k
  Step-Adds m w o w1 os w' (idle e acts) k = none_before w o os w w' refl refl refl k

  Steps-Adds :
      (ms : List RouteMatch) (w : World) (os : List RouteOutcome) (w' : World)
      → Steps env input rows ms w os w'
      → Adds input os w w'
  Steps-Adds ms w os w' (done _) = ([], sym (append-nil w.tables.events), no_outcome)
  Steps-Adds ms w os w' (then_match m rest _ w1 _ o others s k) =
      Step-Adds m w o w1 others w' s (Steps-Adds rest w1 others w' k)

module _ (env : Serials) (input : InputEvent) where
  -- What an application did to its outcomes and to the events.
  abbrev pub Reaches : World → List RouteOutcome → World → Type 0
  Reaches w os w' = All (Affects (env.routing_key input.url) w.tables) os × Adds input os w w'

  Applies-Reaches :
      (ms : List RouteMatch) (w : World) (r : Result (List RouteOutcome) × World)
      (os : List RouteOutcome)
      → r.0 ≡ ok os
      → Applies env input ms w r
      → Reaches w os r.1
  Applies-Reaches ms w (err e, w') os h k = cc
  Applies-Reaches ms w (ok found, w') os h (a, k) =
      let rows =
        subscribed_rows (env.routing_key input.url) (map (λ (x : RouteMatch). x.org_id) ms)
          w.tables.tasks w.tables.links in
      subst (λ (l : List RouteOutcome). Reaches w l w') (ok_same h)
        (
          Steps-Affects env input (map (λ (x : RouteMatch). x.org_id) ms) w.tables ms
              (record w { answers = a }) found w' k,
          Steps-Adds env input rows ms (record w { answers = a }) found w' k,
        )
    where
      ok_same : ok found ≡ ok os → found ≡ os
      ok_same e = cc

  -- An event that creates no task reaches only tasks that a link subscribes to its key, that are not
  -- archived, and that belong to the organisation and the namespace of the rule that matched; and each
  -- of them once, however many links it has: beside the events of the tasks that were created, exactly
  -- one event is written for each task of an outcome.
  pub apply-Affects :
      (ms : List RouteMatch) (w : World) (os : List RouteOutcome)
      → (apply env input ms w).0 ≡ ok os
      → Reaches w os (apply env input ms w).1
  apply-Affects ms w os h =
      Applies-Reaches ms w (apply env input ms w) os h (apply-Applies env input ms w)
