-- ===== src/Router/Steps.antt =====
-- `Apply` as a sequence of steps, one for each match.
use gritz.Prelude.{
  ℕ, ◌≡◌, ◌≢◌, ◌∙◌, sym, refl, Option, none, some, Bool, true, false, List, [], ◌∷◌, ◌++◌, map,
}
use gritz.Task.{Task}
use gritz.Store.{Result, ok, err, World, Notification, read_only, call}
use gritz.Router.{CreateTaskAction, InputEvent, RouteMatch}
use gritz.Router.Writing.{
  Serials, RouteOutcome, zero_outcome, LinkRow, find_subscribed_links, subscribed_rows,
  in_namespace,
}
use gritz.Router.Applying.{
  matched_outcome, woken_outcome, created_outcome, create, create_if, apply_links, apply_each,
  applied, apply, wake_each,
}
use gritz.Router.Attaching.{Told}
use gritz.Router.Accepting.{create-failed}
use gritz.Router.Creating.{Made, create-Told}
use gritz.Router.Outcomes.{Woken, Wakes, wake_each-Woken, wake_each-Wakes}

abbrev pub new_outcome : InputEvent → RouteMatch → ℕ → ℕ → RouteOutcome
new_outcome input m task event = record (matched_outcome input m) {
  task_ids = task ∷ [];
  event_ids = event ∷ [];
  created = true;
}

-- What is done for a match: the linked tasks of the rule's namespace are woken; without any, the
-- rule's task is created, or, when a call is refused, fails to be with nothing written; without an action nothing is done.
pub data Step (env : Serials) (input : InputEvent) (rows : List LinkRow) (m : RouteMatch)
    (w : World) : RouteOutcome → World → Type 0 where
  woke :
      (r : LinkRow) (linked : List LinkRow) (woken : List (ℕ × ℕ)) (w' : World)
      → in_namespace m rows ≡ r ∷ linked
      → Woken env input m [] (r ∷ linked) w woken w'
      → Wakes env input m [] (r ∷ linked) w woken w'
      → Step env input rows m w (woken_outcome input m woken) w'
  made :
      (action : CreateTaskAction) (t : Task) (event : ℕ) (n : Notification) (w' : World)
      → in_namespace m rows ≡ []
      → m.rule.create ≡ some action
      → Made env input m.org_id m.rule action w.tables (t, event) n w'.tables
      → w'.published ≡ w.published ++ n ∷ []
      → Step env input rows m w (new_outcome input m t.id event) w'
  failed :
      (action : CreateTaskAction) (w' : World)
      → in_namespace m rows ≡ []
      → m.rule.create ≡ some action
      → w.answers ≢ []
      → w'.tables ≡ w.tables
      → w'.published ≡ w.published
      → Step env input rows m w zero_outcome w'
  idle :
      in_namespace m rows ≡ []
      → m.rule.create ≡ none
      → Step env input rows m w (matched_outcome input m) w

pub data Steps (env : Serials) (input : InputEvent) (rows : List LinkRow)
    : List RouteMatch → World → List RouteOutcome → World → Type 0 where
  done : (w : World) → Steps env input rows [] w [] w
  then_match :
      (m : RouteMatch) (ms : List RouteMatch) (w w1 w2 : World) (o : RouteOutcome)
      (os : List RouteOutcome)
      → Step env input rows m w o w1
      → Steps env input rows ms w1 os w2
      → Steps env input rows (m ∷ ms) w (o ∷ os) w2

module _ (env : Serials) (input : InputEvent) (rows : List LinkRow) where
  created_outcome-Step :
      (m : RouteMatch) (action : CreateTaskAction) (w : World) (r : Result (Task × ℕ) × World)
      → in_namespace m rows ≡ []
      → m.rule.create ≡ some action
      → create env input m.org_id m.rule action w ≡ r
      → Told (Made env input m.org_id m.rule action w.tables) w r
      → Step env input rows m w (created_outcome input m r).0 (created_outcome input m r).1
  created_outcome-Step m action w (ok (t, event), w') none_linked acts is (n, p, q) =
      made action t event n w' none_linked acts p q
  created_outcome-Step m action w (err e, w') none_linked acts is (p, q) =
      failed action w' none_linked acts (create-failed env input m.org_id m.rule action w w' e is) p
        q

  create_if-Step :
      (m : RouteMatch) (w : World) (o : Option CreateTaskAction)
      → in_namespace m rows ≡ []
      → m.rule.create ≡ o
      → Step env input rows m w (create_if env input m o w).0 (create_if env input m o w).1
  unfolding create_if
  create_if-Step m w none none_linked acts = idle none_linked acts
  create_if-Step m w (some action) none_linked acts =
      created_outcome-Step m action w (create env input m.org_id m.rule action w) none_linked acts
        refl (create-Told env input m.org_id m.rule action w)

  apply_links-Step :
      (m : RouteMatch) (w : World) (linked : List LinkRow)
      → in_namespace m rows ≡ linked
      → Step env input rows m w
          (apply_links env input m linked w).0
          (apply_links env input m linked w).1
  unfolding apply_links
  apply_links-Step m w [] e = create_if-Step m w m.rule.create e refl
  apply_links-Step m w (r ∷ linked) e =
      let x = wake_each env input m [] (r ∷ linked) w in
      woke r linked x.0 x.1 e (wake_each-Woken env input m [] (r ∷ linked) w)
        (wake_each-Wakes env input m [] (r ∷ linked) w)

  pub apply_each-Steps :
      (ms : List RouteMatch) (w : World)
      → Steps env input rows ms w
          (apply_each env input rows ms w).0
          (apply_each env input rows ms w).1
  unfolding apply_each
  apply_each-Steps [] w = done w
  apply_each-Steps (m ∷ ms) w =
      let x = apply_links env input m (in_namespace m rows) w in
      then_match m ms w x.1 _ x.0 _ (apply_links-Step m w (in_namespace m rows) refl)
        (apply_each-Steps ms x.1)

pub not_nil : {A : Type 0} {x : A} {xs : List A} → x ∷ xs ≡ [] → ⊥
not_nil e = cc

module _ (env : Serials) (input : InputEvent) where
  abbrev pub rows_for : List RouteMatch → World → List LinkRow
  rows_for ms w =
      subscribed_rows (env.routing_key input.url) (map (λ (x : RouteMatch). x.org_id) ms)
        w.tables.tasks w.tables.links

  abbrev pub Applies : List RouteMatch → World → Result (List RouteOutcome) × World → Type 0
  Applies ms w (err e, w') =
      (w.answers ≢ []) × (w'.tables ≡ w.tables) × (w'.published ≡ w.published)
  Applies ms w (ok outcomes, w') =
      (a : List Bool) × Steps env input (rows_for ms w) ms (record w { answers = a }) outcomes w'

  found-Applies :
      (ms : List RouteMatch) (w : World) (answers : List Bool)
      → w.answers ≡ answers
      → Applies ms w (
          applied env input ms (
            read_only
              (find_subscribed_links
                (env.routing_key input.url)
                (map (λ (x : RouteMatch). x.org_id) ms))
              (record w { answers = answers })))
  unfolding read_only find_subscribed_links call
  found-Applies ms w [] is =
      ([], apply_each-Steps env input (rows_for ms w) ms (record w { answers = [] }))
  found-Applies ms w (true ∷ a) is =
      (a, apply_each-Steps env input (rows_for ms w) ms (record w { answers = a }))
  found-Applies ms w (false ∷ a) is = (λ e. not_nil (sym is ∙ e), refl, refl)

  -- Applying the matches to an event either has its look for the links refused and changes nothing, or
  -- does one step for each match.
  pub apply-Applies : (ms : List RouteMatch) (w : World) → Applies ms w (apply env input ms w)
  unfolding apply
  apply-Applies [] w = (w.answers, done w)
  apply-Applies (m ∷ ms) w = found-Applies (m ∷ ms) w w.answers refl
