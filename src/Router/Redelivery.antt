-- ===== src/Router/Redelivery.antt =====
-- A second delivery of an event creates no second task.
use gritz.Prelude.{
  IsIn, ℕ, ◌≡◌, inl, inr, refl, sym, ap, ◌∙◌, subst, arith, true, false, Bool, Bytes, length, List,
  [], ◌∷◌, ◌++◌, some, All,
}
use gritz.Task.{Task, start_task}
use gritz.Link.{Link}
use gritz.Store.{Tables, World, Result, ok, err, update_rows}
use gritz.Server.Creation.{inserted}
use gritz.Router.{InputEvent, RouteMatch, RoutingRule, CreateTaskAction}
use gritz.Router.Writing.{rule_task, Serials, LinkRow, RouteOutcome, in_namespace}
use gritz.Router.Applying.{apply, create}
use gritz.Router.Attaching.{Told, Attached}
use gritz.Router.Creating.{Made, create-Told, new_link}
use gritz.Router.Reach.{Affects, Reached, apply-Affects, in_namespace_iff}
use gritz.Router.Outcomes.{Wakes, no_link, met, attached, not_attached}
use gritz.Router.Steps.{
  Step, Steps, woke, made, failed, idle, done, then_match, rows_for, Applies, apply-Applies,
}
use gritz.Router.Subscriptions.{Subscribed, row_of, subscribed_rows_iff}

-- The outcome of an event that found its task.
abbrev pub FoundTask : RouteMatch → RouteOutcome → Type 0
FoundTask m o = (o.created ≡ false) × (o.org_id ≡ m.org_id) × (o.rule ≡ some m.rule)

-- An event for a subscribed task that is live in the namespace of the rule creates none.
IsIn-ne : {A : Type 0} (x : A) (xs : List A) → IsIn x xs → xs ≡ [] → ⊥
IsIn-ne x [] h e = absurd h
IsIn-ne x (y ∷ ys) h e = cc

not_cons : {A : Type 0} {x : A} {xs : List A} → x ∷ xs ≡ [] → ⊥
not_cons e = cc

length-update_rows : (t : Task) (rows : List Task) → length (update_rows t rows) ≡ length rows
unfolding update_rows
length-update_rows t [] = refl
length-update_rows t (r ∷ rows) = ground (arith, length-update_rows t rows)

module _ (env : Serials) (input : InputEvent) (m : RouteMatch) where
  length-Attached :
      (task : ℕ) (wake : Bool) (w w1 : World) (event : ℕ)
      → Told (Attached env input m.org_id task wake w.tables) w (ok event, w1)
      → length w1.tables.tasks ≡ length w.tables.tasks
  length-Attached task false w w1 event (n, (id, v, note), p) =
      ap (λ (x : Tables). length x.tasks) v
  length-Attached task true w w1 event (n, (id, (t, found, v, note)), p) =
      ap (λ (x : Tables). length x.tasks) v ∙ length-update_rows (start_task t).0 w.tables.tasks

  -- Waking adds no task.
  length-Wakes :
      (seen : List ℕ) (rows : List LinkRow) (w : World) (woken : List (ℕ × ℕ)) (w' : World)
      → Wakes env input m seen rows w woken w'
      → length w'.tables.tasks ≡ length w.tables.tasks
  length-Wakes seen rows w woken w' (no_link _ _) = refl
  length-Wakes seen rows w woken w' (met _ r rest _ _ _ fresh k) =
      length-Wakes seen rest w woken w' k
  length-Wakes seen rows w woken w' (attached _ r rest _ w1 _ event others fresh t k) =
      length-Wakes (r.link.task_id ∷ seen) rest w1 others w' k
      ∙ length-Attached r.link.task_id m.rule.wakeup w w1 event t
  length-Wakes seen rows w woken w' (not_attached _ r rest _ w1 _ e _ fresh is cause same k) =
      length-Wakes (r.link.task_id ∷ seen) rest w1 woken w' k
      ∙ ap (λ (x : Tables). length x.tasks) same.0

module _ (env : Serials) (input : InputEvent) (m : RouteMatch) (l : Link) (t : Task) where
  Linked : World → Type 0
  Linked w =
      IsIn l w.tables.links
      × IsIn t w.tables.tasks
      × Subscribed (env.routing_key input.url) (m.org_id ∷ []) l t
      × (t.namespace ≡ m.rule.namespace)

  row_there : (w : World) → Linked w → in_namespace m (rows_for env input (m ∷ []) w) ≡ [] → ⊥
  unfolding Linked
  row_there w (links, tasks, sub, space) =
      let key = env.routing_key input.url in
      IsIn-ne (row_of l t) _ (
        (in_namespace_iff m (rows_for env input (m ∷ []) w) (row_of l t)).1 (
          (subscribed_rows_iff key (m.org_id ∷ []) w.tables.tasks w.tables.links (row_of l t)).1
              (record { task = t; a_task = tasks; a_link = links; selects = sub; row = refl }),
          sym (in_one sub.4),
          space,
        ))
    where
      in_one : IsIn t.org_id (m.org_id ∷ []) → m.org_id ≡ t.org_id
      in_one h = ground arith

  -- The outcome is that of a task found, and no task is added.
  abbrev Finds : List RouteOutcome → World → World → Type 0
  Finds os w1 w2 = All (FoundTask m) os × (length w2.tables.tasks ≡ length w1.tables.tasks)

  found-Step :
      (w w1 : World) (o : RouteOutcome) (w2 : World)
      → Linked w
      → Step env input (rows_for env input (m ∷ []) w) m w1 o w2
      → Finds (o ∷ []) w1 w2
  found-Step w w1 o w2 h (woke r linked woken _ e k each) =
      (((refl, refl, refl), tt), length-Wakes env input m [] (r ∷ linked) w1 woken w2 each)
  found-Step w w1 o w2 h (made action t' event n _ e acts p q) = absurd (row_there w h e)
  found-Step w w1 o w2 h (failed action _ e acts refused p q) = absurd (row_there w h e)
  found-Step w w1 o w2 h (idle e acts) = absurd (row_there w h e)

  found-Steps :
      (w : World) (ms : List RouteMatch) (w1 : World) (os : List RouteOutcome) (w2 : World)
      → Linked w
      → ms ≡ m ∷ []
      → Steps env input (rows_for env input (m ∷ []) w) ms w1 os w2
      → Finds os w1 w2
  found-Steps w ms w1 os w2 h same (done _) = (tt, refl)
  found-Steps w ms w1 os w2 h same (then_match m' rest _ w3 _ o others s k) =
      let (head, tail) = one_match in
      let first =
        found-Step w w1 o w3 h
          (subst (λ x. Step env input (rows_for env input (m ∷ []) w) x w1 o w3) head s) in
      let after = no_more rest w3 others w2 tail k in ((first.0.0, after.0), after.1 ∙ first.1)
    where
      one_match : (m' ≡ m) × (rest ≡ [])
      one_match = (cc, cc)

      no_more :
          (ms' : List RouteMatch) (w4 : World) (os' : List RouteOutcome) (w5 : World)
          → ms' ≡ []
          → Steps env input (rows_for env input (m ∷ []) w) ms' w4 os' w5
          → All (FoundTask m) os' × (length w5.tables.tasks ≡ length w4.tables.tasks)
      no_more ms' w4 os' w5 e (done _) = (tt, refl)
      no_more ms' w4 os' w5 e (then_match _ _ _ _ _ _ _ _ _) = absurd (not_cons e)

  Linked-found :
      (w : World) (r : Result (List RouteOutcome) × World) (os : List RouteOutcome)
      → Linked w
      → r.0 ≡ ok os
      → Applies env input (m ∷ []) w r
      → Finds os w r.1
  Linked-found w (err e, w') os h same k = cc
  Linked-found w (ok outs, w') os h same (a, k) =
      subst (λ (l : List RouteOutcome). Finds l w w') ok_same
        (found-Steps w (m ∷ []) (record w { answers = a }) outs w' h refl k)
    where
      ok_same : outs ≡ os
      ok_same = cc

IsIn-append : {A : Type 0} (x : A) (xs : List A) → IsIn x (xs ++ x ∷ [])
IsIn-append x [] = inl refl
IsIn-append x (y ∷ ys) = inr (IsIn-append x ys)

module _ (env : Serials) (first second : InputEvent) (rule : RoutingRule)
    (action : CreateTaskAction) (m : RouteMatch)
    (same_key : env.routing_key second.url ≡ env.routing_key first.url)
    (same_space : m.rule.namespace ≡ rule.namespace) where
  Told-found :
      (w : World) (r : Result (Task × ℕ) × World) (made_one : Task × ℕ) (os : List RouteOutcome)
      → r.0 ≡ ok made_one
      → Told (Made env first m.org_id rule action w.tables) w r
      → (apply env second (m ∷ []) r.1).0 ≡ ok os
      → All (FoundTask m) os
        × (length (apply env second (m ∷ []) r.1).1.tables.tasks ≡ length r.1.tables.tasks)
  unfolding Linked
  Told-found w (err e, w') made_one os h t k = cc
  Told-found w (ok (t, event), w') made_one os h (n, p, q) k =
      let l = new_link env first m.org_id rule action w.tables in
      let row = inserted (env.task_id w.tables.tasks) (rule_task m.org_id rule action) in
      Linked-found env second m l row w' (apply env second (m ∷ []) w') os
        (
          subst (IsIn l) (sym (ap (λ (x : Tables). x.links) p.4)) (IsIn-append l w.tables.links),
          subst (IsIn row) (sym (ap (λ (x : Tables). x.tasks) p.4))
              (IsIn-append row w.tables.tasks),
          (refl, sym same_key, refl, refl, inl refl),
          sym same_space,
        )
        k (apply-Applies env second (m ∷ []) w')

  -- An outcome that created nothing names tasks that were there.
  found-Reached :
      (key : Bytes) (v : Tables) (os : List RouteOutcome)
      → All (FoundTask m) os
      → All (Affects key v) os
      → All (λ o. All (Reached key v o) o.task_ids) os
  found-Reached key v [] f a = tt
  found-Reached key v (o ∷ os) (f, fs) (inl created, more) = absurd (cc (f.0, created))
  found-Reached key v (o ∷ os) (f, fs) (inr a, more) = (a.1, found-Reached key v os fs more)

  -- After an event has created a task, the next event with the same key creates no other, whatever
  -- rule it matches in the same organisation and namespace: the table of tasks gets no row, and the
  -- outcomes are of that organisation and rule, say that nothing was created, and name only tasks
  -- that existed and were subscribed.
  pub create-apply :
      (w : World) (made_one : Task × ℕ) (os : List RouteOutcome)
      → (create env first m.org_id rule action w).0 ≡ ok made_one
      → (apply env second (m ∷ []) (create env first m.org_id rule action w).1).0 ≡ ok os
      → let w1 = (create env first m.org_id rule action w).1 in
        All (FoundTask m) os
        × (length (apply env second (m ∷ []) w1).1.tables.tasks ≡ length w1.tables.tasks)
        × All (λ o. All (Reached (env.routing_key second.url) w1.tables o) o.task_ids) os
  create-apply w made_one os h k =
      let w1 = (create env first m.org_id rule action w).1 in
      let f =
        Told-found w (create env first m.org_id rule action w) made_one os h
          (create-Told env first m.org_id rule action w) k in
      (
        f.0,
        f.1,
        found-Reached (env.routing_key second.url) w1.tables os f.0
            (apply-Affects env second (m ∷ []) w1 os k).0,
      )
