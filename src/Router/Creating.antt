-- ===== src/Router/Creating.antt =====
-- What `create` does, without transactions, and that the event's link is found afterwards.
use gritz.Prelude.{ℕ, ◌≡◌, refl, ap, arith, false, List, [], ◌∷◌, ◌++◌}
use mathlib.Core.List.{append_assoc}
use gritz.Task.{Task}
use gritz.Task.Runs.{IsNew}
use gritz.Link.{Link}
use gritz.Store.{Tables, World, Notification, with_tx}
use gritz.Store.Triples.{link-Ends, Settled, Saves, with_tx-Settled, event-Ends, commit-Ends}
use gritz.Server.Creation.{inserted}
use gritz.Server.Births.{insert-Ends}
use gritz.Router.{CreateTaskAction, RoutingRule, InputEvent}
use gritz.Router.Writing.{
  Serials, external_event, rule_task, rule_created, link_event, prompt_event, created_note,
}
use gritz.Router.Applying.{trigger_link, create_tx, create}
use gritz.Router.Attaching.{Told, Untold, announced-Told, insert_event-Ends}

in_order :
    {A : Type 0} (a b c d : A) (xs : List A)
    → (((xs ++ a ∷ []) ++ b ∷ []) ++ c ∷ []) ++ d ∷ [] ≡ xs ++ a ∷ b ∷ c ∷ d ∷ []
in_order a b c d xs = simp append_assoc

module _ (env : Serials) (input : InputEvent) (org : ℕ) (rule : RoutingRule)
    (action : CreateTaskAction) (v : Tables) where
  -- The task with its id, and its link.
  abbrev pub new_task : Task
  new_task = record (rule_task org rule action) { id = env.task_id v.tasks }

  abbrev pub new_link : Link
  new_link = record (trigger_link env input new_task.id v.links) { id = env.link_id v.links }

  abbrev pub with_task : Tables
  with_task = record v {
    tasks = v.tasks ++ inserted (env.task_id v.tasks) (rule_task org rule action) ∷ [];
    events =
        v.events
        ++ external_event input org new_task.id false
          ∷ rule_created new_task
          ∷ link_event org new_link
          ∷ prompt_event input action new_task
          ∷ [];
    links = v.links ++ new_link ∷ [];
  }

  -- The task as it is new, the id of the external event, and all rows.
  abbrev pub Made : Task × ℕ → Notification → Tables → Type 0
  Made (t, event) n v' =
      (t ≡ new_task)
      × IsNew t
      × (event ≡ env.event_id v.events)
      × (n ≡ created_note input t)
      × (v' ≡ with_task)

module _ (env : Serials) (input : InputEvent) (org : ℕ) (rule : RoutingRule)
    (action : CreateTaskAction) where
  new_task-IsNew : (v : Tables) → IsNew (new_task env input org rule action v)
  new_task-IsNew v = ground arith

  create_tx-Settled :
      (w : World)
      → Settled
          (Untold (Made env input org rule action w.tables) w)
          w
          (with_tx (create_tx env input org rule action) w)
  unfolding create_tx
  create_tx-Settled w =
      let P = Untold (Made env input org rule action w.tables) w in
      let Q = Saves P w in
      let t = new_task env input org rule action w.tables in
      with_tx-Settled P w (create_tx env input org rule action) λ a.
        insert-Ends Q t.id (rule_task org rule action) _ w.tables a λ b.
          insert_event-Ends Q env (external_event input org t.id false) _ _ b λ c.
            event-Ends Q (rule_created t) _ _ c λ d.
              link-Ends Q env.link_id (trigger_link env input t.id w.tables.links) _ _ d λ e.
                event-Ends Q (link_event org (new_link env input org rule action w.tables)) _ _ e
                  λ f. event-Ends Q (prompt_event input action t) _ _ f λ g.
                    commit-Ends Q ((t, env.event_id w.tables.events), created_note input t) _ g
                      λ h. (
                        (
                          refl,
                          new_task-IsNew w.tables,
                          refl,
                          refl,
                          ap
                              (λ l. record (with_task env input org rule action w.tables) {
                                events = l;
                              })
                              (in_order _ _ _ _ w.tables.events),
                        ),
                        refl,
                        refl,
                      )

  -- A create stores the new task, pending its first run in the namespace of the rule, with its
  -- subscribed link and four events: what triggered it, its creation, the link and the prompt, in this
  -- order; one notification follows. Or it fails, at whatever call, and leaves the tables and the
  -- publications as they were.
  pub create-Told :
      (w : World)
      → Told (Made env input org rule action w.tables) w (create env input org rule action w)
  unfolding create
  create-Told w =
      announced-Told (Made env input org rule action w.tables) w
        (with_tx (create_tx env input org rule action) w) (create_tx-Settled w)
