-- ===== src/Router/Accepting.antt =====
-- While the database refuses nothing, an attach fails only for want of its task, and a create never.
use gritz.Prelude.{ℕ, ◌≡◌, ◌≢◌, refl, ap, sym, ◌∙◌, Bool, true, false, Option, none, some, []}
use gritz.Task.{Task}
use gritz.Store.{
  Failure, ok, err, World, find_row, with_tx, call, create_event, create_link, get_task_for_update,
  update_task, commit, publish,
}
use gritz.Server.Creation.{insert_task}
use gritz.Router.{InputEvent, RoutingRule, CreateTaskAction}
use gritz.Router.Writing.{Serials}
use gritz.Router.Applying.{attach, attach_tx, create, create_tx}

abbrev willing : World → World
willing w = record w { answers = [] }

not_failed : {A : Type 0} (a : A) (e : Failure) → err e ≡ ok a → ⊥
not_failed a e h = cc

module _ (env : Serials) (input : InputEvent) (org : ℕ) where
  attach_quiet :
      (task : ℕ) (w : World)
      → (attach env input org task false (willing w)).0 ≡ ok (env.event_id w.tables.events)
  unfolding attach attach_tx with_tx create_event call commit publish
  attach_quiet task w = refl

  attach_found :
      (task : ℕ) (w : World) (t : Task)
      → find_row task org w.tables.tasks ≡ some t
      → (attach env input org task true (willing w)).0 ≡ ok (env.event_id w.tables.events)
  unfolding attach attach_tx with_tx create_event call commit publish get_task_for_update
      update_task
  attach_found task w t found = rw found refl

  create_accepted :
      (rule : RoutingRule) (action : CreateTaskAction) (w : World)
      → (t : Task × ℕ) × ((create env input org rule action (willing w)).0 ≡ ok t)
  unfolding create create_tx with_tx call insert_task create_event create_link commit publish
  create_accepted rule action w = (_, refl)

  -- An attach that failed although nothing was refused would have started a task that is not there.
  pub attach-failed :
      (task : ℕ) (wake : Bool) (w w1 : World) (e : Failure)
      → attach env input org task wake w ≡ (err e, w1)
      → w.answers ≡ []
      → (wake ≡ true) × (find_row task org w.tables.tasks ≡ none)
  attach-failed task false w w1 e same quiet = absurd (
      not_failed _ e (
        sym (ap (λ r. r.0) same)
        ∙ ap (λ a. (attach env input org task false (record w { answers = a })).0) quiet
        ∙ attach_quiet task w))
  attach-failed task true w w1 e same quiet = (refl, by_row (find_row task org w.tables.tasks) refl)
    where
      by_row :
          (o : Option Task)
          → find_row task org w.tables.tasks ≡ o
          → find_row task org w.tables.tasks ≡ none
      by_row none found = found
      by_row (some t) found = absurd (
          not_failed _ e (
            sym (ap (λ r. r.0) same)
            ∙ ap (λ a. (attach env input org task true (record w { answers = a })).0) quiet
            ∙ attach_found task w t found))

  pub create-failed :
      (rule : RoutingRule) (action : CreateTaskAction) (w w1 : World) (e : Failure)
      → create env input org rule action w ≡ (err e, w1)
      → w.answers ≢ []
  create-failed rule action w w1 e same quiet =
      let c = create_accepted rule action w in
      not_failed c.0 e (
        sym (ap (λ r. r.0) same)
        ∙ ap (λ a. (create env input org rule action (record w { answers = a })).0) quiet
        ∙ c.1)
