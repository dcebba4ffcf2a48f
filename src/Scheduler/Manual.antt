-- ===== src/Scheduler/Manual.antt =====
-- What RunSchedule stores.
use gritz.Prelude.{ℕ, ◌≡◌, refl, ap, true, not, some, List, [], ◌∷◌, ◌++◌, ◌⊎◌, inl, inr, by_test}
use gritz.Task.{Task}
use gritz.Schedule.{Schedule, schedule_task, schedule_events}
use gritz.Store.{
  Code, Result, World, Notification, ok, err, with_tx, publish, coded, permission_denied,
}
use gritz.Store.Triples.{Settled, Saves, with_tx-Settled, check-Ends, events-Ends, commit-Ends}
use gritz.Scope.{allow, allow_op, op_task_create}
use gritz.Server.{UserInfo}
use gritz.Server.Creation.{inserted}
use gritz.Server.Births.{insert-Ends}
use gritz.Scheduler.{fire_notification}
use gritz.Scheduler.Handlers.{find_schedule, announce, target_attrs, run_tx, run_schedule}
use gritz.Scheduler.Armed.{schedule-Ends}

module _ (new_id : List Task → ℕ) (caller : UserInfo) (id : ℕ) where
  -- The task of a run by hand, and what is told of it.
  abbrev pub task_of : Schedule → World → Task
  task_of s w = record (schedule_task s) { id = new_id w.tables.tasks }

  abbrev pub run_note : Task → Notification
  run_note t = record (fire_notification t) { user_id = caller.id; client_id = caller.client_id }

  pub record Ran (w : World) (t : Task) (w' : World) : Type 0 where
    pub schedule : Schedule
    pub found : find_schedule id caller.org_id w.tables.schedules ≡ some schedule
    pub permitted :
        allow caller.scopes op_task_create (target_attrs schedule.workspace schedule.runner) ≡ true
    pub task : t ≡ task_of schedule w
    pub stores : w'.tables ≡ record w.tables {
      tasks = w.tables.tasks ++ inserted t.id (schedule_task schedule) ∷ [];
      events = w.tables.events ++ schedule_events schedule t;
    }

  abbrev Stored : World → Task → World → Type 0
  Stored w t w' = Ran w t w' × (w'.published ≡ w.published)

  run_tx-Settled : (w : World) → Settled (Stored w) w (with_tx (run_tx new_id caller id) w)
  unfolding run_tx
  run_tx-Settled w =
      let Q = Saves (Stored w) w in
      with_tx-Settled (Stored w) w (run_tx new_id caller id) λ a.
        schedule-Ends Q id caller.org_id _ w.tables a λ s b found.
          check-Ends Q (allow caller.scopes op_task_create (target_attrs s.workspace s.runner))
            (coded permission_denied) _ w.tables b
            λ may. insert-Ends Q (new_id w.tables.tasks) (schedule_task s) _ w.tables b λ c.
              events-Ends Q (schedule_events s (task_of s w)) _ _ c λ d.
                commit-Ends Q (task_of s w) _ d λ e. (
                  record {
                    schedule = s;
                    found = found;
                    permitted = may;
                    task = refl;
                    stores = refl;
                  },
                  refl,
                )

  abbrev pub RunAnswer : World → (Code ⊎ Task) × World → Type 0
  RunAnswer w (inr t, w') = Ran w t w' × (w'.published ≡ w.published ++ run_note t ∷ [])
  RunAnswer w (inl c, w') = (w'.tables ≡ w.tables) × (w'.published ≡ w.published)

  announced-RunAnswer :
      (w : World) (r : Result Task × World)
      → Settled (Stored w) w r
      → RunAnswer w (announce run_note r)
  unfolding publish
  announced-RunAnswer w (err e, w') s = s
  announced-RunAnswer w (ok t, w') (ran, quiet) = (
    record {
      schedule = ran.schedule;
      found = ran.found;
      permitted = ran.permitted;
      task = ran.task;
      stores = ran.stores;
    },
    ap (λ l. l ++ run_note t ∷ []) quiet,
  )

  -- Running a schedule by hand stores the task of its template with its events, as a fire does, and
  -- leaves every schedule, so also its next run, as it was. It does so only for a schedule of the
  -- caller's organisation and only if the caller's scopes permit creating a task on the workspace and
  -- the runner of the row. One notification names the caller. Any error, whatever call the database
  -- refuses, leaves the tables and the publications as they were.
  pub run_schedule-RunAnswer : (w : World) → RunAnswer w (run_schedule new_id caller id w)
  unfolding run_schedule
  run_schedule-RunAnswer w =
      by_test (RunAnswer w) (not (allow_op caller.scopes op_task_create)) _ _ (λ e. (refl, refl))
        (λ e. announced-RunAnswer w (with_tx (run_tx new_id caller id) w) (run_tx-Settled w))
