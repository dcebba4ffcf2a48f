-- ===== src/Scheduler/Calls.antt =====
-- Any calls of the handlers of schedules.
use gritz.Prelude.{ℕ, ◌≡◌, refl, sym, subst, Bool, not, Option, List, [], ◌∷◌, All, by_test}
use gritz.Task.{Task}
use gritz.Schedule.{Schedule, schedule_task, schedule_events}
use gritz.Store.{Result, World, ok, err, with_tx, coded, permission_denied}
use gritz.Store.Triples.{Settled, Saves, with_tx-Settled, check-Ends, events-Ends, commit-Ends}
use gritz.Scope.{allow, allow_op, op_task_create}
use gritz.Server.{UserInfo}
use gritz.Server.Creation.{Workspace}
use gritz.Server.Births.{insert-Ends}
use gritz.Scheduler.Handlers.{
  ScheduleRequest, update_schedule_by, set_schedule_enabled, create_schedule_by, delete_schedule_by,
  run_tx, run_schedule, target_attrs,
}
use gritz.Scheduler.Armed.{IsArmed, AllArmed, StaysArmed, announce-StaysArmed, schedule-Ends}
use gritz.Scheduler.Kept.{
  update_schedule_by-StaysArmed, create_schedule_by-StaysArmed, set_schedule_enabled-StaysArmed,
  delete_schedule_by-StaysArmed,
}

-- RunSchedule leaves the schedules alone.
run_tx-Settled :
    (new_id : List Task → ℕ) (caller : UserInfo) (id : ℕ) (w : World)
    → Settled
        (λ t w'. w'.tables.schedules ≡ w.tables.schedules)
        w
        (with_tx (run_tx new_id caller id) w)
unfolding run_tx
run_tx-Settled new_id caller id w =
    let P : Task → World → Type 0 = λ t w'. w'.tables.schedules ≡ w.tables.schedules in
    let Q = Saves P w in
    with_tx-Settled P w (run_tx new_id caller id) λ a.
      schedule-Ends Q id caller.org_id _ w.tables a λ s b found.
        check-Ends Q (allow caller.scopes op_task_create (target_attrs s.workspace s.runner))
          (coded permission_denied) _ w.tables b
          λ may. insert-Ends Q (new_id w.tables.tasks) (schedule_task s) _ w.tables b λ c.
            events-Ends Q
              (schedule_events s (record (schedule_task s) { id = new_id w.tables.tasks })) _ _ c
              λ d.
                commit-Ends Q (record (schedule_task s) { id = new_id w.tables.tasks }) _ d
                  λ e. refl

run_schedule-StaysArmed :
    (new_id : List Task → ℕ) (caller : UserInfo) (id : ℕ) (w : World)
    → StaysArmed w (run_schedule new_id caller id w)
unfolding run_schedule
run_schedule-StaysArmed new_id caller id w =
    by_test (StaysArmed w) (not (allow_op caller.scopes op_task_create)) _ _ (λ e armed. armed)
      (λ e.
        announce-StaysArmed w _ (with_tx (run_tx new_id caller id) w)
          (left_alone _ (run_tx-Settled new_id caller id w)))
  where
    left_alone :
        (r : Result Task × World)
        → Settled (λ t w'. w'.tables.schedules ≡ w.tables.schedules) w r
        → StaysArmed w r
    left_alone (ok t, w') s armed = subst (All IsArmed) (sym s) armed
    left_alone (err e, w') s armed = subst AllArmed (sym s.0) armed

-- The calls, and one after the other.
pub data Call : Type 0 where
  creates updates : ScheduleRequest → Call
  enables : ℕ → Bool → Call
  deletes runs : ℕ → Call

-- What the calls have from outside.
pub record Cron : Type 0 where
  pub is_valid : Schedule → Bool
  pub next_run : Schedule → ℕ → Option ℕ
  pub schedule_id : List Schedule → ℕ
  pub task_id : List Task → ℕ
  pub workspaces : List Workspace

abbrev pub serve : Cron → UserInfo × ℕ × Call → World → World
serve env (caller, now, creates req) w =
    (create_schedule_by env.is_valid env.next_run now env.schedule_id caller env.workspaces req w).1
serve env (caller, now, updates req) w =
    (update_schedule_by env.is_valid env.next_run now caller env.workspaces req w).1
serve env (caller, now, enables id enabled) w =
    (set_schedule_enabled env.is_valid env.next_run now caller id enabled w).1
serve env (caller, now, deletes id) w = (delete_schedule_by caller id w).1
serve env (caller, now, runs id) w = (run_schedule env.task_id caller id w).1

unfoldable pub serve_all : Cron → List (UserInfo × ℕ × Call) → World → World
serve_all env [] w = w
serve_all env (c ∷ calls) w = serve_all env calls (serve env c w)

serve-AllArmed :
    (env : Cron) (c : UserInfo × ℕ × Call) (w : World)
    → AllArmed w.tables
    → AllArmed (serve env c w).tables
serve-AllArmed env (caller, now, creates req) w h =
    create_schedule_by-StaysArmed env.is_valid env.next_run now caller env.workspaces
      env.schedule_id req w h
serve-AllArmed env (caller, now, updates req) w h =
    update_schedule_by-StaysArmed env.is_valid env.next_run now caller env.workspaces req w h
serve-AllArmed env (caller, now, enables id enabled) w h =
    set_schedule_enabled-StaysArmed env.is_valid env.next_run now caller id enabled w h
serve-AllArmed env (caller, now, deletes id) w h = delete_schedule_by-StaysArmed caller id w h
serve-AllArmed env (caller, now, runs id) w h = run_schedule-StaysArmed env.task_id caller id w h

-- Whatever handlers of schedules are called, by whomever, at whatever times and whichever calls the
-- database refuses, each schedule stays enabled exactly when it has a next run; so none that is enabled
-- is left out by the claim of the scheduler for want of an instant, and none that is disabled is taken.
pub serve_all-AllArmed :
    (env : Cron) (calls : List (UserInfo × ℕ × Call)) (w : World)
    → AllArmed w.tables
    → AllArmed (serve_all env calls w).tables
unfolding serve_all
serve_all-AllArmed env [] w h = h
serve_all-AllArmed env (c ∷ calls) w h =
    serve_all-AllArmed env calls (serve env c w) (serve-AllArmed env c w h)
