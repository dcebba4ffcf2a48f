-- ===== src/Examples/Toggles.antt =====
-- Schedules that are disabled, edited, enabled again and run by hand.
use gritz.Prelude.{ℕ, refl, true, false, none, List, [], ◌∷◌, codes, length}
use gritz.Server.{UserInfo}
use gritz.Scheduler.Handlers.{ScheduleRequest, run_schedule}
use gritz.Scheduler.Armed.{AllArmed}
use gritz.Scheduler.Calls.{
  Cron, Call, creates, updates, enables, deletes, runs, serve_all, serve_all-AllArmed,
}
use gritz.Scheduler.Manual.{RunAnswer, run_schedule-RunAnswer}
use gritz.Examples.Requests.{user}
use gritz.Examples.Ticks.{daily, next_id, world}

abbrev cron : Cron
cron = record {
  is_valid = λ s. true;
  next_run = daily;
  schedule_id = λ rows. length rows;
  task_id = next_id;
  workspaces = record { runner_id = codes "r1"; name = codes "go"; org_id = 3 } ∷ [];
}

abbrev request : ScheduleRequest
request = record {
  id = 4;
  name = codes "weekly";
  workspace = codes "go";
  runner = codes "r1";
  namespace = [];
  instructions = [];
  cron_expr = codes "@weekly";
  timezone = [];
  enabled = true;
  auto_archive = none;
}

abbrev calls : List (UserInfo × ℕ × Call)
calls =
    (user, 100, enables 4 false)
    ∷ (user, 110, updates request)
    ∷ (user, 120, enables 4 true)
    ∷ (user, 130, runs 4)
    ∷ (user, 140, creates request)
    ∷ (user, 150, deletes 5)
    ∷ []

serve_all-AllArmed_example : AllArmed (serve_all cron calls world).tables
serve_all-AllArmed_example = serve_all-AllArmed cron calls world (refl, (refl, tt))

run_schedule-RunAnswer_example : RunAnswer next_id user 4 world (run_schedule next_id user 4 world)
run_schedule-RunAnswer_example = run_schedule-RunAnswer next_id user 4 world
