-- ===== src/Examples/Ticks.antt =====
-- A tick of the scheduler with one schedule that is due and one that is not.
use gritz.Prelude.{ℕ, ◌+◌, false, true, Option, none, some, List, [], ◌∷◌, codes, length}
use gritz.Task.{Task}
use gritz.Schedule.{Schedule}
use gritz.Store.{World}
use gritz.Scheduler.{tick}
use gritz.Scheduler.Firing.{Ticked, claimed, tick-Ticked}

abbrev pub nightly : Schedule
nightly = record {
  id = 4;
  org_id = 3;
  created_by = codes "u1";
  name = codes "nightly";
  workspace = codes "go";
  runner = codes "r1";
  namespace = [];
  instructions = (codes "test", []) ∷ [];
  auto_archive = 0;
  cron_expr = codes "@daily";
  timezone = codes "UTC";
  enabled = true;
  next_run_at = some 90;
  last_run_at = none;
  last_task_id = none;
}

abbrev clock : Schedule → ℕ
clock s = 100

abbrev pub daily : Schedule → ℕ → Option ℕ
daily s now = some (now + 1440)

abbrev pub next_id : List Task → ℕ
next_id rows = length rows + 1

abbrev pub world : World
world = record {
  tables = record {
    tasks = [];
    events = [];
    schedules = nightly ∷ record nightly { id = 5; next_run_at = some 101 } ∷ [];
    links = [];
  };
  published = [];
  answers = [];
}

tick-Ticked_example :
    Ticked clock daily next_id
      (claimed clock daily next_id 100 (λ s. false) 10 world)
      world
      (tick clock daily next_id 100 (λ s. false) 10 world)
tick-Ticked_example = tick-Ticked clock daily next_id 100 (λ s. false) 10 world
