-- ===== src/Schedule.antt =====
-- Schedules (internal/model/schedule.go): a template of a task, and when it runs. Instants are
-- natural numbers. Cron expressions and timezones are read by libraries.
use gritz.Prelude.{ℕ, Bool, true, false, Option, List, [], ◌∷◌, Bytes, map}
use gritz.Task.{Task, pending, start, label}
use gritz.Event.{Event, lifecycle, instruction, created, schedule_actor}

pub record Schedule : Type 0 where
  pub id : ℕ
  pub org_id : ℕ
  pub created_by : Bytes
  pub name : Bytes
  pub workspace : Bytes
  pub runner : Bytes
  pub namespace : Bytes
  pub instructions : List (Bytes × Bytes)
  pub auto_archive : ℕ
  pub cron_expr : Bytes
  pub timezone : Bytes
  pub enabled : Bool
  pub next_run_at : Option ℕ
  pub last_run_at : Option ℕ
  pub last_task_id : Option ℕ

-- The method `Task`.
abbrev pub schedule_task : Schedule → Task
schedule_task s = record {
  id = 0;
  name = s.name;
  runner = s.runner;
  workspace = s.workspace;
  status = pending;
  command = start;
  version = 1;
  org_id = s.org_id;
  archived = false;
  namespace = s.namespace;
  auto_archive = s.auto_archive;
  shell_session = [];
}

abbrev pub schedule_created : Task → Event
schedule_created t = record {
  task_id = t.id;
  org_id = t.org_id;
  wake = false;
  payload = lifecycle (record {
    kind = created;
    actor = schedule_actor;
    from_status = [];
    to_status = label t.status;
    message = [];
    fields = [];
  });
}

abbrev pub schedule_instruction : Task → Bytes × Bytes → Event
schedule_instruction t (text, url) = record {
  task_id = t.id;
  org_id = t.org_id;
  wake = true;
  payload = instruction text url;
}

-- The method `Events`.
abbrev pub schedule_events : Schedule → Task → List Event
schedule_events s t = schedule_created t ∷ map (schedule_instruction t) s.instructions
