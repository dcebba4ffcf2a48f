-- ===== src/Archiver.antt =====
-- The archiver (internal/server/archiver/archiver.go): a sweep over the tasks whose deadline has
-- passed. Which tasks these are is the answer of `ListTasksDueForArchive`, whose statement reads the
-- clock, and so an argument; `cancelled` says at each task whether the context has ended. `errSkip`
-- is the failure `refused`. The archiver is taken to have a publisher.
pub mod Sweep
use gritz.Prelude.{
  ℕ, Bool, true, false, not, ◌||◌, none, List, [], ◌∷◌, ◌++◌, codes, ◌==◌, ◌⊎◌, inl, inr,
  if◌then◌else◌,
}
use gritz.Task
use gritz.Task.{Task, TaskStatus, unspecified, label, archive}
use gritz.Event.{Event, lifecycle, runner_actor, auto_archived}
use gritz.Store.{
  Failure, Result, Tx, Conn, World, Notification, driver, refused, ok, err, ◌>>=◌, ◌>>◌, pure,
  check, call, get_task_for_update, update_task, create_event, commit, with_tx, publish,
}
use gritz.Server.{resources_of}

pub record TaskDueForArchive : Type 0 where
  pub id : ℕ
  pub version : ℕ
  pub org_id : ℕ

abbrev pub auto_archived_event : TaskStatus → Task → Event
auto_archived_event from t = record {
  task_id = t.id;
  org_id = t.org_id;
  wake = false;
  payload = lifecycle (record {
    kind = auto_archived;
    actor = runner_actor;
    from_status = label from;
    to_status = label t.status;
    message = [];
    fields = [];
  });
}

abbrev pub is_stale : TaskDueForArchive → Task → Bool
is_stale d t = t.archived || not (t.version == d.version)

unfoldable pub archive_tx : TaskDueForArchive → Tx (Unit {0})
archive_tx d = do
  t ← get_task_for_update d.id d.org_id
  check (not (is_stale d t)) refused
  check (archive t).1 refused
  update_task (archive t).0
  create_event (auto_archived_event t.status (archive t).0)
  commit
  pure _

abbrev pub archive_notification : TaskDueForArchive → Notification
archive_notification d = record {
  type = codes "change";
  resources = resources_of (codes "archived") d.id;
  org_id = d.org_id;
  user_id = [];
  client_id = [];
  runner = [];
  task_status = unspecified;
  channel_message = [];
  ignore = false;
}

-- Whether the task was archived, or the error.
abbrev pub archive_result : TaskDueForArchive → Result (Unit {0}) × World → (Failure ⊎ Bool) × World
archive_result d (ok _, w) = (inr true, publish (archive_notification d) w)
archive_result d (err refused, w) = (inr false, w)
archive_result d (err e, w) = (inl e, w)

unfoldable pub archive_due : TaskDueForArchive → World → (Failure ⊎ Bool) × World
archive_due d w = archive_result d (with_tx (archive_tx d) w)

-- The loop of `Tick`; a failure is logged, and the loop goes on. The result is whether the loop
-- reached its end.
unfoldable pub archive_each : List Bool → List TaskDueForArchive → World → Bool × World
archive_each cancelled [] w = (true, w)
archive_each (true ∷ cancelled) (d ∷ due) w = (false, w)
archive_each (false ∷ cancelled) (d ∷ due) w = archive_each cancelled due (archive_due d w).1
archive_each [] (d ∷ due) w = archive_each [] due (archive_due d w).1

abbrev pub listed :
    List Bool → List TaskDueForArchive → World → Result (Unit {0}) × Conn → Bool × World
listed cancelled due w (ok _, c) = archive_each cancelled due (record w { answers = c.answers })
listed cancelled due w (err e, c) = (false, record w { answers = c.answers })

unfoldable pub tick : List Bool → List TaskDueForArchive → World → Bool × World
tick cancelled due w =
    listed cancelled due w (call (record { view = w.tables; stored = none; answers = w.answers }))
