-- ===== src/Examples/Sweeps.antt =====
-- Sweeps of the archiver at a concrete world.
use gritz.Prelude.{List, ◌≡◌, refl, true, [], ◌∷◌}
use gritz.Task.{archive, can_archive}
use gritz.Store.{
  World, with_tx, call, get_task_for_update, update_task, create_event, commit, publish, find_row,
  update_rows,
}
use gritz.Archiver.{TaskDueForArchive, archive_tx, archive_due, archive_each, tick}
use gritz.Archiver.Sweep.{Fate, Wrote, tick-Fate}
use gritz.Examples.Tasks.{done_task}

abbrev due : List TaskDueForArchive
due =
    record { id = done_task.id; version = done_task.version; org_id = done_task.org_id }
    ∷ record { id = 8; version = 2; org_id = 3 }
    ∷ []

abbrev world : World
world = record {
  tables = record {
    tasks = done_task ∷ record done_task { id = 8 } ∷ [];
    events = [];
    schedules = [];
    links = [];
  };
  published = [];
  answers = [];
}

archives_one :
    (tick [] due world).1.tables.tasks
    ≡ record done_task { archived = true } ∷ record done_task { id = 8 } ∷ []
unfolding tick archive_each archive_due archive_tx with_tx call get_task_for_update update_task
    create_event commit publish find_row update_rows archive can_archive
archives_one = refl

tick-Fate_example :
    Fate due world.tables.tasks (tick [] due world).1.tables.tasks
    × Wrote due world (tick [] due world).1
tick-Fate_example = tick-Fate [] due world
