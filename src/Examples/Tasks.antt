-- ===== src/Examples/Tasks.antt =====
-- Tasks, scopes and tokens at concrete values.
use gritz.Prelude.{◌≡◌, refl, ◌≢◌, ◌↔◌, inl, true, false, List, [], ◌∷◌, codes, All}
use gritz.Task.{
  Task, RunnerEvent, pending, running, completed, start, no_command, started, stopped, is_done,
}
use gritz.Task.Runs.{
  Action, reports, cancels, restarts, starts, archives, unarchives, run, IsNew, Coherent, Parked,
  run-Coherent, run-archived,
}
use gritz.Task.Progress.{finish, report_each, finish-is_done}
use gritz.Scope.{allow, op_task_write, scope_attr, admin}
use gritz.Scope.Matching.{Permits, allow_iff}

-- A task as `CreateTask` makes it.
abbrev pub new_task : Task
new_task = record {
  id = 7;
  name = codes "build";
  runner = codes "r1";
  workspace = codes "go";
  status = pending;
  command = start;
  version = 1;
  org_id = 3;
  archived = false;
  namespace = [];
  auto_archive = 0;
  shell_session = [];
}

abbrev pub done_task : Task
done_task = record new_task { status = completed; command = no_command }

abbrev pub running_task : Task
running_task = record new_task { status = running; command = no_command }

abbrev pub started_event : RunnerEvent
started_event = record { task_id = 7; event = started; version = 1; reconcile = false; reason = [] }

abbrev pub stopped_event : RunnerEvent
stopped_event = record { task_id = 7; event = stopped; version = 1; reconcile = false; reason = [] }

abbrev history : List Action
history = reports started_event ∷ restarts ∷ reports stopped_event ∷ cancels ∷ archives ∷ []

new_task-IsNew : IsNew new_task
new_task-IsNew = (refl, inl (refl, refl, refl))

run-Coherent_example : Coherent (run new_task history)
run-Coherent_example = run-Coherent new_task history new_task-IsNew

done_task-Coherent : Coherent (record done_task { archived = true })
done_task-Coherent = record { fits = refl; parked = λ h. tt }

starts_apart : All (λ a. a ≢ unarchives) (starts ∷ reports started_event ∷ [])
starts_apart = ((λ e. cc), ((λ e. cc), tt))

run-archived_example :
    ((run (record done_task { archived = true }) (starts ∷ reports started_event ∷ [])).archived
      ≡ true)
    × ((run (record done_task { archived = true }) (starts ∷ reports started_event ∷ [])).version
        ≡ 1)
    × Parked
        (run (record done_task { archived = true }) (starts ∷ reports started_event ∷ [])).status
run-archived_example =
    run-archived (record done_task { archived = true }) (starts ∷ reports started_event ∷ [])
      done_task-Coherent refl starts_apart

running_task-Coherent : Coherent running_task
running_task-Coherent = record { fits = inl refl; parked = λ h. cc }

finish-is_done_example : is_done (report_each (finish running) running_task) ≡ true
finish-is_done_example = finish-is_done running_task running_task-Coherent refl (λ e. cc)

allow_iff_example :
    (allow admin op_task_write (scope_attr new_task) ≡ true)
    ↔ Permits admin op_task_write (scope_attr new_task)
allow_iff_example = allow_iff admin op_task_write (scope_attr new_task)
