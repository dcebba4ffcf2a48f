-- ===== src/Task/Progress.antt =====
-- The runner can always bring a task to its end.
use gritz.Prelude.{◌≡◌, ◌≢◌, refl, true, false, List, [], ◌∷◌, arith}
use gritz.Task.{
  TaskStatus, Task, RunnerEventType, started, stopped, pending, running, restarting, cancelling,
  draft, unspecified, is_done,
}
use gritz.Task.Runs.{reports, act, Coherent}

-- The reports of a runner, each under the version that the task has when it is made.
unfoldable pub report_each : List RunnerEventType → Task → Task
report_each [] t = t
report_each (kind ∷ kinds) t = report_each kinds (
    (act t (
      reports (record {
        task_id = t.id;
        event = kind;
        version = t.version;
        reconcile = false;
        reason = [];
      }))).0)

-- What a runner that does its work reports: the run in hand ends, a pending one starts and ends.
abbrev pub finish : TaskStatus → List RunnerEventType
finish pending = started ∷ stopped ∷ []
finish restarting = started ∷ stopped ∷ []
finish running = stopped ∷ started ∷ stopped ∷ []
finish cancelling = stopped ∷ []
finish _ = []

finish_by :
    (s : TaskStatus) (t : Task)
    → t.status ≡ s
    → Coherent t
    → t.archived ≡ false
    → s ≢ draft
    → is_done (report_each (finish s) t) ≡ true
unfolding report_each act is_done
finish_by unspecified t e c n d = ground arith
finish_by pending t e c n d = ground arith
finish_by _ t e c n d = ground arith

-- From every coherent task that is neither archived nor a draft, the reports of a runner that
-- does the pending work, each under the version that the task has at the time, lead, in at most
-- three events, to a completed, failed or cancelled task.
pub finish-is_done :
    (t : Task)
    → Coherent t
    → t.archived ≡ false
    → (t.status ≢ draft)
    → is_done (report_each (finish t.status) t) ≡ true
finish-is_done t c n d = finish_by t.status t refl c n d
