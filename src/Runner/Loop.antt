-- ===== src/Runner/Loop.antt =====
-- `Load`, `supervise` and `Prune` of internal/runner/runner.go, and the life of a runner as steps.
use gritz.Prelude.{
  ℕ, zero, suc, ◌+◌, true, false, Option, none, some, List, [], ◌∷◌, ◌++◌, Bytes, codes,
  if◌then◌else◌,
}
use gritz.Prelude.Int.{ℤ, pos, negsuc}
use gritz.Prelude.Decimal.{format_int}
use gritz.Task.{Task, RunnerEvent, failure}
use gritz.Semaphore.{release, set_count}
use gritz.Runner.{
  Runner, Run, Result, ok, err, ◌>>=◌, pure, ask, Outside, Record, SandboxState, state_unknown,
  state_running, state_exited, state_gone, Supervision, TaskAnswer, task_found, task_not_found,
  task_error, list_records, remove_record, remove, report,
}
use gritz.Runner.Polls.{poll}

abbrev pub failed_event : ℕ → ℕ → Bytes → RunnerEvent
failed_event task_id version reason = record {
  task_id = task_id;
  event = failure;
  version = version;
  reconcile = false;
  reason = reason;
}

abbrev pub supervision : Record → Supervision
supervision rec = record { task_id = rec.task_id; version = rec.version; handle = rec.handle }

-- What `Wait` answers.
pub data WaitAnswer : Type 0 where
  wait_cancelled : WaitAnswer
  exit_code : ℤ → WaitAnswer

abbrev pub format_code : ℤ → Bytes
format_code (pos n) = format_int n
format_code (negsuc n) = codes "-" ++ format_int (n + 1)

pub record Sandbox : Type 0 where
  pub task_id : ℕ
  pub state : SandboxState

module _ {E : Type 0} where
  abbrev pub seeded : ℕ × Runner E → Result (Unit {0}) × Runner E
  seeded (count, r) = (ok _, record r { sem = set_count (pos count) r.sem })

module _ {E : Type 0} (o : Outside E) where
  abbrev pub fail_by_answer : ℕ → ℕ → TaskAnswer × Runner E → Runner E
  fail_by_answer id version (task_not_found, r) = r
  fail_by_answer id version (task_error, r) = r
  fail_by_answer id version (task_found t, r) =
      if t.is_running then report o (failed_event id version (codes "sandbox exited")) r else r

  unfoldable pub fail_if_task_running : ℕ → ℕ → Runner E → Runner E
  fail_if_task_running id version r = fail_by_answer id version (ask (o.get_task id) r)

  abbrev pub load_record : Record → ℕ → Result SandboxState × Runner E → ℕ × Runner E
  load_record rec count (err e, r) = (count, r)
  load_record rec count (ok state_unknown, r) = (count, r)
  load_record rec count (ok state_running, r) =
      (count + 1, record r { supervised = supervision rec ∷ r.supervised })
  load_record rec count (ok state_exited, r) =
      (count, fail_if_task_running rec.task_id rec.version r)
  load_record rec count (ok state_gone, r) =
      (count, (remove_record o rec.task_id (fail_if_task_running rec.task_id rec.version r)).1)

  -- The loop of `Load`, with its count.
  unfoldable pub load_each : List Record → ℕ → Runner E → ℕ × Runner E
  load_each [] count r = (count, r)
  load_each (rec ∷ recs) count r =
      let (count', r') = load_record rec count (ask (o.probe rec.handle) r) in
      load_each recs count' r'

  unfoldable pub load : Run E (Unit {0})
  load = do recs ← list_records o; λ r. seeded (load_each recs 0 r)

  abbrev pub exit_report : Supervision → ℤ → Runner E → Runner E
  exit_report s (pos zero) r = r
  exit_report s code r =
      report o
        (failed_event s.task_id s.version
          (codes "sandbox exited with status code " ++ format_code code))
        r

  -- `supervise`, from the answer of `Wait` on.
  unfoldable pub supervise : Supervision → WaitAnswer → Runner E → Runner E
  supervise s wait_cancelled r = r
  supervise s (exit_code code) r =
      exit_report s code (record r { sem = release (pos 1) r.sem; awake = true })

  unfoldable pub sandboxes : List Record → Run E (List Sandbox)
  sandboxes [] = pure []
  sandboxes (rec ∷ recs) = do
    state ← ask (o.probe rec.handle)
    rest ← sandboxes recs
    pure (record { task_id = rec.task_id; state = state } ∷ rest)

  -- `List`
  unfoldable pub list : Run E (List Sandbox)
  list = do recs ← list_records o; sandboxes recs

  abbrev pub prune_by_answer : ℕ → TaskAnswer × Runner E → Runner E
  prune_by_answer id (task_error, r) = r
  prune_by_answer id (task_not_found, r) = (remove o id r).1
  prune_by_answer id (task_found t, r) = if t.archived then (remove o id r).1 else r

  abbrev pub prune_sandbox : ℕ → SandboxState → Runner E → Runner E
  prune_sandbox id state_running r = r
  prune_sandbox id _ r = prune_by_answer id (ask (o.get_task id) r)

  unfoldable pub prune_each : List Sandbox → Runner E → Runner E
  prune_each [] r = r
  prune_each (sb ∷ sbs) r = prune_each sbs (prune_sandbox sb.task_id sb.state r)

  abbrev pub pruned : Result (List Sandbox) × Runner E → Runner E
  pruned (err e, r) = r
  pruned (ok sbs, r) = prune_each sbs r

  unfoldable pub prune : Runner E → Runner E
  prune r = pruned (list r)

-- What the life of a runner is made of after `Load`: a poll with the answer of `ListRunnerTasks`,
-- the return of the `Wait` of the supervision at a place, and a prune.
pub data Step : Type 0 where
  polls : Option (List Task) → Step
  exits : ℕ → WaitAnswer → Step
  prunes : Step

abbrev pub taken : List Supervision → ℕ → Option Supervision
taken [] n = none
taken (s ∷ ss) zero = some s
taken (s ∷ ss) (suc n) = taken ss n

abbrev pub without : List Supervision → ℕ → List Supervision
without [] n = []
without (s ∷ ss) zero = ss
without (s ∷ ss) (suc n) = s ∷ without ss n

module _ {E : Type 0} (o : Outside E) where
  abbrev pub exit_of : Option Supervision → ℕ → WaitAnswer → Runner E → Runner E
  exit_of none n w r = r
  exit_of (some s) n w r = supervise o s w (record r { supervised = without r.supervised n })

  abbrev pub live_step : Step → Runner E → Runner E
  live_step (polls tasks) r = poll o tasks (record r { awake = false })
  live_step (exits n w) r = exit_of (taken r.supervised n) n w r
  live_step prunes r = prune o r

  -- A runner that has died takes no more steps.
  unfoldable pub step : Step → Runner E → Runner E
  step s r = if r.died then r else live_step s r

  unfoldable pub run : List Step → Runner E → Runner E
  run [] r = r
  run (s ∷ steps) r = run steps (step s r)
